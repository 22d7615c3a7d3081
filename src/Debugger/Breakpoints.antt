-- ===== src/Debugger/Breakpoints.antt =====
-- Breakpoints stop the processor exactly at their addresses.
use msp430_emulator.Base.{
  ℕ, zero, suc, ◌+◌, ◌≤◌, ◌<◌, ◌≡◌, ◌≢◌, Bool, true, false, Option, none, some, ◌==◌, ==_iff,
  if◌then◌else◌, arith, refl, subst,
}
use native.Mathlib.Decide.{dec_le}
use msp430_emulator.Machine.{Machine, M, Fault, Result, ok, fault, and_then}
use msp430_emulator.Disassembler.{disassemble}
use msp430_emulator.Disassembler.Frame.{disassemble-IsSame}
use msp430_emulator.Disassembler.Frame.Rules.{IsPaused}
use msp430_emulator.Debugger.{Debugger, pause, hit, breakpoints_from, handle_breakpoints}

-- How the loop over the breakpoints from `i` to below `n` ends.
pub data Checked (deb : Debugger) (s : Machine) (i n : ℕ) : Option ℕ → Machine → Type 0 where
  passed : ((k : ℕ) → i ≤ k → k < n → s.regs 0 ≢ deb.bp_addresses k) → Checked deb s i n none s
  stopped :
      {t : Machine} (k : ℕ)
      → i ≤ k
      → k < n
      → s.regs 0 ≡ deb.bp_addresses k
      → ((j : ℕ) → i ≤ j → j < k → s.regs 0 ≢ deb.bp_addresses j)
      → IsPaused t
      → t.memspace ≡ s.memspace
      → t.sr ≡ s.sr
      → t.regs 0 ≡ s.regs 0
      → Checked deb s i n (some (k + 1)) t

-- The same of a run, which may run into a fault.
data Outcome (deb : Debugger) (s : Machine) (i n : ℕ) : Result (Option ℕ × Machine) → Type 0 where
  ended : {r : Option ℕ} {t : Machine} → Checked deb s i n r t → Outcome deb s i n (ok (r, t))
  failed : (f : Fault) → Outcome deb s i n (fault f)

differ : (a b : ℕ) → (a == b) ≡ false → a ≢ b
differ a b t e = ground arith

from_next :
    (P : ℕ → Type 0) (i n : ℕ)
    → P i
    → ((k : ℕ) → i + 1 ≤ k → k < n → P k)
    → (k : ℕ) → i ≤ k
    → k < n
    → P k
from_next P i n p h k l m = elim (dec_le (i + 1) k) [
  | yes e ↦ h k e m
  | no e ↦ subst P (omega arith) p
]

module _ (deb : Debugger) (s : Machine) where
  hit-Outcome : (i n : ℕ) → i < n → s.regs 0 ≡ deb.bp_addresses i → Outcome deb s i n (hit i s)
  unfolding hit
  hit-Outcome i n h e = shown (disassemble (s.regs 0) 1 (pause s)) refl
    where
      shown :
          (x : Result (Unit {0} × Machine))
          → disassemble (s.regs 0) 1 (pause s) ≡ x
          → Outcome deb s i n (and_then x (λ _ t. ok (some (i + 1), t)))
      shown (ok (tt, t)) run =
          let same = disassemble-IsSame (s.regs 0) 1 (pause s) t run in
          ended (
            stopped i (omega arith) h e (λ j k l. absurd (omega arith))
              (same.0.pause_same (refl, refl)) same.0.memory_same same.0.flags_same same.1)
      shown (fault f) run = failed f

  widened :
      (i n : ℕ) {x : Result (Option ℕ × Machine)}
      → s.regs 0 ≢ deb.bp_addresses i
      → Outcome deb s (i + 1) n x
      → Outcome deb s i n x
  widened i n d (ended (passed h)) =
      ended (passed (from_next (λ k. s.regs 0 ≢ deb.bp_addresses k) i n d h))
  widened i n d (ended (stopped k l m e h p a b c)) =
      ended (
        stopped k (omega arith) m e (from_next (λ j. s.regs 0 ≢ deb.bp_addresses j) i k d h) p a b
          c)
  widened i n d (failed f) = failed f

  breakpoints_from-Outcome :
      (left i n : ℕ) → i + left ≡ n → Outcome deb s i n (breakpoints_from deb i left s)
  unfolding breakpoints_from
  breakpoints_from-Outcome zero i n e = ended (passed (λ k l m. absurd (omega arith)))
  breakpoints_from-Outcome (suc left) i n e =
      chosen (s.regs 0 == deb.bp_addresses i) _ refl
        (breakpoints_from-Outcome left (i + 1) n (omega arith))
    where
      chosen :
          (b : Bool) (rest : M (Option ℕ))
          → (s.regs 0 == deb.bp_addresses i) ≡ b
          → Outcome deb s (i + 1) n (rest s)
          → Outcome deb s i n ((if b then hit i else rest) s)
      chosen true rest t h = hit-Outcome i n (omega arith) ((==_iff _ _).0 t)
      chosen false rest t h = widened i n ((differ (s.regs 0) _ t)) h

  run-Checked :
      (i n : ℕ) {x : Result (Option ℕ × Machine)} (r : Option ℕ) (t : Machine)
      → Outcome deb s i n x
      → x ≡ ok (r, t)
      → Checked deb s i n r t
  run-Checked i n r t (ended {r = r'} {t = t'} c) e =
      let same : ◌≡◌ {A = Option ℕ × Machine} (r', t') (r, t) = cc in
      subst (λ p. Checked deb s i n p.0 p.1) same c
  run-Checked i n r t (failed f) e = cc

  -- If the check of the breakpoints runs into no fault, then either the program counter is at none
  -- of them and the machine is the same, or the result is the number of the first one that it is
  -- at, counted from one, the processor is stopped with the debugger in charge, and the memory, the
  -- flags and the program counter are the same.
  pub handle_breakpoints_lem :
      (r : Option ℕ) (t : Machine)
      → handle_breakpoints deb s ≡ ok (r, t)
      → Checked deb s 0 deb.num_bps r t
  unfolding handle_breakpoints
  handle_breakpoints_lem r t run =
      run-Checked 0 deb.num_bps r t
        (breakpoints_from-Outcome deb.num_bps 0 deb.num_bps (omega arith)) run
