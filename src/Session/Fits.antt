-- ===== src/Session/Fits.antt =====
-- Commands and messages keep the machine well formed.
use msp430_emulator.Base.{
  ℕ, zero, suc, ◌+◌, ◌<◌, ◌^◌, Bool, true, false, Option, none, some, List, [], ◌∷◌, ◌==◌, length,
  ltb, leb, ◌&&◌, ◌||◌, is_text, u16, if◌then◌else◌, arith,
}
use msp430_emulator.Machine.{Machine, M, Result, ok, fault, Fault, and_then, store16, get_addr_ptr}
use msp430_emulator.Machine.Store.{IsWellFormed}
use msp430_emulator.Machine.Keeps.{
  Keeps, Any, Post, step, done, failed, Keeps-store16, Keeps-get_reg_ptr, Keeps-load16, Keeps-if,
  IsKept-reg,
}
use msp430_emulator.Status.RoundTrip.{set_sr_value-lt}
use msp430_emulator.Decoder.Kept.{IsKept-self, IsKept-stopped}
use msp430_emulator.Names.{reg_name_to_num}
use msp430_emulator.Debugger.{pause}
use msp430_emulator.TimerA.{Doubles}
use msp430_emulator.Emulator.{Emulator}
use msp430_emulator.Emulator.Kept.{Held, held, faulted, step_all-Held, Keeps-disassemble}
use msp430_emulator.Commands.{
  Scanner, with_machine, on_machine, then_do, step_times, step_command, exec_cmd, disassemble_here,
  scan_text, reset, dump_memory, dump_register, dump, store_register, set_register, set,
  list_instructions, number_or_255,
}
use msp430_emulator.Session.{halt}

module _ (r : Machine) where
  pub Keeps-disassemble_here : Keeps r Any disassemble_here
  unfolding disassemble_here
  Keeps-disassemble_here s i = Keeps-disassemble r (s.regs 0) 1 (i.fits.regs_fit 0) s i

  Keeps-reset : Keeps r Any reset
  unfolding reset
  Keeps-reset s i = Keeps-disassemble_here _ (IsKept-reg r s 0 0xC000 (omega arith) i)

  Keeps-dump_memory : (a : ℕ) → Keeps r Any (dump_memory a)
  unfolding dump_memory
  Keeps-dump_memory a =
      Keeps-if r (leb (a + 32) 0x10000) (λ s i. done tt s i tt) (λ s i. failed Fault.out_of_bounds)

  Keeps-dump_register : (name : List ℕ) → Keeps r Any (dump_register name)
  unfolding dump_register
  Keeps-dump_register name s i =
      step r (Keeps-get_reg_ptr r (number_or_255 (reg_name_to_num name)) s i)
        λ p s1 i1 _. step r (Keeps-load16 r p s1 i1) λ a s2 i2 _. Keeps-dump_memory a s2 i2

  Keeps-dump : (hex : List ℕ → ℕ) (str : List ℕ) → Keeps r Any (dump hex str)
  unfolding dump
  Keeps-dump hex [] s i = Keeps-dump_memory (s.regs 0) s i
  Keeps-dump hex (c ∷ str) s i =
      Keeps-if r (leb b'0' c && leb c b'9') (Keeps-dump_memory (u16 (hex (c ∷ str))))
        (Keeps-if r (c == b'%' || c == b'r' || c == b'R') (Keeps-dump_register (c ∷ str))
          (λ t. Keeps-dump_memory (t.regs 0) t))
        s i

  Keeps-store_register : (n v : ℕ) → v < 2 ^ 16 → Keeps r Any (store_register n v)
  Keeps-store_register n v h s i =
      step r (Keeps-get_reg_ptr r n s i) λ p s1 i1 _. Keeps-store16 r p v h s1 i1

  list_start-lt : (b : Bool) (start pc : ℕ) → pc < 2 ^ 16 → (if b then u16 start else pc) < 2 ^ 16
  list_start-lt true start pc h = omega arith
  list_start-lt false start pc h = h

  Keeps-list_instructions : (p : ℕ × ℕ × ℕ) → Keeps r Any (list_instructions p)
  unfolding list_instructions
  Keeps-list_instructions (ops, count, start) s i =
      Keeps-disassemble r _ _ (list_start-lt (ops == 3) start (s.regs 0) (i.fits.regs_fit 0)) s i

  Keeps-halt : Keeps r Any halt
  unfolding halt
  Keeps-halt s i = Keeps-disassemble_here (pause s) (IsKept-stopped r i)

-- A run from a well-formed machine ends in one, or in a fault.
data Fit : Result (Unit {0} × Machine) → Type 0 where
  fit : (t : Machine) → IsWellFormed t → Fit (ok (tt, t))
  unfit : (f : Fault) → Fit (fault f)

abbrev IsFitting : M (Unit {0}) → Type 0
IsFitting m = (s : Machine) → IsWellFormed s → Fit (m s)

kept : {m : M (Unit {0})} → ((r : Machine) → Keeps r Any m) → IsFitting m
kept h s w = ended (h s s (IsKept-self s w))
  where
    ended : {x : Result (Unit {0} × Machine)} → Post s Any x → Fit x
    ended (done a t i p) = fit t i.fits
    ended (failed f) = unfit f

Fit-then :
    {x : Result (Unit {0} × Machine)} {m : M (Unit {0})}
    → Fit x
    → IsFitting m
    → Fit (and_then x (λ _. m))
Fit-then (fit t w) h = h t w
Fit-then (unfit f) h = unfit f

IsFitting-if :
    (b : Bool) {m n : M (Unit {0})} → IsFitting m → IsFitting n → IsFitting (if b then m else n)
IsFitting-if true h k = h
IsFitting-if false h k = k

IsFitting-scan_text :
    (size : ℕ) (text : List ℕ) {m : M (Unit {0})} → IsFitting m → IsFitting (scan_text size text m)
IsFitting-scan_text size text h =
    IsFitting-if (ltb (length text) size) h (λ s w. unfit Fault.out_of_bounds)

IsFitting-set_register : (n v : ℕ) → v < 2 ^ 16 → IsFitting (set_register n v)
unfolding set_register
IsFitting-set_register n v h s w =
    Fit-then
      (IsFitting-if (n == 2)
        (λ t u. fit _ (record {
          regs_fit = u.regs_fit;
          bytes_fit = u.bytes_fit;
          bogus_fits = u.bogus_fits;
          reserved_fits = set_sr_value-lt v;
        }))
        (kept (λ r. Keeps-store_register r n v h)) s w)
      (kept Keeps-disassemble_here)

IsFitting-set :
    (strtol : List ℕ → ℕ) (place : List ℕ) (v : ℕ) → v < 2 ^ 16 → IsFitting (set strtol place v)
unfolding set
IsFitting-set strtol place v h = chosen (reg_name_to_num place)
  where
    chosen :
        (n : Option ℕ)
        → IsFitting (elim n [
          | some number ↦ set_register number v
          | none ↦ store16 (get_addr_ptr (strtol place)) v
        ])
    chosen none = kept (λ r. Keeps-store16 r _ v h)
    chosen (some n) = IsFitting-set_register n v h

module _ {D : Type 0} where
  -- The same for the emulator.
  pub data Sound : Result (Emulator D) → Type 0 where
    sound : (e : Emulator D) → IsWellFormed e.machine → Sound (ok e)
    unsound : (f : Fault) → Sound (fault f)

  Sound-if : (b : Bool) {x y : Result (Emulator D)} → Sound x → Sound y → Sound (if b then x else y)
  Sound-if true h k = h
  Sound-if false h k = k

  Sound-then :
      {x : Result (Emulator D)} {k : Emulator D → Result (Emulator D)}
      → Sound x
      → ((e : Emulator D) → IsWellFormed e.machine → Sound (k e))
      → Sound (then_do x k)
  Sound-then (sound e w) h = h e w
  Sound-then (unsound f) h = unsound f

  Sound-on_machine :
      (m : M (Unit {0}))
      → IsFitting m
      → (e : Emulator D) → IsWellFormed e.machine
      → Sound (on_machine m e)
  Sound-on_machine m h e w = ended (h e.machine w)
    where
      ended : {x : Result (Unit {0} × Machine)} → Fit x → Sound (with_machine e x)
      ended (fit t u) = sound (record e { machine = t }) u
      ended (unfit f) = unsound f

  pub halt-Sound : (e : Emulator D) → IsWellFormed e.machine → Sound (on_machine halt e)
  halt-Sound = Sound-on_machine halt (kept Keeps-halt)

  pub disassemble_here-Sound :
      (e : Emulator D) → IsWellFormed e.machine → Sound (on_machine disassemble_here e)
  disassemble_here-Sound = Sound-on_machine disassemble_here (kept Keeps-disassemble_here)

  module _ (ratio : ℕ → ℕ → ℕ) (d : Doubles D) where
    Sound-step_times :
        (steps : ℕ) (e : Emulator D) → IsWellFormed e.machine → Sound (step_times ratio d steps e)
    unfolding step_times
    Sound-step_times zero e w = sound e w
    Sound-step_times (suc steps) e w =
        Sound-then (stepped (step_all-Held ratio d e.machine e (IsKept-self e.machine w)))
          (Sound-step_times steps)
      where
        stepped : {x : Result (Emulator D)} → Held ratio d e.machine e.debugger x → Sound x
        stepped (held e' i same) = sound e' i.fits
        stepped (faulted f) = unsound f

    Sound-step_command :
        (scanned : ℕ × List ℕ × ℕ) (e : Emulator D)
        → IsWellFormed e.machine
        → Sound (step_command ratio d scanned e)
    unfolding step_command
    Sound-step_command (ops, cmd, op1) e w =
        Sound-then (Sound-step_times (if ops == 2 then op1 else 1) e w)
          (Sound-on_machine disassemble_here (kept Keeps-disassemble_here))

    resumed :
        (e : Emulator D)
        → IsWellFormed e.machine
        → IsWellFormed (record (e.machine) { running = true; debug_mode = false })
    resumed e w = record {
      regs_fit = w.regs_fit;
      bytes_fit = w.bytes_fit;
      bogus_fits = w.bogus_fits;
      reserved_fits = w.reserved_fits;
    }

    pub exec_cmd-Sound :
        (scan : Scanner) (line : List ℕ) (e : Emulator D)
        → IsWellFormed e.machine
        → Sound (exec_cmd ratio d scan line e)
    unfolding exec_cmd
    exec_cmd-Sound scan line e w =
        let cmd = (scan.command line).1 in
        Sound-if (leb 100 (length cmd)) (unsound Fault.out_of_bounds) (
          Sound-if (is_text "reset" cmd || is_text "restart" cmd)
            (Sound-on_machine reset (kept Keeps-reset) e w)
            (Sound-if (is_text "s" cmd || is_text "step" cmd)
              (Sound-step_command (scan.command line) e w)
              (Sound-if (is_text "quit" cmd || is_text "q" cmd) (sound _ w) (
                Sound-if (is_text "run" cmd || is_text "r" cmd) (sound _ (resumed e w)) (
                  Sound-if (is_text "disas" cmd || is_text "dis" cmd || is_text "disassemble" cmd)
                    (Sound-on_machine _ (kept (λ r. Keeps-list_instructions r (scan.listing line)))
                      e w)
                    (Sound-if (is_text "dump" cmd)
                      (Sound-on_machine _
                        (IsFitting-scan_text 100 (scan.place line)
                          (kept (λ r. Keeps-dump r scan.hex (scan.place line))))
                        e w)
                      (Sound-if (is_text "set" cmd)
                        (Sound-on_machine _
                          (IsFitting-scan_text 50 (scan.assignment line).0 (
                            IsFitting-set scan.strtol (scan.assignment line).0
                              (u16 (scan.assignment line).1) (omega arith)))
                          e w)
                        (Sound-if (is_text "break" cmd) (sound _ w) (
                          Sound-if (is_text "bps" cmd) (sound _ w) (
                            Sound-if (is_text "regs" cmd)
                              (Sound-on_machine disassemble_here (kept Keeps-disassemble_here) e w)
                              (sound e w)))))))))))
