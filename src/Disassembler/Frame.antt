-- ===== src/Disassembler/Frame.antt =====
-- Disassembly changes neither the memory nor the flags, and restores the program counter.
pub mod Rules
mod Operands
use msp430_emulator.Base.{
  ℕ, zero, suc, Bool, true, false, ◌≡◌, refl, ◌==◌, ◌&&◌, leb, u8, subst, update, ◌>>>◌,
  if◌then◌else◌,
}
use msp430_emulator.Machine.{Machine, M, Result, ok, fetch, and_then}
use msp430_emulator.Decoder.{decode}
use msp430_emulator.Decoder.Kept.{ok-state}
use msp430_emulator.Format3.{decode_format_iii, jumps, condition}
use msp430_emulator.Disassembler.{decode_range, disassemble, set_pc}
use Rules.{IsSame, Calm, IsCalm, done, failed, next, IsCalm-if, IsCalm-fetch, IsSame-reg}
use Operands.{IsCalm-decode_format_i, IsCalm-decode_format_ii}

module _ (s : Machine) where
  IsCalm-decode_format_iii : (n : ℕ) → IsCalm s (decode_format_iii n true)
  unfolding decode_format_iii
  IsCalm-decode_format_iii n t i = done tt t i

  IsCalm-decode : (n : ℕ) → IsCalm s (decode n true)
  unfolding decode
  IsCalm-decode n = IsCalm-if s (u8 (n >>> 12) == 1) (IsCalm-decode_format_ii s n) (
      IsCalm-if s (leb 2 (u8 (n >>> 12)) && leb (u8 (n >>> 12)) 3) (IsCalm-decode_format_iii n) (
        IsCalm-if s (leb 4 (u8 (n >>> 12))) (IsCalm-decode_format_i s n) (λ t i. done tt _ (record {
          memory_same = i.memory_same;
          flags_same = i.flags_same;
          pause_same = λ p. (refl, refl);
        }))))

  IsCalm-decode_range : (times : ℕ) → IsCalm s (decode_range times)
  unfolding decode_range
  IsCalm-decode_range zero t i = done tt t i
  IsCalm-decode_range (suc times) t i =
      next s (IsCalm-fetch s t i) λ opcode t1 i1.
        next s (IsCalm-decode opcode t1 i1) λ _ t2 i2. IsCalm-decode_range times t2 i2

-- The last assignment of `disassemble`.
restored :
    (s s1 t : Machine) {x : Result (Unit {0} × Machine)}
    → Calm s x
    → and_then x (λ _. set_pc (s1.regs 0)) ≡ ok (tt, t)
    → IsSame s t × (t.regs 0 ≡ s1.regs 0)
restored s s1 t (done a u i) e =
    subst (λ v. IsSame s v × (v.regs 0 ≡ s1.regs 0)) (ok-state _ t e)
      (IsSame-reg s (update u.regs 0 (s1.regs 0)) i, refl)
restored s s1 t (failed f) e = cc

pub disassemble-IsSame :
    (start_addr times : ℕ) (s t : Machine)
    → disassemble start_addr times s ≡ ok (tt, t)
    → IsSame s t × (t.regs 0 ≡ s.regs 0)
unfolding disassemble
disassemble-IsSame start_addr times s t e =
    restored s s t
      (IsCalm-decode_range s times (record s { regs = update s.regs 0 start_addr })
        (record { memory_same = refl; flags_same = refl; pause_same = λ p. p }))
      e

-- Disassembly of any number of instructions from any address, if it runs into no fault, leaves the
-- memory, the status register and the program counter as they were.
pub disassemble_lem :
    (start_addr times : ℕ) (s t : Machine)
    → disassemble start_addr times s ≡ ok (tt, t)
    → (t.memspace ≡ s.memspace) × (t.sr ≡ s.sr) × (t.regs 0 ≡ s.regs 0)
disassemble_lem start_addr times s t e =
    let h = disassemble-IsSame start_addr times s t e in (h.0.memory_same, h.0.flags_same, h.1)
