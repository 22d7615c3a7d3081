-- ===== src/Format3/Target.antt =====
-- Where a jump goes, against the two's complement reading of its ten offset bits.
use msp430_emulator.Base.{
  ℕ, ◌+◌, ◌-◌, ◌*◌, ◌%◌, ◌^◌, ◌<◌, ◌≤◌, ◌≡◌, ◌≢◌, ◌↔◌, Bool, true, false, not, refl, zero, suc, ◌/◌,
  arith, ltb, u16, update, if◌then◌else◌,
}
use msp430_emulator.Base.Bits.{bit_and_mask, bit_or_disjoint, bit_or_comm, bit_field}
use mathlib.Core.Bool.{xor}
use msp430_emulator.Status.{StatusReg}
use msp430_emulator.Machine.{Machine, Result, ok}
use msp430_emulator.Format3.{condition, signed_offset, jumps, decode_format_iii}

-- The ten offset bits of an instruction, and their 16-bit sign extension.
abbrev pub offset_bits : ℕ → ℕ
offset_bits instruction = instruction % 2 ^ 10

abbrev pub offset10 : ℕ → ℕ
offset10 x = if ltb x (2 ^ 9) then x else x + 2 ^ 16 - 2 ^ 10

-- The target that the instruction set defines, for the program counter after the fetch.
abbrev pub target : ℕ → ℕ → ℕ
target pc instruction = u16 (pc + 2 * offset10 (offset_bits instruction))

-- The offset of the code is negative from 256 words on.
pub signed_offset_lem :
    (n : ℕ)
    → signed_offset n ≡ (
        if ltb (offset_bits n) 256
        then 2 * offset_bits n
        else 2 * offset_bits n + (2 ^ 16 - 2 ^ 11))
unfolding signed_offset
signed_offset_lem n = rw (bit_and_mask 10 n) (
    ground (
      arith,
      bit_or_comm (n % 2 ^ 10 * 2) 0xF800,
      bit_or_disjoint 11 31 (n % 2 ^ 10 * 2) (omega arith),
    ))

-- The code jumps where the ten offset bits, read as a signed number of words, say exactly when they
-- are not from 256 to 511.
pub target_iff :
    (pc n : ℕ)
    → (u16 (pc + signed_offset n) ≡ target pc n) ↔ ¬ ((256 ≤ offset_bits n) × (offset_bits n < 512))
target_iff pc n = ground (arith, signed_offset_lem n)

-- The three bits that say which jump the instruction is.
abbrev pub condition_bits : ℕ → ℕ
condition_bits instruction = instruction / 2 ^ 10 % 8

-- The jumps by those bits, and when the instruction set lets each of them be taken.
pub data Taken (sr : StatusReg) : ℕ → Type 0 where
  jne : sr.zero ≡ false → Taken sr 0
  jeq : sr.zero ≡ true → Taken sr 1
  jnc : sr.carry ≡ false → Taken sr 2
  jc : sr.carry ≡ true → Taken sr 3
  jn : sr.negative ≡ true → Taken sr 4
  jge : sr.negative ≡ sr.overflow → Taken sr 5
  jl : sr.negative ≢ sr.overflow → Taken sr 6
  jmp : Taken sr 7

-- How a jump ends: at its target when it is taken, and with nothing changed when it is not.
pub data Lands (instruction : ℕ) (s : Machine) : Result (Unit {0} × Machine) → Type 0 where
  jumped :
      Taken s.sr (condition_bits instruction)
      → Lands instruction s
          (ok (tt, record s { regs = update s.regs 0 (target (s.regs 0) instruction) }))
  went_on : ¬ Taken s.sr (condition_bits instruction) → Lands instruction s (ok (tt, s))

condition_lem : (n : ℕ) → condition n ≡ condition_bits n
unfolding condition
condition_lem n = bit_field 10 3 n

not-xor : (a b : Bool) → not (xor a b) ≡ true → a ≡ b
unfolding xor
not-xor false false e = refl
not-xor false true e = cc
not-xor true false e = cc
not-xor true true e = refl

xor-true : (a b : Bool) → xor a b ≡ true → a ≢ b
unfolding xor
xor-true false false e = cc
xor-true false true e = λ h. cc
xor-true true false e = λ h. cc
xor-true true true e = cc

same_xor : (a b : Bool) → a ≡ b → xor a b ≡ false
unfolding xor
same_xor false false e = refl
same_xor false true e = cc
same_xor true false e = cc
same_xor true true e = refl

other_xor : (a b : Bool) → a ≢ b → xor a b ≡ true
unfolding xor
other_xor false false e = absurd (e refl)
other_xor false true e = refl
other_xor true false e = refl
other_xor true true e = absurd (e refl)

jumps-Taken : (c : ℕ) (sr : StatusReg) → jumps c sr ≡ true → Taken sr c
unfolding jumps
jumps-Taken zero sr e = jne (ground arith)
jumps-Taken (suc zero) sr e = jeq e
jumps-Taken (suc (suc zero)) sr e = jnc (ground arith)
jumps-Taken (suc (suc (suc zero))) sr e = jc e
jumps-Taken (suc (suc (suc (suc zero)))) sr e = jn e
jumps-Taken (suc (suc (suc (suc (suc zero))))) sr e = jge (not-xor sr.negative sr.overflow e)
jumps-Taken (suc (suc (suc (suc (suc (suc zero)))))) sr e = jl (xor-true sr.negative sr.overflow e)
jumps-Taken (suc (suc (suc (suc (suc (suc (suc zero))))))) sr e = jmp
jumps-Taken (suc (suc (suc (suc (suc (suc (suc (suc c)))))))) sr e = absurd (ground arith)

Taken-jumps : (c : ℕ) (sr : StatusReg) → Taken sr c → jumps c sr ≡ true
unfolding jumps
Taken-jumps _ sr (jne z) = rw z refl
Taken-jumps _ sr (jeq z) = z
Taken-jumps _ sr (jnc z) = rw z refl
Taken-jumps _ sr (jc z) = z
Taken-jumps _ sr (jn z) = z
Taken-jumps _ sr (jge z) = rw (same_xor sr.negative sr.overflow z) refl
Taken-jumps _ sr (jl z) = other_xor sr.negative sr.overflow z
Taken-jumps _ sr jmp = refl

-- For an offset that is not from 256 to 511 words, the eight jumps, told apart by the three
-- condition bits, go to the target that the signed offset gives just when the flags are as the
-- instruction set demands for that jump, and change nothing when they are not.
pub decode_format_iii_lem :
    (n : ℕ) (s : Machine)
    → ¬ ((256 ≤ offset_bits n) × (offset_bits n < 512))
    → Lands n s (decode_format_iii n false s)
unfolding decode_format_iii
decode_format_iii_lem n s h =
    rw ((target_iff (s.regs 0) n).1 h, condition_lem n)
      (chosen (jumps (condition_bits n) s.sr) refl)
  where
    chosen :
        (b : Bool)
        → jumps (condition_bits n) s.sr ≡ b
        → Lands n s (
            if b
            then ok (tt, record s { regs = update s.regs 0 (target (s.regs 0) n) })
            else ok (tt, s))
    chosen true e = jumped (jumps-Taken (condition_bits n) s.sr e)
    chosen false e = went_on (λ t. cc (Taken-jumps (condition_bits n) s.sr t))
