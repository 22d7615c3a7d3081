-- ===== src/Format3.antt =====
-- `decode_formatIII` of devices/cpu/formatIII.c: the jumps. The text of the disassembly is in
-- Listing.
pub mod Target
use msp430_emulator.Base.{
  ℕ, ◌+◌, ◌/◌, ◌*◌, ◌%◌, ◌^◌, Bool, true, false, not, bit_and, bit_or, ◌==◌, u16, ◌>>>◌, update,
  if◌then◌else◌,
}
use mathlib.Core.Bool.{xor}
use msp430_emulator.Status.{StatusReg}
use msp430_emulator.Machine.{Machine, M, Result, ok}

-- `condition`
unfoldable pub condition : ℕ → ℕ
condition instruction = bit_and instruction 0x1C00 >>> 10

-- `signed_offset` as a 16-bit pattern: twice the ten bits, with the upper bits set where bits 9
-- and up of that product are not all zero.
unfoldable pub signed_offset : ℕ → ℕ
signed_offset instruction =
    let doubled = bit_and instruction 0x03FF * 2 in
    let negative = not (doubled >>> 9 == 0) in if negative then bit_or doubled 0xF800 else doubled

-- The test of the `switch (condition)`: JNZ, JZ, JNC, JC, JN, JGE, JL and JMP.
unfoldable pub jumps : ℕ → StatusReg → Bool
jumps c sr =
    if c == 0
    then not sr.zero
    else if c == 1
    then sr.zero
    else if c == 2
    then not sr.carry
    else if c == 3
    then sr.carry
    else if c == 4
    then sr.negative
    else if c == 5
    then not (xor sr.negative sr.overflow)
    else if c == 6
    then xor sr.negative sr.overflow
    else c == 7

unfoldable pub decode_format_iii : ℕ → Bool → M (Unit {0})
decode_format_iii instruction disassemble s =
    if disassemble
    then ok (tt, s)
    else if jumps (condition instruction) s.sr
    then ok (tt, record s { regs = update s.regs 0 (u16 (s.regs 0 + signed_offset instruction)) })
    else ok (tt, s)
