-- ===== src/Format1.antt =====
-- `decode_formatI` of devices/cpu/formatI.c: the fields of the instruction, the addressing modes,
-- and the operation. The text of the operands is in Listing.
pub mod Fields
pub mod Operands
pub mod Alu
pub mod Kept
use msp430_emulator.Base.{ℕ, Bool, List, if◌then◌else◌}
use msp430_emulator.Machine.{M, Result, ok, fault, get, get_reg_ptr, pure, ◌>>=◌, ◌>>◌}
use msp430_emulator.Constant.{constant}
use msp430_emulator.Listing.TwoOperands.{asm_operands}
use Fields.{fields}
use Operands.{operands}
use Alu.{execute}

-- The text of the operands is put together in execution too.
abbrev pub write_operands : Result (List ℕ) → M (Unit {0})
write_operands (ok text) s = ok (tt, s)
write_operands (fault f) s = fault f

-- The operand words are fetched in disassembly too; the operation is not performed. The words that
-- the text shows are those ahead of the program counter before they are fetched.
unfoldable pub decode_format_i : ℕ → Bool → M (Unit {0})
decode_format_i instruction disassemble = do
  let f = fields instruction
  s_reg ← get_reg_ptr f.source
  d_reg ← get_reg_ptr f.destination
  s ← get
  p ← operands f disassemble (constant f.source f.as_flag) s_reg d_reg
  write_operands (asm_operands f s)
  if disassemble then pure tt else execute f.opcode f.bw_flag p.0 p.1
