-- ===== src/Format2.antt =====
-- `decode_formatII` of devices/cpu/formatII.c: instructions with one operand. The text of the
-- disassembly is in Listing.
pub mod Fields
pub mod Operand
pub mod Alu
pub mod Kept
use msp430_emulator.Base.{ℕ, Bool, if◌then◌else◌}
use msp430_emulator.Machine.{M, get_reg_ptr, pure, ◌>>=◌}
use msp430_emulator.Constant.{constant}
use Fields.{fields}
use Operand.{operand}
use Alu.{execute}

-- The operand is decoded in disassembly as in execution, changes of registers included.
unfoldable pub decode_format_ii : ℕ → Bool → M (Unit {0})
decode_format_ii instruction disassemble = do
  let f = fields instruction
  reg ← get_reg_ptr f.source
  p ← operand f (constant f.source f.as_flag) reg
  if disassemble then pure tt else execute f.opcode f.bw_flag p.0 p.1
