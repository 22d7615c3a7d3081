-- ===== src/Format2/Fields.antt =====
-- The fields of a one-operand instruction, `[0001][00CC][CBAA][SSSS]`.
use msp430_emulator.Base.{ℕ, bit_and, ◌>>>◌}
use msp430_emulator.Machine.{Width}
use msp430_emulator.Format1.Fields.{width_of}

pub record Fields : Type 0 where
  pub opcode : ℕ
  pub bw_flag : Width
  pub as_flag : ℕ
  pub source : ℕ

unfoldable pub fields : ℕ → Fields
fields instruction = record {
  opcode = bit_and instruction 0x0380 >>> 7;
  bw_flag = width_of (bit_and instruction 0x0040 >>> 6);
  as_flag = bit_and instruction 0x0030 >>> 4;
  source = bit_and instruction 0x000F;
}
