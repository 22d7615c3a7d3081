-- ===== src/Format1/Fields.antt =====
-- The fields of a two-operand instruction, `[CCCC][SSSS][ABaa][DDDD]`.
pub mod RoundTrip
use msp430_emulator.Base.{ℕ, ◌/◌, ◌^◌, bit_and, ◌==◌, ◌>>>◌, if◌then◌else◌}
use msp430_emulator.Machine.{Width, word, byte}

pub record Fields : Type 0 where
  pub opcode : ℕ
  pub source : ℕ
  pub as_flag : ℕ
  pub destination : ℕ
  pub ad_flag : ℕ
  pub bw_flag : Width

-- A field of one bit, read as `enum { WORD, BYTE }`.
abbrev pub width_of : ℕ → Width
width_of b = if b == 0 then word else byte

unfoldable pub fields : ℕ → Fields
fields instruction = record {
  opcode = bit_and instruction 0xF000 >>> 12;
  source = bit_and instruction 0x0F00 >>> 8;
  as_flag = bit_and instruction 0x0030 >>> 4;
  destination = bit_and instruction 0x000F;
  ad_flag = bit_and instruction 0x0080 >>> 7;
  bw_flag = width_of (bit_and instruction 0x0040 >>> 6);
}
