-- ===== src/Listing/OneOperand.antt =====
-- The text that `decode_formatII` of devices/cpu/formatII.c makes of an instruction, from the
-- machine behind the fetch of its first word.
use msp430_emulator.Base.{
  ℕ, ◌+◌, ◌%◌, ◌^◌, none, some, List, [], ◌∷◌, ◌++◌, bytes, ◌==◌, u16, if◌then◌else◌,
}
use msp430_emulator.Machine.{Machine, Width, word, byte, get16, get_addr_ptr}
use msp430_emulator.Names.{reg_num_to_name}
use msp430_emulator.Constant.{constant}
use msp430_emulator.Format2.Fields.{Fields, fields}
use msp430_emulator.Listing.Pieces.{Line, word_ahead, pc_after}
use msp430_emulator.Listing.TwoOperands.{
  constant_text, symbolic_text, absolute_text, indexed_text, with_width,
}

-- The words behind the first one as they are printed, and `asm_operand`.
pub record Operand : Type 0 where
  pub printed : List ℕ
  pub asm_operand : List ℕ

abbrev pub register_only : List ℕ → Operand
register_only text = record { printed = []; asm_operand = text }

abbrev pub byte_of : Width → ℕ → ℕ
byte_of word v = v
byte_of byte v = v % 2 ^ 8

module _ (f : Fields) (s : Machine) where
  -- For an absolute operand `source_value` is printed, the word at the address.
  unfoldable pub as1_operand : Operand
  as1_operand =
      let offset = word_ahead s 0 in
      if f.source == 0
      then record {
        printed = offset ∷ [];
        asm_operand = symbolic_text (u16 (pc_after s 1 + offset));
      }
      else if f.source == 2
      then record {
        printed = get16 s (get_addr_ptr offset) ∷ [];
        asm_operand = absolute_text offset;
      }
      else record {
        printed = offset ∷ [];
        asm_operand = indexed_text offset (reg_num_to_name f.source);
      }

  unfoldable pub as3_operand : Operand
  as3_operand =
      if f.source == 0
      then record {
        printed = word_ahead s 0 ∷ [];
        asm_operand = constant_text (byte_of f.bw_flag (word_ahead s 0));
      }
      else register_only (bytes "@" ++ reg_num_to_name f.source ++ bytes "+")

  unfoldable pub operand_of_mode : Operand
  operand_of_mode =
      if f.as_flag == 0
      then register_only (reg_num_to_name f.source)
      else if f.as_flag == 1
      then as1_operand
      else if f.as_flag == 2
      then register_only (bytes "@" ++ reg_num_to_name f.source)
      else as3_operand

  unfoldable pub operand_text : Operand
  operand_text = elim (constant f.source f.as_flag) [
    | some c ↦ register_only (constant_text c)
    | none ↦ operand_of_mode
  ]

-- The `switch (opcode)` of the disassembly.
unfoldable pub one_operand_name : ℕ → Width → List ℕ
one_operand_name opcode bw_flag =
    if opcode == 0
    then with_width bw_flag (bytes "RRC")
    else if opcode == 1
    then bytes "SWPB"
    else if opcode == 2
    then with_width bw_flag (bytes "RRA")
    else if opcode == 3
    then bytes "SXT"
    else if opcode == 4
    then with_width bw_flag (bytes "PUSH")
    else if opcode == 5
    then bytes "CALL"
    else if opcode == 6
    then bytes "RETI"
    else []

unfoldable pub format_ii_line : ℕ → Machine → Line
format_ii_line n s =
    let f = fields n in
    let o = operand_text f s in
    record {
      words = n ∷ o.printed;
      mnemonic = one_operand_name f.opcode f.bw_flag;
      operands_text = o.asm_operand;
    }
