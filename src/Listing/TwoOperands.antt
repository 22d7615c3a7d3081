-- ===== src/Listing/TwoOperands.antt =====
-- The text that `decode_formatI` of devices/cpu/formatI.c makes of an instruction, from the machine
-- behind the fetch of its first word. In disassembly nothing but the program counter changes on the
-- way, so the words that are fetched are those ahead.
use msp430_emulator.Base.{
  ℕ, ◌+◌, ◌-◌, ◌%◌, ◌^◌, Option, none, some, List, [], ◌∷◌, ◌++◌, bytes, length, leb, ◌==◌, u16,
  sext16, if◌then◌else◌,
}
use msp430_emulator.Base.Hex.{hex}
use msp430_emulator.Machine.{Machine, Result, ok, fault, Fault, Width, word, byte}
use msp430_emulator.Names.{reg_num_to_name}
use msp430_emulator.Constant.{constant}
use msp430_emulator.Format1.Fields.{Fields, fields}
use msp430_emulator.Listing.Pieces.{Line, word_ahead, pc_after, words_ahead}

-- `"#0x%04X"`, `"0x%04X"`, `"&0x%04X"` and `"0x%04X(%s)"`
abbrev pub constant_text : ℕ → List ℕ
constant_text c = bytes "#0x" ++ hex c

abbrev pub symbolic_text : ℕ → List ℕ
symbolic_text a = bytes "0x" ++ hex a

abbrev pub absolute_text : ℕ → List ℕ
absolute_text a = bytes "&0x" ++ hex a

abbrev pub indexed_text : ℕ → List ℕ → List ℕ
indexed_text offset name = bytes "0x" ++ hex offset ++ bytes "(" ++ name ++ bytes ")"

abbrev pub or_constant : Option ℕ → List ℕ → List ℕ
or_constant none text = text
or_constant (some c) text = constant_text c

-- How many words behind the first one the source takes, where it is no constant.
abbrev pub source_words_at : ℕ → ℕ → ℕ
source_words_at as_flag source =
    if as_flag == 0
    then 0
    else if as_flag == 1
    then 1
    else if as_flag == 2
    then 0
    else if source == 0
    then 1
    else 0

abbrev pub unless_constant : Option ℕ → ℕ → ℕ
unless_constant none k = k
unless_constant (some c) k = 0

unfoldable pub source_words : Fields → ℕ
source_words f = unless_constant (constant f.source f.as_flag) (source_words_at f.as_flag f.source)

-- `char asm_operands[20]`, which `strncat` appends to without regard to its size.
abbrev pub in_buffer : List ℕ → Result (List ℕ)
in_buffer text = if leb (length text) 19 then ok text else fault Fault.out_of_bounds

module _ (f : Fields) (s : Machine) where
  -- The name of the source register, with what a mode puts around it.
  unfoldable pub as0_text : List ℕ
  as0_text = reg_num_to_name f.source

  -- `back` is what is taken off the sum of the program counter and the offset.
  unfoldable pub as1_text : ℕ → List ℕ
  as1_text back =
      if f.source == 0
      then symbolic_text (u16 (pc_after s 1 + word_ahead s 0 + 2 ^ 16 - back))
      else if f.source == 2
      then absolute_text (word_ahead s 0)
      else indexed_text (word_ahead s 0) (reg_num_to_name f.source)

  unfoldable pub as2_text : List ℕ
  as2_text = bytes "@" ++ reg_num_to_name f.source

  -- The immediate of an instruction on bytes is cut to a byte where the destination is a register.
  abbrev pub immediate_shown : Width → ℕ → ℕ → ℕ
  immediate_shown word ad_flag v = v
  immediate_shown byte ad_flag v = if ad_flag == 0 then v % 2 ^ 8 else v

  unfoldable pub as3_text : List ℕ
  as3_text =
      if f.source == 0
      then constant_text (immediate_shown f.bw_flag f.ad_flag (word_ahead s 0))
      else bytes "@" ++ reg_num_to_name f.source ++ bytes "+"

  -- The text of the source, which stands first in `asm_operands`.
  unfoldable pub source_text : List ℕ
  source_text = or_constant (constant f.source f.as_flag) (
      if f.as_flag == 0
      then as0_text
      else if f.as_flag == 1
      then as1_text (if f.ad_flag == 0 then 2 else 4)
      else if f.as_flag == 2
      then as2_text
      else as3_text)

  -- `asm_op2`, from the number `k` of words that the source took. Where the source is indirect, the
  -- absolute address is printed as an `int16_t`.
  unfoldable pub destination_text : ℕ → List ℕ
  destination_text k =
      if f.destination == 0
      then symbolic_text (u16 (pc_after s (k + 1) + word_ahead s k + 2 ^ 16 - 2))
      else if f.destination == 2
      then absolute_text (if f.as_flag == 2 then sext16 (word_ahead s k) else word_ahead s k)
      else indexed_text (word_ahead s k) (reg_num_to_name f.destination)

  unfoldable pub asm_operands : Result (List ℕ)
  asm_operands =
      if f.ad_flag == 0
      then in_buffer (source_text ++ bytes ", " ++ reg_num_to_name f.destination)
      else in_buffer (source_text ++ bytes ", " ++ destination_text (source_words f))

abbrev pub with_width : Width → List ℕ → List ℕ
with_width word name = name
with_width byte name = name ++ bytes ".B"

-- The `switch (opcode)` of the disassembly.
unfoldable pub two_operand_name : ℕ → List ℕ
two_operand_name opcode =
    if opcode == 0x4
    then bytes "MOV"
    else if opcode == 0x5
    then bytes "ADD"
    else if opcode == 0x6
    then bytes "ADDC"
    else if opcode == 0x7
    then bytes "SUBC"
    else if opcode == 0x8
    then bytes "SUB"
    else if opcode == 0x9
    then bytes "CMP"
    else if opcode == 0xA
    then bytes "DADD"
    else if opcode == 0xB
    then bytes "BIT"
    else if opcode == 0xC
    then bytes "BIC"
    else if opcode == 0xD
    then bytes "BIS"
    else if opcode == 0xE
    then bytes "XOR"
    else if opcode == 0xF
    then bytes "AND"
    else []

-- The words behind the first one.
abbrev pub extra_words : Fields → ℕ
extra_words f = source_words f + f.ad_flag

abbrev pub line_of : ℕ → Fields → Machine → Result (List ℕ) → Result Line
line_of n f s (fault e) = fault e
line_of n f s (ok text) = ok (record {
  words = n ∷ words_ahead s 0 (extra_words f);
  mnemonic = with_width f.bw_flag (two_operand_name f.opcode);
  operands_text = text;
})

unfoldable pub format_i_line : ℕ → Machine → Result Line
format_i_line n s = let f = fields n in line_of n f s (asm_operands f s)
