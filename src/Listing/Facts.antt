-- ===== src/Listing/Facts.antt =====
-- The address that a jump is shown with, and an instruction whose text does not fit its buffer.
use msp430_emulator.Base.{
  ℕ, ◌+◌, ◌/◌, ◌^◌, ◌<◌, ◌≤◌, ◌≡◌, ◌≢◌, true, false, none, List, ◌++◌, bytes, length, ◌==◌, u16,
  u32, sext16, update, arith, refl, ap, ◌∙◌, length-append,
}
use msp430_emulator.Base.Hex.{hex, four_digits, leading, read_hex, hex-four_digits, read_hex-hex}
use msp430_emulator.Machine.{Machine, ok, fault, Fault}
use msp430_emulator.Names.{reg_num_to_name}
use msp430_emulator.Constant.{constant}
use msp430_emulator.Format1.Fields.{Fields, fields}
use msp430_emulator.Format3.{condition, signed_offset, jumps, decode_format_iii}
use msp430_emulator.Format3.Target.{signed_offset_lem}
use msp430_emulator.Listing.Pieces.{word_ahead}
use msp430_emulator.Listing.TwoOperands.{
  format_i_line, asm_operands, in_buffer, line_of, source_text, destination_text, source_words,
  as1_text, indexed_text,
}
use msp430_emulator.Listing.Jump.{jump_value, format_iii_line}

jump_address :
    (pc n : ℕ)
    → 0x600 ≤ pc
    → pc < 0xFE00
    → u32 (pc + sext16 (signed_offset n)) ≡ u16 (pc + signed_offset n)
jump_address pc n low high = ground (arith, signed_offset_lem n)

-- For a jump whose condition holds, with the program counter from 0x600 up to below 0xFE00 after
-- the fetch, the address that is shown in four digits is, read back, the one that the execution
-- jumps to.
pub format_iii_line_lem :
    (n : ℕ) (s : Machine)
    → 0x600 ≤ s.regs 0
    → s.regs 0 < 0xFE00
    → jumps (condition n) s.sr ≡ true
    → let v = u16 (s.regs 0 + signed_offset n) in
      ((format_iii_line n s).operands_text ≡ bytes "0x" ++ four_digits v)
      × (read_hex 0 (four_digits v) ≡ v)
      × (decode_format_iii n false s ≡ ok (tt, record s { regs = update s.regs 0 v }))
unfolding format_iii_line jump_value decode_format_iii
format_iii_line_lem n s low high holds =
    let v : ℕ = u16 (s.regs 0 + signed_offset n) in
    let digits : hex v ≡ four_digits v = hex-four_digits v (omega arith) in
    let shown : hex (u32 (s.regs 0 + sext16 (signed_offset n))) ≡ four_digits v =
      rw (jump_address (s.regs 0) n low high) digits in
    (rw shown refl, rw⁻¹ digits (read_hex-hex v (omega arith)), rw holds refl)

length-hex-ge : (n : ℕ) → 4 ≤ length (hex n)
unfolding hex four_digits
length-hex-ge n = omega (arith, length-append {0} (leading 4 (n / 2 ^ 16)) (four_digits n))

length-name-ge : (n : ℕ) → 2 ≤ length (reg_num_to_name n)
unfolding reg_num_to_name
length-name-ge n = ground arith

length-indexed : (o n : ℕ) → 10 ≤ length (indexed_text o (reg_num_to_name n))
length-indexed o n = omega (
  arith,
  length-append {0} (bytes "0x" ++ hex o ++ bytes "(" ++ reg_num_to_name n) (bytes ")"),
  length-append {0} (bytes "0x" ++ hex o ++ bytes "(") (reg_num_to_name n),
  length-append {0} (bytes "0x" ++ hex o) (bytes "("),
  length-hex-ge o,
  length-name-ge n,
)

no_constant : (source : ℕ) → source ≢ 3 → constant source 1 ≡ none
unfolding constant
no_constant source h = ground arith

indexed_source :
    (f : Fields) (s : Machine)
    → f.as_flag ≡ 1
    → f.source ≢ 0
    → f.source ≢ 2
    → f.source ≢ 3
    → source_text f s ≡ indexed_text (word_ahead s 0) (reg_num_to_name f.source)
unfolding source_text as1_text
indexed_source f s as0 h0 h2 h3 = rw (as0, no_constant f.source h3) (ground arith)

indexed_destination :
    (f : Fields) (s : Machine) (k : ℕ)
    → f.destination ≢ 0
    → f.destination ≢ 2
    → destination_text f s k ≡ indexed_text (word_ahead s k) (reg_num_to_name f.destination)
unfolding destination_text
indexed_destination f s k h0 h2 = ground arith

too_long : (text : List ℕ) → 20 ≤ length text → in_buffer text ≡ fault Fault.out_of_bounds
too_long text h = ground arith

to_memory :
    (f : Fields) (s : Machine)
    → f.ad_flag ≡ 1
    → asm_operands f s
      ≡ in_buffer (source_text f s ++ bytes ", " ++ destination_text f s (source_words f))
unfolding asm_operands
to_memory f s memory = let test : (f.ad_flag == 0) ≡ false = ground arith in simp test refl

-- The text of every two-operand instruction with an indexed source and an indexed destination
-- overflows the buffer of 20 characters for the operands.
pub overflow_lem :
    (n : ℕ) (s : Machine)
    → let f = fields n in
      f.as_flag ≡ 1
      → f.ad_flag ≡ 1
      → f.source ≢ 0
      → f.source ≢ 2
      → f.source ≢ 3
      → f.destination ≢ 0
      → f.destination ≢ 2
      → format_i_line n s ≡ fault Fault.out_of_bounds
unfolding format_i_line
overflow_lem n s mode memory s0 s2 s3 d0 d2 =
    let f = fields n in
    let k : ℕ = source_words f in
    let text : List ℕ = source_text f s ++ bytes ", " ++ destination_text f s k in
    let long : 20 ≤ length text = omega (
      arith,
      length-append {0} (source_text f s ++ bytes ", ") (destination_text f s k),
      length-append {0} (source_text f s) (bytes ", "),
      ap (length {0}) (indexed_source f s mode s0 s2 s3),
      ap (length {0}) (indexed_destination f s k d0 d2),
      length-indexed (word_ahead s 0) f.source,
      length-indexed (word_ahead s k) f.destination,
    ) in
    let kept : asm_operands f s ≡ fault Fault.out_of_bounds =
      to_memory f s memory ∙ too_long text long in
    ap (line_of n f s) kept
