-- ===== src/Tests/Listings.antt =====
-- Texts of instructions, and symbolic operands.
use msp430_emulator.Base.{
  ℕ, ◌<◌, ◌^◌, ◌≡◌, ◌++◌, true, false, none, List, [], ◌∷◌, bytes, update, arith, refl,
}
use msp430_emulator.Base.Hex.{hex, leading, four_digits, read_hex}
use msp430_emulator.Machine.{Machine, Result, ok, fault, Fault, reg, get_addr_ptr, fetch}
use msp430_emulator.Machine.{load16, get_reg_ptr}
use msp430_emulator.Machine.Store.{IsWellFormed}
use msp430_emulator.Machine.Init.{
  initialize_msp_memspace, initialize_msp_memspace-lt, initialize_msp_registers, allocated,
  initialize_msp_registers-IsWellFormed,
}
use msp430_emulator.Names.{reg_num_to_name}
use msp430_emulator.Constant.{constant}
use msp430_emulator.Decoder.{decode}
use msp430_emulator.Decoder.Symbolic.{symbolic_lem}
use msp430_emulator.Disassembler.{disassemble}
use msp430_emulator.Format1.{decode_format_i}
use msp430_emulator.Format1.Fields as F1
use msp430_emulator.Format1.Operands.{
  operands, as3_ad0, as3_source, clear_upper, as1_ad0_source, as1_ad1_source, load_addr,
}
use msp430_emulator.Format2.Fields as F2
use msp430_emulator.Format2.Operand.{as1_memory}
use msp430_emulator.Format3.{signed_offset, jumps, condition, decode_format_iii}
use msp430_emulator.Listing.{list, list_range, decode_shown, decode_text}
use msp430_emulator.Listing.Pieces.{Line, print_line, spaces}
use msp430_emulator.Listing.TwoOperands.{
  format_i_line, asm_operands, source_text, source_words, as3_text, two_operand_name,
}
use msp430_emulator.Listing.Column.{memory_digits}
use msp430_emulator.Listing.Jump.{format_iii_line}
use msp430_emulator.Listing.Words.{format_i_line_lem}
use msp430_emulator.Listing.Facts.{format_iii_line_lem, overflow_lem}
use msp430_emulator.Listing.Refines.{list_lem}
use msp430_emulator.Tests.Machines.{booted}

-- MOV #0x1234, R5.
abbrev move : ℕ → ℕ
move =
    let first = update (update initialize_msp_memspace 0xC000 0x35) 0xC001 0x40 in
    update (update first 0xC002 0x34) 0xC003 0x12

move-lt : (a : ℕ) → move a < 2 ^ 8
move-lt a = ground (arith, initialize_msp_memspace-lt a)

abbrev moving : Machine
moving = initialize_msp_registers (allocated move true)

moving-IsWellFormed : IsWellFormed moving
moving-IsWellFormed = initialize_msp_registers-IsWellFormed move true move-lt

abbrev fetched : Machine
fetched = record moving { regs = update moving.regs 0 0xC002 }

fetched-ok : fetch moving ≡ ok (0x4035, fetched)
unfolding fetch load16
fetched-ok = refl

abbrev line : Line
line = record {
  words = 0x4035 ∷ 0x1234 ∷ [];
  mnemonic = bytes "MOV";
  operands_text = bytes "#0x1234, R5";
}

line-ok : format_i_line 0x4035 fetched ≡ ok line
unfolding format_i_line asm_operands source_text source_words as3_text two_operand_name hex leading
    four_digits reg_num_to_name constant F1.fields
line-ok = refl

abbrev decoded : Machine
decoded = record fetched { regs = update fetched.regs 0 0xC004 }

decoded-ok : decode_format_i 0x4035 true fetched ≡ ok (tt, decoded)
unfolding decode_format_i operands as3_ad0 as3_source clear_upper constant F1.fields fetch load16
    get_reg_ptr asm_operands source_text as3_text hex leading four_digits reg_num_to_name
decoded-ok = refl

format_i_line_lem_example :
    (print_line line
      ≡ memory_digits move 0xC000 2
        ++ spaces 4
        ++ bytes "\t"
        ++ bytes "MOV"
        ++ bytes "\t"
        ++ bytes "#0x1234, R5"
        ++ bytes "\n")
    × (decoded.regs 0 ≡ 0xC004)
format_i_line_lem_example =
    format_i_line_lem 0x4035 moving fetched decoded line moving-IsWellFormed fetched-ok line-ok
      decoded-ok

-- JMP to the word before.
format_iii_line_lem_example :
    ((format_iii_line 0x3FFE fetched).operands_text ≡ bytes "0x" ++ four_digits 0xBFFE)
    × (read_hex 0 (four_digits 0xBFFE) ≡ 0xBFFE)
    × (decode_format_iii 0x3FFE false fetched
        ≡ ok (tt, record fetched { regs = update fetched.regs 0 0xBFFE }))
unfolding signed_offset jumps condition
format_iii_line_lem_example = format_iii_line_lem 0x3FFE fetched (omega arith) (omega arith) refl

-- MOV 2(R4), 4(R5).
overflow_lem_example : format_i_line 0x4495 booted ≡ fault Fault.out_of_bounds
unfolding F1.fields
overflow_lem_example =
    overflow_lem 0x4495 booted refl refl (omega arith) (omega arith) (omega arith) (omega arith)
      (omega arith)

abbrev text_of : Result (List ℕ × Machine) → List ℕ × Machine
text_of (ok r) = r
text_of (fault f) = ([], moving)

abbrev listed : List ℕ × Machine
listed = text_of (list true 0xC000 1 moving)

listed-ok : list true 0xC000 1 moving ≡ ok (listed.0, listed.1)
unfolding list list_range decode_shown decode_text decode decode_format_i operands as3_ad0
    as3_source clear_upper constant F1.fields fetch load16 get_reg_ptr format_i_line asm_operands
    source_text source_words as3_text two_operand_name hex leading four_digits reg_num_to_name
listed-ok = refl

list_lem_example :
    (disassemble 0xC000 1 moving ≡ ok (tt, listed.1))
    × (listed.1.memspace ≡ moving.memspace)
    × (listed.1.sr ≡ moving.sr)
    × (listed.1.regs 0 ≡ moving.regs 0)
list_lem_example = list_lem true 0xC000 1 moving listed.1 listed.0 listed-ok

abbrev symbolic_i : F1.Fields
symbolic_i = F1.fields 0x4015

abbrev symbolic_ii : F2.Fields
symbolic_ii = F2.fields 0x1210

symbolic_lem_example :
    (as1_ad0_source symbolic_i true none (reg 0) (reg 5) moving ≡ load_addr 0x10035 fetched)
    × (as1_ad1_source symbolic_i true none (reg 0) (reg 5) moving ≡ load_addr 0x20033 fetched)
    × (as1_memory symbolic_ii none (reg 0) moving ≡ ok ((none, get_addr_ptr 0x10037), fetched))
unfolding F1.fields F2.fields
symbolic_lem_example =
    symbolic_lem symbolic_i symbolic_ii true none (reg 5) moving fetched 0x4035 refl refl fetched-ok
