-- ===== src/Listing.antt =====
-- The text that `decode` of devices/cpu/decoder.c gives to the console in disassembly, and that
-- `disassemble` of debugger/disassembler.c makes of it.
pub mod Pieces
pub mod TwoOperands
pub mod OneOperand
pub mod Jump
pub mod Refines
pub mod Moves
pub mod Fetched
pub mod Column
pub mod Words
pub mod Facts
use msp430_emulator.Base.{
  ℕ, zero, suc, Bool, true, List, [], ◌++◌, bytes, ◌==◌, ◌&&◌, leb, u8, ◌>>>◌, if◌then◌else◌,
}
use msp430_emulator.Base.Hex.{hex}
use msp430_emulator.Machine.{Machine, M, Result, ok, fault, fetch, get, pure, ◌>>=◌, ◌>>◌}
use msp430_emulator.Decoder.{decode}
use msp430_emulator.Disassembler.{set_pc}
use Pieces.{Line, shown}
use TwoOperands.{format_i_line}
use OneOperand.{format_ii_line}
use Jump.{format_iii_line}

abbrev pub shown_line : Bool → Result Line → Result (List ℕ)
shown_line debug_mode (ok l) = ok (shown debug_mode l)
shown_line debug_mode (fault f) = fault f

-- The text for the instruction `n`, from the machine behind its fetch.
unfoldable pub decode_text : ℕ → Machine → Result (List ℕ)
decode_text n s =
    let format_id = u8 (n >>> 12) in
    if format_id == 1
    then ok (shown s.debug_mode (format_ii_line n s))
    else if leb 2 format_id && leb format_id 3
    then ok (shown s.debug_mode (format_iii_line n s))
    else if leb 4 format_id
    then shown_line s.debug_mode (format_i_line n s)
    else ok (hex n ++ bytes "\t[INVALID INSTRUCTION]\n")

abbrev pub with_text : Result (List ℕ) → M (List ℕ)
with_text (ok text) s = ok (text, s)
with_text (fault f) s = fault f

-- `decode(emu, opcode, DISASSEMBLE)`, with its text.
unfoldable pub decode_shown : ℕ → M (List ℕ)
decode_shown n = do s ← get; text ← with_text (decode_text n s); decode n true; pure text

-- `addr_str`, which goes to the console of the web interface alone.
abbrev pub addr_str : Bool → ℕ → List ℕ
addr_str web_interface pc = if web_interface then bytes "0x" ++ hex pc ++ bytes ":\t" else []

module _ (web_interface : Bool) where
  unfoldable pub list_range : ℕ → M (List ℕ)
  list_range zero = pure []
  list_range (suc times) = do
    s ← get
    opcode ← fetch
    line ← decode_shown opcode
    rest ← list_range times
    pure (addr_str web_interface (s.regs 0) ++ line ++ rest)

  -- `disassemble`, with the text that it gives to the console.
  unfoldable pub list : ℕ → ℕ → M (List ℕ)
  list start_addr times = do
    s ← get
    set_pc start_addr
    text ← list_range times
    set_pc (s.regs 0)
    pure text
