-- ===== src/Listing/Jump.antt =====
-- The text that `decode_formatIII` of devices/cpu/formatIII.c makes of a jump.
use msp430_emulator.Base.{ℕ, ◌+◌, List, [], ◌∷◌, ◌++◌, bytes, ◌==◌, u32, sext16, if◌then◌else◌}
use msp430_emulator.Base.Hex.{hex}
use msp430_emulator.Machine.{Machine}
use msp430_emulator.Format3.{condition, signed_offset}
use msp430_emulator.Listing.Pieces.{Line}

-- The `switch (condition)` of the disassembly.
unfoldable pub jump_name : ℕ → List ℕ
jump_name c =
    if c == 0
    then bytes "JNZ"
    else if c == 1
    then bytes "JZ"
    else if c == 2
    then bytes "JNC"
    else if c == 3
    then bytes "JC"
    else if c == 4
    then bytes "JN"
    else if c == 5
    then bytes "JGE"
    else if c == 6
    then bytes "JL"
    else bytes "JMP"

-- `sprintf(value, "0x%04X", cpu->pc + signed_offset)`, a sum of `int`s.
unfoldable pub jump_value : ℕ → ℕ → List ℕ
jump_value pc n = bytes "0x" ++ hex (u32 (pc + sext16 (signed_offset n)))

unfoldable pub format_iii_line : ℕ → Machine → Line
format_iii_line n s = record {
  words = n ∷ [];
  mnemonic = jump_name (condition n);
  operands_text = jump_value (s.regs 0) n;
}
