-- ===== src/Listing/Pieces.antt =====
-- The end of the disassembly mode in the three decoders of devices/cpu: what is printed of
-- `hex_str` and `mnemonic`.
use msp430_emulator.Base.{
  ℕ, zero, suc, ◌+◌, ◌-◌, ◌*◌, Bool, List, [], ◌∷◌, ◌++◌, length, bytes, u16, if◌then◌else◌,
}
use msp430_emulator.Base.Hex.{hex}
use msp430_emulator.Machine.{Machine, get16, get_addr_ptr}

-- The loop of `hex_str` that makes little endian of big endian, by groups of four digits.
unfoldable pub swap_pairs : List ℕ → List ℕ
swap_pairs (a ∷ b ∷ c ∷ d ∷ rest) = c ∷ d ∷ a ∷ b ∷ swap_pairs rest
swap_pairs (a ∷ b ∷ c ∷ []) = a ∷ b ∷ c ∷ []
swap_pairs (a ∷ b ∷ []) = a ∷ b ∷ []
swap_pairs (a ∷ []) = a ∷ []
swap_pairs [] = []

-- `for (i = strlen(hex_str);i < 12;i++) print_console(emu, " ");`
unfoldable pub spaces : ℕ → List ℕ
spaces zero = []
spaces (suc n) = b' ' ∷ spaces n

abbrev pub padding : List ℕ → List ℕ
padding hex_str = spaces (12 - length hex_str)

-- `hex_str`: the words of the instruction, each with `%04X`.
unfoldable pub hex_words : List ℕ → List ℕ
hex_words [] = []
hex_words (w ∷ ws) = hex w ++ hex_words ws

-- The texts of the line: the column of digits, and the name and the operands of the instruction.
pub record Line : Type 0 where
  pub words : List ℕ
  pub mnemonic : List ℕ
  pub operands_text : List ℕ

-- What is given to `print_console`, in one text.
unfoldable pub print_line : Line → List ℕ
print_line l =
    let hex_str = swap_pairs (hex_words l.words) in
    hex_str
    ++ padding hex_str
    ++ bytes "\t"
    ++ l.mnemonic
    ++ bytes "\t"
    ++ l.operands_text
    ++ bytes "\n"

-- `if (disassemble && emu->debugger->debug_mode)`
unfoldable pub shown : Bool → Line → List ℕ
shown debug_mode l = if debug_mode then print_line l else []

-- The word that the fetch number `k` from here on gives, and the program counter after `k` fetches.
abbrev pub word_ahead : Machine → ℕ → ℕ
word_ahead s k = get16 s (get_addr_ptr (s.regs 0 + 2 * k))

abbrev pub pc_after : Machine → ℕ → ℕ
pc_after s k = u16 (s.regs 0 + 2 * k)

abbrev pub words_ahead : Machine → ℕ → ℕ → List ℕ
words_ahead s k zero = []
words_ahead s k (suc n) = word_ahead s k ∷ words_ahead s (k + 1) n
