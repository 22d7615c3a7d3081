-- ===== src/Listing/Words.antt =====
-- The line for a two-operand instruction shows the words that the decoder takes.
use msp430_emulator.Base.{
  ℕ, zero, suc, ◌+◌, ◌-◌, ◌*◌, ◌≡◌, true, List, ◌∷◌, ◌++◌, bytes, length, u16, arith, refl, ◌∙◌, ap,
  subst,
}
use msp430_emulator.Machine.{Machine, Result, ok, fault, fetch, get16, get_addr_ptr}
use msp430_emulator.Machine.Store.{IsWellFormed}
use msp430_emulator.Machine.Fetch.{behind, fetch-ok}
use msp430_emulator.Format1.{decode_format_i}
use msp430_emulator.Format1.Fields.{Fields, fields}
use msp430_emulator.Base.Hex.{two_digits}
use msp430_emulator.Listing.Pieces.{Line, swap_pairs, hex_words, spaces, print_line, words_ahead}
use msp430_emulator.Listing.TwoOperands.{format_i_line, line_of, asm_operands, extra_words}
use msp430_emulator.Listing.Moves.{Ends, at, failed}
use msp430_emulator.Listing.Fetched.{decode_format_i-Ends}
use msp430_emulator.Listing.Column.{
  memory_digits, memory_digits-mod, swap_pairs-word, words_ahead-digits,
}

Ends-ok :
    {q : ℕ} {x : Result (Unit {0} × Machine)} (t : Machine)
    → Ends q x
    → x ≡ ok (tt, t)
    → t.regs 0 ≡ q
Ends-ok {q} t (at a u e) h = let same : u ≡ t = cc in subst (λ v. v.regs 0 ≡ q) same e
Ends-ok t (failed f) h = cc

Ends-to : (a b : ℕ) {x : Result (Unit {0} × Machine)} → a ≡ b → Ends (u16 a) x → Ends (u16 b) x
Ends-to a b {x} e h = subst (λ c. Ends (u16 c) x) e h

length-digits : (m : ℕ → ℕ) (a k : ℕ) → length (memory_digits m a k) ≡ 4 * k
unfolding two_digits
length-digits m a zero = refl
length-digits m a (suc k) = omega (arith, length-digits m (a + 2) k)

length-words : (s : Machine) (j k : ℕ) → length (words_ahead s j k) ≡ k
length-words s j zero = refl
length-words s j (suc k) = rw (length-words s (j + 1) k) refl

ok-line : (a b : Line) → ◌≡◌ {A = Result Line} (ok a) (ok b) → b ≡ a
ok-line a b e = cc

-- The words of the line.
line-words :
    (n : ℕ) (f : Fields) (s : Machine) (x : Result (List ℕ)) (l : Line)
    → line_of n f s x ≡ ok l
    → l.words ≡ n ∷ words_ahead s 0 (extra_words f)
line-words n f s (ok text) l e = ap (λ m. m.words) (ok-line _ l e)
line-words n f s (fault g) l e = cc

column :
    (s : Machine) (k : ℕ)
    → IsWellFormed s
    → swap_pairs (hex_words (get16 s (get_addr_ptr (s.regs 0)) ∷ words_ahead (behind s) 0 k))
      ≡ memory_digits s.memspace (s.regs 0) (suc k)
unfolding hex_words
column s k w =
    let a : ℕ = u16 (s.regs 0) in
    swap_pairs-word (s.memspace a) (s.memspace (a + 1)) (hex_words (words_ahead (behind s) 0 k))
      (w.bytes_fit a) (w.bytes_fit (a + 1))
    ∙ ap (λ d. two_digits (s.memspace a) ++ two_digits (s.memspace (a + 1)) ++ d)
        (words_ahead-digits (behind s) 0 k w.bytes_fit
          ∙ memory_digits-mod s.memspace _ _ k (omega arith))

fetched_column :
    (n : ℕ) (s u : Machine) (k : ℕ)
    → IsWellFormed s
    → n ≡ get16 s (get_addr_ptr (s.regs 0))
    → u ≡ behind s
    → swap_pairs (hex_words (n ∷ words_ahead u 0 k)) ≡ memory_digits s.memspace (s.regs 0) (suc k)
fetched_column n s u k w first moved = rw (first, moved) (column s k w)

-- For a two-operand instruction fetched by a well-formed machine, if its text fits the buffer and
-- the disassembly runs into no fault: the line that is printed is the bytes of the instruction in
-- the order of the memory, two digits each, padded to twelve columns, then the name and the
-- operands; and the program counter stands behind just the words that are shown.
pub format_i_line_lem :
    (n : ℕ) (s u t : Machine) (l : Line)
    → IsWellFormed s
    → fetch s ≡ ok (n, u)
    → format_i_line n u ≡ ok l
    → decode_format_i n true u ≡ ok (tt, t)
    → let k = length l.words in
      (print_line l
        ≡ memory_digits s.memspace (s.regs 0) k
          ++ spaces (12 - 4 * k)
          ++ bytes "\t"
          ++ l.mnemonic
          ++ bytes "\t"
          ++ l.operands_text
          ++ bytes "\n")
      × (t.regs 0 ≡ u16 (s.regs 0 + 2 * k))
unfolding format_i_line print_line
format_i_line_lem n s u t l w fetched line decoded =
    let f = fields n in
    let k : ℕ = extra_words f in
    let got = fetch-ok s u n fetched in
    let ws : l.words ≡ n ∷ words_ahead u 0 k = line-words n f u (asm_operands f u) l line in
    let count : length l.words ≡ suc k = ap length ws ∙ ap suc (length-words u 0 k) in
    let digits : swap_pairs (hex_words l.words) ≡ memory_digits s.memspace (s.regs 0) (suc k) =
      ap (λ ws. swap_pairs (hex_words ws)) ws ∙ fetched_column n s u k w got.0 got.1 in
    let moved : Ends (u16 (s.regs 0 + 2 * suc k)) (decode_format_i n true u) =
      Ends-to (s.regs 0 + 2 + 2 * k) (s.regs 0 + 2 * suc k) (omega arith)
        (decode_format_i-Ends n (s.regs 0 + 2) u (ap (λ m. m.regs 0) got.1)) in
    rw (count, digits, length-digits s.memspace (s.regs 0) (suc k)) (refl, Ends-ok t moved decoded)
