-- ===== src/Listing/Column.antt =====
-- The column of digits against the bytes of the memory.
use msp430_emulator.Base.{
  ℕ, zero, suc, ◌+◌, ◌*◌, ◌^◌, ◌<◌, ◌≡◌, List, [], ◌++◌, u16, arith, refl, ◌∙◌, ap,
}
use msp430_emulator.Base.Hex.{hex, two_digits, hex-four_digits, four_digits-bytes}
use msp430_emulator.Machine.{Machine}
use msp430_emulator.Listing.Pieces.{swap_pairs, hex_words, words_ahead}

-- The digits of `k` words from `a` on, byte by byte in the order of the memory.
abbrev pub memory_digits : (ℕ → ℕ) → ℕ → ℕ → List ℕ
memory_digits m a zero = []
memory_digits m a (suc k) =
    two_digits (m (u16 a)) ++ two_digits (m (u16 a + 1)) ++ memory_digits m (a + 2) k

pub memory_digits-mod :
    (m : ℕ → ℕ) (a b k : ℕ) → u16 a ≡ u16 b → memory_digits m a k ≡ memory_digits m b k
memory_digits-mod m a b zero h = refl
memory_digits-mod m a b (suc k) h = rw (h, memory_digits-mod m (a + 2) (b + 2) k (omega arith)) refl

pub swap_pairs-word :
    (low high : ℕ) (rest : List ℕ)
    → low < 2 ^ 8
    → high < 2 ^ 8
    → swap_pairs (hex (low + high * 2 ^ 8) ++ rest)
      ≡ two_digits low ++ two_digits high ++ swap_pairs rest
unfolding swap_pairs two_digits
swap_pairs-word low high rest h k =
    rw (hex-four_digits (low + high * 2 ^ 8) (omega arith), four_digits-bytes low high h k) refl

pub words_ahead-digits :
    (s : Machine) (j k : ℕ)
    → ((a : ℕ) → s.memspace a < 2 ^ 8)
    → swap_pairs (hex_words (words_ahead s j k)) ≡ memory_digits s.memspace (s.regs 0 + 2 * j) k
unfolding swap_pairs hex_words
words_ahead-digits s j zero h = refl
words_ahead-digits s j (suc k) h =
    let a : ℕ = u16 (s.regs 0 + 2 * j) in
    swap_pairs-word (s.memspace a) (s.memspace (a + 1)) (hex_words (words_ahead s (j + 1) k)) (h a)
      (h (a + 1))
    ∙ ap (λ d. two_digits (s.memspace a) ++ two_digits (s.memspace (a + 1)) ++ d)
        (words_ahead-digits s (j + 1) k h ∙ memory_digits-mod s.memspace _ _ k (omega arith))
