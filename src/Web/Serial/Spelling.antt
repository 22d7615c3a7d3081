-- ===== src/Web/Serial/Spelling.antt =====
-- Texts of characters and of escaped bytes, and the bytes that they stand for.
use msp430_emulator.Base.{
  ℕ, suc, ◌+◌, ◌≡◌, ◌≢◌, false, List, [], ◌∷◌, ◌++◌, ◌==◌, u8, length, arith, refl,
}
use msp430_emulator.Web.Serial.{fed, digits, escape, next_byte, put_byte, feed}

-- A character that stands for itself, or a byte by two digits.
pub data Token : Type 0 where
  plain : ℕ → Token
  escaped : ℕ → ℕ → Token

abbrev pub spell : List Token → List ℕ
spell [] = []
spell (Token.plain c ∷ ts) = c ∷ spell ts
spell (Token.escaped x y ∷ ts) = b'\\' ∷ b'h' ∷ x ∷ y ∷ spell ts

differs : (a b : ℕ) → a ≢ b → (a == b) ≡ false
differs a b h = ground arith

module _ (strtoul : ℕ → ℕ → ℕ) where
  abbrev pub values : List Token → List ℕ
  values [] = []
  values (Token.plain c ∷ ts) = c ∷ values ts
  values (Token.escaped x y ∷ ts) = u8 (strtoul x y) ∷ values ts

  -- Neither a backslash nor the end of a line stands for itself, and no escaped byte is a carriage
  -- return.
  abbrev pub IsProper : List Token → Type 0
  IsProper [] = Unit
  IsProper (Token.plain c ∷ ts) = (c ≢ b'\\') × (c ≢ b'\n') × (c ≢ b'\r') × IsProper ts
  IsProper (Token.escaped x y ∷ ts) = (u8 (strtoul x y) ≢ b'\r') × IsProper ts

  -- A text of characters that stand for themselves, none of them a backslash or an end of line, and
  -- of bytes by two digits, none of them a carriage return, and then a newline, reaches the
  -- register as the bytes that it stands for and then a carriage return, in one round for each,
  -- whatever follows in the text.
  pub feed-spell :
      (ts : List Token) (rest : List ℕ) (more : ℕ)
      → IsProper ts
      → feed strtoul (length ts + suc more) (spell ts ++ b'\n' ∷ rest)
        ≡ fed (values ts ++ b'\r' ∷ [])
  unfolding feed next_byte put_byte escape digits
  feed-spell [] rest more h = let one : 0 + suc more ≡ suc more = omega arith in rw one refl
  feed-spell (Token.plain c ∷ ts) rest more h =
      let one : suc (length ts) + suc more ≡ suc (length ts + suc more) = omega arith in
      rw
        (
          one,
          differs c b'\\' h.0,
          differs c b'\n' h.1,
          differs c b'\r' h.2,
          feed-spell ts rest more h.3,
        )
        refl
  feed-spell (Token.escaped x y ∷ ts) rest more h =
      let one : suc (length ts) + suc more ≡ suc (length ts + suc more) = omega arith in
      rw (one, differs (u8 (strtoul x y)) b'\r' h.0, feed-spell ts rest more h.1) refl
