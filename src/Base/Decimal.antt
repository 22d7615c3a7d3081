-- ===== src/Base/Decimal.antt =====
-- Numbers in decimal digits, as `sprintf` with `%u` writes them and `strtoul` reads them.
use Prim.Native.Nat.{ℕ, zero, suc, ◌+◌, ◌-◌, ◌*◌, ◌/◌, ◌%◌, ◌^◌, ◌<◌}
use mathlib.Core.Path.{◌≡◌, refl, sym, ap, ◌∙◌}
use mathlib.Core.Bool.{Bool, true, false, ◌&&◌}
use mathlib.Core.List.{List, [], ◌∷◌, ◌++◌, append-nil, append_assoc}
use msp430_emulator.Base.Tests.{ltb, leb, if◌then◌else◌}
use native.Mathlib.Nat.{pow-suc}
use native.Mathlib.Omega.{arith}

abbrev pub digit : ℕ → ℕ
digit d = b'0' + d

-- The digits of a number below 10 ^ (fuel + 1).
unfoldable pub decimal_digits : ℕ → ℕ → List ℕ
decimal_digits zero n = digit (n % 10) ∷ []
decimal_digits (suc fuel) n =
    let rest = decimal_digits fuel (n / 10) in
    if ltb n 10 then digit n ∷ [] else rest ++ (digit (n % 10) ∷ [])

-- `%u` of an `unsigned int`, which has at most ten digits.
abbrev pub decimal : ℕ → List ℕ
decimal n = decimal_digits 9 n

-- `strtoul(s, NULL, 10)` of a text that starts with a digit, if it has any: it stops at the first
-- character that is no digit.
unfoldable pub read_decimal : ℕ → List ℕ → ℕ
read_decimal n [] = n
read_decimal n (c ∷ cs) =
    let rest = read_decimal (n * 10 + (c - b'0')) cs in if leb b'0' c && leb c b'9' then rest else n

read_decimal-digit :
    (n d : ℕ) (cs : List ℕ) → d < 10 → read_decimal n (digit d ∷ cs) ≡ read_decimal (n * 10 + d) cs
unfolding read_decimal
read_decimal-digit n d cs h =
    let value : b'0' + d - b'0' ≡ d = omega arith in rw value (ground arith)

read_decimal-append :
    (fuel n : ℕ) (cs : List ℕ)
    → n < 10 ^ suc fuel
    → read_decimal 0 (decimal_digits fuel n ++ cs) ≡ read_decimal n cs
unfolding decimal_digits
read_decimal-append zero n cs h =
    let one : n % 10 ≡ n = omega arith in
    rw one (read_decimal-digit 0 n cs (omega arith) ∙ ap (λ m. read_decimal m cs) (omega arith))
read_decimal-append (suc fuel) n cs h =
    chosen (ltb n 10) refl (
      read_decimal-append fuel (n / 10) (digit (n % 10) ∷ cs)
        (omega (arith, pow-suc 10 (suc fuel))))
  where
    rest : List ℕ
    rest = decimal_digits fuel (n / 10)

    chosen :
        (b : Bool)
        → ltb n 10 ≡ b
        → read_decimal 0 (rest ++ (digit (n % 10) ∷ cs))
          ≡ read_decimal (n / 10) (digit (n % 10) ∷ cs)
        → read_decimal 0 ((if b then digit n ∷ [] else rest ++ (digit (n % 10) ∷ [])) ++ cs)
          ≡ read_decimal n cs
    chosen true e before =
        read_decimal-digit 0 n cs (ground arith) ∙ ap (λ m. read_decimal m cs) (omega arith)
    chosen false e before =
        ap (read_decimal 0) (append_assoc rest (digit (n % 10) ∷ []) cs)
        ∙ before
        ∙ read_decimal-digit (n / 10) (n % 10) cs (omega arith)
        ∙ ap (λ m. read_decimal m cs) (omega arith)

-- A number that was printed is read back.
pub read_decimal-decimal : (n : ℕ) → n < 2 ^ 32 → read_decimal 0 (decimal n) ≡ n
unfolding read_decimal
read_decimal-decimal n h =
    ap (read_decimal 0) (sym (append-nil (decimal n))) ∙ read_decimal-append 9 n [] (omega arith)
