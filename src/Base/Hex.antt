-- ===== src/Base/Hex.antt =====
-- Numbers in upper-case hexadecimal digits, as `sprintf` with `%04X` writes them, and back.
use Prim.Native.Nat.{ℕ, zero, suc, ◌+◌, ◌-◌, ◌*◌, ◌/◌, ◌%◌, ◌^◌, ◌<◌}
use mathlib.Core.Path.{◌≡◌, refl}
use mathlib.Core.List.{List, [], ◌∷◌, ◌++◌}
use msp430_emulator.Base.Tests.{ltb, ◌==◌, if◌then◌else◌}
use msp430_emulator.Base.Lists.{length}
use native.Mathlib.Omega.{arith}

abbrev pub hex_digit : ℕ → ℕ
hex_digit d = if ltb d 10 then b'0' + d else d + 55

-- The digits of a number below 16 ^ `fuel` without leading zeros, none for zero.
unfoldable pub leading : ℕ → ℕ → List ℕ
leading zero n = []
leading (suc fuel) n =
    let rest = leading fuel (n / 16) in if n == 0 then [] else rest ++ (hex_digit (n % 16) ∷ [])

-- The four lowest digits.
unfoldable pub four_digits : ℕ → List ℕ
four_digits n =
    hex_digit (n / 2 ^ 12 % 16)
    ∷ hex_digit (n / 2 ^ 8 % 16)
    ∷ hex_digit (n / 2 ^ 4 % 16)
    ∷ hex_digit (n % 16)
    ∷ []

-- `%04X` of an `unsigned int`: four digits, or as many as the number has.
unfoldable pub hex : ℕ → List ℕ
hex n = leading 4 (n / 2 ^ 16) ++ four_digits n

-- `%02X` of a byte.
unfoldable pub two_digits : ℕ → List ℕ
two_digits b = hex_digit (b / 16 % 16) ∷ hex_digit (b % 16) ∷ []

-- The number that digits stand for.
abbrev pub digit_value : ℕ → ℕ
digit_value c = if ltb c 58 then c - b'0' else c - 55

unfoldable pub read_hex : ℕ → List ℕ → ℕ
read_hex n [] = n
read_hex n (c ∷ cs) = read_hex (n * 16 + digit_value c) cs

digit_value-hex_digit : (d : ℕ) → d < 16 → digit_value (hex_digit d) ≡ d
digit_value-hex_digit d h = ground arith

pub hex-four_digits : (n : ℕ) → n < 2 ^ 16 → hex n ≡ four_digits n
unfolding hex leading
hex-four_digits n h = let small : n / 2 ^ 16 ≡ 0 = omega arith in rw small refl

pub length-hex : (n : ℕ) → n < 2 ^ 16 → length (hex n) ≡ 4
unfolding four_digits
length-hex n h = rw (hex-four_digits n h) refl

-- A word that was printed is read back.
pub read_hex-hex : (n : ℕ) → n < 2 ^ 16 → read_hex 0 (hex n) ≡ n
unfolding read_hex four_digits
read_hex-hex n h =
    rw
      (
        hex-four_digits n h,
        digit_value-hex_digit (n / 2 ^ 12 % 16) (omega arith),
        digit_value-hex_digit (n / 2 ^ 8 % 16) (omega arith),
        digit_value-hex_digit (n / 2 ^ 4 % 16) (omega arith),
        digit_value-hex_digit (n % 16) (omega arith),
      )
      (omega arith)

-- The digits of a word are those of its bytes.
pub four_digits-bytes :
    (low high : ℕ)
    → low < 2 ^ 8
    → high < 2 ^ 8
    → four_digits (low + high * 2 ^ 8) ≡ two_digits high ++ two_digits low
unfolding four_digits two_digits
four_digits-bytes low high h k =
    let a : (low + high * 2 ^ 8) / 2 ^ 12 % 16 ≡ high / 16 % 16 = omega arith in
    let b : (low + high * 2 ^ 8) / 2 ^ 8 % 16 ≡ high % 16 = omega arith in
    let c : (low + high * 2 ^ 8) / 2 ^ 4 % 16 ≡ low / 16 % 16 = omega arith in
    let d : (low + high * 2 ^ 8) % 16 ≡ low % 16 = omega arith in rw (a, b, c, d) refl
