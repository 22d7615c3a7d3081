-- ===== src/Base/Bits.antt =====
-- Bit operations as arithmetic: masks, single bits, disjoint fields and bounds, at every width.
use Prim.Native.Nat.{ℕ, zero, suc, ◌+◌, ◌-◌, ◌*◌, ◌/◌, ◌%◌, ◌^◌, ◌≤◌, ◌<◌, min, max}
use Prim.Native.Nat.{bit_and, bit_or, bit_xor, digits, bitwise}
use Prim.Native.Nat.{differ, bit_and-bitwise, bit_or-bitwise, bit_xor-bitwise}
use msp430_emulator.Base.Tests.{◌==◌}
use native.Mathlib.Decide.{dec_lt}
use msp430_emulator.Base.Words.{has}
use mathlib.Core.Path.{◌≡◌, refl, ap}
use native.Mathlib.Nat.{le_refl, pow-suc, pow-succ', one-le-pow, div-div-eq-div-mul, mul-div_cancel}
use native.Mathlib.Omega.{arith}

-- The operations are a recursion on binary digits with fuel; any fuel from the first number on
-- gives the same.
module _ (z : ℕ → ℕ) (f : ℕ → ℕ → ℕ) where
  fuel_enough : (n m a b : ℕ) → a ≤ n → a ≤ m → digits z f n a b ≡ digits z f m a b
  fuel_enough zero zero a b p q = refl
  fuel_enough zero (suc m) zero b p q = refl
  fuel_enough zero (suc m) (suc a) b p q = absurd (omega arith)
  fuel_enough (suc n) zero zero b p q = refl
  fuel_enough (suc n) zero (suc a) b p q = absurd (omega arith)
  fuel_enough (suc n) (suc m) zero b p q = refl
  fuel_enough (suc n) (suc m) (suc a) b p q =
      rw (fuel_enough n m (suc a / 2) (b / 2) (omega arith) (omega arith))

  lowest_digit :
      (a b : ℕ)
      → bitwise z f (suc a) b ≡ bitwise z f (suc a / 2) (b / 2) * 2 + f (suc a % 2) (b % 2)
  lowest_digit a b =
      omega (arith, fuel_enough a (suc a / 2) (suc a / 2) (b / 2) (omega arith) (le_refl _))

pub bit_and_digit : (a b : ℕ) → bit_and a b ≡ bit_and (a / 2) (b / 2) * 2 + min (a % 2) (b % 2)
bit_and_digit zero b = simp bit_and-bitwise (omega arith)
bit_and_digit (suc a) b = simp bit_and-bitwise (lowest_digit (λ y. 0) min a b)

pub bit_or_digit : (a b : ℕ) → bit_or a b ≡ bit_or (a / 2) (b / 2) * 2 + max (a % 2) (b % 2)
bit_or_digit zero b = simp bit_or-bitwise (omega arith)
bit_or_digit (suc a) b = simp bit_or-bitwise (lowest_digit (λ y. y) max a b)

pub bit_xor-zero : (b : ℕ) → bit_xor 0 b ≡ b
bit_xor-zero b = simp bit_xor-bitwise refl

-- By the digits of both numbers: what fits `k` bits stays in `k` bits.
pub bit_or-lt : (k a b : ℕ) → a < 2 ^ k → b < 2 ^ k → bit_or a b < 2 ^ k
bit_or-lt zero a b p q =
    omega (arith, bit_or_digit a b, bit_or_zeros (a / 2) (b / 2) (omega arith) (omega arith))
  where
    bit_or_zeros : (x y : ℕ) → x ≡ 0 → y ≡ 0 → bit_or x y ≡ 0
    bit_or_zeros x y p q = rw (p, q)
bit_or-lt (suc k) a b p q = omega (
  arith,
  pow-suc 2 k,
  bit_or_digit a b,
  bit_or-lt k (a / 2) (b / 2) (omega (arith, pow-suc 2 k)) (omega (arith, pow-suc 2 k)),
)

pub bit_xor_digit : (a b : ℕ) → bit_xor a b ≡ bit_xor (a / 2) (b / 2) * 2 + differ (a % 2) (b % 2)
bit_xor_digit zero b = simp bit_xor-bitwise (omega arith)
bit_xor_digit (suc a) b = simp bit_xor-bitwise (lowest_digit (λ y. y) differ a b)

differ-lt : (x y : ℕ) → x < 2 → y < 2 → differ x y < 2
differ-lt zero y p q = q
differ-lt (suc x) zero p q = p
differ-lt (suc x) (suc zero) p q = ground arith
differ-lt (suc x) (suc (suc y)) p q = absurd (omega arith)

pub bit_xor-lt : (k a b : ℕ) → a < 2 ^ k → b < 2 ^ k → bit_xor a b < 2 ^ k
bit_xor-lt zero a b p q = zeros a b (omega arith) (omega arith)
  where
    zeros : (x y : ℕ) → x ≡ 0 → y ≡ 0 → bit_xor x y < 1
    zeros x y p q = rw (p, q) (omega arith)
bit_xor-lt (suc k) a b p q = omega (
  arith,
  pow-suc 2 k,
  bit_xor_digit a b,
  differ-lt (a % 2) (b % 2) (omega arith) (omega arith),
  bit_xor-lt k (a / 2) (b / 2) (omega (arith, pow-suc 2 k)) (omega (arith, pow-suc 2 k)),
)

bit_and-le_fuel : (n a b : ℕ) → a ≤ n → (bit_and a b ≤ a) × (bit_and a b ≤ b)
bit_and-le_fuel n zero b h = simp bit_and-bitwise (omega arith, omega arith)
bit_and-le_fuel zero (suc a) b h = absurd (omega arith)
bit_and-le_fuel (suc n) (suc a) b h =
    omega (arith, bit_and_digit (suc a) b, bit_and-le_fuel n (suc a / 2) (b / 2) (omega arith))

pub bit_and-le : (a b : ℕ) → (bit_and a b ≤ a) × (bit_and a b ≤ b)
bit_and-le a b = bit_and-le_fuel a a b (le_refl a)

bit_or_comm_fuel : (n a b : ℕ) → a ≤ n → b ≤ n → bit_or a b ≡ bit_or b a
bit_or_comm_fuel zero zero zero p q = refl
bit_or_comm_fuel zero zero (suc b) p q = absurd (omega arith)
bit_or_comm_fuel zero (suc a) b p q = absurd (omega arith)
bit_or_comm_fuel (suc n) a b p q = omega (
  arith,
  bit_or_digit a b,
  bit_or_digit b a,
  bit_or_comm_fuel n (a / 2) (b / 2) (omega arith) (omega arith),
)

pub bit_or_comm : (a b : ℕ) → bit_or a b ≡ bit_or b a
bit_or_comm a b = bit_or_comm_fuel (a + b) a b (omega arith) (omega arith)

pub bit_or-zero : (a : ℕ) → bit_or a 0 ≡ a
bit_or-zero a = rw (bit_or_comm a 0) (simp bit_or-bitwise refl)

twice_pow : (q k : ℕ) → q * 2 ^ suc k ≡ 2 * (q * 2 ^ k)
twice_pow q k = omega (arith, ap (λ (t : ℕ). q * t) (pow-suc 2 k))

-- Above `k` zero digits an or with a number of `k` digits is a sum.
pub bit_or_disjoint : (k q r : ℕ) → r < 2 ^ k → bit_or (q * 2 ^ k) r ≡ q * 2 ^ k + r
bit_or_disjoint zero q r h = ground (arith, bit_or-zero q)
bit_or_disjoint (suc k) q r h = ground (
  arith,
  pow-suc 2 k,
  twice_pow q k,
  bit_or_digit (q * 2 ^ suc k) r,
  bit_or_disjoint k q (r / 2) (omega (arith, pow-suc 2 k)),
)

-- A mask shifted up by `k` selects from the digits above the lowest `k`.
pub bit_and_shifted : (k a m : ℕ) → bit_and a (m * 2 ^ k) ≡ bit_and (a / 2 ^ k) m * 2 ^ k
bit_and_shifted zero a m = rw (one_mul m, div_one a) (omega arith)
  where
    one_mul : (n : ℕ) → n * 1 ≡ n
    one_mul n = omega arith

    div_one : (n : ℕ) → n / 1 ≡ n
    div_one n = omega arith
bit_and_shifted (suc k) a m = ground (
  arith,
  twice_pow m k,
  twice_pow (bit_and (a / 2 ^ suc k) m) k,
  bit_and_digit a (m * 2 ^ suc k),
  bit_and_shifted k (a / 2) m,
  pow-succ' 2 k,
  div-div-eq-div-mul a 2 (2 ^ k),
)

pub bit_and-zero : (a : ℕ) → bit_and a 0 ≡ 0
bit_and-zero a = omega (arith, bit_and-le a 0)

-- A mask of `k` low ones keeps the field below the multiples of `2 ^ k`.
bit_and_low : (k q r : ℕ) → r < 2 ^ k → bit_and (q * 2 ^ k + r) (2 ^ k - 1) ≡ r
bit_and_low zero q r h = rw bit_and-zero (omega arith)
bit_and_low (suc k) q r h = ground (
  arith,
  bit_and_digit (q * 2 ^ suc k + r) (2 ^ suc k - 1),
  twice_pow q k,
  pow-suc 2 k,
  one-le-pow k 2,
  bit_and_low k q (r / 2) (omega (arith, pow-suc 2 k)),
)

-- A mask of `k` low ones is the remainder by `2 ^ k`.
pub bit_and_mask : (k a : ℕ) → bit_and a (2 ^ k - 1) ≡ a % 2 ^ k
bit_and_mask k a = ground (arith, one-le-pow k 2, bit_and_low k (a / 2 ^ k) (a % 2 ^ k))

-- A single bit.
pub bit_and_bit : (k a : ℕ) → bit_and a (2 ^ k) ≡ a / 2 ^ k % 2 * 2 ^ k
bit_and_bit k a = ground (arith, bit_and_shifted k a 1, bit_and_mask 1 (a / 2 ^ k))

-- A test of one bit.
pub has_bit : (k a : ℕ) → has a (2 ^ k) ≡ (a / 2 ^ k % 2 == 1)
has_bit k a = elim (dec_lt 0 (a / 2 ^ k % 2)) [
  | yes p ↦
      let one : a / 2 ^ k % 2 ≡ 1 = omega arith in
      rw one (ground (arith, bit_and_bit k a, one-le-pow k 2, ap (λ t. t * 2 ^ k) one))
  | no p ↦
      let none : a / 2 ^ k % 2 ≡ 0 = omega arith in
      rw none (ground (arith, bit_and_bit k a, ap (λ t. t * 2 ^ k) none))
]

-- A field of `j` bits above the lowest `k`, masked and shifted down.
pub bit_field : (k j a : ℕ) → bit_and a ((2 ^ j - 1) * 2 ^ k) / 2 ^ k ≡ a / 2 ^ k % 2 ^ j
bit_field k j a =
    rw (bit_and_shifted k a (2 ^ j - 1), bit_and_mask j (a / 2 ^ k))
      (mul-div_cancel (a / 2 ^ k % 2 ^ j) (one-le-pow k 2 (omega arith)))

-- The remainder by a power of two, from its lowest digit on.
mod_digit : (k a : ℕ) → a % 2 ^ suc k ≡ a / 2 % 2 ^ k * 2 + a % 2
mod_digit k a = ground (
  arith,
  pow-suc 2 k,
  pow-succ' 2 k,
  one-le-pow k 2 (omega arith),
  div-div-eq-div-mul a 2 (2 ^ k),
)

-- Ones above the lowest `k` digits leave those alone.
pub bit_or_shifted : (k a m : ℕ) → bit_or a (m * 2 ^ k) ≡ bit_or (a / 2 ^ k) m * 2 ^ k + a % 2 ^ k
bit_or_shifted zero a m = rw (one_mul m, div_one a) (omega arith)
  where
    one_mul : (n : ℕ) → n * 1 ≡ n
    one_mul n = omega arith

    div_one : (n : ℕ) → n / 1 ≡ n
    div_one n = omega arith
bit_or_shifted (suc k) a m = ground (
  arith,
  twice_pow m k,
  twice_pow (bit_or (a / 2 ^ suc k) m) k,
  bit_or_digit a (m * 2 ^ suc k),
  bit_or_shifted k (a / 2) m,
  mod_digit k a,
  pow-succ' 2 k,
  div-div-eq-div-mul a 2 (2 ^ k),
)
