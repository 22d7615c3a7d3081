-- ===== src/Base/Words.antt =====
-- The integer conversions of C on bit patterns, and one-bit fields.
use Prim.Native.Nat.{ℕ, ◌+◌, ◌-◌, ◌*◌, ◌/◌, ◌%◌, ◌^◌, bit_and, compare, Ordering}
use mathlib.Core.Bool.{Bool, true, false}

abbrev pub u8 : ℕ → ℕ
u8 n = n % 2 ^ 8

abbrev pub u16 : ℕ → ℕ
u16 n = n % 2 ^ 16

abbrev pub u32 : ℕ → ℕ
u32 n = n % 2 ^ 32

-- The pattern in 32 bits of the `int16_t` with the given pattern in 16 bits.
abbrev pub sext16 : ℕ → ℕ
sext16 n = elim (compare n (2 ^ 15)) [ Ordering.lt ↦ n | _ ↦ n + (2 ^ 32 - 2 ^ 16) ]

-- The pattern in 32 bits of the `int8_t` with the given pattern in 8 bits.
abbrev pub sext8 : ℕ → ℕ
sext8 n = elim (compare n (2 ^ 7)) [ Ordering.lt ↦ n | _ ↦ n + (2 ^ 32 - 2 ^ 8) ]

infixl 75 ◌<<<◌ ◌>>>◌
abbrev pub ◌<<<◌ : ℕ → ℕ → ℕ
x <<< k = x * 2 ^ k

abbrev pub ◌>>>◌ : ℕ → ℕ → ℕ
x >>> k = x / 2 ^ k

-- A truth value as the number that C makes of it.
abbrev pub to_bit : Bool → ℕ
to_bit true = 1
to_bit false = 0

-- `x & m` as a condition.
abbrev pub has : ℕ → ℕ → Bool
has x m = elim (compare (bit_and x m) 0) [ Ordering.eq ↦ false | _ ↦ true ]
