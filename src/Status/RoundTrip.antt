-- ===== src/Status/RoundTrip.antt =====
-- The status word against the fields of the status register.
use msp430_emulator.Base.{
  ℕ, suc, ◌∙◌, ◌+◌, ◌*◌, ◌%◌, ◌/◌, ◌≡◌, refl, ◌^◌, ◌<◌, ◌≤◌, arith, Bool, to_bit, ◌==◌, passes,
  passes_lem, ==_iff, true,
}
use msp430_emulator.Base.Bits.{bit_or_disjoint, has_bit}
use native.Mathlib.Nat.{pow-suc, one-le-pow}
use msp430_emulator.Status.{
  StatusReg, set_sr_value, sr_to_value, reserved_of, named_value, reserved_value, or_if,
}

-- Adding one bit below a multiple of the next power of two.
or_if-add :
    (k : ℕ) (c : Bool) (r : ℕ) → r % 2 ^ suc k ≡ 0 → or_if c (2 ^ k) r ≡ r + to_bit c * 2 ^ k
or_if-add k c r h =
    ground (arith, bit_or_disjoint (suc k) (r / 2 ^ suc k) (2 ^ k), pow-suc 2 k, one-le-pow k 2)

reserved_value_table : passes (λ r. reserved_value r == r * 512) 128 ≡ true
unfolding passes reserved_value
reserved_value_table = refl

reserved_value_lem : (r : ℕ) → r < 128 → reserved_value r ≡ r * 512
reserved_value_lem r h = (==_iff _ _).0 (passes_lem _ 128 r reserved_value_table h)

reserved_of_lem : (v : ℕ) → reserved_of v ≡ 0
unfolding reserved_of
reserved_of_lem v = ground arith

-- The value of the register word, as a sum.
named_value_lem :
    (sr : StatusReg) (q : ℕ)
    → named_value sr (q * 512)
      ≡ q * 512
        + to_bit sr.overflow * 256
        + to_bit sr.scg1 * 128
        + to_bit sr.scg0 * 64
        + to_bit sr.oscoff * 32
        + to_bit sr.cpuoff * 16
        + to_bit sr.gie * 8
        + to_bit sr.negative * 4
        + to_bit sr.zero * 2
        + to_bit sr.carry
unfolding named_value
named_value_lem sr q =
    rw
      (
        or_if-add 8 sr.overflow (q * 512) (omega arith),
        or_if-add 7 sr.scg1 (q * 512 + to_bit sr.overflow * 256) (omega arith),
        or_if-add 6 sr.scg0 (q * 512 + to_bit sr.overflow * 256 + to_bit sr.scg1 * 128)
            (omega arith),
        or_if-add 5 sr.oscoff
            (q * 512 + to_bit sr.overflow * 256 + to_bit sr.scg1 * 128 + to_bit sr.scg0 * 64)
            (omega arith),
        or_if-add 4 sr.cpuoff
            (q * 512
              + to_bit sr.overflow * 256
              + to_bit sr.scg1 * 128
              + to_bit sr.scg0 * 64
              + to_bit sr.oscoff * 32)
            (omega arith),
        or_if-add 3 sr.gie
            (q * 512
              + to_bit sr.overflow * 256
              + to_bit sr.scg1 * 128
              + to_bit sr.scg0 * 64
              + to_bit sr.oscoff * 32
              + to_bit sr.cpuoff * 16)
            (omega arith),
        or_if-add 2 sr.negative
            (q * 512
              + to_bit sr.overflow * 256
              + to_bit sr.scg1 * 128
              + to_bit sr.scg0 * 64
              + to_bit sr.oscoff * 32
              + to_bit sr.cpuoff * 16
              + to_bit sr.gie * 8)
            (omega arith),
        or_if-add 1 sr.zero
            (q * 512
              + to_bit sr.overflow * 256
              + to_bit sr.scg1 * 128
              + to_bit sr.scg0 * 64
              + to_bit sr.oscoff * 32
              + to_bit sr.cpuoff * 16
              + to_bit sr.gie * 8
              + to_bit sr.negative * 4)
            (omega arith),
        or_if-add 0 sr.carry
            (q * 512
              + to_bit sr.overflow * 256
              + to_bit sr.scg1 * 128
              + to_bit sr.scg0 * 64
              + to_bit sr.oscoff * 32
              + to_bit sr.cpuoff * 16
              + to_bit sr.gie * 8
              + to_bit sr.negative * 4
              + to_bit sr.zero * 2)
            (omega arith),
      )
      (omega arith)

-- The nine bits of a word are tested one by one.
set_sr_value_lem :
    (v : ℕ)
    → set_sr_value v ≡ record {
      reserved = 0;
      overflow = v / 256 % 2 == 1;
      scg1 = v / 128 % 2 == 1;
      scg0 = v / 64 % 2 == 1;
      oscoff = v / 32 % 2 == 1;
      cpuoff = v / 16 % 2 == 1;
      gie = v / 8 % 2 == 1;
      negative = v / 4 % 2 == 1;
      zero = v / 2 % 2 == 1;
      carry = v % 2 == 1;
    }
unfolding set_sr_value
set_sr_value_lem v = ground (
  arith,
  reserved_of_lem v,
  has_bit 8 v,
  has_bit 7 v,
  has_bit 6 v,
  has_bit 5 v,
  has_bit 4 v,
  has_bit 3 v,
  has_bit 2 v,
  has_bit 1 v,
  has_bit 0 v,
)

pub sr_to_value_lem :
    (sr : StatusReg)
    → sr.reserved < 128
    → sr_to_value sr
      ≡ sr.reserved * 512
        + to_bit sr.overflow * 256
        + to_bit sr.scg1 * 128
        + to_bit sr.scg0 * 64
        + to_bit sr.oscoff * 32
        + to_bit sr.cpuoff * 16
        + to_bit sr.gie * 8
        + to_bit sr.negative * 4
        + to_bit sr.zero * 2
        + to_bit sr.carry
unfolding sr_to_value
sr_to_value_lem sr h = rw (reserved_value_lem sr.reserved h) (named_value_lem sr sr.reserved)

bit_of : (n : ℕ) → n < 2 → to_bit (n == 1) ≡ n
bit_of n h = ground arith

bit_is : (b : Bool) → (to_bit b == 1) ≡ b
bit_is b = ground arith

to_bit-le : (b : Bool) → to_bit b ≤ 1
to_bit-le b = ground arith

back : (n : ℕ) (b : Bool) → n ≡ to_bit b → (n == 1) ≡ b
back n b e = rw e (bit_is b)

-- Writing a word to the status register and reading it back keeps the nine named bits and loses the
-- seven reserved ones.
pub sr_to_value-set_sr_value : (v : ℕ) → sr_to_value (set_sr_value v) ≡ v % 2 ^ 9
sr_to_value-set_sr_value v = rw (set_sr_value_lem v) (
    sr_to_value_lem _ (omega arith)
    ∙ rw
        (
          bit_of (v / 256 % 2) (omega arith),
          bit_of (v / 128 % 2) (omega arith),
          bit_of (v / 64 % 2) (omega arith),
          bit_of (v / 32 % 2) (omega arith),
          bit_of (v / 16 % 2) (omega arith),
          bit_of (v / 8 % 2) (omega arith),
          bit_of (v / 4 % 2) (omega arith),
          bit_of (v / 2 % 2) (omega arith),
          bit_of (v % 2) (omega arith),
        )
        (omega arith))

-- Reading the status register and writing the word back restores every named bit and clears the
-- reserved field, if that fits seven bits.
pub set_sr_value-sr_to_value :
    (sr : StatusReg)
    → sr.reserved < 2 ^ 7
    → set_sr_value (sr_to_value sr) ≡ record sr { reserved = 0 }
set_sr_value-sr_to_value sr h = set_sr_value_lem (sr_to_value sr) ∙ λ i. record {
  reserved = 0;
  overflow =
      back (sr_to_value sr / 256 % 2) sr.overflow (omega (arith, sr_to_value_lem sr h, to_bit-le))
        i;
  scg1 = back (sr_to_value sr / 128 % 2) sr.scg1 (omega (arith, sr_to_value_lem sr h, to_bit-le)) i;
  scg0 = back (sr_to_value sr / 64 % 2) sr.scg0 (omega (arith, sr_to_value_lem sr h, to_bit-le)) i;
  oscoff =
      back (sr_to_value sr / 32 % 2) sr.oscoff (omega (arith, sr_to_value_lem sr h, to_bit-le)) i;
  cpuoff =
      back (sr_to_value sr / 16 % 2) sr.cpuoff (omega (arith, sr_to_value_lem sr h, to_bit-le)) i;
  gie = back (sr_to_value sr / 8 % 2) sr.gie (omega (arith, sr_to_value_lem sr h, to_bit-le)) i;
  negative =
      back (sr_to_value sr / 4 % 2) sr.negative (omega (arith, sr_to_value_lem sr h, to_bit-le)) i;
  zero = back (sr_to_value sr / 2 % 2) sr.zero (omega (arith, sr_to_value_lem sr h, to_bit-le)) i;
  carry = back (sr_to_value sr % 2) sr.carry (omega (arith, sr_to_value_lem sr h, to_bit-le)) i;
}

-- The status word fits 16 bits.
pub sr_to_value-lt : (sr : StatusReg) → sr.reserved < 2 ^ 7 → sr_to_value sr < 2 ^ 16
sr_to_value-lt sr h = ground (arith, sr_to_value_lem sr h)

-- A word that is written leaves a reserved field that fits.
pub set_sr_value-lt : (value : ℕ) → (set_sr_value value).reserved < 2 ^ 7
unfolding set_sr_value
set_sr_value-lt value = omega (arith, reserved_of_lem value)

-- Writing a word to the status register and reading it back keeps the nine named bits and loses the
-- seven reserved ones; reading the status register, with a reserved field of seven bits, and
-- writing the word back keeps every named bit and clears the reserved field.
pub value_round_trips :
    (v : ℕ) (sr : StatusReg)
    → sr.reserved < 2 ^ 7
    → (sr_to_value (set_sr_value v) ≡ v % 2 ^ 9)
      × (set_sr_value (sr_to_value sr) ≡ record sr { reserved = 0 })
value_round_trips v sr h = (sr_to_value-set_sr_value v, set_sr_value-sr_to_value sr h)
