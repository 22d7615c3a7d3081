-- ===== src/Boot/Contents.antt =====
-- What the memory holds after bytes were stored.
use msp430_emulator.Base.{
  ℕ, zero, suc, ◌+◌, ◌<◌, ◌≤◌, ◌^◌, ◌%◌, ◌≡◌, true, some, List, [], ◌∷◌, length, get_elem?, take,
  update, arith, refl, ◌∙◌,
}
use msp430_emulator.Emulator.Kept.{IsBytes}
use msp430_emulator.Boot.Bootloader.{are_bytes}
use msp430_emulator.Boot.{continued, exited, store_bytes, read_firmware}

pub store_bytes-below :
    (bs : List ℕ) (a : ℕ) (m : ℕ → ℕ) (x : ℕ) → x < a → store_bytes bs a m x ≡ m x
unfolding store_bytes
store_bytes-below [] a m x h = refl
store_bytes-below (b ∷ bs) a m x h =
    store_bytes-below bs (a + 1) (update m a b) x (omega arith) ∙ ground arith

pub store_bytes-above :
    (bs : List ℕ) (a : ℕ) (m : ℕ → ℕ) (x : ℕ) → a + length bs ≤ x → store_bytes bs a m x ≡ m x
unfolding store_bytes
store_bytes-above [] a m x h = refl
store_bytes-above (b ∷ bs) a m x h =
    store_bytes-above bs (a + 1) (update m a b) x (omega arith) ∙ ground arith

pub store_bytes-at :
    (bs : List ℕ) (a : ℕ) (m : ℕ → ℕ) (i b : ℕ)
    → get_elem? bs i ≡ some b
    → store_bytes bs a m (a + i) ≡ b
unfolding store_bytes
store_bytes-at [] a m i b h = cc
store_bytes-at (c ∷ bs) a m zero b h =
    store_bytes-below bs (a + 1) (update m a c) (a + 0) (omega arith) ∙ ground arith
store_bytes-at (c ∷ bs) a m (suc i) b h =
    let there : store_bytes bs (a + 1) (update m a c) (a + 1 + i) ≡ b =
      store_bytes-at bs (a + 1) (update m a c) i b h in
    let same : a + suc i ≡ a + 1 + i = omega arith in rw same there

pub store_bytes-IsBytes :
    (bs : List ℕ) (a : ℕ) (m : ℕ → ℕ)
    → are_bytes bs ≡ true
    → IsBytes m
    → IsBytes (store_bytes bs a m)
unfolding store_bytes
store_bytes-IsBytes [] a m h fit = fit
store_bytes-IsBytes (b ∷ bs) a m h fit =
    store_bytes-IsBytes bs (a + 1) (update m a b) (ground arith) (λ x. ground (arith, fit x))

-- `take` of all.
pub take-length : (bs : List ℕ) (n : ℕ) → length bs ≤ n → take n bs ≡ bs
take-length [] zero h = refl
take-length [] (suc n) h = refl
take-length (b ∷ bs) zero h = absurd (omega arith)
take-length (b ∷ bs) (suc n) h = rw (take-length bs n (omega arith))

pub get_elem?-lt : (bs : List ℕ) (i b : ℕ) → get_elem? bs i ≡ some b → i < length bs
get_elem?-lt [] i b h = cc
get_elem?-lt (c ∷ bs) zero b h = omega arith
get_elem?-lt (c ∷ bs) (suc i) b h = omega (arith, get_elem?-lt bs i b h)

module _ (file : List ℕ) (m : ℕ → ℕ) where
  pub read_firmware-big :
      0x4000 < length file → length file < 2 ^ 32 → read_firmware file 0xC000 m ≡ exited
  unfolding read_firmware
  read_firmware-big h k = ground arith

  pub read_firmware-small :
      length file ≤ 0x4000 → read_firmware file 0xC000 m ≡ continued (store_bytes file 0xC000 m)
  unfolding read_firmware
  read_firmware-small h =
      let size : length file % 2 ^ 32 ≡ length file = omega arith in
      rw (size, take-length file (length file) (omega arith)) (ground arith)
