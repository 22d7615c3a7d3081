-- ===== src/Format2/Alu/Steps.antt =====
-- The stores and flags of the shifts of format II, and the arithmetic of their results.
use msp430_emulator.Base.{
  ℕ, ◌+◌, ◌/◌, ◌*◌, ◌%◌, ◌^◌, ◌<◌, Bool, true, false, ◌==◌, ltb, leb, ==_iff, passes, passes_lem,
  has, bit_and, bit_or, ◌≡◌, arith, refl, ap, fun_ext, u8, to_bit, update, ◌>>>◌, ◌<<<◌,
  if◌then◌else◌,
}
use msp430_emulator.Base.Bits.{
  has_bit, bit_and_mask, bit_or_disjoint, bit_or_shifted, bit_or_comm, bit_field,
}
use msp430_emulator.Base.Int.{pos, signed16, signed8, ◌+ℤ◌}
use msp430_emulator.Status.{StatusReg}
use msp430_emulator.Machine.{
  Machine, Loc, word, ok, reg, cell, bogus, null, store16, ◌>>◌, get16, put16,
}
use msp430_emulator.Machine.Store.{
  IsWord, IsWellFormed, load16-eq, store16-eq, get16-put16, load-eq, get_at-sr, sr-put_at,
}
use msp430_emulator.Flags.{is_zero, is_negative, sign_bit}
use msp430_emulator.Format2.Alu.{swpb, or16_if, shift_flags}

-- `t` is `s` with the result `r` behind `l`, Z and N set from it, C as given, and V reset.
pub record IsShifted (s : Machine) (l : Loc) (r : ℕ) (c : Bool) (t : Machine) : Type 0 where
  pub frame : t ≡ record (put16 s l r) { sr = t.sr }
  pub others :
      t.sr ≡ record s.sr { zero = r == 0; negative = leb (2 ^ 15) r; carry = c; overflow = false }

twice : (f : ℕ → ℕ) (n a b : ℕ) → update (update f n a) n b ≡ update f n b
twice f n a b = fun_ext (λ m. ground arith)

-- A word that is stored over another.
put16-put16 : (s : Machine) (l : Loc) (a b : ℕ) → put16 (put16 s l a) l b ≡ put16 s l b
put16-put16 s (reg n) a b i = record s { regs = twice s.regs n a b i }
put16-put16 s (cell n) a b i = record s { memspace = twice_word i }
  where
    twice_word :
        update
          (update (update (update s.memspace n (a % 2 ^ 8)) (n + 1) (a / 2 ^ 8)) n (b % 2 ^ 8))
          (n + 1)
          (b / 2 ^ 8)
        ≡ update (update s.memspace n (b % 2 ^ 8)) (n + 1) (b / 2 ^ 8)
    twice_word = fun_ext (λ m. ground arith)
put16-put16 s bogus a b i = put16 s bogus b
put16-put16 s null a b i = s

module _ (l : Loc) (s : Machine) (h : IsWord l) where
  swap :
      (v : ℕ)
      → v < 2 ^ 16
      → bit_or (u8 (bit_and v 0x00FF) <<< 8) (bit_and v 0xFF00 >>> 8)
        ≡ v % 2 ^ 8 * 2 ^ 8 + v / 2 ^ 8
  swap v p =
      rw (bit_field 8 8 v, bit_and_mask 8 v)
        (ground (arith, bit_or_disjoint 8 (v % 2 ^ 8) (v / 2 ^ 8) (omega arith)))

  pub swpb-eq :
      get16 s l < 2 ^ 16
      → swpb l s ≡ ok (tt, put16 s l (get16 s l % 2 ^ 8 * 2 ^ 8 + get16 s l / 2 ^ 8))
  unfolding swpb
  swpb-eq p = simp (load16-eq, store16-eq, h) (ap (λ r. ok (tt, put16 s l r)) (swap (get16 s l) p))

  -- The flags of a shift with the result `r`.
  abbrev pub shifted : ℕ → Machine
  shifted r = record (put16 s l r) {
    sr = record s.sr { zero = r == 0; negative = sign_bit word r; overflow = false };
  }

  shift_flags-eq :
      shift_flags word l s
      ≡ ok (
        tt,
        record s {
          sr = record s.sr {
            zero = get16 s l == 0;
            negative = sign_bit word (get16 s l);
            overflow = false;
          };
        },
      )
  unfolding shift_flags is_zero is_negative
  shift_flags-eq = simp (load-eq, get_at-sr word, h)

module _ (l : Loc) (s : Machine) (h : IsWord l) (x m : ℕ) where
  pub shift-eq :
      (b : Bool)
      → (store16 l x >> (or16_if b l m >> shift_flags word l)) s
        ≡ ok (tt, shifted l s h (if b then bit_or x m else x))
  unfolding or16_if
  shift-eq true =
      simp (store16-eq, load16-eq, shift_flags-eq, get16-put16, put16-put16, sr-put_at word, h)
  shift-eq false = simp (store16-eq, shift_flags-eq, get16-put16, sr-put_at word, h)

pub put16-sr :
    (s : Machine) (l : Loc) (r : ℕ) (a b : StatusReg)
    → ◌≡◌ {A = Machine}
        (record (put16 (record s { sr = a }) l r) { sr = b })
        (record (put16 s l r) { sr = b })
put16-sr s (reg n) r a b = refl
put16-sr s (cell n) r a b = refl
put16-sr s bogus r a b = refl
put16-sr s null r a b = refl

sign_word : (r : ℕ) → sign_bit word r ≡ leb (2 ^ 15) r
sign_word r = ground arith

-- A shift after the carry flag was set.
pub shifted-IsShifted :
    (l : Loc) (s : Machine) (h : IsWord l) (r : ℕ) (c : Bool)
    → IsShifted s l r c (shifted l (record s { sr = record s.sr { carry = c } }) h r)
shifted-IsShifted l s h r c = record { frame = put16-sr s l r _ _; others = rw (sign_word r) refl }

pub or_top :
    (b : Bool) (v : ℕ)
    → v < 2 ^ 16
    → (if b then bit_or (v / 2) 0x8000 else v / 2) ≡ v / 2 + to_bit b * 2 ^ 15
or_top true v p =
    rw (bit_or_comm (v / 2) 0x8000) (omega (arith, bit_or_disjoint 15 1 (v / 2) (omega arith)))
or_top false v p = omega arith

pub carry_bit : (v : ℕ) → has v 0x0001 ≡ (v % 2 == 1)
carry_bit v = rw (has_bit 0 v) (ground arith)

-- What SXT stores.
abbrev pub stored_of : ℕ → ℕ
stored_of v = if has v 0x0080 then bit_or v 0xFF00 else bit_and v 0x00FF

pub extended :
    (v : ℕ) → v < 2 ^ 16 → stored_of v ≡ (if ltb (u8 v) (2 ^ 7) then u8 v else u8 v + 0xFF00)
unfolding passes
extended v p =
    rw (has_bit 7 v, bit_and_mask 8 v, bit_or_shifted 8 v 255)
      (ground (arith, upper_ones (v / 2 ^ 8) (omega arith)))
  where
    upper_ones : (q : ℕ) → q < 2 ^ 8 → bit_or q 255 ≡ 255
    upper_ones q h =
        (==_iff (bit_or q 255) 255).0 (passes_lem (λ x. bit_or x 255 == 255) 256 q refl h)

pub extended_signed :
    (v : ℕ) → signed16 (if ltb (u8 v) (2 ^ 7) then u8 v else u8 v + 0xFF00) ≡ signed8 (u8 v)
extended_signed v = ground arith

pub halved :
    (v : ℕ)
    → v < 2 ^ 16
    → let r = v / 2 + to_bit (leb (2 ^ 15) v) * 2 ^ 15 in
      signed16 v ≡ signed16 r +ℤ signed16 r +ℤ pos (v % 2)
unfolding ◌+ℤ◌
halved v p = ground arith

-- A word that is stored where it was loaded.
put16-get16 : (s : Machine) (l : Loc) → IsWellFormed s → put16 s l (get16 s l) ≡ s
put16-get16 s (reg n) w i = record s { regs = same i }
  where
    same : update s.regs n (s.regs n) ≡ s.regs
    same = fun_ext (λ m. ground arith)
put16-get16 s (cell n) w i = record s { memspace = same i }
  where
    same : (put16 s (cell n) (get16 s (cell n))).memspace ≡ s.memspace
    same = fun_ext (λ m. ground (arith, w.bytes_fit n, w.bytes_fit (n + 1)))
put16-get16 s bogus w i = s
put16-get16 s null w i = s

pub put16-back :
    (s : Machine) (l : Loc) (v r : ℕ) → IsWellFormed s → r ≡ get16 s l → put16 (put16 s l v) l r ≡ s
put16-back s l v r w e = rw (put16-put16 s l v r, e) (put16-get16 s l w)
