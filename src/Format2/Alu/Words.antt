-- ===== src/Format2/Alu/Words.antt =====
-- The word forms of RRC, RRA, SXT and SWPB: results and flags.
use msp430_emulator.Base.{
  ℕ, ◌+◌, ◌/◌, ◌*◌, ◌%◌, ◌^◌, Bool, false, not, ◌==◌, ltb, leb, ◌≡◌, arith, ap, sym, ◌∙◌, u8,
  to_bit, ◌>>>◌, if◌then◌else◌,
}
use msp430_emulator.Base.Bits.{}
use msp430_emulator.Base.Int.{pos, signed16, signed8, ◌+ℤ◌}
use msp430_emulator.Machine.{Machine, Loc, word, ok, get16, put16}
use msp430_emulator.Machine.Store.{
  IsWord, IsWellFormed, get16-lt, load16-eq, store16-eq, get16-put16, load-eq, get_at-sr, sr-put_at,
}
use msp430_emulator.Flags.{is_zero, is_negative, sign_bit}
use msp430_emulator.Format2.Alu.{rrc, rra, sxt, swpb}
use msp430_emulator.Format2.Alu.Steps.{
  IsShifted, swpb-eq, shifted, shift-eq, put16-sr, shifted-IsShifted, or_top, carry_bit, stored_of,
  extended, extended_signed, halved, put16-back,
}

module _ (l : Loc) (s : Machine) (w : IsWellFormed s) (h : IsWord l) where
  abbrev with_carry : Bool → Machine
  with_carry c = record s { sr = record s.sr { carry = c } }

  rrc-eq :
      rrc word l s
      ≡ ok (
        tt,
        shifted l (with_carry (get16 s l % 2 == 1)) h (get16 s l / 2 + to_bit s.sr.carry * 2 ^ 15),
      )
  unfolding rrc
  rrc-eq =
      simp (load16-eq, h, carry_bit)
        (shift-eq l (with_carry (get16 s l % 2 == 1)) h (get16 s l / 2) 0x8000 s.sr.carry
          ∙ ap (λ r. ok (tt, shifted l (with_carry (get16 s l % 2 == 1)) h r))
              (or_top s.sr.carry (get16 s l) (get16-lt s l w)))

  msb : (v : ℕ) → not (v >>> 15 == 0) ≡ leb (2 ^ 15) v
  msb v = ground arith

  rra-eq :
      rra word l s
      ≡ ok (
        tt,
        shifted l
            (with_carry (get16 s l % 2 == 1))
            h
            (get16 s l / 2 + to_bit (leb (2 ^ 15) (get16 s l)) * 2 ^ 15),
      )
  unfolding rra
  rra-eq =
      simp (load16-eq, h, carry_bit, msb)
        (shift-eq l (with_carry (get16 s l % 2 == 1)) h (get16 s l / 2) 0x8000
            (leb (2 ^ 15) (get16 s l))
          ∙ ap (λ r. ok (tt, shifted l (with_carry (get16 s l % 2 == 1)) h r))
              (or_top (leb (2 ^ 15) (get16 s l)) (get16 s l) (get16-lt s l w)))

  abbrev extension : ℕ
  extension = if ltb (u8 (get16 s l)) (2 ^ 7) then u8 (get16 s l) else u8 (get16 s l) + 0xFF00

  extension_flags :
      (x : ℕ)
      → ◌≡◌ {A = Machine}
          (record (put16 s l x) {
            sr = record s.sr {
              negative = sign_bit word x;
              zero = x == 0;
              carry = not (x == 0);
              overflow = false;
            };
          })
          (shifted l (with_carry (not (x == 0))) h x)
  extension_flags x = sym (put16-sr s l x _ _)

  sxt-eq : sxt l s ≡ ok (tt, shifted l (with_carry (not (extension == 0))) h extension)
  unfolding sxt is_negative is_zero
  sxt-eq =
      simp (load16-eq, store16-eq, load-eq, get_at-sr word, get16-put16, sr-put_at word, h)
        (ap (λ t. ok (tt, t)) (extension_flags (stored_of (get16 s l)))
          ∙ ap (λ x. ok (tt, shifted l (with_carry (not (x == 0))) h x))
              (extended (get16 s l) (get16-lt s l w)))

  -- In a well-formed machine, for an operand to which a word can be stored, RRC of a word rotates
  -- the 17 bits of the carry flag and the word to the right by one; Z and N are set from the new
  -- word, and V is reset.
  pub rrc_word :
      let v = get16 s l in
      (t : Machine) × (rrc word l s ≡ ok (tt, t))
      × IsShifted s l (v / 2 + to_bit s.sr.carry * 2 ^ 15) (v % 2 == 1) t
  rrc_word = (_, rrc-eq, shifted-IsShifted l s h _ _)

  -- In a well-formed machine, for an operand to which a word can be stored, RRA of a word halves it
  -- as a signed number, rounded down, with the remainder in C; Z and N are set from the new word,
  -- and V is reset.
  pub rra_word :
      let v = get16 s l in
      (r : ℕ) × (t : Machine) × (rra word l s ≡ ok (tt, t))
      × IsShifted s l r (v % 2 == 1) t
      × (signed16 v ≡ signed16 r +ℤ signed16 r +ℤ pos (v % 2))
  rra_word = (_, _, rra-eq, shifted-IsShifted l s h _ _, halved (get16 s l) (get16-lt s l w))

  -- In a well-formed machine, for an operand to which a word can be stored, SXT gives the word that
  -- stands for the same number as the low byte did, sets Z and N from it, C to the opposite of Z,
  -- and resets V.
  pub sxt_word :
      let v = get16 s l in
      (r : ℕ) × (t : Machine) × (sxt l s ≡ ok (tt, t))
      × IsShifted s l r (not (r == 0)) t
      × (signed16 r ≡ signed8 (u8 v))
  sxt_word = (_, _, sxt-eq, shifted-IsShifted l s h _ _, extended_signed (get16 s l))

  abbrev swapped : ℕ
  swapped = get16 s l % 2 ^ 8 * 2 ^ 8 + get16 s l / 2 ^ 8

  -- In a well-formed machine, for an operand to which a word can be stored, SWPB exchanges the
  -- bytes, and a second SWPB restores the machine, so that it changes no flag.
  pub swpb-swpb :
      (t : Machine) × (swpb l s ≡ ok (tt, t))
      × (get16 t l ≡ get16 s l % 2 ^ 8 * 2 ^ 8 + get16 s l / 2 ^ 8)
      × (swpb l t ≡ ok (tt, s))
  swpb-swpb = (
    _,
    swpb-eq l s h (get16-lt s l w),
    get16-put16 s l _ h,
    rw
        (swpb-eq l (put16 s l swapped) h
          (rw (get16-put16 s l swapped h) (omega (arith, get16-lt s l w))))
        (ap (λ m. ok (tt, m))
          (put16-back s l swapped _ w
            (rw (get16-put16 s l swapped h) (omega (arith, get16-lt s l w))))),
  )

  -- In a well-formed machine, for an operand to which a word can be stored, none of RRC and RRA of
  -- a word, SXT and SWPB runs into a fault. RRC rotates the 17 bits of the carry flag and the word
  -- to the right by one. RRA halves the word as a signed number, rounded down, with the remainder
  -- in C. SXT gives the word that stands for the same number as the low byte did, with C the
  -- opposite of Z. These three set Z and N from the new word and reset V. SWPB exchanges the bytes,
  -- and a second SWPB restores the machine.
  pub shifts_word :
      let v = get16 s l in
      ((t : Machine) × (rrc word l s ≡ ok (tt, t))
        × IsShifted s l (v / 2 + to_bit s.sr.carry * 2 ^ 15) (v % 2 == 1) t)
      × ((r : ℕ) × (t : Machine) × (rra word l s ≡ ok (tt, t))
          × IsShifted s l r (v % 2 == 1) t
          × (signed16 v ≡ signed16 r +ℤ signed16 r +ℤ pos (v % 2)))
      × ((r : ℕ) × (t : Machine) × (sxt l s ≡ ok (tt, t))
          × IsShifted s l r (not (r == 0)) t
          × (signed16 r ≡ signed8 (u8 v)))
      × ((t : Machine) × (swpb l s ≡ ok (tt, t))
          × (get16 t l ≡ v % 2 ^ 8 * 2 ^ 8 + v / 2 ^ 8)
          × (swpb l t ≡ ok (tt, s)))
  shifts_word = (rrc_word, rra_word, sxt_word, swpb-swpb)
