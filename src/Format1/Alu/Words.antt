-- ===== src/Format1/Alu/Words.antt =====
-- The word forms of ADD, ADDC, SUBC, SUB and CMP on integers: what the result is, which flags are
-- those of the arithmetic, and what the carry flag is instead.
use msp430_emulator.Base.{
  ℕ, ◌+◌, ◌-◌, ◌^◌, ◌<◌, Bool, true, false, not, ◌==◌, leb, ◌||◌, ◌≡◌, ◌≢◌, ◌↔◌, arith, refl, subst,
  ap,
}
use msp430_emulator.Base.{u16, sext16, to_bit, if◌then◌else◌}
use msp430_emulator.Base.Int.{pos, signed16, ◌+ℤ◌, ◌-ℤ◌, ltb_ℤ}
use mathlib.Core.Bool.{xor as bool_xor}
use msp430_emulator.Status.{StatusReg}
use msp430_emulator.Machine.{Machine, Loc, word, ok, get16}
use msp430_emulator.Machine.Store.{IsWord, IsWellFormed, get16-lt}
use msp430_emulator.Flags.{is_carried, sign_bit, overflow_at}
use msp430_emulator.Flags.Meaning.{overflow_at_carry, is_carried_signed_source, overflow_at_word}
use msp430_emulator.Format3.{jumps}
use msp430_emulator.Format1.Alu.{add, addc, sub, cmp, complement}
use msp430_emulator.Format1.Alu.Sums.{
  add-eq, addc-eq, sub-eq, cmp-eq, sum_flags, stored, summed, negated, sub_carries,
}

-- `t` is `s` with the result `r` behind `l`, Z and N set from it, C as given, and some V.
pub record IsResult (s : Machine) (l : Loc) (r : ℕ) (c : Bool) (t : Machine) : Type 0 where
  pub frame : t ≡ stored word s l r t.sr
  pub others : t.sr ≡ record s.sr {
    zero = r == 0;
    negative = leb (2 ^ 15) r;
    carry = c;
    overflow = t.sr.overflow;
  }

sign_word : (r : ℕ) → sign_bit word r ≡ leb (2 ^ 15) r
sign_word r = ground arith

stored-IsResult :
    (s : Machine) (l : Loc) (r src dst : ℕ) (c c' : Bool)
    → c ≡ c'
    → IsResult s l r c' (stored word s l r (sum_flags word src dst r c s.sr))
stored-IsResult s l r src dst c c' e = record { frame = refl; others = rw (sign_word r, e) }

to_bit-lt : (b : Bool) → to_bit b < 2
to_bit-lt b = ground arith

-- SUB of a source other than -2^15 overflows just when the signed difference does not fit.
overflow_at_sub :
    (v d : ℕ)
    → v < 2 ^ 16
    → d < 2 ^ 16
    → v ≢ 2 ^ 15
    → (overflow_at 15 (u16 (complement v + 1)) d (u16 (d + u16 (complement v + 1))) ≡ false)
      ↔ (signed16 (u16 (d + 2 ^ 16 - v)) ≡ signed16 d -ℤ signed16 v)
unfolding ◌-ℤ◌
overflow_at_sub v d p q ne = ground arith

sub_result : (v d : ℕ) → v < 2 ^ 16 → u16 (d + u16 (complement v + 1)) ≡ u16 (d + 2 ^ 16 - v)
sub_result v d p = omega arith

cmp_zero : (v d : ℕ) → v < 2 ^ 16 → d < 2 ^ 16 → (u16 (d + u16 (complement v + 1)) == 0) ≡ (d == v)
cmp_zero v d p q = ground arith

cmp_less :
    (v d : ℕ)
    → v < 2 ^ 16
    → d < 2 ^ 16
    → v ≢ 2 ^ 15
    → let n = u16 (complement v + 1) in
      let r = u16 (d + n) in
      bool_xor (sign_bit word r) (overflow_at 15 n d r) ≡ ltb_ℤ (signed16 d) (signed16 v)
unfolding bool_xor
cmp_less v d p q ne = ground arith

sub_always_carries :
    (v d : ℕ)
    → v < 2 ^ 16
    → d < 2 ^ 16
    → (is_carried (sext16 (complement (u16 (complement v + 1)))) 1 word
        || is_carried (sext16 d) (sext16 (u16 (complement v + 1))) word)
      ≡ true
unfolding is_carried
sub_always_carries v d p q = ground arith

cmp_carry :
    (v d : ℕ)
    → v < 2 ^ 16
    → d < 2 ^ 16
    → (if not (is_carried (complement v) 1 word)
        then is_carried (sext16 d) (u16 (complement v + 1)) word
        else true)
      ≡ (leb (2 ^ 15) d || leb v d)
unfolding is_carried
cmp_carry v d p q = ground arith

module _ (v : ℕ) (l : Loc) (s : Machine) (w : IsWellFormed s) (h : IsWord l)
    (fits : v < 2 ^ 16) where
  -- In a well-formed machine, for a destination to which a word can be stored and a source of 16
  -- bits, ADD stores the sum modulo 2^16, sets Z and N from it, resets V just when the signed sum
  -- fits 16 bits, and sets C at a carry out of bit 15 and at every negative source.
  pub add_word :
      (t : Machine) × (add word v l s ≡ ok (tt, t))
      × IsResult s l (u16 (get16 s l + v)) (leb (2 ^ 15) v || leb (2 ^ 16) (get16 s l + v)) t
      × ((t.sr.overflow ≡ false)
          ↔ (signed16 (u16 (get16 s l + v)) ≡ signed16 (get16 s l) +ℤ signed16 v))
  add_word = (
    _,
    add-eq word v l s h,
    stored-IsResult s l _ v (get16 s l) _ _
        (is_carried_signed_source (get16 s l) v (get16-lt s l w) fits),
    overflow_at_word v (get16 s l) fits (get16-lt s l w),
  )

  -- In a well-formed machine, for a destination to which a word can be stored and a source of 16
  -- bits, ADDC stores the sum with the carry flag modulo 2^16, sets Z and N from it, and resets V
  -- just when the signed sum fits 16 bits; its C is that of the sum without the carry flag: a carry
  -- out of bit 15, or a negative source.
  pub addc_word :
      let c = to_bit s.sr.carry in
      (t : Machine) × (addc word v l s ≡ ok (tt, t))
      × IsResult s l (u16 (get16 s l + (v + c))) (leb (2 ^ 15) v || leb (2 ^ 16) (get16 s l + v)) t
      × ((t.sr.overflow ≡ false)
          ↔ (signed16 (u16 (get16 s l + (v + c))) ≡ signed16 (get16 s l) +ℤ signed16 v +ℤ pos c))
  addc_word = (
    _,
    addc-eq word v l s h,
    stored-IsResult s l _ v (get16 s l) _ _
        (is_carried_signed_source (get16 s l) v (get16-lt s l w) fits),
    overflow_at_carry v (get16 s l) (to_bit s.sr.carry) fits (get16-lt s l w) (to_bit-lt _),
  )

  sub_IsResult : IsResult s l (u16 (get16 s l + 2 ^ 16 - v)) true (
      summed word v l s h
        (negated word v l s h)
        (negated word v l s h)
        (if sub_carries word v l s h then true else s.sr.carry))
  sub_IsResult =
      subst
        (λ r. IsResult s l r true (
          summed word v l s h (negated word v l s h) (negated word v l s h)
            (if sub_carries word v l s h then true else s.sr.carry)))
        (sub_result v (get16 s l) fits)
        (stored-IsResult s l _ _ (get16 s l) _ _
          (rw (sub_always_carries v (get16 s l) fits (get16-lt s l w))))

  -- In a well-formed machine, for a destination to which a word can be stored and a source of 16
  -- bits, SUB stores the difference modulo 2^16 and sets Z and N from it, and C is set whatever the
  -- operands are.
  pub sub_word :
      (t : Machine) × (sub word v l s ≡ ok (tt, t))
      × IsResult s l (u16 (get16 s l + 2 ^ 16 - v)) true t
  sub_word = (_, sub-eq word v l s h, sub_IsResult)

  -- In a well-formed machine, for a destination to which a word can be stored and a source of 16
  -- bits, CMP changes the flags alone: Z is equality, and C is set just when the destination is
  -- negative or not below the source as unsigned numbers.
  pub cmp_word :
      (f : StatusReg) × (cmp word v l s ≡ ok (tt, record s { sr = f }))
      × (f.zero ≡ (get16 s l == v))
      × (f.carry ≡ (leb (2 ^ 15) (get16 s l) || leb v (get16 s l)))
  cmp_word = (
    _,
    cmp-eq word v l s h,
    cmp_zero v (get16 s l) fits (get16-lt s l w),
    cmp_carry v (get16 s l) fits (get16-lt s l w),
  )

  module _ (ne : v ≢ 2 ^ 15) where
    -- In a well-formed machine, for a destination to which a word can be stored and a source of 16
    -- bits, the source not being -2^15, SUB resets V just when the signed difference fits 16 bits.
    pub sub_word_overflow :
        (t : Machine) × (sub word v l s ≡ ok (tt, t))
        × ((t.sr.overflow ≡ false)
            ↔ (signed16 (u16 (get16 s l + 2 ^ 16 - v)) ≡ signed16 (get16 s l) -ℤ signed16 v))
    sub_word_overflow =
        (_, sub-eq word v l s h, overflow_at_sub v (get16 s l) fits (get16-lt s l w) ne)

    -- In a well-formed machine, for a destination to which a word can be stored and a source of 16
    -- bits, the source not being -2^15, after CMP the conditions of JL and JGE compare the operands
    -- as signed numbers, and those of JZ and JNZ test whether they are equal.
    pub cmp-jumps :
        (f : StatusReg) × (cmp word v l s ≡ ok (tt, record s { sr = f }))
        × (jumps 6 f ≡ ltb_ℤ (signed16 (get16 s l)) (signed16 v))
        × (jumps 5 f ≡ not (ltb_ℤ (signed16 (get16 s l)) (signed16 v)))
        × (jumps 1 f ≡ (get16 s l == v))
        × (jumps 0 f ≡ not (get16 s l == v))
    unfolding jumps
    cmp-jumps = (
      _,
      cmp-eq word v l s h,
      cmp_less v (get16 s l) fits (get16-lt s l w) ne,
      ap not (cmp_less v (get16 s l) fits (get16-lt s l w) ne),
      cmp_zero v (get16 s l) fits (get16-lt s l w),
      ap not (cmp_zero v (get16 s l) fits (get16-lt s l w)),
    )
