-- ===== src/Format1/Alu/Sums.antt =====
-- ADD, ADDC, SUBC, SUB and CMP: the result and every flag.
use msp430_emulator.Base.{ℕ, ◌+◌, ◌<◌, Bool, true, not, ◌==◌, ◌≡◌, arith}
use msp430_emulator.Base.{u16, sext16, to_bit, ◌||◌, if◌then◌else◌}
use msp430_emulator.Status.{StatusReg}
use msp430_emulator.Machine.{store, get16, Machine, Loc, Width, word, byte, ok, ◌>>◌}
use msp430_emulator.Machine.Store.{
  IsWord, get_at, put_at, load-eq, get_at-sr, sr-put_at, store-eq, load16-eq, get_at-put_at,
  modulus,
}
use msp430_emulator.Flags.{is_zero, is_negative, is_carried, is_overflowed, overflow_test, sign_bit}
use msp430_emulator.Format1.Alu.{wrap, cut, add, addc, subc, sub, cmp, complement, set_flags}

wrap-lt : (w : Width) (v : ℕ) → wrap w v < modulus w
wrap-lt word v = omega arith
wrap-lt byte v = omega arith

-- The flags of an addition of `src` to `dst` with the result `r`, with the carry given.
abbrev pub sum_flags : Width → ℕ → ℕ → ℕ → Bool → StatusReg → StatusReg
sum_flags w src dst r c sr = record sr {
  zero = r == 0;
  negative = sign_bit w r;
  carry = c;
  overflow = overflow_test w src dst r;
}

-- The machine with a result behind a pointer and new flags.
abbrev pub stored : Width → Machine → Loc → ℕ → StatusReg → Machine
stored w s l r sr' = record (put_at w s l r) { sr = sr' }

module _ (w : Width) (l : Loc) (s : Machine) (h : IsWord l) where
  set_flags-eq :
      (src dst : ℕ) (c : Bool)
      → set_flags w l src dst c s
        ≡ ok (tt, record s { sr = sum_flags w src dst (get_at w s l) c s.sr })
  unfolding set_flags is_zero is_negative is_overflowed
  set_flags-eq src dst c = simp (load-eq, get_at-sr, h)

-- The store of a sum and the flags after it.
module _ (w : Width) (l : Loc) (s : Machine) (h : IsWord l) (x src dst : ℕ) (c : Bool) where
  store_sum-eq :
      (store w l (wrap w x) >> set_flags w l src dst c) s
      ≡ ok (tt, stored w s l (wrap w x) (sum_flags w src dst (wrap w x) c s.sr))
  store_sum-eq = simp (store-eq, set_flags-eq, get_at-put_at, sr-put_at, wrap-lt, h)

module _ (w : Width) (v : ℕ) (l : Loc) (s : Machine) (h : IsWord l) where
  abbrev pub orig : ℕ
  orig = get16 s l

  abbrev pub dst : ℕ
  dst = get_at w s l

  -- The machine after a sum with `x` added at the width, `src` and `c` going into the flags.
  abbrev pub summed : ℕ → ℕ → Bool → Machine
  summed x src c = stored w s l (wrap w (dst + x)) (sum_flags w src orig (wrap w (dst + x)) c s.sr)

  pub add-eq : add w v l s ≡ ok (tt, summed (cut w v) v (is_carried orig (sext16 v) w))
  unfolding add
  add-eq = simp (load16-eq, load-eq, h) (store_sum-eq w l s h (dst + cut w v) v orig _)

  pub addc-eq :
      addc w v l s ≡ ok (tt, summed (cut w v + to_bit s.sr.carry) v (is_carried orig (sext16 v) w))
  unfolding addc
  addc-eq =
      simp (load16-eq, load-eq, h)
        (store_sum-eq w l s h (dst + (cut w v + to_bit s.sr.carry)) v orig _)

  pub subc-eq :
      subc w v l s
      ≡ ok (
        tt,
        summed
            (cut w (complement v) + to_bit s.sr.carry)
            (complement v)
            (is_carried (sext16 orig) (sext16 (complement v)) w),
      )
  unfolding subc
  subc-eq =
      simp (load16-eq, load-eq, h)
        (store_sum-eq w l s h (dst + (cut w (complement v) + to_bit s.sr.carry)) (complement v) orig
          _)

  -- The negated source of SUB and CMP, and the test on which SUB sets the carry flag.
  abbrev pub negated : ℕ
  negated = u16 (complement v + 1)

  abbrev pub sub_carries : Bool
  sub_carries =
      is_carried (sext16 (complement negated)) 1 w || is_carried (sext16 orig) (sext16 negated) w

  pub sub-eq :
      sub w v l s
      ≡ ok (tt, summed (cut w negated) negated (if sub_carries then true else s.sr.carry))
  unfolding sub
  sub-eq = simp (load16-eq, load-eq, store-eq, set_flags-eq, get_at-put_at, sr-put_at, wrap-lt, h)

  pub cmp-eq :
      cmp w v l s
      ≡ ok (
        tt,
        record s {
          sr =
              sum_flags w negated orig
                (cut w (u16 (dst + cut w negated)))
                (if not (is_carried (complement v) 1 w)
                  then is_carried (sext16 orig) negated w
                  else true)
                s.sr;
        },
      )
  unfolding cmp
  cmp-eq = simp (load16-eq, load-eq, h)
