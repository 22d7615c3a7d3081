-- ===== src/Format1/Alu/Kept.antt =====
-- Every operation of format I keeps the machine well formed and the mode bits as they are.
use msp430_emulator.Base.{
  ℕ, ◌+◌, ◌<◌, ◌^◌, Bool, refl, arith, bit_and, bit_or, bit_xor, ◌==◌, u16, to_bit, sext16,
}
use msp430_emulator.Flags.{is_carried}
use msp430_emulator.Base.Bits.{bit_and-le, bit_or-lt, bit_xor-lt}
use msp430_emulator.Machine.{Machine, Loc, Width, word, byte, load16, load, store, ◌>>=◌, ◌>>◌}
use msp430_emulator.Machine.Store.{modulus}
use msp430_emulator.Machine.Keeps.{
  Keeps, Any, step, done, Keeps-load16, Keeps-load, Keeps-store, IsKept-sr, Keeps-if,
}
use msp430_emulator.Flags.Kept.{Keeps-is_zero, Keeps-is_negative, Keeps-is_overflowed}
use msp430_emulator.Format1.Alu.{
  cut, wrap, complement, set_flags, mov, add, addc, subc, sub, cmp, bit, bic, bis, xor, and,
  execute,
}

cut-lt : (w : Width) (v : ℕ) → v < 2 ^ 16 → cut w v < modulus w
cut-lt word v h = h
cut-lt byte v h = omega arith

wrap-lt : (w : Width) (v : ℕ) → wrap w v < modulus w
wrap-lt word v = omega arith
wrap-lt byte v = omega arith

bit_or-fits : (w : Width) (a b : ℕ) → a < modulus w → b < modulus w → bit_or a b < modulus w
bit_or-fits word a b p q = bit_or-lt 16 a b p q
bit_or-fits byte a b p q = bit_or-lt 8 a b p q

bit_xor-fits : (w : Width) (a b : ℕ) → a < modulus w → b < modulus w → bit_xor a b < modulus w
bit_xor-fits word a b p q = bit_xor-lt 16 a b p q
bit_xor-fits byte a b p q = bit_xor-lt 8 a b p q

bit_and-fits : (w : Width) (a b : ℕ) → a < modulus w → bit_and a b < modulus w
bit_and-fits word a b p = omega (arith, bit_and-le a b)
bit_and-fits byte a b p = omega (arith, bit_and-le a b)

module _ (r : Machine) where
  Keeps-set_flags : (w : Width) (l : Loc) (a b : ℕ) (c : Bool) → Keeps r Any (set_flags w l a b c)
  unfolding set_flags
  Keeps-set_flags w l a b c s i = step r (Keeps-is_zero r l w s i) λ z s1 i1 _.
      step r (Keeps-is_negative r l w s1 i1) λ n s2 i2 _.
        step r (Keeps-is_overflowed r a b l w _ (IsKept-sr r refl i2))
          λ v s3 i3 _. done tt _ (IsKept-sr r refl i3) tt

  module _ (w : Width) (v : ℕ) (l : Loc) (h : v < 2 ^ 16) where
    Keeps-mov : Keeps r Any (mov w v l)
    unfolding mov
    Keeps-mov = Keeps-store r w l (cut w v) (cut-lt w v h)

    -- The two loads, the store of a wrapped sum and the flags, for any amount that is added.
    Keeps-sum :
        (x src : ℕ) (c : ℕ → Bool)
        → Keeps r Any
            (do o ← load16 l; d ← load w l; store w l (wrap w (d + x)); set_flags w l src o (c o))
    Keeps-sum x src c s i = step r (Keeps-load16 r l s i) λ o s1 i1 _.
        step r (Keeps-load r w l s1 i1) λ d s2 i2 _.
          step r (Keeps-store r w l (wrap w (d + x)) (wrap-lt w (d + x)) s2 i2)
            λ _ s3 i3 _. Keeps-set_flags w l src o (c o) s3 i3

    Keeps-add : Keeps r Any (add w v l)
    unfolding add
    Keeps-add = Keeps-sum (cut w v) v (λ o. is_carried o (sext16 v) w)

    -- The same with the carry flag read in between.
    Keeps-addc : Keeps r Any (addc w v l)
    unfolding addc
    Keeps-addc s i = step r (Keeps-load16 r l s i) λ o s1 i1 _.
        step r (Keeps-load r w l s1 i1) λ d s2 i2 _.
          step r
            (Keeps-store r w l (wrap w (d + (cut w v + to_bit s2.sr.carry))) (wrap-lt w _) s2 i2)
            λ _ s3 i3 _. Keeps-set_flags w l v o _ s3 i3

    Keeps-subc : Keeps r Any (subc w v l)
    unfolding subc
    Keeps-subc s i = step r (Keeps-load16 r l s i) λ o s1 i1 _.
        step r (Keeps-load r w l s1 i1) λ d s2 i2 _.
          step r
            (Keeps-store r w l (wrap w (d + (cut w (complement v) + to_bit s2.sr.carry)))
              (wrap-lt w _) s2 i2)
            λ _ s3 i3 _. Keeps-set_flags w l (complement v) o _ s3 i3

    Keeps-sub : Keeps r Any (sub w v l)
    unfolding sub
    Keeps-sub s i =
        let n = u16 (complement v + 1) in
        step r (Keeps-load16 r l s i) λ o s1 i1 _. step r (Keeps-load r w l s1 i1) λ d s2 i2 _.
          step r (Keeps-store r w l (wrap w (d + cut w n)) (wrap-lt w _) s2 i2)
            λ _ s3 i3 _. Keeps-set_flags w l n o _ s3 i3

    Keeps-cmp : Keeps r Any (cmp w v l)
    unfolding cmp
    Keeps-cmp s i =
        step r (Keeps-load16 r l s i) λ o s1 i1 _.
          step r (Keeps-load r w l s1 i1) λ d s2 i2 _. done tt _ (IsKept-sr r refl i2) tt

    Keeps-bit : Keeps r Any (bit w v l)
    unfolding bit
    Keeps-bit s i = step r (Keeps-load r w l s i) λ d s1 i1 _. done tt _ (IsKept-sr r refl i1) tt

    Keeps-bic : Keeps r Any (bic w v l)
    unfolding bic
    Keeps-bic s i =
        step r (Keeps-load r w l s i)
          λ d s1 i1 p. Keeps-store r w l _ (bit_and-fits w d (cut w (complement v)) p) s1 i1

    Keeps-bis : Keeps r Any (bis w v l)
    unfolding bis
    Keeps-bis s i =
        step r (Keeps-load r w l s i)
          λ d s1 i1 p. Keeps-store r w l _ (bit_or-fits w d (cut w v) p (cut-lt w v h)) s1 i1

    Keeps-xor : Keeps r Any (xor w v l)
    unfolding xor
    Keeps-xor s i = step r (Keeps-load r w l s i) λ d s1 i1 p.
        step r
          (Keeps-store r w l (bit_xor d (cut w v)) (bit_xor-fits w d (cut w v) p (cut-lt w v h)) _
            (IsKept-sr r refl i1))
          λ _ s2 i2 _.
            step r (Keeps-load r w l s2 i2) λ e s3 i3 _. done tt _ (IsKept-sr r refl i3) tt

    Keeps-and : Keeps r Any (and w v l)
    unfolding and
    Keeps-and s i = step r (Keeps-load r w l s i) λ d s1 i1 p.
        step r (Keeps-store r w l (bit_and d (cut w v)) (bit_and-fits w d (cut w v) p) s1 i1)
          λ _ s2 i2 _.
            step r (Keeps-load r w l s2 i2) λ e s3 i3 _. done tt _ (IsKept-sr r refl i3) tt

    pub Keeps-execute : (opcode : ℕ) → Keeps r Any (execute opcode w v l)
    unfolding execute
    Keeps-execute op = Keeps-if r (op == 4) Keeps-mov (
        Keeps-if r (op == 5) Keeps-add (
          Keeps-if r (op == 6) Keeps-addc (
            Keeps-if r (op == 7) Keeps-subc (
              Keeps-if r (op == 8) Keeps-sub (
                Keeps-if r (op == 9) Keeps-cmp (
                  Keeps-if r (op == 10) (λ s i. done tt s i tt)
                    (Keeps-if r (op == 11) Keeps-bit (
                      Keeps-if r (op == 12) Keeps-bic (
                        Keeps-if r (op == 13) Keeps-bis (
                          Keeps-if r (op == 14) Keeps-xor
                            (Keeps-if r (op == 15) Keeps-and (λ s i. done tt s i tt))))))))))))
