-- ===== src/Machine/Keeps.antt =====
-- What every operation keeps: the values fit their types, and the bits of the status register
-- other than V, N, Z and C are those of a given register. Rules for the parts of a program.
use msp430_emulator.Base.{
  ◌∙◌, sym, subst, ap, ℕ, ◌+◌, ◌<◌, ◌^◌, ◌≡◌, Bool, true, false, arith, u16, update, if◌then◌else◌,
  ◌==◌, ltb,
}
use msp430_emulator.Status.{StatusReg}
use msp430_emulator.Status.RoundTrip.{sr_to_value-lt}
use msp430_emulator.Machine.{
  Machine, M, Result, ok, fault, Fault, Loc, reg, cell, bogus, null, Width, word, byte, get16, get8,
  put16, put8, load16, load8, load, store16, store8, store, get_reg_ptr, get_addr_ptr, fetch,
  and_then, check16, check8,
}
use msp430_emulator.Machine.Store.{
  IsWellFormed, get16-lt, get8-eq-mod, put16-IsWellFormed, put8-IsWellFormed, modulus, sr-put_at,
  running-put_at,
}

-- The reserved bits and the mode bits of a status register.
abbrev pub modes : StatusReg → ℕ × Bool × Bool × Bool × Bool × Bool
modes sr = (sr.reserved, sr.scg1, sr.scg0, sr.oscoff, sr.cpuoff, sr.gie)

pub record IsKept (r : Machine) (t : Machine) : Type 0 where
  pub fits : IsWellFormed t
  pub modes_same : modes t.sr ≡ modes r.sr
  pub stays_stopped : r.running ≡ false → t.running ≡ false

abbrev pub IsWordValue : ℕ → Type 0
IsWordValue v = v < 2 ^ 16

abbrev pub Any : {A : Type 0} → A → Type 0
Any a = Unit {0}

module _ (r : Machine) where
  pub data Post {A : Type 0} (P : A → Type 0) : Result (A × Machine) → Type 0 where
    done : (a : A) (t : Machine) → IsKept r t → P a → Post P (ok (a, t))
    failed : (e : Fault) → Post P (fault e)

  -- A run from a kept state ends in a kept state with a result as described, or with a fault.
  abbrev pub Keeps : {A : Type 0} → (A → Type 0) → M A → Type 0
  Keeps P m = (s : Machine) → IsKept r s → Post P (m s)

  pub step :
      {A B : Type 0} {P : A → Type 0} {Q : B → Type 0} {x : Result (A × Machine)} {k : A → M B}
      → Post P x
      → ((a : A) (t : Machine) → IsKept r t → P a → Post Q (k a t))
      → Post Q (and_then x k)
  step (done a t i p) h = h a t i p
  step (failed e) h = failed e

  pub Post-if :
      {A : Type 0} {P : A → Type 0} (b : Bool) {x y : Result (A × Machine)}
      → Post P x
      → Post P y
      → Post P (if b then x else y)
  Post-if true p q = p
  Post-if false p q = q

  -- A choice between two programs.
  pub Keeps-if :
      {A : Type 0} {P : A → Type 0} (b : Bool) {m n : M A}
      → Keeps P m
      → Keeps P n
      → Keeps P (if b then m else n)
  Keeps-if true hm hn s i = hm s i
  Keeps-if false hm hn s i = hn s i

  check16-Post :
      {A : Type 0} {P : A → Type 0} (l : Loc) (x : Result (A × Machine))
      → Post P x
      → Post P (check16 l x)
  check16-Post (reg n) x p = p
  check16-Post (cell a) x p = Post-if (ltb (a + 1) 0x10000) p (failed Fault.out_of_bounds)
  check16-Post bogus x p = p
  check16-Post null x p = failed Fault.null_pointer

  check8-Post :
      {A : Type 0} {P : A → Type 0} (l : Loc) (x : Result (A × Machine))
      → Post P x
      → Post P (check8 l x)
  check8-Post (reg n) x p = p
  check8-Post (cell a) x p = Post-if (ltb a 0x10000) p (failed Fault.out_of_bounds)
  check8-Post bogus x p = p
  check8-Post null x p = failed Fault.null_pointer

  pub Keeps-load16 : (l : Loc) → Keeps IsWordValue (load16 l)
  unfolding load16
  Keeps-load16 l s i = check16-Post l _ (done (get16 s l) s i (get16-lt s l i.fits))

  pub Keeps-load8 : (l : Loc) → Keeps (λ v. v < 2 ^ 8) (load8 l)
  unfolding load8
  Keeps-load8 l s i =
      check8-Post l _ (done (get8 s l) s i (rw (get8-eq-mod s l i.fits) (omega arith)))

  pub Keeps-load : (w : Width) (l : Loc) → Keeps (λ v. v < modulus w) (load w l)
  unfolding load
  Keeps-load word l = Keeps-load16 l
  Keeps-load byte l = Keeps-load8 l

  IsKept-put16 : (s : Machine) (l : Loc) (v : ℕ) → v < 2 ^ 16 → IsKept r s → IsKept r (put16 s l v)
  IsKept-put16 s l v h i = record {
    fits = put16-IsWellFormed s l v h i.fits;
    modes_same = rw (sr-put_at word s l v) i.modes_same;
    stays_stopped = λ e. running-put_at word s l v ∙ i.stays_stopped e;
  }

  IsKept-put8 : (s : Machine) (l : Loc) (v : ℕ) → v < 2 ^ 8 → IsKept r s → IsKept r (put8 s l v)
  IsKept-put8 s l v h i = record {
    fits = put8-IsWellFormed s l v h i.fits;
    modes_same = rw (sr-put_at byte s l v) i.modes_same;
    stays_stopped = λ e. running-put_at byte s l v ∙ i.stays_stopped e;
  }

  pub Keeps-store16 : (l : Loc) (v : ℕ) → v < 2 ^ 16 → Keeps Any (store16 l v)
  unfolding store16
  Keeps-store16 l v h s i = check16-Post l _ (done tt (put16 s l v) (IsKept-put16 s l v h i) tt)

  pub Keeps-store8 : (l : Loc) (v : ℕ) → v < 2 ^ 8 → Keeps Any (store8 l v)
  unfolding store8
  Keeps-store8 l v h s i = check8-Post l _ (done tt (put8 s l v) (IsKept-put8 s l v h i) tt)

  pub Keeps-store : (w : Width) (l : Loc) (v : ℕ) → v < modulus w → Keeps Any (store w l v)
  unfolding store
  Keeps-store word l v h = Keeps-store16 l v h
  Keeps-store byte l v h = Keeps-store8 l v h

  -- An assignment to V, N, Z and C alone.
  pub IsKept-sr :
      {t : Machine} {sr' : StatusReg}
      → modes sr' ≡ modes t.sr
      → IsKept r t
      → IsKept r (record t { sr = sr' })
  IsKept-sr e i = record {
    fits = record {
      regs_fit = i.fits.regs_fit;
      bytes_fit = i.fits.bytes_fit;
      bogus_fits = i.fits.bogus_fits;
      reserved_fits = subst (λ n. n < 2 ^ 7) (sym (ap (λ m. m.0) e)) i.fits.reserved_fits;
    };
    modes_same = e ∙ i.modes_same;
    stays_stopped = i.stays_stopped;
  }

  -- An assignment to a register.
  pub IsKept-reg :
      (s : Machine) (n v : ℕ)
      → v < 2 ^ 16
      → IsKept r s
      → IsKept r (record s { regs = update s.regs n v })
  IsKept-reg s n v h i = IsKept-put16 s (reg n) v h i

  pub Keeps-get_reg_ptr : (n : ℕ) → Keeps Any (get_reg_ptr n)
  unfolding get_reg_ptr
  Keeps-get_reg_ptr n s i =
      Post-if (n == 2)
        (done (reg 2) _ (IsKept-reg s 2 _ (sr_to_value-lt s.sr i.fits.reserved_fits) i) tt)
        (Post-if (ltb n 16) (done (reg n) s i tt) (done null s i tt))

  pub Keeps-fetch : Keeps IsWordValue fetch
  unfolding fetch
  Keeps-fetch s i =
      step (Keeps-load16 (get_addr_ptr (s.regs 0)) s i)
        λ v t j h. done v _ (IsKept-reg s 0 (u16 (s.regs 0 + 2)) (omega arith) i) h
