-- ===== src/Machine/Store.antt =====
-- Loads and stores at pointers to which words can be stored, and loads after stores.
use msp430_emulator.Base.{ℕ, ◌+◌, ◌%◌, ◌<◌, ◌^◌, ◌≡◌, arith}
use msp430_emulator.Status.{StatusReg}
use msp430_emulator.Machine.{
  Machine, Result, ok, Loc, reg, cell, bogus, null, get16, put16, get8, put8, with_low, load16,
  load8, store16, store8, check16, check8, Width, word, byte, load, store,
}
use msp430_emulator.Base.{refl}

-- A word can be accessed: the pointer is to a register, or both bytes lie in the memory.
abbrev pub IsWord : Loc → Type 0
IsWord (reg n) = Unit
IsWord (cell a) = a + 1 < 0x10000
IsWord bogus = Unit
IsWord null = ⊥

pub check16-eq : {A : Type 0} (l : Loc) (r : Result A) → IsWord l → check16 l r ≡ r
check16-eq (reg n) r h = refl
check16-eq (cell a) r h = ground arith
check16-eq bogus r h = refl
check16-eq null r h = absurd h

pub check8-eq : {A : Type 0} (l : Loc) (r : Result A) → IsWord l → check8 l r ≡ r
check8-eq (reg n) r h = refl
check8-eq (cell a) r h = ground arith
check8-eq bogus r h = refl
check8-eq null r h = absurd h

-- Where a word can be accessed no load or store fails.
module _ (l : Loc) (s : Machine) (h : IsWord l) where
  pub load16-eq : load16 l s ≡ ok (get16 s l, s)
  unfolding load16
  load16-eq = check16-eq l _ h

  pub load8-eq : load8 l s ≡ ok (get8 s l, s)
  unfolding load8
  load8-eq = check8-eq l _ h

  pub store16-eq : (v : ℕ) → store16 l v s ≡ ok (tt, put16 s l v)
  unfolding store16
  store16-eq v = check16-eq l _ h

  pub store8-eq : (v : ℕ) → store8 l v s ≡ ok (tt, put8 s l v)
  unfolding store8
  store8-eq v = check8-eq l _ h

-- What a width reads behind a pointer, and what a store at that width makes of the machine.
abbrev pub get_at : Width → Machine → Loc → ℕ
get_at word s l = get16 s l
get_at byte s l = get8 s l

abbrev pub put_at : Width → Machine → Loc → ℕ → Machine
put_at word s l v = put16 s l v
put_at byte s l v = put8 s l v

-- The largest value of a width, plus one.
abbrev pub modulus : Width → ℕ
modulus word = 2 ^ 16
modulus byte = 2 ^ 8

pub load-eq : (w : Width) (l : Loc) (s : Machine) → IsWord l → load w l s ≡ ok (get_at w s l, s)
unfolding load
load-eq word l s h = load16-eq l s h
load-eq byte l s h = load8-eq l s h

pub store-eq :
    (w : Width) (l : Loc) (s : Machine) (v : ℕ) → IsWord l → store w l v s ≡ ok (tt, put_at w s l v)
unfolding store
store-eq word l s v h = store16-eq l s h v
store-eq byte l s v h = store8-eq l s h v

-- The flags are no part of what a pointer reads.
pub get_at-sr :
    (w : Width) (s : Machine) (r : StatusReg) (l : Loc)
    → get_at w (record s { sr = r }) l ≡ get_at w s l
get_at-sr word s r (reg n) = refl
get_at-sr word s r (cell a) = refl
get_at-sr word s r bogus = refl
get_at-sr word s r null = refl
get_at-sr byte s r (reg n) = refl
get_at-sr byte s r (cell a) = refl
get_at-sr byte s r bogus = refl
get_at-sr byte s r null = refl

pub sr-put_at : (w : Width) (s : Machine) (l : Loc) (v : ℕ) → (put_at w s l v).sr ≡ s.sr
sr-put_at word s (reg n) v = refl
sr-put_at word s (cell a) v = refl
sr-put_at word s bogus v = refl
sr-put_at word s null v = refl
sr-put_at byte s (reg n) v = refl
sr-put_at byte s (cell a) v = refl
sr-put_at byte s bogus v = refl
sr-put_at byte s null v = refl

pub running-put_at :
    (w : Width) (s : Machine) (l : Loc) (v : ℕ) → (put_at w s l v).running ≡ s.running
running-put_at word s (reg n) v = refl
running-put_at word s (cell a) v = refl
running-put_at word s bogus v = refl
running-put_at word s null v = refl
running-put_at byte s (reg n) v = refl
running-put_at byte s (cell a) v = refl
running-put_at byte s bogus v = refl
running-put_at byte s null v = refl

-- Every cell holds a value of its type.
pub record IsWellFormed (s : Machine) : Type 0 where
  pub regs_fit : (n : ℕ) → s.regs n < 2 ^ 16
  pub bytes_fit : (a : ℕ) → s.memspace a < 2 ^ 8
  pub bogus_fits : s.bogus_reg < 2 ^ 16
  pub reserved_fits : s.sr.reserved < 2 ^ 7

pub get16-lt : (s : Machine) (l : Loc) → IsWellFormed s → get16 s l < 2 ^ 16
get16-lt s (reg n) w = w.regs_fit n
get16-lt s (cell a) w = omega (arith, w.bytes_fit a, w.bytes_fit (a + 1))
get16-lt s bogus w = w.bogus_fits
get16-lt s null w = omega arith

pub get8-eq-mod : (s : Machine) (l : Loc) → IsWellFormed s → get8 s l ≡ get16 s l % 2 ^ 8
get8-eq-mod s (reg n) w = refl
get8-eq-mod s (cell a) w = omega (arith, w.bytes_fit a)
get8-eq-mod s bogus w = refl
get8-eq-mod s null w = refl

-- A word that was stored is loaded again.
pub get16-put16 : (s : Machine) (l : Loc) (v : ℕ) → IsWord l → get16 (put16 s l v) l ≡ v
get16-put16 s (reg n) v k = ground arith
get16-put16 s (cell a) v k = ground arith
get16-put16 s bogus v k = ground arith
get16-put16 s null v k = absurd k

pub get8-put8 : (s : Machine) (l : Loc) (b : ℕ) → IsWord l → b < 2 ^ 8 → get8 (put8 s l b) l ≡ b
get8-put8 s (reg n) b k h = ground arith
get8-put8 s (cell a) b k h = ground arith
get8-put8 s bogus b k h = ground arith
get8-put8 s null b k h = absurd k

pub get_at-put_at :
    (w : Width) (s : Machine) (l : Loc) (v : ℕ)
    → IsWord l
    → v < modulus w
    → get_at w (put_at w s l v) l ≡ v
get_at-put_at word s l v k h = get16-put16 s l v k
get_at-put_at byte s l v k h = get8-put8 s l v k h

-- A byte that was stored leaves the upper byte of the word.
pub get16-put8 :
    (s : Machine) (l : Loc) (b : ℕ)
    → IsWellFormed s
    → IsWord l
    → get16 (put8 s l b) l ≡ with_low (get16 s l) b
get16-put8 s (reg n) b w k = ground arith
get16-put8 s (cell a) b w k = ground (arith, w.bytes_fit a, w.bytes_fit (a + 1))
get16-put8 s bogus b w k = ground arith
get16-put8 s null b w k = absurd k

pub put16-IsWellFormed :
    (s : Machine) (l : Loc) (v : ℕ) → v < 2 ^ 16 → IsWellFormed s → IsWellFormed (put16 s l v)
put16-IsWellFormed s (reg n) v h w = record {
  regs_fit = λ m. ground (arith, w.regs_fit m);
  bytes_fit = w.bytes_fit;
  bogus_fits = w.bogus_fits;
  reserved_fits = w.reserved_fits;
}
put16-IsWellFormed s (cell a) v h w = record {
  regs_fit = w.regs_fit;
  bytes_fit = λ m. ground (arith, w.bytes_fit m);
  bogus_fits = w.bogus_fits;
  reserved_fits = w.reserved_fits;
}
put16-IsWellFormed s bogus v h w = record {
  regs_fit = w.regs_fit;
  bytes_fit = w.bytes_fit;
  bogus_fits = h;
  reserved_fits = w.reserved_fits;
}
put16-IsWellFormed s null v h w = w

pub put8-IsWellFormed :
    (s : Machine) (l : Loc) (b : ℕ) → b < 2 ^ 8 → IsWellFormed s → IsWellFormed (put8 s l b)
put8-IsWellFormed s (reg n) b h w = record {
  regs_fit = λ m. ground (arith, w.regs_fit m, w.regs_fit n);
  bytes_fit = w.bytes_fit;
  bogus_fits = w.bogus_fits;
  reserved_fits = w.reserved_fits;
}
put8-IsWellFormed s (cell a) b h w = record {
  regs_fit = w.regs_fit;
  bytes_fit = λ m. ground (arith, w.bytes_fit m);
  bogus_fits = w.bogus_fits;
  reserved_fits = w.reserved_fits;
}
put8-IsWellFormed s bogus b h w = record {
  regs_fit = w.regs_fit;
  bytes_fit = w.bytes_fit;
  bogus_fits = omega (arith, w.bogus_fits);
  reserved_fits = w.reserved_fits;
}
put8-IsWellFormed s null b h w = w
