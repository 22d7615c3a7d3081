-- ===== src/Disassembler/Frame/Rules.antt =====
-- Rules for programs that leave the memory and the flags of a given machine as they are.
use msp430_emulator.Base.{ℕ, ◌+◌, Bool, true, false, ltb, ◌≡◌, u16, update, ◌==◌, if◌then◌else◌}
use msp430_emulator.Status.{sr_to_value}
use msp430_emulator.Machine.{
  Machine, M, Result, ok, fault, Fault, Loc, reg, cell, bogus, null, get16, put16, load16, store16,
  check16, get_reg_ptr, get_addr_ptr, fetch, and_then,
}

-- Stopped, with the debugger in charge.
abbrev pub IsPaused : Machine → Type 0
IsPaused s = (s.running ≡ false) × (s.debug_mode ≡ true)

-- The memory and the flags are those of `s`, and a pause is kept.
pub record IsSame (s t : Machine) : Type 0 where
  pub memory_same : t.memspace ≡ s.memspace
  pub flags_same : t.sr ≡ s.sr
  pub pause_same : IsPaused s → IsPaused t

-- A pointer that is not into the memory.
abbrev pub IsOutside : Loc → Type 0
IsOutside (reg n) = Unit {0}
IsOutside (cell a) = ⊥
IsOutside bogus = Unit {0}
IsOutside null = Unit {0}

module _ (s : Machine) where
  pub data Calm {A : Type 0} : Result (A × Machine) → Type 0 where
    done : (a : A) (t : Machine) → IsSame s t → Calm (ok (a, t))
    failed : (e : Fault) → Calm (fault e)

  abbrev pub IsCalm : {A : Type 0} → M A → Type 0
  IsCalm m = (t : Machine) → IsSame s t → Calm (m t)

  pub next :
      {A B : Type 0} {x : Result (A × Machine)} {k : A → M B}
      → Calm x
      → ((a : A) → IsCalm (k a))
      → Calm (and_then x k)
  next (done a t i) h = h a t i
  next (failed e) h = failed e

  pub IsCalm-if :
      {A : Type 0} (b : Bool) {m n : M A} → IsCalm m → IsCalm n → IsCalm (if b then m else n)
  IsCalm-if true hm hn = hm
  IsCalm-if false hm hn = hn

  Calm-if :
      {A : Type 0} (b : Bool) {x y : Result (A × Machine)}
      → Calm x
      → Calm y
      → Calm (if b then x else y)
  Calm-if true p q = p
  Calm-if false p q = q

  pub Calm-check16 : {A : Type 0} (l : Loc) (x : Result (A × Machine)) → Calm x → Calm (check16 l x)
  Calm-check16 (reg n) x p = p
  Calm-check16 (cell a) x p = Calm-if (ltb (a + 1) 0x10000) p (failed Fault.out_of_bounds)
  Calm-check16 bogus x p = p
  Calm-check16 null x p = failed Fault.null_pointer

  pub IsCalm-load16 : (l : Loc) → IsCalm (load16 l)
  unfolding load16
  IsCalm-load16 l t i = Calm-check16 l _ (done (get16 t l) t i)

  -- A register is no part of the memory or of the flags.
  pub IsSame-reg : {t : Machine} (f : ℕ → ℕ) → IsSame s t → IsSame s (record t { regs = f })
  IsSame-reg f i = record {
    memory_same = i.memory_same;
    flags_same = i.flags_same;
    pause_same = i.pause_same;
  }

  IsSame-put16 : (l : Loc) (t : Machine) (v : ℕ) → IsOutside l → IsSame s t → IsSame s (put16 t l v)
  IsSame-put16 (reg n) t v h i = IsSame-reg (update t.regs n v) i
  IsSame-put16 (cell a) t v h i = absurd h
  IsSame-put16 bogus t v h i = record {
    memory_same = i.memory_same;
    flags_same = i.flags_same;
    pause_same = i.pause_same;
  }
  IsSame-put16 null t v h i = i

  pub IsCalm-store16 : (l : Loc) (v : ℕ) → IsOutside l → IsCalm (store16 l v)
  unfolding store16
  IsCalm-store16 l v h t i = Calm-check16 l _ (done tt (put16 t l v) (IsSame-put16 l t v h i))

  pub IsCalm-fetch : IsCalm fetch
  unfolding fetch
  IsCalm-fetch t i =
      next (IsCalm-load16 (get_addr_ptr (t.regs 0)) t i)
        λ v u j. done v _ (IsSame-reg (update t.regs 0 (u16 (t.regs 0 + 2))) i)

  -- A program on the pointer to a register.
  pub IsCalm-with_reg :
      {B : Type 0} (n : ℕ) (k : Loc → M B)
      → ((l : Loc) → IsOutside l → IsCalm (k l))
      → (t : Machine) → IsSame s t
      → Calm (and_then (get_reg_ptr n t) k)
  unfolding get_reg_ptr
  IsCalm-with_reg n k h t i = choose (n == 2) (ltb n 16)
    where
      copied : ℕ → ℕ
      copied = update t.regs 2 (sr_to_value t.sr)

      choose :
          (b c : Bool)
          → Calm (
              and_then
                (if b
                  then ok (reg 2, record t { regs = copied })
                  else if c
                  then ok (reg n, t)
                  else ok (null, t))
                k)
      choose true c = h (reg 2) tt _ (IsSame-reg copied i)
      choose false true = h (reg n) tt t i
      choose false false = h null tt t i
