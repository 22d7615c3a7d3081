-- ===== src/Listing/Moves.antt =====
-- How far the decoder of two-operand instructions moves the program counter in disassembly.
use msp430_emulator.Base.{
  ℕ, ◌+◌, ◌-◌, ◌*◌, ◌^◌, ◌≡◌, Bool, true, false, Option, none, some, ◌==◌, ltb, u16, arith,
  if◌then◌else◌, update, subst,
}
use msp430_emulator.Machine.{
  Machine, M, Loc, Result, ok, fault, Fault, Width, reg, cell, bogus, null, load16, fetch, pure,
  put, get_reg_ptr, get_addr_ptr, and_then, ◌>>=◌, ◌>>◌,
}
use msp430_emulator.Status.{sr_to_value}
use msp430_emulator.Format1.Fields.{Fields}
use msp430_emulator.Format1.Operands.{
  clear_upper, increment, load_addr, pc, destination_addr, as1_ad0_source, as1_ad1_source, indirect,
  as3_source,
}
use msp430_emulator.Listing.TwoOperands.{unless_constant}

-- A run ends with the program counter at `q`, or in a fault.
pub data Ends (q : ℕ) {A : Type 0} : Result (A × Machine) → Type 0 where
  at : (a : A) (t : Machine) → t.regs 0 ≡ q → Ends q (ok (a, t))
  failed : (f : Fault) → Ends q (fault f)

module _ (p : ℕ) where
  -- From behind `j` fetches to behind `k`.
  abbrev pub Goes : {A : Type 0} → ℕ → ℕ → M A → Type 0
  Goes j k m = (s : Machine) → s.regs 0 ≡ u16 (p + 2 * j) → Ends (u16 (p + 2 * k)) (m s)

  pub Goes-to : {A : Type 0} (m : M A) (j k l : ℕ) → k ≡ l → Goes j k m → Goes j l m
  Goes-to m j k l e g = subst (λ i. Goes j i m) e g

  pub Goes-pure : {A : Type 0} (a : A) (j : ℕ) → Goes j j (pure a)
  Goes-pure a j s h = at a s h

  pub Goes-then :
      {A B : Type 0} (m : M A) (c : A → M B) (j k l : ℕ)
      → Goes j k m
      → ((a : A) → Goes k l (c a))
      → Goes j l (m >>= c)
  Goes-then {A} {B} m c j k l g h s e = next (g s e)
    where
      next :
          {x : Result (A × Machine)}
          → Ends (u16 (p + 2 * k)) x
          → Ends (u16 (p + 2 * l)) (and_then x c)
      next (at a t q) = h a t q
      next (failed f) = failed f

  pub Goes-if :
      {A : Type 0} (b : Bool) {m n : M A} (j k : ℕ)
      → Goes j k m
      → Goes j k n
      → Goes j k (if b then m else n)
  Goes-if true j k g h = g
  Goes-if false j k g h = h

  pub Goes-load16 : (l : Loc) (j : ℕ) → Goes j j (load16 l)
  unfolding load16
  Goes-load16 (reg n) j s h = at _ s h
  Goes-load16 (cell a) j s h = checked (ltb (a + 1) 0x10000) _
    where
      checked :
          (b : Bool) (v : ℕ)
          → Ends (u16 (p + 2 * j)) (if b then ok (v, s) else fault Fault.out_of_bounds)
      checked true v = at v s h
      checked false v = failed Fault.out_of_bounds
  Goes-load16 bogus j s h = at _ s h
  Goes-load16 null j s h = failed Fault.null_pointer

  pub Goes-fetch : (j : ℕ) → Goes j (j + 1) fetch
  unfolding fetch load16
  Goes-fetch j s h = checked (ltb (u16 (s.regs 0) + 1) 0x10000) _
    where
      checked :
          (b : Bool) (v : ℕ)
          → Ends (u16 (p + 2 * (j + 1))) (
              and_then {A = ℕ}
                (if b then ok (v, s) else fault Fault.out_of_bounds)
                (λ w. put (record s { regs = update s.regs 0 (u16 (s.regs 0 + 2)) }) >> pure w))
      checked true v = at v _ (omega arith)
      checked false v = failed Fault.out_of_bounds

  pub Goes-get_reg_ptr : (n j : ℕ) → Goes j j (get_reg_ptr n)
  unfolding get_reg_ptr
  Goes-get_reg_ptr n j s h = chosen (n == 2) (ltb n 16)
    where
      chosen :
          (b c : Bool)
          → Ends (u16 (p + 2 * j)) (
              if b
              then ok (reg 2, record s { regs = update s.regs 2 (sr_to_value s.sr) })
              else if c
              then ok (reg n, s)
              else ok (null, s))
      chosen true c = at (reg 2) _ h
      chosen false true = at (reg n) s h
      chosen false false = at null s h

  Goes-pc : (j : ℕ) → Goes j j pc
  Goes-pc j s h = at _ s h

  pub Goes-constant :
      (cg : Option ℕ) (m : M ℕ) (k : ℕ)
      → Goes 0 k m
      → Goes 0 (unless_constant cg k) (elim cg [ some c ↦ pure c | none ↦ m ])
  Goes-constant (some c) m k g = Goes-pure c 0
  Goes-constant none m k g = g

  pub Goes-constant_still :
      (cg : Option ℕ) (m : M ℕ) (j : ℕ)
      → Goes j j m
      → Goes j j (elim cg [ some c ↦ pure c | none ↦ m ])
  Goes-constant_still (some c) m j g = Goes-pure c j
  Goes-constant_still none m j g = g

  pub Goes-clear_upper : (w : Width) (l : Loc) (j : ℕ) → Goes j j (clear_upper true w l)
  unfolding clear_upper
  Goes-clear_upper w l j = Goes-pure tt j

  Goes-increment : (w : Width) (l : Loc) (j : ℕ) → Goes j j (increment true w l)
  unfolding increment
  Goes-increment w l j = Goes-pure tt j

  pub Goes-destination_addr : (n : ℕ) (l : Loc) (o j : ℕ) → Goes j j (destination_addr n l o)
  unfolding destination_addr
  Goes-destination_addr n l o j =
      Goes-if (n == 0) j j (λ s h. at _ s h)
        (Goes-if (n == 2) j j (λ s h. at _ s h)
          (Goes-then (load16 l) _ j j j (Goes-load16 l j) (λ a s h. at _ s h)))

  Goes-load_addr : (a j : ℕ) → Goes j j (load_addr a)
  Goes-load_addr a j = Goes-load16 (get_addr_ptr a) j

  module _ (f : Fields) (cg : Option ℕ) (s_reg d_reg : Loc) where
    pub Goes-indirect : (j : ℕ) → Goes j j (indirect f true cg s_reg d_reg)
    unfolding indirect
    Goes-indirect j =
        Goes-then (load16 s_reg) _ j j j (Goes-load16 s_reg j) (λ r. Goes-load_addr r j)

    Goes-offset : (c : ℕ → M ℕ) → ((o : ℕ) → Goes 1 1 (c o)) → Goes 0 1 (fetch >>= c)
    Goes-offset c h = Goes-then fetch c 0 1 1 (Goes-fetch 0) h

    pub Goes-as1_ad0_source : Goes 0 1 (as1_ad0_source f true cg s_reg d_reg)
    unfolding as1_ad0_source
    Goes-as1_ad0_source =
        let based : (g : ℕ → ℕ) → Goes 1 1 (load16 s_reg >>= λ r. load_addr (g r)) = λ g.
          Goes-then (load16 s_reg) _ 1 1 1 (Goes-load16 s_reg 1) (λ r. Goes-load_addr (g r) 1) in
        Goes-if (f.source == 0) 0 1 (Goes-offset _ (λ o. based (λ r. r + o + 2 ^ 16 - 2))) (
          Goes-if (f.source == 2) 0 1 (Goes-offset _ (λ o. Goes-load_addr o 1))
            (Goes-offset _ (λ o. based (λ r. r + o))))

    pub Goes-as1_ad1_source : Goes 0 1 (as1_ad1_source f true cg s_reg d_reg)
    unfolding as1_ad1_source
    Goes-as1_ad1_source =
        let based : (m : M ℕ) (g : ℕ → ℕ) → Goes 1 1 m → Goes 1 1 (m >>= λ r. load_addr (g r)) =
          λ m g h. Goes-then m _ 1 1 1 h (λ r. Goes-load_addr (g r) 1) in
        Goes-if (f.source == 0) 0 1
          (Goes-offset _ (λ o. based pc (λ r. r + o + 2 ^ 16 - 4) (Goes-pc 1)))
          (Goes-if (f.source == 2) 0 1 (Goes-offset _ (λ o. Goes-load_addr o 1))
            (Goes-offset _ (λ o. based (load16 s_reg) (λ r. r + o) (Goes-load16 s_reg 1))))

    pub Goes-as3_source : Goes 0 (if f.source == 0 then 1 else 0) (as3_source f true cg s_reg d_reg)
    unfolding as3_source
    Goes-as3_source = chosen (f.source == 0)
      where
        chosen :
            (b : Bool)
            → Goes 0 (if b then 1 else 0) (
                if b
                then fetch
                else (indirect f true cg s_reg d_reg >>= λ v.
                    increment true f.bw_flag s_reg >> pure v))
        chosen true = Goes-fetch 0
        chosen false = Goes-then (indirect f true cg s_reg d_reg) _ 0 0 0 (Goes-indirect 0) (λ v.
            Goes-then (increment true f.bw_flag s_reg) _ 0 0 0 (Goes-increment f.bw_flag s_reg 0)
              (λ _. Goes-pure v 0))
