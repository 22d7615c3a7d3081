-- ===== src/Decoder/Symbolic.antt =====
-- Where the symbolic modes of the two instruction formats read.
use msp430_emulator.Base.{
  ℕ, ◌+◌, ◌-◌, ◌^◌, ◌≡◌, Bool, Option, none, u16, ◌==◌, if◌then◌else◌, arith, refl, ap, ◌∙◌,
}
use msp430_emulator.Machine.{Machine, M, ok, Loc, reg, cell, load16, fetch, get_addr_ptr}
use msp430_emulator.Machine.Fetch.{fetch-ok}
use msp430_emulator.Format1.Fields as F1
use msp430_emulator.Format2.Fields as F2
use msp430_emulator.Format1.Operands.{as1_ad0_source, as1_ad1_source, load_addr}
use msp430_emulator.Format2.Operand.{as1_memory}

load-reg : (s : Machine) → load16 (reg 0) s ≡ ok (s.regs 0, s)
unfolding load16
load-reg s = refl

-- The first branch of a test on the number of the register, on a machine.
first_branch :
    {A : Type 0} (n : ℕ) (m k : M A) (s : Machine) → n ≡ 0 → (if n == 0 then m else k) s ≡ m s
first_branch n m k s h = rw h refl

module _ (s t : Machine) (offset : ℕ) (fetched : fetch s ≡ ok (offset, t)) where
  moved : t.regs 0 ≡ u16 (s.regs 0 + 2)
  moved = ap (λ m. m.regs 0) (fetch-ok s t offset fetched).1

  load_at : (a b : ℕ) → u16 a ≡ u16 b → load_addr a t ≡ load_addr b t
  load_at a b e = ap (λ c. load16 (cell c) t) e

  as1_ad0-symbolic :
      (f : F1.Fields) (disassemble : Bool) (cg : Option ℕ) (d_reg : Loc)
      → f.source ≡ 0
      → as1_ad0_source f disassemble cg (reg 0) d_reg s ≡ load_addr (s.regs 0 + offset) t
  unfolding as1_ad0_source
  as1_ad0-symbolic f disassemble cg d_reg h =
      first_branch f.source _ _ s h
      ∙ rw (fetched, load-reg t)
          (load_at (t.regs 0 + offset + 2 ^ 16 - 2) (s.regs 0 + offset) (omega (arith, moved)))

  as1_ad1-symbolic :
      (f : F1.Fields) (disassemble : Bool) (cg : Option ℕ) (d_reg : Loc)
      → f.source ≡ 0
      → as1_ad1_source f disassemble cg (reg 0) d_reg s
        ≡ load_addr (s.regs 0 + offset + 2 ^ 16 - 2) t
  unfolding as1_ad1_source
  as1_ad1-symbolic f disassemble cg d_reg h =
      first_branch f.source _ _ s h
      ∙ rw fetched (
          load_at (t.regs 0 + offset + 2 ^ 16 - 4) (s.regs 0 + offset + 2 ^ 16 - 2)
            (omega (arith, moved)))

  as1_memory-symbolic :
      (g : F2.Fields) (cg : Option ℕ)
      → g.source ≡ 0
      → as1_memory g cg (reg 0) s ≡ ok ((none, get_addr_ptr (s.regs 0 + offset + 2)), t)
  unfolding as1_memory
  as1_memory-symbolic g cg h =
      let there : u16 (t.regs 0 + offset) ≡ u16 (s.regs 0 + offset + 2) = omega (arith, moved) in
      first_branch g.source _ _ s h ∙ rw fetched (ap (λ c. ok ((none, cell c), t)) there)

-- Where the offset of a symbolic source can be fetched, a two-operand instruction with a register
-- destination reads at the sum of the address of the offset and the offset, one with a memory
-- destination two bytes below that, and a one-operand instruction points two bytes above it.
pub symbolic_lem :
    (f : F1.Fields) (g : F2.Fields) (disassemble : Bool) (cg : Option ℕ) (d_reg : Loc)
    (s t : Machine) (offset : ℕ)
    → f.source ≡ 0
    → g.source ≡ 0
    → fetch s ≡ ok (offset, t)
    → let a = s.regs 0 + offset in
      (as1_ad0_source f disassemble cg (reg 0) d_reg s ≡ load_addr a t)
      × (as1_ad1_source f disassemble cg (reg 0) d_reg s ≡ load_addr (a + 2 ^ 16 - 2) t)
      × (as1_memory g cg (reg 0) s ≡ ok ((none, get_addr_ptr (a + 2)), t))
symbolic_lem f g disassemble cg d_reg s t offset h k fetched = (
  as1_ad0-symbolic s t offset fetched f disassemble cg d_reg h,
  as1_ad1-symbolic s t offset fetched f disassemble cg d_reg h,
  as1_memory-symbolic s t offset fetched g cg k,
)
