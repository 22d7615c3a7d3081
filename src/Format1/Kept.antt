-- ===== src/Format1/Kept.antt =====
-- The addressing modes of format I, and the whole of it, keep the machine well formed and the mode
-- bits as they are.
use msp430_emulator.Base.{
  ℕ, ◌+◌, ◌-◌, ◌<◌, ◌^◌, Bool, true, false, Option, none, some, List, arith, bit_and, ◌==◌, u16,
  if◌then◌else◌,
}
use msp430_emulator.Base.Bits.{bit_and-le}
use msp430_emulator.Machine.{
  Machine, M, Loc, Result, ok, fault, Width, word, byte, load16, fetch, pure, ◌>>=◌, ◌>>◌,
}
use msp430_emulator.Machine.Keeps.{
  Keeps, Any, IsWordValue, step, done, failed, Keeps-load16, Keeps-store16, Keeps-fetch,
  Keeps-get_reg_ptr, Keeps-if,
}
use msp430_emulator.Constant.{constant, run_constant_generator}
use msp430_emulator.Format1.Fields.{Fields, fields}
use msp430_emulator.Format1.Operands.{
  load_addr, clear_upper, increment, destination_addr, as0_ad0, as0_ad1, as1_ad0_source, as1_ad0,
  as1_ad1_source, as1_ad1, indirect, as2_ad0, as2_ad1, as3_source, as3_ad0, as3_ad1, operands,
}
use msp430_emulator.Format1.Alu.Kept.{Keeps-execute}
use msp430_emulator.Format1.{decode_format_i, write_operands}
use msp430_emulator.Listing.TwoOperands.{asm_operands}

-- A constant, where there is one, is a word.
abbrev pub IsConstant : Option ℕ → Type 0
IsConstant none = Unit {0}
IsConstant (some c) = c < 2 ^ 16

run_constant_generator-lt : (source as_flag : ℕ) → run_constant_generator source as_flag < 2 ^ 16
unfolding run_constant_generator
run_constant_generator-lt source as_flag = ground arith

if-IsConstant : (b : Bool) (c : ℕ) → c < 2 ^ 16 → IsConstant (if b then some c else none)
if-IsConstant true c h = h
if-IsConstant false c h = tt

pub constant-IsConstant : (source as_flag : ℕ) → IsConstant (constant source as_flag)
unfolding constant
constant-IsConstant source as_flag = if-IsConstant _ _ (run_constant_generator-lt source as_flag)

-- The value of a pair of a value and a pointer is a word.
abbrev IsOperand : ℕ × Loc → Type 0
IsOperand p = p.0 < 2 ^ 16

module _ (r : Machine) where
  pub Keeps-clear_upper : (d : Bool) (w : Width) (l : Loc) → Keeps r Any (clear_upper d w l)
  unfolding clear_upper
  Keeps-clear_upper true w l s i = done tt s i tt
  Keeps-clear_upper false word l s i = done tt s i tt
  Keeps-clear_upper false byte l s i =
      step r (Keeps-load16 r l s i)
        λ v s1 i1 h. Keeps-store16 r l (bit_and v 0x00FF) (omega (arith, bit_and-le v 0x00FF)) s1 i1

  pub Keeps-increment : (d : Bool) (w : Width) (l : Loc) → Keeps r Any (increment d w l)
  unfolding increment
  Keeps-increment true w l s i = done tt s i tt
  Keeps-increment false word l s i =
      step r (Keeps-load16 r l s i) λ v s1 i1 h. Keeps-store16 r l (u16 (v + 2)) (omega arith) s1 i1
  Keeps-increment false byte l s i =
      step r (Keeps-load16 r l s i) λ v s1 i1 h. Keeps-store16 r l (u16 (v + 1)) (omega arith) s1 i1

  Keeps-destination_addr : (n : ℕ) (l : Loc) (o : ℕ) → Keeps r Any (destination_addr n l o)
  unfolding destination_addr
  Keeps-destination_addr n l o =
      Keeps-if r (n == 0) (λ s i. done _ s i tt)
        (Keeps-if r (n == 2) (λ s i. done _ s i tt)
          (λ s i. step r (Keeps-load16 r l s i) λ v s1 i1 h. done _ s1 i1 tt))

  -- A constant or a value that is computed.
  Keeps-source :
      (cg : Option ℕ) (m : M ℕ)
      → IsConstant cg
      → Keeps r IsWordValue m
      → Keeps r IsWordValue (elim cg [ some c ↦ pure c | none ↦ m ])
  Keeps-source none m c h s i = h s i
  Keeps-source (some v) m c h s i = done v s i c

  module _ (f : Fields) (d : Bool) (cg : Option ℕ) (c : IsConstant cg) (s_reg d_reg : Loc) where
    Keeps-as0_ad0 : Keeps r IsOperand (as0_ad0 f d cg s_reg d_reg)
    unfolding as0_ad0
    Keeps-as0_ad0 s i =
        step r (Keeps-source cg (load16 s_reg) c (Keeps-load16 r s_reg) s i) λ v s1 i1 h.
          step r (Keeps-clear_upper d f.bw_flag d_reg s1 i1) λ _ s2 i2 _. done _ s2 i2 h

    Keeps-as0_ad1 : Keeps r IsOperand (as0_ad1 f d cg s_reg d_reg)
    unfolding as0_ad1
    Keeps-as0_ad1 s i = step r (Keeps-fetch r s i) λ o s1 i1 _.
        step r (Keeps-source cg (load16 s_reg) c (Keeps-load16 r s_reg) s1 i1)
          λ v s2 i2 h. step r (Keeps-load16 r d_reg s2 i2) λ e s3 i3 _. done _ s3 i3 h

    -- A word fetched, and the word at an address that is computed from it and a register.
    Keeps-indexed :
        (g : ℕ → ℕ → ℕ)
        → Keeps r IsWordValue (fetch >>= λ o. load16 s_reg >>= λ v. load_addr (g v o))
    Keeps-indexed g s i =
        step r (Keeps-fetch r s i)
          λ o s1 i1 _. step r (Keeps-load16 r s_reg s1 i1) λ v s2 i2 _. Keeps-load16 r _ s2 i2

    Keeps-absolute : Keeps r IsWordValue (fetch >>= load_addr)
    Keeps-absolute s i = step r (Keeps-fetch r s i) λ o s1 i1 _. Keeps-load16 r _ s1 i1

    Keeps-as1_ad0_source : Keeps r IsWordValue (as1_ad0_source f d cg s_reg d_reg)
    unfolding as1_ad0_source
    Keeps-as1_ad0_source =
        Keeps-if r (f.source == 0) (Keeps-indexed (λ v o. v + o + 2 ^ 16 - 2))
          (Keeps-if r (f.source == 2) Keeps-absolute (Keeps-indexed (λ v o. v + o)))

    Keeps-as1_ad1_source : Keeps r IsWordValue (as1_ad1_source f d cg s_reg d_reg)
    unfolding as1_ad1_source
    Keeps-as1_ad1_source =
        Keeps-if r (f.source == 0)
          (λ s i. step r (Keeps-fetch r s i) λ o s1 i1 _. Keeps-load16 r _ s1 i1)
          (Keeps-if r (f.source == 2) Keeps-absolute (Keeps-indexed (λ v o. v + o)))

    Keeps-indirect : Keeps r IsWordValue (indirect f d cg s_reg d_reg)
    unfolding indirect
    Keeps-indirect s i = step r (Keeps-load16 r s_reg s i) λ v s1 i1 _. Keeps-load16 r _ s1 i1

    Keeps-as3_source : Keeps r IsWordValue (as3_source f d cg s_reg d_reg)
    unfolding as3_source
    Keeps-as3_source = Keeps-if r (f.source == 0) (Keeps-fetch r) (λ s i.
        step r (Keeps-indirect s i)
          λ v s1 i1 h. step r (Keeps-increment d f.bw_flag s_reg s1 i1) λ _ s2 i2 _. done _ s2 i2 h)

    -- A source, then a register as the destination.
    Keeps-to_register :
        (m : M ℕ)
        → Keeps r IsWordValue m
        → Keeps r IsOperand (m >>= λ v. clear_upper d f.bw_flag d_reg >> pure (v, d_reg))
    Keeps-to_register m k s i =
        step r (k s i) λ v s1 i1 h.
          step r (Keeps-clear_upper d f.bw_flag d_reg s1 i1) λ _ s2 i2 _. done _ s2 i2 h

    -- A source, then an offset and the memory as the destination.
    Keeps-to_memory :
        (m : M ℕ)
        → Keeps r IsWordValue m
        → Keeps r IsOperand
            (m >>= λ v. fetch >>= λ o. destination_addr f.destination d_reg o >>= λ l. pure (v, l))
    Keeps-to_memory m k s i = step r (k s i) λ v s1 i1 h. step r (Keeps-fetch r s1 i1) λ o s2 i2 _.
        step r (Keeps-destination_addr f.destination d_reg o s2 i2) λ l s3 i3 _. done _ s3 i3 h

    Keeps-as2_ad1 : Keeps r IsOperand (as2_ad1 f d cg s_reg d_reg)
    unfolding as2_ad1
    Keeps-as2_ad1 s i = step r (Keeps-fetch r s i) λ o s1 i1 _.
        step r (Keeps-source cg _ c Keeps-indirect s1 i1) λ v s2 i2 h.
          step r (Keeps-destination_addr f.destination d_reg o s2 i2) λ l s3 i3 _. done _ s3 i3 h

    Keeps-operands : Keeps r IsOperand (operands f d cg s_reg d_reg)
    unfolding operands as1_ad0 as1_ad1 as2_ad0 as3_ad0 as3_ad1
    Keeps-operands =
        Keeps-if r (f.ad_flag == 0)
          (Keeps-if r (f.as_flag == 0) Keeps-as0_ad0 (
            Keeps-if r (f.as_flag == 1)
              (Keeps-to_register _ (Keeps-source cg _ c Keeps-as1_ad0_source))
              (Keeps-if r (f.as_flag == 2)
                (Keeps-to_register _ (Keeps-source cg _ c Keeps-indirect))
                (Keeps-to_register _ (Keeps-source cg _ c Keeps-as3_source)))))
          (Keeps-if r (f.as_flag == 0) Keeps-as0_ad1 (
            Keeps-if r (f.as_flag == 1)
              (Keeps-to_memory _ (Keeps-source cg _ c Keeps-as1_ad1_source))
              (Keeps-if r (f.as_flag == 2) Keeps-as2_ad1
                (Keeps-to_memory _ (Keeps-source cg _ c Keeps-as3_source)))))

  Keeps-write_operands : (text : Result (List ℕ)) → Keeps r Any (write_operands text)
  Keeps-write_operands (ok text) s i = done tt s i tt
  Keeps-write_operands (fault f) s i = failed f

  pub Keeps-decode_format_i : (n : ℕ) (d : Bool) → Keeps r Any (decode_format_i n d)
  unfolding decode_format_i
  Keeps-decode_format_i n d s i =
      let f = fields n in
      step r (Keeps-get_reg_ptr r f.source s i) λ s_reg s1 i1 _.
        step r (Keeps-get_reg_ptr r f.destination s1 i1) λ d_reg s2 i2 _.
          step r
            (Keeps-operands f d (constant f.source f.as_flag)
              (constant-IsConstant f.source f.as_flag) s_reg d_reg s2 i2)
            λ p s3 i3 h. step r (Keeps-write_operands (asm_operands f s2) s3 i3) λ _ s4 i4 _.
              Keeps-if r d (λ s i. done tt s i tt) (Keeps-execute r f.bw_flag p.0 p.1 h f.opcode) s4
                i4
