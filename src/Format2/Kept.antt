-- ===== src/Format2/Kept.antt =====
-- Format II keeps the machine well formed and the mode bits as they are.
use msp430_emulator.Base.{
  ℕ, ◌+◌, ◌-◌, ◌<◌, ◌^◌, refl, Bool, true, false, Option, none, some, arith, bit_and, bit_or, ◌==◌,
  u16, u8, has, not, if◌then◌else◌,
}
use msp430_emulator.Base.{◌>>>◌, ◌<<<◌}
use msp430_emulator.Base.Bits.{bit_and-le, bit_or-lt}
use msp430_emulator.Machine.{
  Machine, M, Loc, bogus, Width, word, byte, Fault, get_addr_ptr, get_stack_ptr, store16, ◌>>◌,
}
use msp430_emulator.Machine.Keeps.{
  Keeps, Any, step, done, failed, Keeps-load16, Keeps-load8, Keeps-store16, Keeps-store8,
  Keeps-fetch, Keeps-get_reg_ptr, IsKept-sr, IsKept-reg, Keeps-if,
}
use msp430_emulator.Flags.Kept.{Keeps-is_zero, Keeps-is_negative}
use msp430_emulator.Constant.{constant}
use msp430_emulator.Format1.Kept.{
  IsConstant, constant-IsConstant, Keeps-clear_upper, Keeps-increment,
}
use msp430_emulator.Format2.Fields.{Fields, fields}
use msp430_emulator.Format2.Operand.{
  immediate, memory, as0, as1_memory, as1, as2, as3_memory, as3, operand,
}
use msp430_emulator.Format2.Alu.{
  or16_if, or8_if, shift_flags, rrc, swpb, rra, sxt, lower_sp, assigned, push, call, execute,
}
use msp430_emulator.Format2.{decode_format_ii}

-- The source value, where it was assigned, is a word.
abbrev IsOperand : Option ℕ × Loc → Type 0
IsOperand p = IsConstant p.0

module _ (r : Machine) where
  Keeps-immediate : (v : ℕ) → v < 2 ^ 16 → Keeps r IsOperand (immediate v)
  unfolding immediate
  Keeps-immediate v h s i = step r (Keeps-store16 r bogus v h s i) λ _ s1 i1 _. done _ s1 i1 h

  Keeps-memory : (a : ℕ) → Keeps r IsOperand (memory a)
  unfolding memory
  Keeps-memory a s i = step r (Keeps-load16 r (get_addr_ptr a) s i) λ v s1 i1 h. done _ s1 i1 h

  -- A constant as an immediate operand, or an operand that is computed.
  Keeps-choice :
      (cg : Option ℕ) (m : M (Option ℕ × Loc))
      → IsConstant cg
      → Keeps r IsOperand m
      → Keeps r IsOperand (elim cg [ some c ↦ immediate c | none ↦ m ])
  Keeps-choice none m c h s i = h s i
  Keeps-choice (some v) m c h s i = Keeps-immediate v c s i

  module _ (f : Fields) (cg : Option ℕ) (c : IsConstant cg) (reg : Loc) where
    Keeps-as0 : Keeps r IsOperand (as0 f cg reg)
    unfolding as0
    Keeps-as0 s i =
        step r
          (Keeps-choice cg _ c
            (λ s i. step r (Keeps-load16 r reg s i) λ v s1 i1 h. done (some v, reg) s1 i1 h) s i)
          λ p s1 i1 h.
            step r (Keeps-clear_upper r false f.bw_flag reg s1 i1) λ _ s2 i2 _. done p s2 i2 h

    Keeps-as1_memory : Keeps r IsOperand (as1_memory f cg reg)
    unfolding as1_memory
    Keeps-as1_memory =
        Keeps-if r (f.source == 0) (λ s i. step r (Keeps-fetch r s i) λ o s1 i1 _. done _ s1 i1 tt)
          (Keeps-if r (f.source == 2)
            (λ s i. step r (Keeps-fetch r s i) λ o s1 i1 _. Keeps-memory o s1 i1)
            (λ s i.
              step r (Keeps-fetch r s i)
                λ o s1 i1 _. step r (Keeps-load16 r reg s1 i1) λ v s2 i2 _. Keeps-memory _ s2 i2))

    Keeps-as3_memory : Keeps r IsOperand (as3_memory f cg reg)
    unfolding as3_memory
    Keeps-as3_memory =
        Keeps-if r (f.source == 0)
          (λ s i. step r (Keeps-fetch r s i) λ v s1 i1 h. Keeps-immediate v h s1 i1)
          (λ s i. step r (Keeps-load16 r reg s i) λ v s1 i1 _.
            step r (Keeps-memory v s1 i1) λ p s2 i2 h.
              step r (Keeps-increment r false f.bw_flag reg s2 i2) λ _ s3 i3 _. done p s3 i3 h)

    Keeps-operand : Keeps r IsOperand (operand f cg reg)
    unfolding operand as1 as2 as3
    Keeps-operand = Keeps-if r (f.as_flag == 0) Keeps-as0 (
        Keeps-if r (f.as_flag == 1) (Keeps-choice cg _ c Keeps-as1_memory) (
          Keeps-if r (f.as_flag == 2)
            (Keeps-choice cg _ c
              (λ s i. step r (Keeps-load16 r reg s i) λ v s1 i1 _. Keeps-memory v s1 i1))
            (Keeps-choice cg _ c Keeps-as3_memory)))

  Keeps-or16_if : (b : Bool) (l : Loc) (m : ℕ) → m < 2 ^ 16 → Keeps r Any (or16_if b l m)
  unfolding or16_if
  Keeps-or16_if true l m h s i =
      step r (Keeps-load16 r l s i)
        λ v s1 i1 p. Keeps-store16 r l (bit_or v m) (bit_or-lt 16 v m p h) s1 i1
  Keeps-or16_if false l m h s i = done tt s i tt

  Keeps-or8_if : (b : Bool) (l : Loc) (m : ℕ) → m < 2 ^ 8 → Keeps r Any (or8_if b l m)
  unfolding or8_if
  Keeps-or8_if true l m h s i =
      step r (Keeps-load8 r l s i)
        λ v s1 i1 p. Keeps-store8 r l (bit_or v m) (bit_or-lt 8 v m p h) s1 i1
  Keeps-or8_if false l m h s i = done tt s i tt

  Keeps-shift_flags : (w : Width) (l : Loc) → Keeps r Any (shift_flags w l)
  unfolding shift_flags
  Keeps-shift_flags w l s i = step r (Keeps-is_zero r l w s i) λ z s1 i1 _.
      step r (Keeps-is_negative r l w _ (IsKept-sr r refl i1))
        λ n s2 i2 _. done tt _ (IsKept-sr r refl i2) tt

  -- The store of a shifted word and the flags after it.
  Keeps-shifted16 :
      (w : Width) (b : Bool) (v m : ℕ) (l : Loc)
      → v < 2 ^ 16
      → m < 2 ^ 16
      → Keeps r Any (store16 l v >> (or16_if b l m >> shift_flags w l))
  Keeps-shifted16 w b v m l h k s i =
      step r (Keeps-store16 r l v h s i)
        λ _ s1 i1 _. step r (Keeps-or16_if b l m k s1 i1) λ _ s2 i2 _. Keeps-shift_flags w l s2 i2

  Keeps-rrc : (w : Width) (l : Loc) → Keeps r Any (rrc w l)
  unfolding rrc
  Keeps-rrc word l s i = step r (Keeps-load16 r l s i) λ v s1 i1 h.
      Keeps-shifted16 word s.sr.carry (v >>> 1) 0x8000 l (omega arith) (omega arith) _
        (IsKept-sr r refl i1)
  Keeps-rrc byte l s i = step r (Keeps-load8 r l s i) λ v s1 i1 h.
      step r (Keeps-store8 r l (v >>> 1) (omega arith) _ (IsKept-sr r refl i1)) λ _ s2 i2 _.
        step r (Keeps-or8_if s.sr.carry l 0x80 (omega arith) s2 i2)
          λ _ s3 i3 _. Keeps-shift_flags byte l s3 i3

  Keeps-rra : (w : Width) (l : Loc) → Keeps r Any (rra w l)
  unfolding rra
  Keeps-rra word l s i = step r (Keeps-load16 r l s i) λ v s1 i1 h.
      Keeps-shifted16 word (not (v >>> 15 == 0)) (v >>> 1) 0x8000 l (omega arith) (omega arith) _
        (IsKept-sr r refl i1)
  Keeps-rra byte l s i = step r (Keeps-load16 r l s i) λ v s1 i1 h.
      Keeps-shifted16 byte (not (v >>> 7 == 0)) (v >>> 1) 0x0080 l (omega arith) (omega arith) _
        (IsKept-sr r refl i1)

  swapped-lt :
      (v : ℕ) → v < 2 ^ 16 → bit_or (u8 (bit_and v 0x00FF) <<< 8) (bit_and v 0xFF00 >>> 8) < 2 ^ 16
  swapped-lt v h = bit_or-lt 16 _ _ (omega arith) (omega (arith, bit_and-le v 0xFF00))

  Keeps-swpb : (l : Loc) → Keeps r Any (swpb l)
  unfolding swpb
  Keeps-swpb l s i =
      step r (Keeps-load16 r l s i) λ v s1 i1 h. Keeps-store16 r l _ (swapped-lt v h) s1 i1

  extended-lt :
      (b : Bool) (v : ℕ) → v < 2 ^ 16 → (if b then bit_or v 0xFF00 else bit_and v 0x00FF) < 2 ^ 16
  extended-lt true v h = bit_or-lt 16 v 0xFF00 h (omega arith)
  extended-lt false v h = omega (arith, bit_and-le v 0x00FF)

  Keeps-sxt : (l : Loc) → Keeps r Any (sxt l)
  unfolding sxt
  Keeps-sxt l s i = step r (Keeps-load16 r l s i) λ v s1 i1 h.
      step r (Keeps-store16 r l _ (extended-lt (has v 0x0080) v h) s1 i1) λ _ s2 i2 _.
        step r (Keeps-is_negative r l word s2 i2) λ n s3 i3 _.
          step r (Keeps-is_zero r l word _ (IsKept-sr r refl i3))
            λ z s4 i4 _. done tt _ (IsKept-sr r refl i4) tt

  Keeps-lower_sp : Keeps r Any lower_sp
  unfolding lower_sp
  Keeps-lower_sp s i = done tt _ (IsKept-reg r s 1 (u16 (s.regs 1 + 2 ^ 16 - 2)) (omega arith) i) tt

  Keeps-assigned : (o : Option ℕ) → IsConstant o → Keeps r (λ v. v < 2 ^ 16) (assigned o)
  Keeps-assigned (some v) h s i = done v s i h
  Keeps-assigned none h s i = failed Fault.indeterminate

  Keeps-push : (w : Width) (o : Option ℕ) → IsConstant o → Keeps r Any (push w o)
  unfolding push
  Keeps-push word o h s i = step r (Keeps-lower_sp s i) λ _ s1 i1 _.
      step r (Keeps-assigned o h s1 i1) λ v s2 i2 k. Keeps-store16 r (get_stack_ptr s1) v k s2 i2
  Keeps-push byte o h s i = step r (Keeps-lower_sp s i) λ _ s1 i1 _.
      step r (Keeps-load16 r (get_stack_ptr s1) s1 i1) λ d s2 i2 _.
        step r
          (Keeps-store16 r (get_stack_ptr s1) (bit_and d 0xFF00)
            (omega (arith, bit_and-le d 0xFF00)) s2 i2)
          λ _ s3 i3 _. step r (Keeps-assigned o h s3 i3) λ v s4 i4 _.
            step r (Keeps-load16 r (get_stack_ptr s1) s4 i4) λ e s5 i5 k.
              Keeps-store16 r (get_stack_ptr s1) (bit_or e (u8 v))
                (bit_or-lt 16 e (u8 v) k (omega arith)) s5 i5

  Keeps-call : (l : Loc) → Keeps r Any (call l)
  unfolding call
  Keeps-call l s i = step r (Keeps-lower_sp s i) λ _ s1 i1 _.
      step r (Keeps-store16 r (get_stack_ptr s1) (s1.regs 0) (i1.fits.regs_fit 0) s1 i1)
        λ _ s2 i2 _.
          step r (Keeps-load16 r l s2 i2) λ v s3 i3 h. done tt _ (IsKept-reg r s3 0 v h i3) tt

  Keeps-execute :
      (op : ℕ) (w : Width) (o : Option ℕ) (l : Loc) → IsConstant o → Keeps r Any (execute op w o l)
  unfolding execute
  Keeps-execute op w o l h = Keeps-if r (op == 0) (Keeps-rrc w l) (
      Keeps-if r (op == 1) (Keeps-swpb l) (
        Keeps-if r (op == 2) (Keeps-rra w l) (
          Keeps-if r (op == 3) (Keeps-sxt l) (
            Keeps-if r (op == 4) (Keeps-push w o h)
              (Keeps-if r (op == 5) (Keeps-call l) (λ s i. done tt s i tt))))))

  pub Keeps-decode_format_ii : (n : ℕ) (d : Bool) → Keeps r Any (decode_format_ii n d)
  unfolding decode_format_ii
  Keeps-decode_format_ii n d s i =
      let f = fields n in
      step r (Keeps-get_reg_ptr r f.source s i) λ reg s1 i1 _.
        step r
          (Keeps-operand f (constant f.source f.as_flag) (constant-IsConstant f.source f.as_flag)
            reg s1 i1)
          λ p s2 i2 h.
            Keeps-if r d (λ s i. done tt s i tt) (Keeps-execute f.opcode f.bw_flag p.0 p.1 h) s2 i2
