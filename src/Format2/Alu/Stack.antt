-- ===== src/Format2/Alu/Stack.antt =====
-- PUSH and CALL on the stack, and the return with MOV @SP+, PC.
use msp430_emulator.Base.{
  ℕ, ◌+◌, ◌-◌, ◌^◌, ◌<◌, true, false, some, ◌==◌, ltb, ◌≡◌, arith, refl, ap, sym, subst, ◌∙◌, ◌||◌,
  u16, update, if◌then◌else◌,
}
use msp430_emulator.Machine.{
  Machine, word, ok, reg, cell, load16, store16, store, get16, put16, get_reg_ptr,
}
use msp430_emulator.Machine.Store.{IsWord, IsWellFormed, store16-eq, get16-put16}
use msp430_emulator.Format1.{decode_format_i}
use msp430_emulator.Listing.TwoOperands.{asm_operands, source_text, as3_text}
use msp430_emulator.Names.{reg_num_to_name}
use msp430_emulator.Format1.Operands.{
  operands, as3_ad0, as3_source, indirect, increment, clear_upper,
}
use msp430_emulator.Format1.Fields.{fields}
use msp430_emulator.Format1.Alu.{execute, mov}
use msp430_emulator.Constant.{constant, run_constant_generator}
use msp430_emulator.Format2.Alu.{push, call, lower_sp}

-- The stack pointer two bytes below another.
abbrev pub lowered : ℕ → ℕ
lowered sp = u16 (sp + 2 ^ 16 - 2)

-- MOV @SP+, PC, which is RET.
abbrev pub ret : ℕ
ret = 0x4130

-- The machine with a word on top of its stack.
abbrev pub pushed : Machine → ℕ → Machine
pushed s v =
    put16 (record s { regs = update s.regs 1 (lowered (s.regs 1)) }) (cell (lowered (s.regs 1))) v

module _ (s : Machine) (h : IsWord (cell (lowered (s.regs 1)))) where
  push-eq : (v : ℕ) → push word (some v) s ≡ ok (tt, pushed s v)
  unfolding push lower_sp
  push-eq v = simp (store16-eq, h) refl

  call-eq :
      (n : ℕ)
      → call (reg n) s
        ≡ ok (
          tt,
          record (pushed s (s.regs 0)) {
            regs = update (pushed s (s.regs 0)).regs 0 ((pushed s (s.regs 0)).regs n);
          },
        )
  unfolding call lower_sp load16
  call-eq n = simp (store16-eq, h) refl

ret-eq :
    (s : Machine)
    → IsWord (cell (s.regs 1))
    → decode_format_i ret false s
      ≡ ok (
        tt,
        record s {
          regs = update (update s.regs 1 (u16 (s.regs 1 + 2))) 0 (get16 s (cell (s.regs 1)));
        },
      )
unfolding decode_format_i operands as3_ad0 as3_source indirect fields constant
    run_constant_generator asm_operands source_text as3_text reg_num_to_name get_reg_ptr increment
    clear_upper execute mov load16 store16 store
ret-eq s h =
    let fits : u16 (s.regs 1) ≡ s.regs 1 = omega arith in
    let inside : ltb (s.regs 1 + 1) 0x10000 ≡ true = ground arith in simp (fits, inside) refl

-- Where the lowered stack pointer points to a word in memory, PUSH of a word lowers the stack
-- pointer by two modulo 2^16 and puts the word there; the other registers, the other memory and the
-- flags stay.
pub push_word :
    (s : Machine) (v : ℕ)
    → IsWord (cell (lowered (s.regs 1)))
    → (t : Machine) × (push word (some v) s ≡ ok (tt, t))
      × (t.regs ≡ update s.regs 1 (lowered (s.regs 1)))
      × (get16 t (cell (t.regs 1)) ≡ v)
      × ((a : ℕ)
          → t.memspace a
            ≡ (if a == t.regs 1 || a == t.regs 1 + 1 then t.memspace a else s.memspace a))
      × (t.sr ≡ s.sr)
push_word s v h = (
  _,
  push-eq s h v,
  refl,
  get16-put16 (record s { regs = update s.regs 1 (lowered (s.regs 1)) }) (cell (lowered (s.regs 1)))
      v h,
  (λ a. ground arith),
  refl,
)

-- From a well-formed machine whose lowered stack pointer points to a word in memory, CALL of a
-- register leaves the address after the call on the stack and continues at the value of the
-- register, for SP the lowered one; and RET from any machine in which the stack pointer and the
-- word under it are what CALL left continues at that address with the stack pointer restored.
pub call-ret :
    (s u : Machine) (n : ℕ)
    → IsWellFormed s
    → IsWord (cell (lowered (s.regs 1)))
    → u.regs 1 ≡ lowered (s.regs 1)
    → get16 u (cell (lowered (s.regs 1))) ≡ s.regs 0
    → (t v : Machine) × (call (reg n) s ≡ ok (tt, t))
      × (t.regs 0 ≡ (if n == 1 then lowered (s.regs 1) else s.regs n))
      × (t.regs 1 ≡ lowered (s.regs 1))
      × (get16 t (cell (lowered (s.regs 1))) ≡ s.regs 0)
      × (decode_format_i ret false u ≡ ok (tt, v))
      × (v.regs 0 ≡ s.regs 0)
      × (v.regs 1 ≡ s.regs 1)
call-ret s u n w h sp top = (
  _,
  _,
  call-eq s h n,
  refl,
  refl,
  get16-put16 (record s { regs = update s.regs 1 (lowered (s.regs 1)) }) (cell (lowered (s.regs 1)))
      (s.regs 0) h,
  ret-eq u (subst (λ a. a + 1 < 0x10000) (sym sp) h),
  ap (λ a. get16 u (cell a)) sp ∙ top,
  rw sp (omega (arith, w.regs_fit 1)),
)
