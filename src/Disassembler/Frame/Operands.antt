-- ===== src/Disassembler/Frame/Operands.antt =====
-- Formats I and II in disassembly: operands are fetched, and nothing is executed.
use msp430_emulator.Base.{
  ℕ, ◌+◌, ◌-◌, ◌^◌, true, false, Option, none, some, List, ◌==◌, u16, bit_and,
}
use msp430_emulator.Machine.{
  Machine, M, Loc, Result, ok, fault, Width, word, byte, bogus, get_addr_ptr, load16, store16,
  fetch, pure, ◌>>=◌, ◌>>◌,
}
use msp430_emulator.Constant.{constant}
use msp430_emulator.Format1.{decode_format_i, write_operands}
use msp430_emulator.Listing.TwoOperands.{asm_operands}
use msp430_emulator.Format1.Operands.{
  clear_upper, increment, load_addr, destination_addr, as0_ad0, as0_ad1, as1_ad0_source, as1_ad0,
  as1_ad1_source, as1_ad1, indirect, as2_ad0, as2_ad1, as3_source, as3_ad0, as3_ad1, operands,
}
use msp430_emulator.Format1.Fields.{Fields as TwoOperand, fields as two_operand}
use msp430_emulator.Format2.{decode_format_ii}
use msp430_emulator.Format2.Fields.{Fields as OneOperand, fields as one_operand}
use msp430_emulator.Format2.Operand.{
  immediate, memory, as0, as1_memory, as1, as2, as3_memory, as3, operand,
}
use msp430_emulator.Disassembler.Frame.Rules.{
  IsOutside, IsCalm, done, failed, next, IsCalm-if, IsCalm-load16, IsCalm-store16, IsCalm-fetch,
  IsCalm-with_reg,
}

module _ (s : Machine) where
  -- Format I.
  IsCalm-destination_addr : (n : ℕ) (l : Loc) (o : ℕ) → IsCalm s (destination_addr n l o)
  unfolding destination_addr
  IsCalm-destination_addr n l o =
      IsCalm-if s (n == 0) (λ t i. done _ t i)
        (IsCalm-if s (n == 2) (λ t i. done _ t i)
          (λ t i. next s (IsCalm-load16 s l t i) λ v t1 i1. done _ t1 i1))

  IsCalm-source :
      {A : Type 0} (cg : Option ℕ) (m : M A) (k : ℕ → M A)
      → ((c : ℕ) → IsCalm s (k c))
      → IsCalm s m
      → IsCalm s (elim cg [ some c ↦ k c | none ↦ m ])
  IsCalm-source none m k hk h = h
  IsCalm-source (some v) m k hk h = hk v

  module _ (f : TwoOperand) (cg : Option ℕ) (s_reg d_reg : Loc) where
    IsCalm-constant : (m : M ℕ) → IsCalm s m → IsCalm s (elim cg [ some c ↦ pure c | none ↦ m ])
    IsCalm-constant m h = IsCalm-source cg m pure (λ c t i. done c t i) h

    -- A word fetched, and the word at an address computed from it and a register.
    IsCalm-indexed :
        (g : ℕ → ℕ → ℕ) → IsCalm s (fetch >>= λ o. load16 s_reg >>= λ v. load_addr (g v o))
    IsCalm-indexed g t i =
        next s (IsCalm-fetch s t i) λ o t1 i1.
          next s (IsCalm-load16 s s_reg t1 i1) λ v. IsCalm-load16 s (get_addr_ptr (g v o))

    IsCalm-absolute : IsCalm s (fetch >>= load_addr)
    IsCalm-absolute t i = next s (IsCalm-fetch s t i) λ o. IsCalm-load16 s (get_addr_ptr o)

    IsCalm-as1_ad0_source : IsCalm s (as1_ad0_source f true cg s_reg d_reg)
    unfolding as1_ad0_source
    IsCalm-as1_ad0_source =
        IsCalm-if s (f.source == 0) (IsCalm-indexed (λ v o. v + o + 2 ^ 16 - 2))
          (IsCalm-if s (f.source == 2) IsCalm-absolute (IsCalm-indexed (λ v o. v + o)))

    IsCalm-as1_ad1_source : IsCalm s (as1_ad1_source f true cg s_reg d_reg)
    unfolding as1_ad1_source
    IsCalm-as1_ad1_source =
        IsCalm-if s (f.source == 0)
          (λ t i. next s (IsCalm-fetch s t i) λ o t1 i1. IsCalm-load16 s _ t1 i1)
          (IsCalm-if s (f.source == 2) IsCalm-absolute (IsCalm-indexed (λ v o. v + o)))

    IsCalm-indirect : IsCalm s (indirect f true cg s_reg d_reg)
    unfolding indirect
    IsCalm-indirect t i = next s (IsCalm-load16 s s_reg t i) λ v. IsCalm-load16 s (get_addr_ptr v)

    IsCalm-as3_source : IsCalm s (as3_source f true cg s_reg d_reg)
    unfolding as3_source increment
    IsCalm-as3_source =
        IsCalm-if s (f.source == 0) (IsCalm-fetch s)
          (λ t i. next s (IsCalm-indirect t i) λ v t1 i1. done v t1 i1)

    IsCalm-to_register :
        (m : M ℕ)
        → IsCalm s m
        → IsCalm s {A = ℕ × Loc} (m >>= λ v. clear_upper true f.bw_flag d_reg >> pure (v, d_reg))
    unfolding clear_upper
    IsCalm-to_register m h t i = next s (h t i) λ v t1 i1. done _ t1 i1

    IsCalm-to_memory :
        (m : M ℕ)
        → IsCalm s m
        → IsCalm s {A = ℕ × Loc}
            (m >>= λ v. fetch >>= λ o. destination_addr f.destination d_reg o >>= λ l. pure (v, l))
    IsCalm-to_memory m h t i = next s (h t i) λ v t1 i1. next s (IsCalm-fetch s t1 i1) λ o t2 i2.
        next s (IsCalm-destination_addr f.destination d_reg o t2 i2) λ l t3 i3. done _ t3 i3

    IsCalm-as0_ad1 : IsCalm s (as0_ad1 f true cg s_reg d_reg)
    unfolding as0_ad1
    IsCalm-as0_ad1 t i = next s (IsCalm-fetch s t i) λ o t1 i1.
        next s (IsCalm-constant _ (IsCalm-load16 s s_reg) t1 i1)
          λ v t2 i2. next s (IsCalm-load16 s d_reg t2 i2) λ d t3 i3. done _ t3 i3

    IsCalm-as2_ad1 : IsCalm s (as2_ad1 f true cg s_reg d_reg)
    unfolding as2_ad1
    IsCalm-as2_ad1 t i = next s (IsCalm-fetch s t i) λ o t1 i1.
        next s (IsCalm-constant _ IsCalm-indirect t1 i1) λ v t2 i2.
          next s (IsCalm-destination_addr f.destination d_reg o t2 i2) λ l t3 i3. done _ t3 i3

    IsCalm-operands : IsCalm s (operands f true cg s_reg d_reg)
    unfolding operands as0_ad0 as1_ad0 as1_ad1 as2_ad0 as3_ad0 as3_ad1
    IsCalm-operands =
        IsCalm-if s (f.ad_flag == 0)
          (IsCalm-if s (f.as_flag == 0)
            (IsCalm-to_register _ (IsCalm-constant _ (IsCalm-load16 s s_reg)))
            (IsCalm-if s (f.as_flag == 1)
              (IsCalm-to_register _ (IsCalm-constant _ IsCalm-as1_ad0_source))
              (IsCalm-if s (f.as_flag == 2)
                (IsCalm-to_register _ (IsCalm-constant _ IsCalm-indirect))
                (IsCalm-to_register _ (IsCalm-constant _ IsCalm-as3_source)))))
          (IsCalm-if s (f.as_flag == 0) IsCalm-as0_ad1 (
            IsCalm-if s (f.as_flag == 1)
              (IsCalm-to_memory _ (IsCalm-constant _ IsCalm-as1_ad1_source))
              (IsCalm-if s (f.as_flag == 2) IsCalm-as2_ad1
                (IsCalm-to_memory _ (IsCalm-constant _ IsCalm-as3_source)))))

  IsCalm-write_operands : (text : Result (List ℕ)) → IsCalm s (write_operands text)
  IsCalm-write_operands (ok text) t i = done tt t i
  IsCalm-write_operands (fault f) t i = failed f

  pub IsCalm-decode_format_i : (n : ℕ) → IsCalm s (decode_format_i n true)
  unfolding decode_format_i
  IsCalm-decode_format_i n =
      let f = two_operand n in
      IsCalm-with_reg s f.source _ λ s_reg _. IsCalm-with_reg s f.destination _ λ d_reg _ t i.
        next s (IsCalm-operands f (constant f.source f.as_flag) s_reg d_reg t i) λ p t1 i1.
          next s (IsCalm-write_operands (asm_operands f t) t1 i1) λ _ t2 i2. done tt t2 i2

  -- Format II, where registers are changed in disassembly too.
  IsCalm-changed :
      (l : Loc) (g : ℕ → ℕ) → IsOutside l → IsCalm s (load16 l >>= λ v. store16 l (g v))
  IsCalm-changed l g h t i = next s (IsCalm-load16 s l t i) λ v. IsCalm-store16 s l (g v) h

  IsCalm-clear_upper : (w : Width) (l : Loc) → IsOutside l → IsCalm s (clear_upper false w l)
  unfolding clear_upper
  IsCalm-clear_upper word l h t i = done tt t i
  IsCalm-clear_upper byte l h t i = IsCalm-changed l (λ v. bit_and v 0x00FF) h t i

  IsCalm-increment : (w : Width) (l : Loc) → IsOutside l → IsCalm s (increment false w l)
  unfolding increment
  IsCalm-increment word l h = IsCalm-changed l (λ v. u16 (v + 2)) h
  IsCalm-increment byte l h = IsCalm-changed l (λ v. u16 (v + 1)) h

  IsCalm-immediate : (v : ℕ) → IsCalm s (immediate v)
  unfolding immediate
  IsCalm-immediate v t i = next s (IsCalm-store16 s bogus v tt t i) λ _ t1 i1. done _ t1 i1

  IsCalm-memory : (a : ℕ) → IsCalm s (memory a)
  unfolding memory
  IsCalm-memory a t i = next s (IsCalm-load16 s (get_addr_ptr a) t i) λ v t1 i1. done _ t1 i1

  module _ (f : OneOperand) (cg : Option ℕ) (l : Loc) (h : IsOutside l) where
    IsCalm-choice :
        (m : M (Option ℕ × Loc))
        → IsCalm s m
        → IsCalm s (elim cg [ some c ↦ immediate c | none ↦ m ])
    IsCalm-choice m k = IsCalm-source cg m immediate IsCalm-immediate k

    IsCalm-as1_memory : IsCalm s (as1_memory f cg l)
    unfolding as1_memory
    IsCalm-as1_memory =
        IsCalm-if s (f.source == 0) (λ t i. next s (IsCalm-fetch s t i) λ o t1 i1. done _ t1 i1)
          (IsCalm-if s (f.source == 2) (λ t i. next s (IsCalm-fetch s t i) IsCalm-memory)
            (λ t i.
              next s (IsCalm-fetch s t i)
                λ o t1 i1. next s (IsCalm-load16 s l t1 i1) λ v. IsCalm-memory (v + o)))

    IsCalm-as3_memory : IsCalm s (as3_memory f cg l)
    unfolding as3_memory
    IsCalm-as3_memory =
        IsCalm-if s (f.source == 0) (λ t i. next s (IsCalm-fetch s t i) IsCalm-immediate)
          (λ t i. next s (IsCalm-load16 s l t i) λ v t1 i1.
            next s (IsCalm-memory v t1 i1)
              λ p t2 i2. next s (IsCalm-increment f.bw_flag l h t2 i2) λ _ t3 i3. done p t3 i3)

    IsCalm-operand : IsCalm s (operand f cg l)
    unfolding operand as0 as1 as2 as3
    IsCalm-operand =
        IsCalm-if s (f.as_flag == 0)
          (λ t i.
            next s
              (IsCalm-choice _ (λ t i. next s (IsCalm-load16 s l t i) λ v t1 i1. done _ t1 i1) t i)
              λ p t1 i1. next s (IsCalm-clear_upper f.bw_flag l h t1 i1) λ _ t2 i2. done p t2 i2)
          (IsCalm-if s (f.as_flag == 1) (IsCalm-choice _ IsCalm-as1_memory) (
            IsCalm-if s (f.as_flag == 2)
              (IsCalm-choice _ (λ t i. next s (IsCalm-load16 s l t i) IsCalm-memory))
              (IsCalm-choice _ IsCalm-as3_memory)))

  pub IsCalm-decode_format_ii : (n : ℕ) → IsCalm s (decode_format_ii n true)
  unfolding decode_format_ii
  IsCalm-decode_format_ii n =
      let f = one_operand n in
      IsCalm-with_reg s f.source _ λ l h t i.
        next s (IsCalm-operand f (constant f.source f.as_flag) l h t i) λ p t1 i1. done tt t1 i1
