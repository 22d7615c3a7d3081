-- ===== src/Listing/Fetched.antt =====
-- The words that the decoder of two-operand instructions fetches in disassembly.
use msp430_emulator.Base.{
  ℕ, ◌+◌, ◌*◌, ◌<◌, ◌≡◌, Bool, true, false, Option, none, some, List, ◌==◌, u16, arith, refl,
  if◌then◌else◌,
}
use msp430_emulator.Machine.{
  Machine, M, Loc, Result, ok, fault, get, load16, fetch, pure, get_reg_ptr, ◌>>=◌, ◌>>◌,
}
use msp430_emulator.Base.Bits.{bit_and-le}
use msp430_emulator.Constant.{constant}
use msp430_emulator.Format1.{decode_format_i, write_operands}
use msp430_emulator.Format1.Fields.{Fields, fields}
use msp430_emulator.Format1.Operands.{
  clear_upper, destination_addr, as0_ad0, as0_ad1, as1_ad0, as1_ad1, as2_ad0, as2_ad1, as3_ad0,
  as3_ad1, operands,
}
use msp430_emulator.Listing.TwoOperands.{
  source_words_at, unless_constant, source_words, extra_words, asm_operands,
}
use msp430_emulator.Listing.Moves.{
  Ends, at, failed, Goes, Goes-to, Goes-then, Goes-pure, Goes-load16, Goes-fetch, Goes-get_reg_ptr,
  Goes-constant, Goes-constant_still, Goes-clear_upper, Goes-destination_addr, Goes-indirect,
  Goes-as1_ad0_source, Goes-as1_ad1_source, Goes-as3_source,
}

module _ (p : ℕ) (f : Fields) (cg : Option ℕ) (s_reg d_reg : Loc) where
  -- A source of `k` words, and a register.
  Goes-to_register :
      (m : M ℕ) (k : ℕ)
      → Goes p 0 k m
      → Goes p {A = ℕ × Loc} 0 (unless_constant cg k) (do
        source_value ← elim cg [ some c ↦ pure c | none ↦ m ]
        clear_upper true f.bw_flag d_reg
        pure (source_value, d_reg))
  Goes-to_register m k g =
      let n : ℕ = unless_constant cg k in
      Goes-then p _ _ 0 n n (Goes-constant p cg m k g) (λ v.
        Goes-then p (clear_upper true f.bw_flag d_reg) _ n n n
          (Goes-clear_upper p f.bw_flag d_reg n) (λ _. Goes-pure p (v, d_reg) n))

  -- A source of `k` words, the offset of the destination, and the destination.
  Goes-to_memory :
      (m : M ℕ) (k : ℕ)
      → Goes p 0 k m
      → Goes p {A = ℕ × Loc} 0 (unless_constant cg k + 1) (do
        source_value ← elim cg [ some c ↦ pure c | none ↦ m ]
        destination_offset ← fetch
        l ← destination_addr f.destination d_reg destination_offset
        pure (source_value, l))
  Goes-to_memory m k g =
      let n : ℕ = unless_constant cg k in
      Goes-then p _ _ 0 n (n + 1) (Goes-constant p cg m k g) (λ v.
        Goes-then p fetch _ n (n + 1) (n + 1) (Goes-fetch p n) (λ o.
          Goes-then p (destination_addr f.destination d_reg o) _ (n + 1) (n + 1) (n + 1)
            (Goes-destination_addr p f.destination d_reg o (n + 1)) (λ l s h. at _ s h)))

  no_word : (k : Option ℕ) → 1 ≡ unless_constant k 0 + 1
  no_word (some c) = refl
  no_word none = refl

  -- The offset of the destination, and a source that takes no word.
  Goes-memory_first :
      (m : M ℕ) (l : ℕ → ℕ → M Loc)
      → Goes p 1 1 m
      → ((o v : ℕ) → Goes p 1 1 (l o v))
      → Goes p {A = ℕ × Loc} 0 (unless_constant cg 0 + 1) (do
        destination_offset ← fetch
        source_value ← elim cg [ some c ↦ pure c | none ↦ m ]
        a ← l destination_offset source_value
        pure (source_value, a))
  Goes-memory_first m l g h = Goes-to p _ 0 1 (unless_constant cg 0 + 1) (no_word cg) (
      Goes-then p fetch _ 0 1 1 (Goes-fetch p 0) (λ o.
        Goes-then p _ _ 1 1 1 (Goes-constant_still p cg m 1 g)
          (λ v. Goes-then p (l o v) _ 1 1 1 (h o v) (λ a s e. at _ s e))))

  Goes-as0_ad0 : Goes p 0 (unless_constant cg 0) (as0_ad0 f true cg s_reg d_reg)
  unfolding as0_ad0
  Goes-as0_ad0 = Goes-to_register (load16 s_reg) 0 (Goes-load16 p s_reg 0)

  Goes-as1_ad0 : Goes p 0 (unless_constant cg 1) (as1_ad0 f true cg s_reg d_reg)
  unfolding as1_ad0
  Goes-as1_ad0 = Goes-to_register _ 1 (Goes-as1_ad0_source p f cg s_reg d_reg)

  Goes-as2_ad0 : Goes p 0 (unless_constant cg 0) (as2_ad0 f true cg s_reg d_reg)
  unfolding as2_ad0
  Goes-as2_ad0 = Goes-to_register _ 0 (Goes-indirect p f cg s_reg d_reg 0)

  abbrev immediate_words : ℕ
  immediate_words = if f.source == 0 then 1 else 0

  Goes-as3_ad0 : Goes p 0 (unless_constant cg immediate_words) (as3_ad0 f true cg s_reg d_reg)
  unfolding as3_ad0
  Goes-as3_ad0 = Goes-to_register _ immediate_words (Goes-as3_source p f cg s_reg d_reg)

  Goes-as1_ad1 : Goes p 0 (unless_constant cg 1 + 1) (as1_ad1 f true cg s_reg d_reg)
  unfolding as1_ad1
  Goes-as1_ad1 = Goes-to_memory _ 1 (Goes-as1_ad1_source p f cg s_reg d_reg)

  Goes-as3_ad1 : Goes p 0 (unless_constant cg immediate_words + 1) (as3_ad1 f true cg s_reg d_reg)
  unfolding as3_ad1
  Goes-as3_ad1 = Goes-to_memory _ immediate_words (Goes-as3_source p f cg s_reg d_reg)

  Goes-as2_ad1 : Goes p 0 (unless_constant cg 0 + 1) (as2_ad1 f true cg s_reg d_reg)
  unfolding as2_ad1
  Goes-as2_ad1 =
      Goes-memory_first _ (λ o v. destination_addr f.destination d_reg o)
        (Goes-indirect p f cg s_reg d_reg 1)
        (λ o v. Goes-destination_addr p f.destination d_reg o 1)

  Goes-as0_ad1 : Goes p 0 (unless_constant cg 0 + 1) (as0_ad1 f true cg s_reg d_reg)
  unfolding as0_ad1
  Goes-as0_ad1 = Goes-to p _ 0 1 (unless_constant cg 0 + 1) (no_word cg) (
      Goes-then p fetch _ 0 1 1 (Goes-fetch p 0) (λ o.
        Goes-then p _ _ 1 1 1 (Goes-constant_still p cg (load16 s_reg) 1 (Goes-load16 p s_reg 1))
          (λ v. Goes-then p (load16 d_reg) _ 1 1 1 (Goes-load16 p d_reg 1) (λ d s e. at _ s e))))

  -- The words that the source takes, and the branches for either destination, by the three tests on
  -- the mode.
  abbrev words_by : Bool → Bool → Bool → ℕ
  words_by x y z = if x then 0 else if y then 1 else if z then 0 else immediate_words

  abbrev by_mode :
      Bool → Bool → Bool → M (ℕ × Loc) → M (ℕ × Loc) → M (ℕ × Loc) → M (ℕ × Loc) → M (ℕ × Loc)
  by_mode x y z m0 m1 m2 m3 = if x then m0 else if y then m1 else if z then m2 else m3

  registers-Goes :
      (x y z : Bool)
      → Goes p 0 (unless_constant cg (words_by x y z)) (
          by_mode x y z
            (as0_ad0 f true cg s_reg d_reg)
            (as1_ad0 f true cg s_reg d_reg)
            (as2_ad0 f true cg s_reg d_reg)
            (as3_ad0 f true cg s_reg d_reg))
  registers-Goes true y z = Goes-as0_ad0
  registers-Goes false true z = Goes-as1_ad0
  registers-Goes false false true = Goes-as2_ad0
  registers-Goes false false false = Goes-as3_ad0

  memory-Goes :
      (x y z : Bool)
      → Goes p 0 (unless_constant cg (words_by x y z) + 1) (
          by_mode x y z
            (as0_ad1 f true cg s_reg d_reg)
            (as1_ad1 f true cg s_reg d_reg)
            (as2_ad1 f true cg s_reg d_reg)
            (as3_ad1 f true cg s_reg d_reg))
  memory-Goes true y z = Goes-as0_ad1
  memory-Goes false true z = Goes-as1_ad1
  memory-Goes false false true = Goes-as2_ad1
  memory-Goes false false false = Goes-as3_ad1

  pub Goes-operands :
      f.ad_flag < 2
      → Goes p 0
          (unless_constant cg (source_words_at f.as_flag f.source) + f.ad_flag)
          (operands f true cg s_reg d_reg)
  unfolding operands
  Goes-operands h =
      chosen (f.ad_flag == 0) refl
        (registers-Goes (f.as_flag == 0) (f.as_flag == 1) (f.as_flag == 2))
        (memory-Goes (f.as_flag == 0) (f.as_flag == 1) (f.as_flag == 2))
    where
      k : ℕ
      k = unless_constant cg (source_words_at f.as_flag f.source)

      chosen :
          (b : Bool) {m n : M (ℕ × Loc)}
          → (f.ad_flag == 0) ≡ b
          → Goes p 0 k m
          → Goes p 0 (k + 1) n
          → Goes p 0 (k + f.ad_flag) (if b then m else n)
      chosen true e g1 g2 = Goes-to p _ 0 k (k + f.ad_flag) (ground arith) g1
      chosen false e g1 g2 = Goes-to p _ 0 (k + 1) (k + f.ad_flag) (ground arith) g2

Goes-write_operands : (p : ℕ) (text : Result (List ℕ)) (k : ℕ) → Goes p k k (write_operands text)
Goes-write_operands p (ok text) k s h = at tt s h
Goes-write_operands p (fault f) k s h = failed f

ad_flag-lt : (n : ℕ) → (fields n).ad_flag < 2
unfolding fields
ad_flag-lt n = omega (arith, bit_and-le n 0x0080)

-- In disassembly, a two-operand instruction moves the program counter over the words behind the
-- first one that its text counts.
pub decode_format_i-Ends :
    (n p : ℕ) (s : Machine)
    → s.regs 0 ≡ u16 p
    → Ends (u16 (p + 2 * extra_words (fields n))) (decode_format_i n true s)
unfolding decode_format_i source_words
decode_format_i-Ends n p s h =
    let f = fields n in
    let k : ℕ = extra_words f in
    Goes-then p (get_reg_ptr f.source) _ 0 0 k (Goes-get_reg_ptr p f.source 0)
      (λ s_reg.
        Goes-then p (get_reg_ptr f.destination) _ 0 0 k (Goes-get_reg_ptr p f.destination 0)
          (λ d_reg.
            Goes-then p get _ 0 0 k (λ t e. at t t e)
              (λ t.
                Goes-then p (operands f true (constant f.source f.as_flag) s_reg d_reg) _ 0 k k
                  (Goes-operands p f (constant f.source f.as_flag) s_reg d_reg (ad_flag-lt n))
                  (λ v.
                    Goes-then p (write_operands (asm_operands f t)) _ k k k
                      (Goes-write_operands p (asm_operands f t) k) (λ _ u e. at tt u e)))))
      s (rw h (omega arith))
