-- ===== src/Format1/Operands.antt =====
-- The addressing modes of `decode_formatI`, one function for each branch on `as_flag` and
-- `ad_flag`. Each gives the source value and the address of the destination.
-- Sums of `int16_t` and `uint16_t` are taken in `int` and cut to 16 bits by `get_addr_ptr`.
use msp430_emulator.Base.{
  ℕ, ◌+◌, ◌-◌, ◌^◌, Bool, true, false, Option, none, some, bit_and, ◌==◌, u16, if◌then◌else◌,
}
use msp430_emulator.Machine.{
  M, Loc, Width, word, byte, get, get_addr_ptr, load16, store16, fetch, pure, ◌>>=◌, ◌>>◌,
}
use msp430_emulator.Format1.Fields.{Fields}

-- `if (!disassemble) { bw_flag == BYTE ? *d_reg &= 0x00FF : 0; }`
unfoldable pub clear_upper : Bool → Width → Loc → M (Unit {0})
clear_upper true bw_flag d_reg = pure tt
clear_upper false word d_reg = pure tt
clear_upper false byte d_reg = do v ← load16 d_reg; store16 d_reg (bit_and v 0x00FF)

-- `if (!disassemble) { bw_flag == WORD ? *s_reg += 2 : (*s_reg += 1); }`
unfoldable pub increment : Bool → Width → Loc → M (Unit {0})
increment true bw_flag s_reg = pure tt
increment false word s_reg = do v ← load16 s_reg; store16 s_reg (u16 (v + 2))
increment false byte s_reg = do v ← load16 s_reg; store16 s_reg (u16 (v + 1))

-- The current program counter.
abbrev pub pc : M ℕ
pc = do s ← get; pure (s.regs 0)

-- `*get_addr_ptr(a)`
abbrev pub load_addr : ℕ → M ℕ
load_addr a = load16 (get_addr_ptr a)

-- The destination of the modes with `ad_flag == 1` that use `cpu->pc`.
unfoldable pub destination_addr : ℕ → Loc → ℕ → M Loc
destination_addr destination d_reg destination_offset =
    if destination == 0
    then (do p ← pc; pure (get_addr_ptr (p + destination_offset + 2 ^ 16 - 2)))
    else if destination == 2
    then pure (get_addr_ptr destination_offset)
    else (do d ← load16 d_reg; pure (get_addr_ptr (d + destination_offset)))

module _ (f : Fields) (disassemble : Bool) (cg : Option ℕ) (s_reg d_reg : Loc) where
  -- Register or constant to register.
  unfoldable pub as0_ad0 : M (ℕ × Loc)
  as0_ad0 = do
    source_value ← elim cg [ some c ↦ pure c | none ↦ load16 s_reg ]
    clear_upper disassemble f.bw_flag d_reg
    pure (source_value, d_reg)

  -- Register or constant to memory.
  unfoldable pub as0_ad1 : M (ℕ × Loc)
  as0_ad1 = do
    destination_offset ← fetch
    source_value ← elim cg [ some c ↦ pure c | none ↦ load16 s_reg ]
    d ← load16 d_reg
    pure (
      source_value,
      if f.destination == 0
          then get_addr_ptr (d + destination_offset + 2 ^ 16 - 2)
          else if f.destination == 2
          then get_addr_ptr destination_offset
          else get_addr_ptr (d + destination_offset),
    )

  -- Indexed, symbolic or absolute memory, or a constant, to register.
  unfoldable pub as1_ad0_source : M ℕ
  as1_ad0_source =
      if f.source == 0
      then (do source_offset ← fetch; r ← load16 s_reg; load_addr (r + source_offset + 2 ^ 16 - 2))
      else if f.source == 2
      then (do source_offset ← fetch; load_addr source_offset)
      else (do source_offset ← fetch; r ← load16 s_reg; load_addr (r + source_offset))

  unfoldable pub as1_ad0 : M (ℕ × Loc)
  as1_ad0 = do
    source_value ← elim cg [ some c ↦ pure c | none ↦ as1_ad0_source ]
    clear_upper disassemble f.bw_flag d_reg
    pure (source_value, d_reg)

  -- Indexed, symbolic or absolute memory, or a constant, to memory.
  unfoldable pub as1_ad1_source : M ℕ
  as1_ad1_source =
      if f.source == 0
      then (do source_offset ← fetch; p ← pc; load_addr (p + source_offset + 2 ^ 16 - 4))
      else if f.source == 2
      then (do source_offset ← fetch; load_addr source_offset)
      else (do source_offset ← fetch; r ← load16 s_reg; load_addr (r + source_offset))

  unfoldable pub as1_ad1 : M (ℕ × Loc)
  as1_ad1 = do
    source_value ← elim cg [ some c ↦ pure c | none ↦ as1_ad1_source ]
    destination_offset ← fetch
    l ← destination_addr f.destination d_reg destination_offset
    pure (source_value, l)

  -- What a register points to, or a constant.
  unfoldable pub indirect : M ℕ
  indirect = do r ← load16 s_reg; load_addr r

  unfoldable pub as2_ad0 : M (ℕ × Loc)
  as2_ad0 = do
    source_value ← elim cg [ some c ↦ pure c | none ↦ indirect ]
    clear_upper disassemble f.bw_flag d_reg
    pure (source_value, d_reg)

  unfoldable pub as2_ad1 : M (ℕ × Loc)
  as2_ad1 = do
    destination_offset ← fetch
    source_value ← elim cg [ some c ↦ pure c | none ↦ indirect ]
    l ← destination_addr f.destination d_reg destination_offset
    pure (source_value, l)

  -- An immediate word, or what a register points to, which is then incremented.
  unfoldable pub as3_source : M ℕ
  as3_source =
      if f.source == 0
      then fetch
      else (do v ← indirect; increment disassemble f.bw_flag s_reg; pure v)

  unfoldable pub as3_ad0 : M (ℕ × Loc)
  as3_ad0 = do
    source_value ← elim cg [ some c ↦ pure c | none ↦ as3_source ]
    clear_upper disassemble f.bw_flag d_reg
    pure (source_value, d_reg)

  unfoldable pub as3_ad1 : M (ℕ × Loc)
  as3_ad1 = do
    source_value ← elim cg [ some c ↦ pure c | none ↦ as3_source ]
    destination_offset ← fetch
    l ← destination_addr f.destination d_reg destination_offset
    pure (source_value, l)

  -- The chain of tests on `as_flag` and `ad_flag`, each of which is one of the values listed.
  unfoldable pub operands : M (ℕ × Loc)
  operands =
      if f.ad_flag == 0
      then (if f.as_flag == 0
          then as0_ad0
          else if f.as_flag == 1
          then as1_ad0
          else if f.as_flag == 2
          then as2_ad0
          else as3_ad0)
      else if f.as_flag == 0
      then as0_ad1
      else if f.as_flag == 1
      then as1_ad1
      else if f.as_flag == 2
      then as2_ad1
      else as3_ad1
