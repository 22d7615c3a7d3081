-- ===== src/Format2/Operand.antt =====
-- The addressing modes of `decode_formatII`. The result is `source_value`, which the symbolic mode
-- leaves unassigned, and `source_address`.
use msp430_emulator.Base.{ℕ, ◌+◌, false, Option, none, some, ◌==◌, if◌then◌else◌}
use msp430_emulator.Machine.{M, Loc, bogus, get_addr_ptr, load16, store16, fetch, pure, ◌>>=◌, ◌>>◌}
use msp430_emulator.Format1.Operands.{clear_upper, increment, pc}
use msp430_emulator.Format2.Fields.{Fields}

-- `source_value = bogus_reg = v; source_address = &bogus_reg;`
unfoldable pub immediate : ℕ → M (Option ℕ × Loc)
immediate v = do store16 bogus v; pure (some v, bogus)

-- `source_address = get_addr_ptr(a); source_value = *source_address;`
unfoldable pub memory : ℕ → M (Option ℕ × Loc)
memory a = do v ← load16 (get_addr_ptr a); pure (some v, get_addr_ptr a)

module _ (f : Fields) (cg : Option ℕ) (reg : Loc) where
  unfoldable pub as0 : M (Option ℕ × Loc)
  as0 = do
    p ← elim cg [ some c ↦ immediate c | none ↦ load16 reg >>= λ v. pure (some v, reg) ]
    clear_upper false f.bw_flag reg
    pure p

  unfoldable pub as1_memory : M (Option ℕ × Loc)
  as1_memory =
      if f.source == 0
      then (do source_offset ← fetch; p ← pc; pure (none, get_addr_ptr (p + source_offset)))
      else if f.source == 2
      then (do source_offset ← fetch; memory source_offset)
      else (do source_offset ← fetch; r ← load16 reg; memory (r + source_offset))

  unfoldable pub as1 : M (Option ℕ × Loc)
  as1 = elim cg [ some c ↦ immediate c | none ↦ as1_memory ]

  unfoldable pub as2 : M (Option ℕ × Loc)
  as2 = elim cg [ some c ↦ immediate c | none ↦ load16 reg >>= memory ]

  unfoldable pub as3_memory : M (Option ℕ × Loc)
  as3_memory =
      if f.source == 0
      then (do v ← fetch; immediate v)
      else (do r ← load16 reg; p ← memory r; increment false f.bw_flag reg; pure p)

  unfoldable pub as3 : M (Option ℕ × Loc)
  as3 = elim cg [ some c ↦ immediate c | none ↦ as3_memory ]

  unfoldable pub operand : M (Option ℕ × Loc)
  operand =
      if f.as_flag == 0
      then as0
      else if f.as_flag == 1
      then as1
      else if f.as_flag == 2
      then as2
      else as3
