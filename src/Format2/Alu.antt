-- ===== src/Format2/Alu.antt =====
-- The operations of `decode_formatII` on the operand that the addressing mode gave.
pub mod Steps
pub mod Words
pub mod Stack
use msp430_emulator.Base.{
  ℕ, ◌+◌, ◌-◌, ◌/◌, ◌*◌, ◌%◌, ◌^◌, Bool, true, false, Option, none, some, not, bit_and, bit_or,
  ◌==◌, has, u8, u16, ◌>>>◌, ◌<<<◌, update, if◌then◌else◌,
}
use msp430_emulator.Machine.{
  Machine, M, Loc, Width, word, byte, Fault, load16, load8, store16, store8, pure, fail, get, put,
  get_stack_ptr, set_sr, ◌>>=◌, ◌>>◌,
}
use msp430_emulator.Flags.{is_zero, is_negative}

-- `c ? *p |= m : 0;` on a word, and on a byte.
unfoldable pub or16_if : Bool → Loc → ℕ → M (Unit {0})
or16_if true p m = do v ← load16 p; store16 p (bit_or v m)
or16_if false p m = pure tt

unfoldable pub or8_if : Bool → Loc → ℕ → M (Unit {0})
or8_if true p m = do v ← load8 p; store8 p (bit_or v m)
or8_if false p m = pure tt

-- Z and N from the result, V reset.
unfoldable pub shift_flags : Width → Loc → M (Unit {0})
shift_flags bw_flag source_address = do
  z ← is_zero source_address bw_flag
  set_sr (λ sr. record sr { zero = z })
  n ← is_negative source_address bw_flag
  set_sr (λ sr. record sr { negative = n })
  set_sr (λ sr. record sr { overflow = false })

-- 0x0 RRC
unfoldable pub rrc : Width → Loc → M (Unit {0})
rrc word source_address = do
  s ← get
  v ← load16 source_address
  set_sr (λ sr. record sr { carry = has v 0x0001 })
  store16 source_address (v >>> 1)
  or16_if s.sr.carry source_address 0x8000
  shift_flags word source_address
rrc byte source_address = do
  s ← get
  v ← load8 source_address
  set_sr (λ sr. record sr { carry = has v 0x01 })
  store8 source_address (v >>> 1)
  or8_if s.sr.carry source_address 0x80
  shift_flags byte source_address

-- 0x1 SWPB
unfoldable pub swpb : Loc → M (Unit {0})
swpb source_address = do
  v ← load16 source_address
  let upper_nibble = bit_and v 0xFF00 >>> 8
  let lower_nibble = u8 (bit_and v 0x00FF)
  store16 source_address (bit_or (lower_nibble <<< 8) upper_nibble)

-- 0x2 RRA. The byte form shifts the whole word too.
unfoldable pub rra : Width → Loc → M (Unit {0})
rra word source_address = do
  v ← load16 source_address
  set_sr (λ sr. record sr { carry = has v 0x0001 })
  let msb = not (v >>> 15 == 0)
  store16 source_address (v >>> 1)
  or16_if msb source_address 0x8000
  shift_flags word source_address
rra byte source_address = do
  v ← load16 source_address
  set_sr (λ sr. record sr { carry = has v 0x0001 })
  let msb = not (v >>> 7 == 0)
  store16 source_address (v >>> 1)
  or16_if msb source_address 0x0080
  shift_flags byte source_address

-- 0x3 SXT
unfoldable pub sxt : Loc → M (Unit {0})
sxt source_address = do
  v ← load16 source_address
  store16 source_address (if has v 0x0080 then bit_or v 0xFF00 else bit_and v 0x00FF)
  n ← is_negative source_address word
  set_sr (λ sr. record sr { negative = n })
  z ← is_zero source_address word
  set_sr (λ sr. record sr { zero = z })
  set_sr (λ sr. record sr { carry = not z })
  set_sr (λ sr. record sr { overflow = false })

-- `cpu->sp -= 2`
unfoldable pub lower_sp : M (Unit {0})
lower_sp = do s ← get; put (record s { regs = update s.regs 1 (u16 (s.regs 1 + 2 ^ 16 - 2)) })

-- The value that was assigned to a variable.
abbrev pub assigned : Option ℕ → M ℕ
assigned (some v) = pure v
assigned none = fail Fault.indeterminate

-- 0x4 PUSH
unfoldable pub push : Width → Option ℕ → M (Unit {0})
push word source_value = do
  lower_sp
  s ← get
  v ← assigned source_value
  store16 (get_stack_ptr s) v
push byte source_value = do
  lower_sp
  s ← get
  let stack_address = get_stack_ptr s
  d ← load16 stack_address
  store16 stack_address (bit_and d 0xFF00)
  v ← assigned source_value
  e ← load16 stack_address
  store16 stack_address (bit_or e (u8 v))

-- 0x5 CALL
unfoldable pub call : Loc → M (Unit {0})
call source_address = do
  lower_sp
  s ← get
  store16 (get_stack_ptr s) (s.regs 0)
  target ← load16 source_address
  t ← get
  put (record t { regs = update t.regs 0 target })

-- The `switch (opcode)` of execution: RETI (0x6) does nothing, and 0x7 prints a message.
unfoldable pub execute : ℕ → Width → Option ℕ → Loc → M (Unit {0})
execute opcode bw_flag source_value source_address =
    if opcode == 0x0
    then rrc bw_flag source_address
    else if opcode == 0x1
    then swpb source_address
    else if opcode == 0x2
    then rra bw_flag source_address
    else if opcode == 0x3
    then sxt source_address
    else if opcode == 0x4
    then push bw_flag source_value
    else if opcode == 0x5
    then call source_address
    else pure tt
