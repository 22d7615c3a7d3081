-- ===== src/Format1/Alu.antt =====
-- The twelve operations of `decode_formatI` in devices/cpu/formatI.c, on a source value that the
-- addressing mode gave and the address of the destination.
pub mod Sums
pub mod Words
pub mod Kept
use msp430_emulator.Base.{
  ℕ, ◌+◌, ◌-◌, ◌/◌, ◌*◌, ◌%◌, ◌^◌, ◌<◌, Bool, true, false, bit_and, bit_or, bit_xor, not, ◌==◌,
  ◌||◌, ◌&&◌, ltb, if◌then◌else◌,
}
use msp430_emulator.Base.{u8, u16, sext16, to_bit, ◌>>>◌}
use msp430_emulator.Status.{StatusReg}
use msp430_emulator.Machine.{
  Machine, M, Loc, Width, word, byte, load16, load8, store16, store8, load, store, pure, get,
  set_sr, ◌>>=◌, ◌>>◌,
}
use msp430_emulator.Flags.{is_zero, is_negative, is_carried, is_overflowed, overflow_test, sign_bit}

-- `source_value` or `(uint8_t) source_value`.
abbrev pub cut : Width → ℕ → ℕ
cut word v = v
cut byte v = u8 v

-- A sum that is stored at a width.
abbrev pub wrap : Width → ℕ → ℕ
wrap word v = u16 v
wrap byte v = u8 v

-- `is_zero`, `is_negative`, `is_carried` and `is_overflowed` after an addition, in the order of
-- the code.
unfoldable pub set_flags : Width → Loc → ℕ → ℕ → Bool → M (Unit {0})
set_flags bw_flag destination_addr source_value original_dst_value carry' = do
  z ← is_zero destination_addr bw_flag
  n ← is_negative destination_addr bw_flag
  set_sr (λ sr. record sr { zero = z; negative = n })
  set_sr (λ sr. record sr { carry = carry' })
  v ← is_overflowed source_value original_dst_value destination_addr bw_flag
  set_sr (λ sr. record sr { overflow = v })

-- 0x4 MOV
unfoldable pub mov : Width → ℕ → Loc → M (Unit {0})
mov bw_flag source_value destination_addr =
    store bw_flag destination_addr (cut bw_flag source_value)

-- 0x5 ADD. `original_dst_value` is unsigned, `source_value` is signed.
unfoldable pub add : Width → ℕ → Loc → M (Unit {0})
add bw_flag source_value destination_addr = do
  original_dst_value ← load16 destination_addr
  d ← load bw_flag destination_addr
  store bw_flag destination_addr (wrap bw_flag (d + cut bw_flag source_value))
  set_flags bw_flag destination_addr source_value original_dst_value
      (is_carried original_dst_value (sext16 source_value) bw_flag)

-- 0x6 ADDC
unfoldable pub addc : Width → ℕ → Loc → M (Unit {0})
addc bw_flag source_value destination_addr = do
  original_dst_value ← load16 destination_addr
  d ← load bw_flag destination_addr
  s ← get
  store bw_flag destination_addr (wrap bw_flag (d + (cut bw_flag source_value + to_bit s.sr.carry)))
  set_flags bw_flag destination_addr source_value original_dst_value
      (is_carried original_dst_value (sext16 source_value) bw_flag)

-- `~v` of 16 bits.
abbrev pub complement : ℕ → ℕ
complement v = 65535 - v

-- 0x7 SUBC. Both `original_dst_value` and `source_value` are signed.
unfoldable pub subc : Width → ℕ → Loc → M (Unit {0})
subc bw_flag source_value destination_addr = do
  original_dst_value ← load16 destination_addr
  let source_value' = complement source_value
  d ← load bw_flag destination_addr
  s ← get
  store bw_flag destination_addr
      (wrap bw_flag (d + (cut bw_flag source_value' + to_bit s.sr.carry)))
  set_flags bw_flag destination_addr source_value' original_dst_value
      (is_carried (sext16 original_dst_value) (sext16 source_value') bw_flag)

-- 0x8 SUB. The carry flag is set by the test and never reset.
unfoldable pub sub : Width → ℕ → Loc → M (Unit {0})
sub bw_flag source_value destination_addr = do
  original_dst_value ← load16 destination_addr
  let source_value' = u16 (complement source_value + 1)
  d ← load bw_flag destination_addr
  store bw_flag destination_addr (wrap bw_flag (d + cut bw_flag source_value'))
  s ← get
  let carried =
      is_carried (sext16 (complement source_value')) 1 bw_flag
      || is_carried (sext16 original_dst_value) (sext16 source_value') bw_flag
  set_flags bw_flag destination_addr source_value' original_dst_value
      (if carried then true else s.sr.carry)

-- 0x9 CMP. The result is a local variable, of which the byte forms of the tests read the low byte.
unfoldable pub cmp : Width → ℕ → Loc → M (Unit {0})
cmp bw_flag source_value destination_addr = do
  original_dst_value ← load16 destination_addr
  let unsigned_source_value = u16 (complement source_value + 1)
  let early_carry = is_carried (complement source_value) 1 bw_flag
  d ← load bw_flag destination_addr
  let result = u16 (d + cut bw_flag unsigned_source_value)
  set_sr (λ sr. record sr { negative = sign_bit bw_flag (cut bw_flag result) })
  set_sr (λ sr. record sr { zero = cut bw_flag result == 0 })
  set_sr (λ sr. record sr {
    carry =
        if not early_carry
        then is_carried (sext16 original_dst_value) unsigned_source_value bw_flag
        else true;
  })
  set_sr (λ sr. record sr {
    overflow = overflow_test bw_flag unsigned_source_value original_dst_value (cut bw_flag result);
  })

-- 0xA DADD: nothing is done.
abbrev pub dadd : Width → ℕ → Loc → M (Unit {0})
dadd bw_flag source_value destination_addr = pure tt

-- N, Z and C from a result at a width.
abbrev pub logic_flags : Width → ℕ → StatusReg → StatusReg
logic_flags bw_flag result sr = record sr {
  zero = result == 0;
  negative = sign_bit bw_flag result;
  carry = not (result == 0);
}

-- 0xB BIT
unfoldable pub bit : Width → ℕ → Loc → M (Unit {0})
bit bw_flag source_value destination_addr = do
  d ← load bw_flag destination_addr
  set_sr (logic_flags bw_flag (bit_and (cut bw_flag source_value) d))
  set_sr (λ sr. record sr { overflow = false })

-- 0xC BIC
unfoldable pub bic : Width → ℕ → Loc → M (Unit {0})
bic bw_flag source_value destination_addr = do
  d ← load bw_flag destination_addr
  store bw_flag destination_addr (bit_and d (cut bw_flag (complement source_value)))

-- 0xD BIS
unfoldable pub bis : Width → ℕ → Loc → M (Unit {0})
bis bw_flag source_value destination_addr = do
  d ← load bw_flag destination_addr
  store bw_flag destination_addr (bit_or d (cut bw_flag source_value))

-- 0xE XOR. V is set if both operands are negative.
unfoldable pub xor : Width → ℕ → Loc → M (Unit {0})
xor bw_flag source_value destination_addr = do
  d ← load bw_flag destination_addr
  set_sr (λ sr. record sr {
    overflow = sign_bit bw_flag d && sign_bit bw_flag (cut bw_flag source_value);
  })
  store bw_flag destination_addr (bit_xor d (cut bw_flag source_value))
  r ← load bw_flag destination_addr
  set_sr (logic_flags bw_flag r)

-- 0xF AND
unfoldable pub and : Width → ℕ → Loc → M (Unit {0})
and bw_flag source_value destination_addr = do
  d ← load bw_flag destination_addr
  store bw_flag destination_addr (bit_and d (cut bw_flag source_value))
  r ← load bw_flag destination_addr
  set_sr (logic_flags bw_flag r)
  set_sr (λ sr. record sr { overflow = false })

-- The `switch (opcode)` of execution.
unfoldable pub execute : ℕ → Width → ℕ → Loc → M (Unit {0})
execute opcode w v l =
    if opcode == 0x4
    then mov w v l
    else if opcode == 0x5
    then add w v l
    else if opcode == 0x6
    then addc w v l
    else if opcode == 0x7
    then subc w v l
    else if opcode == 0x8
    then sub w v l
    else if opcode == 0x9
    then cmp w v l
    else if opcode == 0xA
    then dadd w v l
    else if opcode == 0xB
    then bit w v l
    else if opcode == 0xC
    then bic w v l
    else if opcode == 0xD
    then bis w v l
    else if opcode == 0xE
    then xor w v l
    else if opcode == 0xF
    then and w v l
    else pure tt
