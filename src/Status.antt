-- ===== src/Status.antt =====
-- `Status_reg`, `sr_to_value` and `set_sr_value` of devices/cpu/registers.c and registers.h.
pub mod RoundTrip
use msp430_emulator.Base.{ℕ, ◌%◌, ◌^◌, bit_or, Bool, true, false, has, if◌then◌else◌}

-- The bit fields of R2. A field of one bit is a truth value; `reserved` has seven bits.
pub record StatusReg : Type 0 where
  pub reserved : ℕ
  pub overflow : Bool
  pub scg1 : Bool
  pub scg0 : Bool
  pub oscoff : Bool
  pub cpuoff : Bool
  pub gie : Bool
  pub negative : Bool
  pub zero : Bool
  pub carry : Bool

-- `memset(&cpu->sr, 0, sizeof(Status_reg))`
abbrev pub cleared : StatusReg
cleared = record {
  reserved = 0;
  overflow = false;
  scg1 = false;
  scg0 = false;
  oscoff = false;
  cpuoff = false;
  gie = false;
  negative = false;
  zero = false;
  carry = false;
}

-- `if (c) r2 |= m;`
abbrev or_if : Bool → ℕ → ℕ → ℕ
or_if c m r = if c then bit_or r m else r

-- `if (value & m) cpu->sr.reserved |= m;` on a field of seven bits, which loses the higher ones.
or_reserved_if : ℕ → ℕ → ℕ → ℕ
or_reserved_if value m r = if has value m then bit_or r m % 2 ^ 7 else r

-- The seven assignments to `reserved` in `set_sr_value`.
reserved_of : ℕ → ℕ
unfolding or_reserved_if
reserved_of value = or_reserved_if value 0x0200 (
    or_reserved_if value 0x0400 (
      or_reserved_if value 0x0800 (
        or_reserved_if value 0x1000 (
          or_reserved_if value 0x2000
            (or_reserved_if value 0x4000 (or_reserved_if value 0x8000 0))))))

-- `set_sr_value`: every field is overwritten, so the old register does not matter.
pub set_sr_value : ℕ → StatusReg
unfolding reserved_of
set_sr_value value = record {
  reserved = reserved_of value;
  overflow = has value 0x0100;
  scg1 = has value 0x0080;
  scg0 = has value 0x0040;
  oscoff = has value 0x0020;
  cpuoff = has value 0x0010;
  gie = has value 0x0008;
  negative = has value 0x0004;
  zero = has value 0x0002;
  carry = has value 0x0001;
}

-- The part of `sr_to_value` for the reserved bits.
reserved_value : ℕ → ℕ
reserved_value r = or_if (has r 1) 0x0200 (
    or_if (has r 2) 0x0400 (
      or_if (has r 4) 0x0800 (
        or_if (has r 8) 0x1000
          (or_if (has r 16) 0x2000 (or_if (has r 32) 0x4000 (or_if (has r 64) 0x8000 0))))))

-- The part of `sr_to_value` for the named bits, from the value so far.
named_value : StatusReg → ℕ → ℕ
named_value sr r2 = or_if sr.carry 0x0001 (
    or_if sr.zero 0x0002 (
      or_if sr.negative 0x0004 (
        or_if sr.gie 0x0008 (
          or_if sr.cpuoff 0x0010 (
            or_if sr.oscoff 0x0020
              (or_if sr.scg0 0x0040 (or_if sr.scg1 0x0080 (or_if sr.overflow 0x0100 r2))))))))

pub sr_to_value : StatusReg → ℕ
unfolding reserved_value named_value
sr_to_value sr = named_value sr (reserved_value sr.reserved)
