-- ===== src/Flags.antt =====
-- devices/cpu/flag_handler.c: the flags that the result of an instruction sets.
pub mod Meaning
pub mod Kept
use msp430_emulator.Base.{ℕ, ◌+◌, ◌-◌, ◌*◌, ◌/◌, ◌%◌, ◌^◌, Bool, ltb, ◌==◌, ◌&&◌, ◌||◌, not}
use msp430_emulator.Base.{u8, u16, u32, ◌>>>◌}
use msp430_emulator.Machine.{M, Loc, Width, word, byte, load, pure, ◌>>=◌}

-- `*result < 0`, for what is read at a width.
abbrev pub sign_bit : Width → ℕ → Bool
sign_bit word v = not (ltb v (2 ^ 15))
sign_bit byte v = not (ltb v (2 ^ 7))

-- `is_zero` and `is_negative` read the result through its address.
unfoldable pub is_zero : Loc → Width → M Bool
is_zero result_addr bw_flag = do v ← load bw_flag result_addr; pure (v == 0)

unfoldable pub is_negative : Loc → Width → M Bool
is_negative result_addr bw_flag = do v ← load bw_flag result_addr; pure (sign_bit bw_flag v)

-- The parameters are `uint32_t`: a caller that passes an `int16_t` passes it sign-extended.
unfoldable pub is_carried : ℕ → ℕ → Width → Bool
is_carried original_dst_value source_value word =
    ltb (65535 - u16 source_value) (u16 original_dst_value)
    || not (u32 (original_dst_value + source_value) >>> 16 == 0)
is_carried original_dst_value source_value byte =
    ltb (255 - u8 source_value) (u8 original_dst_value)
    || not (u32 (original_dst_value + source_value) >>> 8 == 0)

-- The test of `is_overflowed` on values of `k + 1` bits.
abbrev pub overflow_at : ℕ → ℕ → ℕ → ℕ → Bool
overflow_at k src dst res = (src >>> k == dst >>> k) && not (res >>> k == dst >>> k)

abbrev pub overflow_test : Width → ℕ → ℕ → ℕ → Bool
overflow_test word src dst res = overflow_at 15 src dst res
overflow_test byte src dst res = overflow_at 7 (u8 src) (u8 dst) res

unfoldable pub is_overflowed : ℕ → ℕ → Loc → Width → M Bool
is_overflowed source_value destination_value result bw_flag = do
  r ← load bw_flag result
  pure (overflow_test bw_flag source_value destination_value r)
