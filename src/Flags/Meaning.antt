-- ===== src/Flags/Meaning.antt =====
-- What the carry and overflow tests decide, for the ways in which the instructions call them.
use msp430_emulator.Base.{ℕ, ◌+◌, ◌<◌, ◌^◌, ◌≡◌, ◌↔◌, false, leb, ◌||◌, u8, u16, sext16, arith}
use msp430_emulator.Base.Int.{pos, ◌+ℤ◌, signed16, signed8}
use msp430_emulator.Machine.{word, byte}
use msp430_emulator.Flags.{is_carried, overflow_at}

-- On operands that are not sign-extended the word test is the carry out of bit 15.
pub is_carried_word :
    (d s : ℕ) → d < 2 ^ 16 → s < 2 ^ 16 → is_carried d s word ≡ leb (2 ^ 16) (d + s)
unfolding is_carried
is_carried_word d s p q = ground arith

pub is_carried_byte : (d s : ℕ) → d < 2 ^ 8 → s < 2 ^ 8 → is_carried d s byte ≡ leb (2 ^ 8) (d + s)
unfolding is_carried
is_carried_byte d s p q = ground arith

-- With the source sign-extended every negative source counts as a carry.
pub is_carried_signed_source :
    (d s : ℕ)
    → d < 2 ^ 16
    → s < 2 ^ 16
    → is_carried d (sext16 s) word ≡ (leb (2 ^ 15) s || leb (2 ^ 16) (d + s))
unfolding is_carried
is_carried_signed_source d s p q = ground arith

-- With both sign-extended the word test is whether one of them is negative.
pub is_carried_signed :
    (d s : ℕ)
    → d < 2 ^ 16
    → s < 2 ^ 16
    → is_carried (sext16 d) (sext16 s) word ≡ (leb (2 ^ 15) d || leb (2 ^ 15) s)
unfolding is_carried
is_carried_signed d s p q = ground arith

-- The overflow test is exact for a wrapped sum: it is false just when the signed sum fits.
pub overflow_at_word :
    (s d : ℕ)
    → s < 2 ^ 16
    → d < 2 ^ 16
    → (overflow_at 15 s d (u16 (d + s)) ≡ false)
      ↔ (signed16 (u16 (d + s)) ≡ signed16 d +ℤ signed16 s)
unfolding ◌+ℤ◌
overflow_at_word s d p q = ground arith

-- The same with a carry that is added in.
pub overflow_at_carry :
    (s d c : ℕ)
    → s < 2 ^ 16
    → d < 2 ^ 16
    → c < 2
    → (overflow_at 15 s d (u16 (d + (s + c))) ≡ false)
      ↔ (signed16 (u16 (d + (s + c))) ≡ signed16 d +ℤ signed16 s +ℤ pos c)
unfolding ◌+ℤ◌
overflow_at_carry s d c p q r = ground arith

-- With the destination alone sign-extended every negative destination counts as a carry.
pub is_carried_signed_dst :
    (d s : ℕ)
    → d < 2 ^ 16
    → s < 2 ^ 16
    → is_carried (sext16 d) s word ≡ (leb (2 ^ 15) d || leb (2 ^ 16) (d + s))
unfolding is_carried
is_carried_signed_dst d s p q = ground arith

pub overflow_at_byte :
    (s d : ℕ)
    → s < 2 ^ 8
    → d < 2 ^ 8
    → (overflow_at 7 s d (u8 (d + s)) ≡ false) ↔ (signed8 (u8 (d + s)) ≡ signed8 d +ℤ signed8 s)
unfolding ◌+ℤ◌
overflow_at_byte s d p q = ground arith
