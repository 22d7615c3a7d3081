-- ===== src/Tests/Serial.antt =====
-- One byte through the serial port.
use msp430_emulator.Base.{
  ℕ, ◌+◌, ◌*◌, ◌-◌, [], ◌∷◌, bytes, ◌<◌, ◌^◌, ◌≡◌, true, some, none, update, arith, refl,
}
use msp430_emulator.Machine.Init.{initialize_msp_memspace, initialize_msp_memspace-lt}
use msp430_emulator.Port1.{Pin, reset_pin}
use msp430_emulator.Usci.{handle_usci, ifg2_vloc, txbuf_vloc}
use msp430_emulator.Web.Serial.{fed, feed}
use msp430_emulator.Web.Serial.Spelling.{Token, feed-spell}
use msp430_emulator.Usci.Transmit.{handle_usci_lem, emptied}

abbrev memory : ℕ → ℕ
memory = update (update initialize_msp_memspace ifg2_vloc 2) txbuf_vloc 72

memory-lt : (a : ℕ) → memory a < 2 ^ 8
memory-lt a = ground (arith, initialize_msp_memspace-lt a)

abbrev pin2 : Pin
pin2 = record reset_pin { sel = true; sel2 = true }

handle_usci_lem_example :
    (handle_usci true pin2 memory ≡ (emptied memory, some 72))
    × (handle_usci true pin2 (emptied memory) ≡ (emptied memory, none))
handle_usci_lem_example = handle_usci_lem true pin2 memory memory-lt refl refl

-- The number of two decimal digits as hexadecimal ones.
abbrev two_digits : ℕ → ℕ → ℕ
two_digits x y = (x - b'0') * 16 + (y - b'0')

feed-spell_example : feed two_digits 4 (bytes "a\\h41\n") ≡ fed (97 ∷ 65 ∷ 13 ∷ [])
feed-spell_example =
    feed-spell two_digits (Token.plain 97 ∷ Token.escaped b'4' b'1' ∷ []) [] 1
      (omega arith, omega arith, omega arith, (omega arith, tt))
