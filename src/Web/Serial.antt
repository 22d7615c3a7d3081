-- ===== src/Web/Serial.antt =====
-- `thrd` of debugger/websockets/emu_server.cpp: the bytes that it puts into UCA0RXBUF, one after the
-- other, for the text of a serial message, and its two stores to the memory. In `feed` the waits until
-- the firmware has taken a byte, which leave the byte in the register, are left out; Session/Reached
-- has the stores between rounds of the main loop.
pub mod Spelling
use msp430_emulator.Base.{
  ℕ, zero, suc, Bool, Option, none, some, List, [], ◌∷◌, bit_or, update, ◌==◌, ◌||◌, u8,
  if◌then◌else◌,
}
use msp430_emulator.Usci.{ifg2_vloc}

abbrev pub rxbuf_vloc : ℕ
rxbuf_vloc = 0x66

-- `*usci->UCA0RXBUF = thing;`
abbrev pub store_thing : ℕ → (ℕ → ℕ) → ℕ → ℕ
store_thing thing m = update m rxbuf_vloc thing

-- `*usci->IFG2 |= RXIFG;`
abbrev pub raise_received : (ℕ → ℕ) → ℕ → ℕ
raise_received m = update m ifg2_vloc (bit_or (m ifg2_vloc) 1)

-- `if (thing == '\n') thing = '\r';`
abbrev pub carriage_return : ℕ → ℕ
carriage_return c = if c == b'\n' then b'\r' else c

-- What reached the register: all up to a carriage return, or what did before the text was read
-- behind its end, or before the rounds that were allowed ended.
pub data Fed : Type 0 where
  fed : List ℕ → Fed
  overrun : Fed
  unfinished : Fed

abbrev pub prepend : ℕ → Fed → Fed
prepend b (fed bs) = fed (b ∷ bs)
prepend b overrun = overrun
prepend b unfinished = unfinished

-- `strtoul(buf, NULL, 16)` of two characters is a parameter.
module _ (strtoul : ℕ → ℕ → ℕ) where
  -- Behind `\h`: a byte by its two digits, and the text behind them.
  unfoldable pub digits : List ℕ → Option (ℕ × List ℕ)
  digits (x ∷ y ∷ rest) = some (u8 (strtoul x y), rest)
  digits _ = none

  -- Behind a backslash. If no `h` follows, the backslash stands for itself, and the character
  -- behind it is skipped.
  unfoldable pub escape : List ℕ → Option (ℕ × List ℕ)
  escape [] = none
  escape (e ∷ rest) = if e == b'h' || e == b'H' then digits rest else some (b'\\', rest)

  -- A round of the loop up to the store to the register; `none` for a read behind the text.
  unfoldable pub next_byte : List ℕ → Option (ℕ × List ℕ)
  next_byte [] = none
  next_byte (c ∷ rest) = if c == b'\\' then escape rest else some (carriage_return c, rest)

  -- The end of a round.
  unfoldable pub put_byte : Option (ℕ × List ℕ) → (List ℕ → Fed) → Fed
  put_byte none go_on = overrun
  put_byte (some (b, rest)) go_on = if b == b'\r' then fed (b ∷ []) else prepend b (go_on rest)

  -- The loop, for at most so many rounds.
  unfoldable pub feed : ℕ → List ℕ → Fed
  feed zero text = unfinished
  feed (suc rounds) text = put_byte (next_byte text) (feed rounds)
