-- ===== src/Web/Leds.antt =====
-- The branch LWS_CALLBACK_SERVER_WRITEABLE of `callback_emu` in
-- debugger/websockets/emu_server.cpp: the packets that switch the LEDs of port 1 on and off in the
-- web interface. The flags `p1_0_on` to `p1_7_on` are a function of the pin.
pub mod Replay
use msp430_emulator.Base.{
  ℕ, zero, suc, ◌+◌, ◌*◌, Bool, true, false, not, List, [], ◌∷◌, ◌++◌, update, if◌then◌else◌,
}
use msp430_emulator.Port1.{Pin}

-- The packets to send, and the flags.
abbrev pub Sent : Type 0
Sent = List ℕ × (ℕ → Bool)

-- `P1_0_ON_PACKET` to `P1_7_OFF_PACKET`
abbrev pub on_packet : ℕ → ℕ
on_packet k = 2 * k

abbrev pub off_packet : ℕ → ℕ
off_packet k = 2 * k + 1

-- The block `P1.k ON/OFF`.
unfoldable pub handle_led : ℕ → Pin → (ℕ → Bool) → Sent
handle_led k p p1_on =
    if p.dir
    then (if p.out
        then (if not (p1_on k) then (on_packet k ∷ [], update p1_on k true) else ([], p1_on))
        else if p1_on k
        then (off_packet k ∷ [], update p1_on k false)
        else ([], p1_on))
    else ([], p1_on)

-- The blocks of the pins below `bound`, in their order.
unfoldable pub handle_leds_below : ℕ → (ℕ → Pin) → (ℕ → Bool) → Sent
handle_leds_below zero pins p1_on = ([], p1_on)
handle_leds_below (suc k) pins p1_on =
    let before = handle_leds_below k pins p1_on in
    let led = handle_led k (pins k) before.1 in (before.0 ++ led.0, led.1)

abbrev pub handle_leds : (ℕ → Pin) → (ℕ → Bool) → Sent
handle_leds = handle_leds_below 8
