-- ===== src/Tests/Display.antt =====
-- Two passes over the LEDs: pins 0 and 2 are switched on, and pin 0 off again.
use msp430_emulator.Base.{ℕ, List, ◌++◌, Bool, true, false, [], ◌∷◌, ◌≡◌, update, arith, refl}
use msp430_emulator.Port1.{Pin, reset_pin}
use msp430_emulator.Web.Leds.{handle_leds_below, handle_led}
use msp430_emulator.PacketQueue.{returned}
use msp430_emulator.PacketQueue.Fifo.{ready}
use msp430_emulator.PacketQueue.{Packet}
use msp430_emulator.Web.Writeable.Delivery.{serve, serve_lem, frames, controls}
use msp430_emulator.Web.Leds.Replay.{replay, leds_run, leds_shown}

abbrev lit : ℕ → Pin
lit k = record reset_pin { dir = true; out = true }

abbrev dark : ℕ → Pin
dark k = record reset_pin { dir = true }

abbrev first : ℕ → Pin
first = update (update (λ k. reset_pin) 0 (lit 0)) 2 (lit 2)

abbrev second : ℕ → Pin
second = update first 0 (dark 0)

abbrev none_on : ℕ → Bool
none_on k = false

sent_packets : (leds_run (first ∷ second ∷ []) none_on).0 ≡ (0 ∷ 4 ∷ 1 ∷ [])
unfolding handle_leds_below handle_led
sent_packets = refl

leds_shown_example : replay (leds_run (first ∷ second ∷ []) none_on).0 none_on 2 ≡ true
leds_shown_example = leds_shown (first ∷ []) second none_on 2

abbrev waiting : List Packet
waiting = record { message = 104 ∷ []; length = 1; opcode = 1 } ∷ []

serve_lem_example :
    (written : List (List ℕ)) × (left : List Packet) × (serve
        (first ∷ second ∷ [])
        none_on
        (ready waiting)
      ≡ returned (written, (leds_run (first ∷ second ∷ []) none_on).1) (ready left))
    × (written ++ frames left
        ≡ frames (waiting ++ controls (leds_run (first ∷ second ∷ []) none_on).0))
serve_lem_example = serve_lem (first ∷ second ∷ []) none_on waiting (omega arith)
