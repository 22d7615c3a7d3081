-- ===== src/Web/Writeable.antt =====
-- The branch LWS_CALLBACK_SERVER_WRITEABLE of `callback_emu` in
-- debugger/websockets/emu_server.cpp, whole: one packet leaves the queue, and the packets for the
-- LEDs enter it. `lws_write` is an output.
pub mod Delivery
use msp430_emulator.Base.{ℕ, Bool, Option, none, some, List, [], ◌∷◌, take, if◌then◌else◌}
use msp430_emulator.PacketQueue.{
  and_next, Packet, Server, Outcome, returned, spins, packet_queue_empty, packet_dequeue,
  packet_enqueue,
}
use msp430_emulator.Port1.{Pin}
use msp430_emulator.Web.Control.{send_control}
use msp430_emulator.Web.Leds.{handle_leds}

-- The bytes that are written for a packet.
unfoldable pub frame : Packet → List ℕ
frame p = p.opcode ∷ take p.length p.message

abbrev pub frame_of : Option Packet → Option (List ℕ)
frame_of none = none
frame_of (some p) = some (frame p)

-- The first packet, if there is one.
unfoldable pub write_packet : Server → Outcome (Option (List ℕ))
write_packet s =
    if packet_queue_empty s
    then returned none s
    else and_next (packet_dequeue s) (λ p t. returned (frame_of p) t)

-- `send_control(emu, code, NULL, 0)` for each code in order.
unfoldable pub send_codes : List ℕ → Server → Outcome Unit
send_codes [] s = returned tt s
send_codes (code ∷ codes) s =
    and_next (packet_enqueue (send_control code none) s) (λ u t. send_codes codes t)

-- What was written, and the flags of the LEDs.
unfoldable pub writeable : (ℕ → Pin) → (ℕ → Bool) → Server → Outcome (Option (List ℕ) × (ℕ → Bool))
writeable pins p1_on s = and_next (write_packet s) (λ written t.
    let leds = handle_leds pins p1_on in
    and_next (send_codes leds.0 t) (λ u after. returned (written, leds.1) after))
