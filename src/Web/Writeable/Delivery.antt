-- ===== src/Web/Writeable/Delivery.antt =====
-- Every packet is written once, in the order in which it was queued.
use msp430_emulator.Base.{
  ℕ, zero, suc, ◌+◌, ◌*◌, ◌^◌, ◌<◌, ◌≤◌, ◌≡◌, Bool, true, false, not, Option, none, some, List, [],
  ◌∷◌, ◌++◌, append-nil, append_assoc, length, length-append, ltb, update, arith, refl, sym, ap,
  ◌∙◌, if◌then◌else◌,
}
use msp430_emulator.PacketQueue.{and_next, Packet, Outcome, returned, Server, packet_queue_empty}
use msp430_emulator.PacketQueue.Fifo.{ready, packet_enqueue-ready, packet_dequeue-ready}
use msp430_emulator.Port1.{Pin}
use msp430_emulator.Web.Control.{send_control}
use msp430_emulator.Web.Leds.{on_packet, off_packet, handle_led, handle_leds_below, handle_leds}
use msp430_emulator.Web.Leds.Replay.{leds_run}
use msp430_emulator.Web.Writeable.{frame, write_packet, send_codes, writeable}

abbrev pub controls : List ℕ → List Packet
controls [] = []
controls (code ∷ codes) = send_control code none ∷ controls codes

abbrev pub frames : List Packet → List (List ℕ)
frames [] = []
frames (p ∷ q) = frame p ∷ frames q

controls-append : (a b : List ℕ) → controls (a ++ b) ≡ controls a ++ controls b
controls-append [] b = refl
controls-append (c ∷ a) b = rw (controls-append a b) refl

frames-append : (a b : List Packet) → frames (a ++ b) ≡ frames a ++ frames b
frames-append [] b = refl
frames-append (p ∷ a) b = rw (frames-append a b) refl

length-controls : (codes : List ℕ) → length (controls codes) ≡ length codes
length-controls [] = refl
length-controls (c ∷ codes) = ap suc (length-controls codes)

-- At most one packet for each pin.
handle_led-short : (k : ℕ) (p : Pin) (on : ℕ → Bool) → length (handle_led k p on).0 ≤ 1
unfolding handle_led
handle_led-short k p on = chain p.dir p.out (on k)
  where
    chain :
        (d o n : Bool)
        → let sent : List ℕ × (ℕ → Bool) =
            if d
            then (if o
                then (if not n then (on_packet k ∷ [], update on k true) else ([], on))
                else if n
                then (off_packet k ∷ [], update on k false)
                else ([], on))
            else ([], on) in
          length sent.0 ≤ 1
    chain true true true = omega arith
    chain true true false = omega arith
    chain true false true = omega arith
    chain true false false = omega arith
    chain false o n = omega arith

handle_leds_below-short :
    (bound : ℕ) (pins : ℕ → Pin) (on : ℕ → Bool)
    → length (handle_leds_below bound pins on).0 ≤ bound
unfolding handle_leds_below
handle_leds_below-short zero pins on = omega arith
handle_leds_below-short (suc k) pins on =
    let before = handle_leds_below k pins on in
    omega (
      arith,
      length-append before.0 (handle_led k (pins k) before.1).0,
      handle_leds_below-short k pins on,
      handle_led-short k (pins k) before.1,
    )

send_codes-ready :
    (codes : List ℕ) (q : List Packet)
    → length q + length codes < 2 ^ 32
    → send_codes codes (ready q) ≡ returned tt (ready (q ++ controls codes))
unfolding send_codes
send_codes-ready [] q h = rw (append-nil q) refl
send_codes-ready (code ∷ codes) q h =
    rw
      (
        packet_enqueue-ready q (send_control code none) (omega arith),
        send_codes-ready codes (q ++ send_control code none ∷ [])
            (omega (arith, length-append q (send_control code none ∷ []))),
        append_assoc q (send_control code none ∷ []) (controls codes),
      )
      refl

abbrev first : List Packet → Option (List ℕ)
first [] = none
first (p ∷ q) = some (frame p)

abbrev rest : List Packet → List Packet
rest [] = []
rest (p ∷ q) = q

rest-short : (q : List Packet) → length (rest q) ≤ length q
rest-short [] = omega arith
rest-short (p ∷ q) = omega arith

write_packet-ready :
    (q : List Packet)
    → length q < 2 ^ 32
    → write_packet (ready q) ≡ returned (first q) (ready (rest q))
unfolding write_packet packet_queue_empty
write_packet-ready [] h = refl
write_packet-ready (p ∷ q) h =
    let counted : ltb 0 (suc (length q)) ≡ true = ground arith in
    rw (counted, packet_dequeue-ready q p (omega arith)) refl

module _ (pins : ℕ → Pin) (on : ℕ → Bool) where
  writeable-ready :
      (q : List Packet)
      → length q + 8 < 2 ^ 32
      → writeable pins on (ready q)
        ≡ returned
            (first q, (handle_leds pins on).1)
            (ready (rest q ++ controls (handle_leds pins on).0))
  unfolding writeable
  writeable-ready q h =
      let short = handle_leds_below-short 8 pins on in
      rw
        (
          write_packet-ready q (omega arith),
          send_codes-ready (handle_leds pins on).0 (rest q) (omega (arith, rest-short q)),
        )
        refl

abbrev with_first : Option (List ℕ) → List (List ℕ) → List (List ℕ)
with_first none written = written
with_first (some f) written = f ∷ written

-- The callback for a list of states of the port: what was written, and the flags at the end.
abbrev pub serve : List (ℕ → Pin) → (ℕ → Bool) → Server → Outcome (List (List ℕ) × (ℕ → Bool))
serve [] on s = returned ([], on) s
serve (pins ∷ ports) on s = and_next (writeable pins on s) (λ now t.
    and_next (serve ports now.1 t) (λ later u. returned (with_first now.0 later.0, later.1) u))

first-rest :
    (q cs : List Packet) (w : List (List ℕ))
    → w ≡ frames (rest q ++ cs)
    → with_first (first q) w ≡ frames (q ++ cs)
first-rest [] cs w e = e
first-rest (p ∷ q) cs w e = ap (λ v. frame p ∷ v) e

with_first-append :
    (f : Option (List ℕ)) (a b : List (List ℕ)) → with_first f a ++ b ≡ with_first f (a ++ b)
with_first-append none a b = refl
with_first-append (some f) a b = refl

-- From a server with the lock free and the counter right, as many calls of the callback for a
-- writable connection as there are states of the port, with the queue always below 2^32 packets,
-- leave the lock free and the counter right, and what they write and then what stays queued are the
-- packets that were queued and those for the LEDs, each once and in order, as the bytes of opcode
-- and message.
pub serve_lem :
    (ports : List (ℕ → Pin)) (on : ℕ → Bool) (q : List Packet)
    → length q + 8 * length ports < 2 ^ 32
    → (written : List (List ℕ)) × (left : List Packet) × (serve ports on (ready q)
        ≡ returned (written, (leds_run ports on).1) (ready left))
      × (written ++ frames left ≡ frames (q ++ controls (leds_run ports on).0))
serve_lem [] on q h = ([], q, refl, rw (append-nil q) refl)
serve_lem (pins ∷ ports) on q h =
    let now = handle_leds pins on in
    let queued = rest q ++ controls now.0 in
    let after = (leds_run ports now.1).0 in
    let fits : length queued + 8 * length ports < 2 ^ 32 = omega (
      arith,
      length-append (rest q) (controls now.0),
      length-controls now.0,
      handle_leds_below-short 8 pins on,
      rest-short q,
    ) in
    let later = serve_lem ports now.1 queued fits in
    (
      with_first (first q) later.0,
      later.1,
      rw (writeable-ready pins on q (omega arith), later.2) refl,
      with_first-append (first q) later.0 (frames later.1)
          ∙ first-rest q (controls now.0 ++ controls after) (later.0 ++ frames later.1)
              (later.3 ∙ ap frames (append_assoc (rest q) (controls now.0) (controls after)))
          ∙ ap (λ cs. frames (q ++ cs)) (sym (controls-append now.0 after)),
    )
