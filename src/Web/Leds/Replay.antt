-- ===== src/Web/Leds/Replay.antt =====
-- The packets for the LEDs, received by a display that follows them.
use msp430_emulator.Base.{
  ℕ, zero, suc, ◌+◌, ◌*◌, ◌/◌, ◌%◌, ◌≡◌, Bool, true, false, not, List, [], ◌∷◌, ◌++◌, ◌==◌, ◌&&◌,
  ltb, update, arith, refl, if◌then◌else◌, ◌∙◌,
}
use msp430_emulator.Port1.{Pin}
use msp430_emulator.Web.Leds.{on_packet, off_packet, handle_led, handle_leds_below, handle_leds}

-- A display that switches the LED of a packet, from the first packet to the last.
abbrev pub replay : List ℕ → (ℕ → Bool) → ℕ → Bool
replay [] shown = shown
replay (p ∷ ps) shown = replay ps (update shown (p / 2) (p % 2 == 0))

replay-append :
    (ps qs : List ℕ) (shown : ℕ → Bool) → replay (ps ++ qs) shown ≡ replay qs (replay ps shown)
replay-append [] qs shown = refl
replay-append (p ∷ ps) qs shown = replay-append ps qs (update shown (p / 2) (p % 2 == 0))

even : (k : ℕ) → (2 * k / 2 ≡ k) × (2 * k % 2 ≡ 0)
even k = (omega arith, omega arith)

odd : (k : ℕ) → ((2 * k + 1) / 2 ≡ k) × ((2 * k + 1) % 2 ≡ 1)
odd k = (omega arith, omega arith)

replay-on : (k : ℕ) (shown : ℕ → Bool) → replay (on_packet k ∷ []) shown ≡ update shown k true
replay-on k shown = rw ((even k).0, (even k).1) refl

replay-off : (k : ℕ) (shown : ℕ → Bool) → replay (off_packet k ∷ []) shown ≡ update shown k false
replay-off k shown = rw ((odd k).0, (odd k).1) refl

handle_led-replay :
    (k : ℕ) (p : Pin) (on : ℕ → Bool) → replay (handle_led k p on).0 on ≡ (handle_led k p on).1
unfolding handle_led
handle_led-replay k p on = chain p.dir p.out (on k)
  where
    chain :
        (d o n : Bool)
        → let sent : List ℕ × (ℕ → Bool) =
            if d
            then (if o
                then (if not n then (on_packet k ∷ [], update on k true) else ([], on))
                else if n
                then (off_packet k ∷ [], update on k false)
                else ([], on))
            else ([], on) in
          replay sent.0 on ≡ sent.1
    chain true true true = refl
    chain true true false = replay-on k on
    chain true false true = replay-off k on
    chain true false false = refl
    chain false o n = refl

-- The flag of pin `j` after the pass over pin `k`.
handle_led-flag :
    (k j : ℕ) (p : Pin) (on : ℕ → Bool)
    → (handle_led k p on).1 j ≡ (if j == k then (if p.dir then p.out else on j) else on j)
unfolding handle_led
handle_led-flag k j p on = chain p.dir p.out (on k) refl
  where
    kept : (b : Bool) → on k ≡ b → on j ≡ (if j == k then b else on j)
    kept b e = ground arith

    chain :
        (d o n : Bool)
        → on k ≡ n
        → let sent : List ℕ × (ℕ → Bool) =
            if d
            then (if o
                then (if not n then (on_packet k ∷ [], update on k true) else ([], on))
                else if n
                then (off_packet k ∷ [], update on k false)
                else ([], on))
            else ([], on) in
          sent.1 j ≡ (if j == k then (if d then o else on j) else on j)
    chain true true true e = kept true e
    chain true true false e = refl
    chain true false true e = refl
    chain true false false e = kept false e
    chain false o n e = ground arith

handle_leds_below-replay :
    (bound : ℕ) (pins : ℕ → Pin) (on : ℕ → Bool)
    → replay (handle_leds_below bound pins on).0 on ≡ (handle_leds_below bound pins on).1
unfolding handle_leds_below
handle_leds_below-replay zero pins on = refl
handle_leds_below-replay (suc k) pins on =
    let before = handle_leds_below k pins on in
    replay-append before.0 (handle_led k (pins k) before.1).0 on
    ∙ rw (handle_leds_below-replay k pins on, handle_led-replay k (pins k) before.1)

handle_leds_below-flag :
    (bound : ℕ) (pins : ℕ → Pin) (on : ℕ → Bool) (j : ℕ)
    → (handle_leds_below bound pins on).1 j
      ≡ (if ltb j bound && (pins j).dir then (pins j).out else on j)
unfolding handle_leds_below
handle_leds_below-flag zero pins on j = ground arith
handle_leds_below-flag (suc k) pins on j = ground (
  arith,
  handle_led-flag k j (pins k) (handle_leds_below k pins on).1,
  handle_leds_below-flag k pins on j,
)

-- A pass over the LEDs sets the flag of each of the pins 0 to 7 that is an output to that output,
-- and keeps all other flags.
handle_leds_lem :
    (pins : ℕ → Pin) (p1_on : ℕ → Bool) (k : ℕ)
    → (handle_leds pins p1_on).1 k ≡ (if ltb k 8 && (pins k).dir then (pins k).out else p1_on k)
handle_leds_lem pins p1_on k = handle_leds_below-flag 8 pins p1_on k

-- The packets of the passes over the ports in a list, and the flags after them.
abbrev pub leds_run : List (ℕ → Pin) → (ℕ → Bool) → List ℕ × (ℕ → Bool)
leds_run [] p1_on = ([], p1_on)
leds_run (pins ∷ rest) p1_on =
    let now = handle_leds pins p1_on in
    let after = leds_run rest now.1 in (now.0 ++ after.0, after.1)

-- A display that starts with the flags of the server and switches the LED that each packet names
-- shows, after the packets of any number of passes over any states of the port, just the flags that
-- the passes leave.
leds_run-replay :
    (ports : List (ℕ → Pin)) (p1_on : ℕ → Bool)
    → replay (leds_run ports p1_on).0 p1_on ≡ (leds_run ports p1_on).1
leds_run-replay [] p1_on = refl
leds_run-replay (pins ∷ rest) p1_on =
    let now = handle_leds pins p1_on in
    replay-append now.0 (leds_run rest now.1).0 p1_on
    ∙ rw (handle_leds_below-replay 8 pins p1_on, leds_run-replay rest now.1)

leds_run-append :
    (ports : List (ℕ → Pin)) (pins : ℕ → Pin) (p1_on : ℕ → Bool)
    → (leds_run (ports ++ pins ∷ []) p1_on).1 ≡ (handle_leds pins (leds_run ports p1_on).1).1
leds_run-append [] pins p1_on = refl
leds_run-append (first ∷ rest) pins p1_on = leds_run-append rest pins (handle_leds first p1_on).1

-- A display that starts with the flags of the server and switches the LED that each packet names
-- shows, after the packets of any number of passes over any states of the port, for each of the
-- pins 0 to 7 that is an output in the last state that output, and for all else what it showed
-- before the last pass.
pub leds_shown :
    (ports : List (ℕ → Pin)) (pins : ℕ → Pin) (p1_on : ℕ → Bool) (k : ℕ)
    → replay (leds_run (ports ++ pins ∷ []) p1_on).0 p1_on k
      ≡ (if ltb k 8 && (pins k).dir then (pins k).out else replay (leds_run ports p1_on).0 p1_on k)
leds_shown ports pins p1_on k =
    rw
      (
        leds_run-replay (ports ++ pins ∷ []) p1_on,
        leds_run-replay ports p1_on,
        leds_run-append ports pins p1_on,
      )
      (handle_leds_lem pins (leds_run ports p1_on).1 k)
