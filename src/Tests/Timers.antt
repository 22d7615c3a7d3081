-- ===== src/Tests/Timers.antt =====
-- The timer in up mode from SMCLK, with TACLR set.
use msp430_emulator.Base.{ℕ, ◌≡◌, ◌<◌, ◌*◌, ◌^◌, false, ltb, leb, ◌==◌, not, update, arith}
use msp430_emulator.TimerA.{TimerA, Doubles, handle_timer_a}
use msp430_emulator.TimerA.Passes.{handle_timer_a_lem, timed, cleared}

-- Durations in microseconds at one megahertz.
abbrev pub microseconds : Doubles ℕ
microseconds = record {
  duration = λ frequency count. count;
  ne = λ x y. not (x == y);
  lt = ltb;
  le = leb;
  literal = λ n. n * 100;
}

abbrev pub idle_timer : TimerA ℕ
idle_timer = record {
  timer_0_running = false;
  capture_mode_0 = false;
  compare_mode_0 = false;
  source_0 = 2;
  idiv_0 = 1;
  mode_0 = 0;
  timer_1_running = false;
  source_1 = 2;
  last_period = 0;
  last_pulse_width = 0;
}

abbrev memory : ℕ → ℕ
memory = update (update (λ a. 0) 0x160 0x14) 0x161 0x02

memory-lt : (a : ℕ) → memory a < 2 ^ 8
memory-lt a = ground arith

handle_timer_a_lem_example :
    let pass = handle_timer_a microseconds 1000000 memory idle_timer in
    (pass.1.1 ≡ timed microseconds 1000000 memory idle_timer)
    × ((a : ℕ) → pass.0 a ≡ cleared memory a)
handle_timer_a_lem_example = handle_timer_a_lem microseconds 1000000 memory memory-lt idle_timer
