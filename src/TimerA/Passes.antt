-- ===== src/TimerA/Passes.antt =====
-- What a pass over the timer makes of its registers, and what the next pass finds.
use msp430_emulator.Base.{
  ℕ, zero, suc, ◌+◌, ◌*◌, ◌/◌, ◌%◌, ◌^◌, ◌<◌, ◌≡◌, bit_and, Bool, true, false, not, ◌&&◌, ◌||◌,
  Option, none, ◌==◌, u16, if◌then◌else◌, arith, refl, subst, ◌∙◌, ap,
}
use msp430_emulator.Base.Bits.{bit_and_digit, bit_and_shifted, bit_and_mask}
use msp430_emulator.PacketQueue.{Packet}
use msp430_emulator.TimerA.{
  TimerA, Doubles, word_at, handle_source, handle_idiv, handle_mode, handle_clear, handle_compare,
  handle_timer_a, ta0ctl_vloc, ta0r_vloc, ta0cctl1_vloc, ta0ccr0_vloc, ta0ccr1_vloc, up_mode, taclk,
  aclk, smclk, inclk,
}

mask_0xff0b :
    (v : ℕ) → bit_and v 0xFF0B ≡ v / 2 ^ 8 % 2 ^ 8 * 2 ^ 8 + v / 2 ^ 3 % 2 * 2 ^ 3 + v % 2 ^ 2
mask_0xff0b v = omega (
  arith,
  bit_and_digit v 0xFF0B,
  bit_and_digit (v / 2) 0x7F85,
  bit_and_digit (v / 2 / 2) 0x3FC2,
  bit_and_digit (v / 2 / 2 / 2) 0x1FE1,
  bit_and_shifted 4 (v / 2 / 2 / 2 / 2) 0xFF,
  bit_and_mask 8 (v / 2 / 2 / 2 / 2 / 2 ^ 4),
)

-- The clock sources by their numbers in TA0CTL.
abbrev pub source_of : ℕ → ℕ
source_of n = if n == 0 then taclk else if n == 1 then aclk else if n == 2 then smclk else inclk

module _ {D : Type 0} where
  source_below :
      (n : ℕ) (t : TimerA D) → n < 4 → handle_source n t ≡ record t { source_0 = source_of n }
  unfolding handle_source
  source_below zero t h = refl
  source_below (suc zero) t h = refl
  source_below (suc (suc zero)) t h = refl
  source_below (suc (suc (suc zero))) t h = refl
  source_below (suc (suc (suc (suc n)))) t h = absurd (omega arith)

  idiv_below : (n : ℕ) (t : TimerA D) → n < 4 → handle_idiv n t ≡ record t { idiv_0 = 2 ^ n }
  unfolding handle_idiv
  idiv_below zero t h = refl
  idiv_below (suc zero) t h = refl
  idiv_below (suc (suc zero)) t h = refl
  idiv_below (suc (suc (suc zero))) t h = refl
  idiv_below (suc (suc (suc (suc n)))) t h = absurd (omega arith)

  mode_below : (n : ℕ) (t : TimerA D) → n < 4 → handle_mode n t ≡ record t { mode_0 = n }
  unfolding handle_mode
  mode_below zero t h = refl
  mode_below (suc zero) t h = refl
  mode_below (suc (suc zero)) t h = refl
  mode_below (suc (suc (suc zero))) t h = refl
  mode_below (suc (suc (suc (suc n)))) t h = absurd (omega arith)

-- The registers after TACLR was seen: TA0R is zero, and TA0CTL keeps its upper byte and of the
-- lower one the bits 0, 1 and 3.
abbrev pub cleared : (ℕ → ℕ) → ℕ → ℕ
cleared m a =
    if a == ta0r_vloc || a == ta0r_vloc + 1
    then 0
    else if a == ta0ctl_vloc
    then m ta0ctl_vloc / 2 ^ 3 % 2 * 2 ^ 3 + m ta0ctl_vloc % 2 ^ 2
    else m a

module _ (m : ℕ → ℕ) (bytes : (a : ℕ) → m a < 2 ^ 8) where
  clear_lem :
      (a : ℕ)
      → handle_clear (word_at m ta0ctl_vloc) m a
        ≡ (if word_at m ta0ctl_vloc / 2 ^ 2 % 2 == 1 then cleared m a else m a)
  unfolding handle_clear
  clear_lem a = ground (
    arith,
    bit_and_mask 1 (word_at m ta0ctl_vloc / 2 ^ 2),
    mask_0xff0b (word_at m ta0ctl_vloc),
    bytes 0x160,
    bytes 0x161,
  )

abbrev is_compared : {D : Type 0} → TimerA D → Bool
is_compared t = t.compare_mode_0 && (t.mode_0 == up_mode)

module _ {D : Type 0} (d : Doubles D) (mclk_freq : ℕ) where
  module _ (m : ℕ → ℕ) where
    abbrev pub period : D
    period = d.duration mclk_freq (u16 (word_at m ta0ccr0_vloc + 1))

    abbrev pub pulse_width : D
    pulse_width = d.duration mclk_freq (word_at m ta0ccr1_vloc)

    compare-eq :
        (t : TimerA D)
        → (handle_compare d mclk_freq m t).1 ≡ record t {
          last_period = if is_compared t then period else t.last_period;
          last_pulse_width = if is_compared t then pulse_width else t.last_pulse_width;
        }
    unfolding handle_compare
    compare-eq t = chain (is_compared t) _
      where
        chain :
            (b : Bool) (p : Option Packet)
            → let pass : Option Packet × TimerA D =
                if b
                then (p, record t { last_period = period; last_pulse_width = pulse_width })
                else (none, t) in
              pass.1 ≡ record t {
                last_period = if b then period else t.last_period;
                last_pulse_width = if b then pulse_width else t.last_pulse_width;
              }
        chain true p = refl
        chain false p = refl

  module _ (m : ℕ → ℕ) where
    -- The timer after a pass, field by field.
    abbrev pub timed : TimerA D → TimerA D
    timed t =
        let ta0ctl = word_at m ta0ctl_vloc in
        let cap = word_at m ta0cctl1_vloc / 2 ^ 8 % 2 == 1 in
        let compared = not cap && (ta0ctl / 2 ^ 4 % 2 ^ 2 == up_mode) in
        record t {
          timer_0_running = t.timer_0_running || not (ta0ctl / 2 ^ 4 % 2 ^ 2 == 0);
          capture_mode_0 = cap;
          compare_mode_0 = not cap;
          source_0 = source_of (ta0ctl / 2 ^ 8 % 2 ^ 2);
          idiv_0 = 2 ^ (ta0ctl / 2 ^ 6 % 2 ^ 2);
          mode_0 = ta0ctl / 2 ^ 4 % 2 ^ 2;
          last_period = if compared then period m else t.last_period;
          last_pulse_width = if compared then pulse_width m else t.last_pulse_width;
        }

    running :
        (b c : Bool) (t : TimerA D)
        → t.timer_0_running ≡ b
        → (if not b && not c then record t { timer_0_running = true } else t)
          ≡ record t { timer_0_running = b || not c }
    running true c t e i = record t { timer_0_running = e i }
    running false true t e i = record t { timer_0_running = e i }
    running false false t e i = record t { timer_0_running = true }

    then_running :
        (c : Bool) (t u : TimerA D)
        → t ≡ u
        → (if not t.timer_0_running && not c then record t { timer_0_running = true } else t)
          ≡ record u { timer_0_running = u.timer_0_running || not c }
    then_running c t u e =
        subst
          (λ v.
            (if not t.timer_0_running && not c then record t { timer_0_running = true } else t)
            ≡ record v { timer_0_running = v.timer_0_running || not c })
          e (running t.timer_0_running c t refl)

    controlled :
        (t : TimerA D) (x y z : ℕ)
        → x < 4
        → y < 4
        → z < 4
        → handle_mode x (handle_idiv y (handle_source z t))
          ≡ record t { source_0 = source_of z; idiv_0 = 2 ^ y; mode_0 = x }
    controlled t x y z h k l = rw (source_below z t l, idiv_below y _ k, mode_below x _ h) refl

    odd : (n : ℕ) → not (bit_and n 0x01 == 0) ≡ (n % 2 == 1)
    odd n = ground (arith, bit_and_mask 1 n)

    module _ (bytes : (a : ℕ) → m a < 2 ^ 8) where
      abbrev ctl : ℕ
      ctl = word_at m ta0ctl_vloc

      kept : (a : ℕ) → 0x161 < a → a < 0x170 → handle_clear ctl m a ≡ m a
      kept a h k = ground (arith, clear_lem m bytes a)

      kept_above : (a : ℕ) → 0x171 < a → handle_clear ctl m a ≡ m a
      kept_above a h = ground (arith, clear_lem m bytes a)

      same_durations :
          ◌≡◌ {A = D × D}
            (period (handle_clear ctl m), pulse_width (handle_clear ctl m))
            (period m, pulse_width m)
      same_durations i = (
        d.duration mclk_freq
            (u16 (kept_above 0x172 (omega arith) i + kept_above 0x173 (omega arith) i * 2 ^ 8 + 1)),
        d.duration mclk_freq
            (kept_above 0x174 (omega arith) i + kept_above 0x175 (omega arith) i * 2 ^ 8),
      )

      compared :
          (t : TimerA D)
          → (handle_compare d mclk_freq (handle_clear ctl m) t).1 ≡ record t {
            last_period = if is_compared t then period m else t.last_period;
            last_pulse_width = if is_compared t then pulse_width m else t.last_pulse_width;
          }
      compared t =
          subst
            (λ p. (handle_compare d mclk_freq (handle_clear ctl m) t).1 ≡ record t {
              last_period = if is_compared t then p.0 else t.last_period;
              last_pulse_width = if is_compared t then p.1 else t.last_pulse_width;
            })
            same_durations (compare-eq (handle_clear ctl m) t)

      -- Over a memory of bytes, a pass over the timer sets source, divider and mode from the bits 8
      -- and 9, 6 and 7, and 4 and 5 of TA0CTL, capture or compare mode from bit 8 of TA0CCTL1, and
      -- the running flag once the mode bits are not zero; in compare and up mode it keeps the
      -- durations of the compare registers, and otherwise the old ones. If TACLR is set, TA0R
      -- becomes zero and TA0CTL loses the bits 2 and 4 to 7; no other byte changes, and none does
      -- if it is reset.
      pub handle_timer_a_lem :
          (t : TimerA D)
          → let pass = handle_timer_a d mclk_freq m t in
            (pass.1.1 ≡ timed t)
            × ((a : ℕ)
                → pass.0 a ≡ (if word_at m ta0ctl_vloc / 2 ^ 2 % 2 == 1 then cleared m a else m a))
      unfolding handle_timer_a
      handle_timer_a_lem t = (
        simp
            (
              bit_and_mask 2 (ctl / 2 ^ 4),
              bit_and_mask 2 (ctl / 2 ^ 6),
              bit_and_mask 2 (ctl / 2 ^ 8),
              kept 0x164 (omega arith) (omega arith),
              kept 0x165 (omega arith) (omega arith),
              odd (word_at m ta0cctl1_vloc / 2 ^ 8),
              controlled t (ctl / 2 ^ 4 % 2 ^ 2) (ctl / 2 ^ 6 % 2 ^ 2) (ctl / 2 ^ 8 % 2 ^ 2)
                  (omega arith) (omega arith) (omega arith),
            )
            (then_running (ctl / 2 ^ 4 % 2 ^ 2 == 0) _ _ (
              compared (record t {
                capture_mode_0 = word_at m ta0cctl1_vloc / 2 ^ 8 % 2 == 1;
                compare_mode_0 = not (word_at m ta0cctl1_vloc / 2 ^ 8 % 2 == 1);
                source_0 = source_of (ctl / 2 ^ 8 % 2 ^ 2);
                idiv_0 = 2 ^ (ctl / 2 ^ 6 % 2 ^ 2);
                mode_0 = ctl / 2 ^ 4 % 2 ^ 2;
              }))),
        λ a. clear_lem m bytes a,
      )

  module _ (m : ℕ → ℕ) (bytes : (a : ℕ) → m a < 2 ^ 8) (t : TimerA D) where
    abbrev pass : (ℕ → ℕ) × (Option Packet × TimerA D)
    pass = handle_timer_a d mclk_freq m t

    pub pass-bytes : (a : ℕ) → pass.0 a < 2 ^ 8
    pass-bytes a = ground (arith, (handle_timer_a_lem m bytes t).1 a, bytes a, bytes ta0ctl_vloc)

    cleared_control :
        word_at m ta0ctl_vloc / 2 ^ 2 % 2 ≡ 1 → word_at pass.0 ta0ctl_vloc / 2 ^ 4 % 2 ^ 4 ≡ 0
    cleared_control h = ground (
      arith,
      (handle_timer_a_lem m bytes t).1 0x160,
      (handle_timer_a_lem m bytes t).1 0x161,
      bytes 0x160,
    )

    -- Over a memory of bytes, after a pass that finds TACLR set, the next pass stops the timer and
    -- sets its divider to one, whatever mode and divider were selected with TACLR.
    pub handle_timer_a_stops :
        word_at m ta0ctl_vloc / 2 ^ 2 % 2 ≡ 1
        → let again = handle_timer_a d mclk_freq pass.0 pass.1.1 in
          (again.1.1.mode_0 ≡ 0) × (again.1.1.idiv_0 ≡ 1)
    handle_timer_a_stops h =
        let control = cleared_control h in
        let stopped : word_at pass.0 ta0ctl_vloc / 2 ^ 4 % 2 ^ 2 ≡ 0 = omega arith in
        let undivided : word_at pass.0 ta0ctl_vloc / 2 ^ 6 % 2 ^ 2 ≡ 0 = omega arith in
        let now = (handle_timer_a_lem pass.0 pass-bytes pass.1.1).0 in
        (ap (λ u. u.mode_0) now ∙ stopped, ap (λ u. u.idiv_0) now ∙ ap (λ n. 2 ^ n) undivided)
