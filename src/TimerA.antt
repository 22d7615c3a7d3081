-- ===== src/TimerA.antt =====
-- `handle_timer_a` and `setup_timer_a` of devices/peripherals/timer_a.c: Timer A0, and the angle of
-- a servo motor that its compare registers give. Variables that nothing reads are left out; the
-- thread `timer_A0_thread` is never started.
pub mod Passes
use msp430_emulator.Base.{
  ℕ, zero, ◌+◌, ◌*◌, ◌/◌, ◌%◌, ◌^◌, bit_and, Bool, true, false, not, ◌&&◌, ◌||◌, Option, none, some,
  List, [], ◌∷◌, ◌==◌, ◌>>>◌, u16, update, if◌then◌else◌,
}
use msp430_emulator.PacketQueue.{Packet}
use msp430_emulator.Web.Control.{send_control}

-- `uint16_t` registers in the memory, low byte first.
abbrev pub word_at : (ℕ → ℕ) → ℕ → ℕ
word_at m a = m a + m (a + 1) * 2 ^ 8

abbrev pub set_word : (ℕ → ℕ) → ℕ → ℕ → ℕ → ℕ
set_word m a v = update (update m a (v % 2 ^ 8)) (a + 1) (v / 2 ^ 8)

abbrev pub ta0ctl_vloc : ℕ
ta0ctl_vloc = 0x160

abbrev pub ta0r_vloc : ℕ
ta0r_vloc = 0x170

abbrev pub ta0cctl1_vloc : ℕ
ta0cctl1_vloc = 0x164

abbrev pub ta0ccr0_vloc : ℕ
ta0ccr0_vloc = 0x172

abbrev pub ta0ccr1_vloc : ℕ
ta0ccr1_vloc = 0x174

-- `TACLK`, `ACLK`, `SMCLK` and `INCLK` of the enumeration in devices/peripherals/bcm.h, and
-- `UP_MODE`.
abbrev pub taclk : ℕ
taclk = 3

abbrev pub aclk : ℕ
aclk = 4

abbrev pub smclk : ℕ
smclk = 5

abbrev pub inclk : ℕ
inclk = 7

abbrev pub up_mode : ℕ
up_mode = 1

-- `D` stands for `double`. The fields of Timer A1 are only set up.
pub record TimerA (D : Type 0) : Type 0 where
  pub timer_0_running : Bool
  pub capture_mode_0 : Bool
  pub compare_mode_0 : Bool
  pub source_0 : ℕ
  pub idiv_0 : ℕ
  pub mode_0 : ℕ
  pub timer_1_running : Bool
  pub source_1 : ℕ
  pub last_period : D
  pub last_pulse_width : D

-- The arithmetic of doubles: `(1.0 / frequency) * count`, the comparisons, and the literals by
-- their number of ten-thousandths.
pub record Doubles (D : Type 0) : Type 0 where
  pub duration : ℕ → ℕ → D
  pub ne : D → D → Bool
  pub lt : D → D → Bool
  pub le : D → D → Bool
  pub literal : ℕ → D

module _ {D : Type 0} where
  unfoldable pub handle_source : ℕ → TimerA D → TimerA D
  handle_source tassel timer =
      if tassel == 0
      then record timer { source_0 = taclk }
      else if tassel == 1
      then record timer { source_0 = aclk }
      else if tassel == 2
      then record timer { source_0 = smclk }
      else if tassel == 3
      then record timer { source_0 = inclk }
      else timer

  unfoldable pub handle_idiv : ℕ → TimerA D → TimerA D
  handle_idiv id timer =
      if id == 0
      then record timer { idiv_0 = 1 }
      else if id == 1
      then record timer { idiv_0 = 2 }
      else if id == 2
      then record timer { idiv_0 = 4 }
      else if id == 3
      then record timer { idiv_0 = 8 }
      else timer

  -- `STOP_MODE`, `UP_MODE`, `CONTINOUS_MODE`, `UP_DOWN_MODE`
  unfoldable pub handle_mode : ℕ → TimerA D → TimerA D
  handle_mode mc timer =
      if mc == 0
      then record timer { mode_0 = 0 }
      else if mc == 1
      then record timer { mode_0 = up_mode }
      else if mc == 2
      then record timer { mode_0 = 2 }
      else if mc == 3
      then record timer { mode_0 = 3 }
      else timer

  -- `setup_timer_a` on the timer; the static variables keep their values.
  unfoldable pub setup_timer_a : TimerA D → TimerA D
  setup_timer_a timer = record timer {
    source_0 = 2;
    timer_0_running = false;
    source_1 = 2;
    timer_1_running = false;
  }

-- `if (TA0CLR) { *timer->TA0R = 0; *timer->TA0CTL &= 0xFF0B; }`
unfoldable pub handle_clear : ℕ → (ℕ → ℕ) → ℕ → ℕ
handle_clear ta0ctl m =
    if bit_and (ta0ctl >>> 2) 0x01 == 0
    then m
    else let m1 = set_word m ta0r_vloc 0 in
      set_word m1 ta0ctl_vloc (bit_and (word_at m1 ta0ctl_vloc) 0xFF0B)

module _ {D : Type 0} (d : Doubles D) where
  -- The angle in degrees for a pulse width.
  unfoldable pub angle : D → Option ℕ
  angle pulse_width =
      if d.lt pulse_width (d.literal 9)
      then some 0
      else if d.lt pulse_width (d.literal 12)
      then some 30
      else if d.lt pulse_width (d.literal 15)
      then some 60
      else if d.lt pulse_width (d.literal 18)
      then some 90
      else if d.lt pulse_width (d.literal 21)
      then some 120
      else if d.le (d.literal 21) pulse_width
      then some 150
      else none

  -- `SERVO_MOTOR` is 0x21.
  unfoldable pub servo_packet : Option ℕ → Option Packet
  servo_packet none = none
  servo_packet (some byte) = some (send_control 0x21 (some (byte ∷ [])))

  -- The branch for compare mode, with the packet that it queues.
  unfoldable pub handle_compare : ℕ → (ℕ → ℕ) → TimerA D → Option Packet × TimerA D
  handle_compare mclk_freq m timer =
      let period = d.duration mclk_freq (u16 (word_at m ta0ccr0_vloc + 1)) in
      let pulse_width = d.duration mclk_freq (word_at m ta0ccr1_vloc) in
      if timer.compare_mode_0 && (timer.mode_0 == up_mode)
      then (
        (if d.ne timer.last_period period || d.ne timer.last_pulse_width pulse_width
            then (if d.le (d.literal 150) period && d.le period (d.literal 250)
                then servo_packet (angle pulse_width)
                else none)
            else none),
        record timer { last_period = period; last_pulse_width = pulse_width },
      )
      else (none, timer)

  -- The memory, the packet and the timer after a pass.
  unfoldable pub handle_timer_a : ℕ → (ℕ → ℕ) → TimerA D → (ℕ → ℕ) × (Option Packet × TimerA D)
  handle_timer_a mclk_freq m timer =
      let ta0ctl = word_at m ta0ctl_vloc in
      let mc = bit_and (ta0ctl >>> 4) 0x03 in
      let t1 = handle_mode mc (
        handle_idiv (bit_and (ta0ctl >>> 6) 0x03)
          (handle_source (bit_and (ta0ctl >>> 8) 0x03) timer)) in
      let m1 = handle_clear ta0ctl m in
      let cap = not (bit_and (word_at m1 ta0cctl1_vloc >>> 8) 0x01 == 0) in
      let compared =
        handle_compare mclk_freq m1
          (record t1 { capture_mode_0 = cap; compare_mode_0 = not cap }) in
      let t2 = compared.1 in
      (
        m1,
        (
          compared.0,
          if not t2.timer_0_running && not (mc == 0)
              then record t2 { timer_0_running = true }
              else t2,
        ),
      )

-- The stores of zero in `setup_timer_a`, in their order.
unfoldable pub clear_words : List ℕ → (ℕ → ℕ) → ℕ → ℕ
clear_words [] m = m
clear_words (a ∷ rest) m = clear_words rest (set_word m a 0)

abbrev pub setup_timer_a_memory : (ℕ → ℕ) → ℕ → ℕ
setup_timer_a_memory m =
    let timer_a0 =
      ta0ctl_vloc ∷ ta0r_vloc ∷ 0x162 ∷ ta0ccr0_vloc ∷ ta0cctl1_vloc ∷ ta0ccr1_vloc ∷ 0x166 ∷ 0x176
      ∷ 0x12E ∷ [] in
    let timer_a1 = 0x180 ∷ 0x190 ∷ 0x182 ∷ 0x192 ∷ 0x184 ∷ 0x194 ∷ 0x186 ∷ 0x196 ∷ 0x11E ∷ [] in
    clear_words timer_a1 (clear_words timer_a0 m)
