-- ===== src/Bcm/Waits.antt =====
-- `nanosec_diff`, `mclk_wait_cycles` and `smclk_wait_cycles` of devices/peripherals/bcm.c: the wait
-- for the host clock after each instruction.
pub mod Ending
use msp430_emulator.Base.{
  ℕ, zero, suc, ◌+◌, ◌-◌, ◌*◌, ◌/◌, ◌%◌, ◌^◌, ◌<◌, ◌≤◌, ◌≡◌, ◌≢◌, Bool, true, false, Option, none,
  some, ltb, ◌&&◌, leb, ◌==◌, arith, refl, subst, ◌⊎◌, inl, inr, if◌then◌else◌,
}
use msp430_emulator.Bcm.{Bcm, ClockSource, dcoclk, xt2clk, vloclk}

-- `struct timespec`
pub record Timespec : Type 0 where
  pub tv_sec : ℕ
  pub tv_nsec : ℕ

abbrev pub nanoseconds : Timespec → ℕ
nanoseconds t = t.tv_sec * 1000000000 + t.tv_nsec

-- The difference as a `uint64_t`. `none` where the time does not fit the signed 64-bit integers that
-- it is computed with, for which C defines nothing.
unfoldable pub nanosec_diff : Timespec → Timespec → Option ℕ
nanosec_diff a b =
    if ltb (nanoseconds a) (2 ^ 63) && ltb (nanoseconds b) (2 ^ 63)
    then some ((nanoseconds a + 2 ^ 64 - nanoseconds b) % 2 ^ 64)
    else none

-- How a wait ends: with the number of the next reading of the clock, in what C does not define (an
-- overflow, a division by zero, or the conversion of an infinite period), or not at all within the
-- rounds that are given.
pub data Wait : Type 0 where
  waited : ℕ → Wait
  undefined : Wait
  goes_on : Wait

abbrev pub measured : Option ℕ → (ℕ → Wait) → Wait
measured (some elapsed_nsecs) next = next elapsed_nsecs
measured none next = undefined

abbrev pub is_dcoclk : ClockSource → Bool
is_dcoclk dcoclk = true
is_dcoclk xt2clk = false
is_dcoclk vloclk = false

abbrev pub then_wait : Wait → (ℕ → Wait) → Wait
then_wait (waited k) next = next k
then_wait undefined next = undefined
then_wait goes_on next = goes_on

-- `clock k` is the reading number `k`; `thing` gives `(uint64_t) ((1.0 / q) * 1000000000.0)` for the
-- integer quotient `q` that is not zero, since it is floating point.
module _ (clock : ℕ → Timespec) (thing : ℕ → ℕ) (bcm : Bcm) where
  -- `while (true)`, with `rounds` rounds at most.
  unfoldable pub wait_cycle : ℕ → Timespec → ℕ → Wait
  wait_cycle zero start k = goes_on
  wait_cycle (suc rounds) start k =
      let rest = wait_cycle rounds start (k + 1) in
      measured (nanosec_diff (clock k) start) (λ elapsed_nsecs.
        if is_dcoclk bcm.mclk_source
        then (if bcm.mclk_div == 0
            then undefined
            else if bcm.dco_freq / bcm.mclk_div == 0
            then undefined
            else if leb (thing (bcm.dco_freq / bcm.mclk_div)) elapsed_nsecs
            then waited (k + 1)
            else rest)
        else rest)

  unfoldable pub mclk_wait_cycles : ℕ → ℕ → ℕ → Wait
  mclk_wait_cycles rounds zero k = waited k
  mclk_wait_cycles rounds (suc cycles) k =
      then_wait (wait_cycle rounds (clock k) (k + 1)) (mclk_wait_cycles rounds cycles)

  -- The body of the function is the same.
  abbrev pub smclk_wait_cycles : ℕ → ℕ → ℕ → Wait
  smclk_wait_cycles = mclk_wait_cycles

  -- The time that one cycle takes.
  abbrev pub period : ℕ
  period = thing (bcm.dco_freq / bcm.mclk_div)
