-- ===== src/Bcm/Waits/Ending.antt =====
-- How the waits of devices/peripherals/bcm.c end, for a monotonic clock of the host.
use msp430_emulator.Base.{
  ℕ, zero, suc, ◌+◌, ◌-◌, ◌*◌, ◌/◌, ◌^◌, ◌<◌, ◌≤◌, ◌≡◌, ◌≢◌, Bool, true, false, some, leb, ◌==◌,
  arith, refl, subst, ◌⊎◌, inl, inr, if◌then◌else◌,
}
use msp430_emulator.Bcm.{Bcm, ClockSource, dcoclk, xt2clk, vloclk}
use msp430_emulator.Bcm.Waits.{
  Timespec, nanoseconds, nanosec_diff, Wait, waited, goes_on, is_dcoclk, then_wait, wait_cycle,
  mclk_wait_cycles, period,
}

suc_times : (c p : ℕ) → suc c * p ≡ c * p + p
suc_times c p = omega arith

module _ (clock : ℕ → Timespec) (thing : ℕ → ℕ) (bcm : Bcm) where
  -- `CLOCK_MONOTONIC` up to reading `n`: it never goes back, and its nanoseconds fit a `long`.
  abbrev pub IsMonotonic : ℕ → Type 0
  IsMonotonic n =
      (j : ℕ)
      → j < n
      → (nanoseconds (clock j) ≤ nanoseconds (clock (j + 1)))
        × (nanoseconds (clock (j + 1)) < 2 ^ 63)

  -- It measures time: no `tick` readings after another one are all equal to it.
  abbrev pub Advances : ℕ → ℕ → Type 0
  Advances tick n = (j : ℕ) → j + tick ≤ n → nanoseconds (clock j) < nanoseconds (clock (j + tick))

  -- How a wait of some cycles from reading `k` on ends.
  pub data Waits (k cycles last : ℕ) : Wait → Type 0 where
    done :
        (next : ℕ)
        → bcm.mclk_source ≡ dcoclk
        → next ≤ last
        → nanoseconds (clock k) + cycles * period clock thing bcm ≤ nanoseconds (clock next)
        → Waits k cycles last (waited next)
    hangs : bcm.mclk_source ≢ dcoclk → Waits k cycles last goes_on

  never_back :
      (n k i : ℕ) → IsMonotonic n → k + i ≤ n → nanoseconds (clock k) ≤ nanoseconds (clock (k + i))
  never_back n k zero mono h = let same : k + 0 ≡ k = omega arith in rw same (omega arith)
  never_back n k (suc i) mono h =
      let same : k + suc i ≡ k + i + 1 = omega arith in
      rw same (omega (arith, never_back n k i mono (omega arith), (mono (k + i) (omega arith)).0))

  later :
      (tick n i k : ℕ)
      → Advances tick n
      → k + i * tick ≤ n
      → nanoseconds (clock k) + i ≤ nanoseconds (clock (k + i * tick))
  later tick n zero k adv h = let same : k + 0 * tick ≡ k = omega arith in rw same (omega arith)
  later tick n (suc i) k adv h =
      let same : k + suc i * tick ≡ k + tick + i * tick = rw (suc_times i tick) (omega arith) in
      rw same (
        omega (
          arith,
          suc_times i tick,
          later tick n i (k + tick) adv (omega (arith, suc_times i tick)),
          adv k (omega (arith, suc_times i tick)),
        ))

  fits : (n j : ℕ) → IsMonotonic n → j < n → nanoseconds (clock j) < 2 ^ 63
  fits n j mono h = omega (arith, mono j h)

  elapsed :
      (n k i : ℕ)
      → IsMonotonic n
      → k + i < n
      → nanosec_diff (clock (k + i)) (clock k)
        ≡ some (nanoseconds (clock (k + i)) - nanoseconds (clock k))
  unfolding nanosec_diff
  elapsed n k i mono h = ground (
    arith,
    fits n (k + i) mono h,
    fits n k mono (omega arith),
    never_back n k i mono (omega arith),
  )

  -- One cycle, which takes `wait` readings or fewer behind the first.
  data Ended (wait k : ℕ) : Wait → Type 0 where
    ended :
        (next : ℕ)
        → next ≤ k + wait + 2
        → nanoseconds (clock k) + period clock thing bcm ≤ nanoseconds (clock next)
        → Ended wait k (waited next)

  module _ (n wait : ℕ) (mono : IsMonotonic n)
      (passes : (k : ℕ)
        → k + wait ≤ n
        → nanoseconds (clock k) + period clock thing bcm ≤ nanoseconds (clock (k + wait)))
      (dco : bcm.mclk_source ≡ dcoclk) (divides : bcm.mclk_div ≢ 0)
      (finite : bcm.dco_freq / bcm.mclk_div ≢ 0) where
    -- A round of the loop.
    wait_cycle-step :
        (rounds k i : ℕ)
        → k + i < n
        → wait_cycle clock thing bcm (suc rounds) (clock k) (k + i) ≡ (
            if leb (period clock thing bcm) (nanoseconds (clock (k + i)) - nanoseconds (clock k))
            then waited (k + i + 1)
            else wait_cycle clock thing bcm rounds (clock k) (k + i + 1))
    unfolding wait_cycle
    wait_cycle-step rounds k i h =
        let other : (bcm.mclk_div == 0) ≡ false = ground arith in
        let some_cycles : (bcm.dco_freq / bcm.mclk_div == 0) ≡ false = ground arith in
        simp (elapsed n k i mono h, dco, other, some_cycles) refl

    -- From `wait` readings on, the time of a cycle has passed.
    enough :
        (k i : ℕ)
        → wait ≤ i
        → k + i ≤ n
        → nanoseconds (clock k) + period clock thing bcm ≤ nanoseconds (clock (k + i))
    enough k i w h =
        let same : k + wait + (i - wait) ≡ k + i = omega arith in
        omega (
          arith,
          passes k (omega arith),
          subst (λ j. nanoseconds (clock (k + wait)) ≤ nanoseconds (clock j)) same
              (never_back n (k + wait) (i - wait) mono (omega arith)),
        )

    cycle-Ended :
        (k rounds i : ℕ)
        → k + wait + 2 ≤ n
        → i ≤ wait + 1
        → wait + 2 ≤ i + rounds
        → Ended wait k (wait_cycle clock thing bcm rounds (clock k) (k + i))
    cycle-Ended k zero i h m r = absurd (omega arith)
    cycle-Ended k (suc rounds) i h m r = rw (wait_cycle-step rounds k i (omega arith)) (
        chosen (leb (period clock thing bcm) (nanoseconds (clock (k + i)) - nanoseconds (clock k)))
          refl
          (λ more.
            subst (λ j. Ended wait k (wait_cycle clock thing bcm rounds (clock k) j)) (omega arith)
              (cycle-Ended k rounds (suc i) h (omega arith) (omega arith))))
      where
        chosen :
            (b : Bool)
            → leb (period clock thing bcm) (nanoseconds (clock (k + i)) - nanoseconds (clock k)) ≡ b
            → (i < wait → Ended wait k (wait_cycle clock thing bcm rounds (clock k) (k + i + 1)))
            → Ended wait k (
                if b
                then waited (k + i + 1)
                else wait_cycle clock thing bcm rounds (clock k) (k + i + 1))
        chosen true e go =
            let much : period clock thing bcm
                ≤ nanoseconds (clock (k + i)) - nanoseconds (clock k) =
              ground arith in
            ended (k + i + 1) (omega arith)
              (omega (arith, never_back n k i mono (omega arith), (mono (k + i) (omega arith)).0))
        chosen false e go =
            let short : nanoseconds (clock (k + i)) - nanoseconds (clock k)
                < period clock thing bcm =
              ground arith in
            go (ground (arith, enough k i))

    cycle-after :
        (next cycles k last after : ℕ) {x : Wait}
        → nanoseconds (clock k) + period clock thing bcm ≤ nanoseconds (clock next)
        → after ≤ last
        → Waits next cycles after x
        → Waits k (suc cycles) last x
    cycle-after next cycles k last after h l (done m d b t) =
        done m d (omega arith) (omega (arith, suc_times cycles (period clock thing bcm)))
    cycle-after next cycles k last after h l (hangs other) = absurd (other dco)

    Waits-cycles :
        (rounds cycles k : ℕ)
        → wait + 1 ≤ rounds
        → k + cycles * (wait + 2) ≤ n
        → Waits k cycles
            (k + cycles * (wait + 2))
            (mclk_wait_cycles clock thing bcm rounds cycles k)
    unfolding mclk_wait_cycles
    Waits-cycles rounds zero k r h = done k dco (omega arith) (omega arith)
    Waits-cycles rounds (suc cycles) k r h =
        first (cycle-Ended k rounds 1 (omega (arith, total)) (omega arith) (omega arith))
          (λ next b. Waits-cycles rounds cycles next r (omega (arith, total)))
      where
        total : suc cycles * (wait + 2) ≡ cycles * (wait + 2) + (wait + 2)
        total = suc_times cycles (wait + 2)

        first :
            {x : Wait}
            → Ended wait k x
            → ((next : ℕ)
                → next ≤ k + wait + 2
                → Waits next cycles
                    (next + cycles * (wait + 2))
                    (mclk_wait_cycles clock thing bcm rounds cycles next))
            → Waits k
                (suc cycles)
                (k + suc cycles * (wait + 2))
                (then_wait x (mclk_wait_cycles clock thing bcm rounds cycles))
        first (ended next b t) go =
            cycle-after next cycles k _ _ t (omega (arith, total)) (go next b)

  -- A wait for another clock than the oscillator's.
  hanging :
      (n rounds k i : ℕ)
      → IsMonotonic n
      → k + i + rounds ≤ n
      → is_dcoclk bcm.mclk_source ≡ false
      → wait_cycle clock thing bcm rounds (clock k) (k + i) ≡ goes_on
  unfolding wait_cycle
  hanging n zero k i mono h other = refl
  hanging n (suc rounds) k i mono h other =
      simp (elapsed n k i mono (omega arith), other)
        (subst (λ j. wait_cycle clock thing bcm rounds (clock k) j ≡ goes_on) (omega arith)
          (hanging n rounds k (suc i) mono (omega arith) other))

  source-cases : (c : ClockSource) → (c ≡ dcoclk) ⊎ ((is_dcoclk c ≡ false) × (c ≢ dcoclk))
  source-cases dcoclk = inl refl
  source-cases xt2clk = inr (refl, λ e. cc)
  source-cases vloclk = inr (refl, λ e. cc)

  -- While, over the first `n` readings, among which are those of the rounds given to the first
  -- cycle and all within the bound below, the clock never goes back, its nanoseconds stay below
  -- 2^63, and of `tick` readings after another one the last is later than it, and with a divider
  -- that is neither zero nor above the frequency of the oscillator, a wait of one or more cycles
  -- ends if the source of MCLK is DCOCLK, whenever a cycle is given one round more than its
  -- nanoseconds times `tick`: within two readings more per cycle than those, and when at least the
  -- time of the cycles has passed. With any other source it does not end within the rounds given.
  pub mclk_wait_cycles_lem :
      (tick n rounds cycles k : ℕ)
      → IsMonotonic n
      → Advances tick n
      → bcm.mclk_div ≢ 0
      → bcm.dco_freq / bcm.mclk_div ≢ 0
      → period clock thing bcm * tick + 1 ≤ rounds
      → k + 1 + rounds ≤ n
      → k + suc cycles * (period clock thing bcm * tick + 2) ≤ n
      → Waits k
          (suc cycles)
          (k + suc cycles * (period clock thing bcm * tick + 2))
          (mclk_wait_cycles clock thing bcm rounds (suc cycles) k)
  unfolding mclk_wait_cycles
  mclk_wait_cycles_lem tick n rounds cycles k mono adv divides finite r long h =
      chosen (source-cases bcm.mclk_source)
    where
      chosen :
          (bcm.mclk_source ≡ dcoclk)
            ⊎ ((is_dcoclk bcm.mclk_source ≡ false) × (bcm.mclk_source ≢ dcoclk))
          → Waits k
              (suc cycles)
              (k + suc cycles * (period clock thing bcm * tick + 2))
              (mclk_wait_cycles clock thing bcm rounds (suc cycles) k)
      chosen (inl dco) =
          Waits-cycles n (period clock thing bcm * tick) mono
            (λ j. later tick n (period clock thing bcm) j adv) dco divides finite rounds
            (suc cycles) k r h
      chosen (inr other) = rw (hanging n rounds k 1 mono long other.0) (hangs other.1)
