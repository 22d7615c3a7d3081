-- ===== src/Tests/Clock.antt =====
-- The clock module after its set-up.
use msp430_emulator.Base.{ℕ, ◌/◌, ◌≡◌, arith, refl}
use msp430_emulator.Machine.Init.{initialize_msp_memspace}
use msp430_emulator.Bcm.{Bcm, dcoclk, setup_bcm, setup_bcm_memory}
use msp430_emulator.Bcm.Waits.{Timespec, waited, wait_cycle, nanosec_diff, mclk_wait_cycles}
use msp430_emulator.Bcm.Waits.Ending.{Waits, mclk_wait_cycles_lem}

abbrev pub clock : Bcm
clock = setup_bcm (record {
  mclk_source = dcoclk;
  mclk_freq = 0;
  mclk_div = 0;
  dco_freq = 0;
  dco_period = 0;
  dco_pulse_width = 0;
})

abbrev memory : ℕ → ℕ
memory = setup_bcm_memory initialize_msp_memspace

abbrev pub ratio : ℕ → ℕ → ℕ
ratio a b = a / b

-- A clock that two readings in a row find at the same nanosecond, and a cycle of three of them.
abbrev every_other : ℕ → Timespec
every_other k = record { tv_sec = 0; tv_nsec = k / 2 }

abbrev three : ℕ → ℕ
three quotient = 3

abbrev divided : Bcm
divided = record clock { mclk_div = 1 }

waiting : mclk_wait_cycles every_other three divided 7 2 0 ≡ waited 13
unfolding mclk_wait_cycles wait_cycle nanosec_diff
waiting = refl

mclk_wait_cycles_lem_example :
    Waits every_other three divided 0 2 16 (mclk_wait_cycles every_other three divided 7 2 0)
mclk_wait_cycles_lem_example =
    mclk_wait_cycles_lem every_other three divided 2 16 7 1 0 (λ j h. (omega arith, omega arith))
      (λ j h. omega arith) (omega arith) (omega arith) (omega arith) (omega arith) (omega arith)
