-- ===== src/Bcm.antt =====
-- `handle_bcm` and `setup_bcm` of devices/peripherals/bcm.c: the clock module. Variables that
-- nothing reads, and the empty branches for the low-power modes, are left out.
pub mod Passes
pub mod Waits
use msp430_emulator.Base.{
  ℕ, ◌+◌, ◌/◌, ◌^◌, bit_and, ◌==◌, ◌&&◌, ◌||◌, ◌>>>◌, update, Bool, if◌then◌else◌,
}

-- The sources that BCSCTL2 selects among.
pub data ClockSource : Type 0 where
  dcoclk xt2clk vloclk : ClockSource

-- The clocks of the processor and of the oscillator.
pub record Bcm : Type 0 where
  pub mclk_source : ClockSource
  pub mclk_freq : ℕ
  pub mclk_div : ℕ
  pub dco_freq : ℕ
  pub dco_period : ℕ
  pub dco_pulse_width : ℕ

abbrev pub ie1_vloc : ℕ
ie1_vloc = 0x0

abbrev pub ifg1_vloc : ℕ
ifg1_vloc = 0x2

abbrev pub bcsctl3_vloc : ℕ
bcsctl3_vloc = 0x53

abbrev pub dcoctl_vloc : ℕ
dcoctl_vloc = 0x56

abbrev pub bcsctl1_vloc : ℕ
bcsctl1_vloc = 0x57

abbrev pub bcsctl2_vloc : ℕ
bcsctl2_vloc = 0x58

unfoldable pub handle_divider : ℕ → Bcm → Bcm
handle_divider divm bcm =
    if divm == 0
    then record bcm { mclk_div = 1 }
    else if divm == 1
    then record bcm { mclk_div = 2 }
    else if divm == 2
    then record bcm { mclk_div = 4 }
    else if divm == 3
    then record bcm { mclk_div = 8 }
    else bcm

unfoldable pub handle_dco : ℕ → ℕ → Bcm → Bcm
handle_dco dco rsel bcm =
    if dco == 3 && rsel == 7
    then record bcm { dco_freq = 1030000; dco_period = 971; dco_pulse_width = 485 }
    else if dco == 4 && rsel == 15
    then record bcm { dco_freq = 16000000; dco_period = 63; dco_pulse_width = 31 }
    else if dco == 4 && rsel == 14
    then record bcm { dco_freq = 12000000; dco_period = 83; dco_pulse_width = 42 }
    else if dco == 4 && rsel == 13
    then record bcm { dco_freq = 8000000; dco_period = 125; dco_pulse_width = 62 }
    else if dco == 6 && rsel == 6
    then record bcm { dco_freq = 1000000; dco_period = 1000; dco_pulse_width = 500 }
    else bcm

-- `setup_bcm` on the memory and on the clock module.
abbrev pub setup_bcm_memory : (ℕ → ℕ) → ℕ → ℕ
setup_bcm_memory m =
    let m1 = update (update (update m dcoctl_vloc 0x60) bcsctl1_vloc 0x87) bcsctl2_vloc 0 in
    update (update (update m1 bcsctl3_vloc 0x5) ie1_vloc 0) ifg1_vloc 0

abbrev pub setup_bcm : Bcm → Bcm
setup_bcm bcm = record bcm { dco_freq = 1030000; dco_period = 971; dco_pulse_width = 970 / 2 }

-- `(dco_freq * 1.0) / mclk_div` as `uint64_t` is a parameter, since it is floating point.
module _ (ratio : ℕ → ℕ → ℕ) where
  unfoldable pub handle_mclk : ℕ → Bcm → Bcm
  handle_mclk selm bcm =
      if selm == 0 || selm == 1
      then record bcm { mclk_source = dcoclk; mclk_freq = ratio bcm.dco_freq bcm.mclk_div }
      else if selm == 2
      then record bcm { mclk_source = xt2clk }
      else if selm == 3
      then record bcm { mclk_source = vloclk }
      else bcm

  unfoldable pub handle_bcm : (ℕ → ℕ) → Bcm → Bcm
  handle_bcm memspace bcm =
      let dcoctl = memspace dcoctl_vloc in
      let bcsctl1 = memspace bcsctl1_vloc in
      let bcsctl2 = memspace bcsctl2_vloc in
      handle_dco (dcoctl >>> 5) (bit_and bcsctl1 0x0F)
        (handle_divider (bit_and (bcsctl2 >>> 4) 0x03) (handle_mclk (bcsctl2 >>> 6) bcm))
