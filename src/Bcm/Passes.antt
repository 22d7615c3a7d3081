-- ===== src/Bcm/Passes.antt =====
-- What passes over the clock module come to.
use msp430_emulator.Base.{
  ℕ, zero, suc, ◌/◌, ◌%◌, ◌^◌, ◌<◌, ◌≡◌, Bool, true, false, ◌==◌, ◌&&◌, ◌||◌, arith, refl, ap,
  if◌then◌else◌,
}
use msp430_emulator.Base.Bits.{bit_and_mask}
use msp430_emulator.Bcm.{
  Bcm, ClockSource, dcoclk, xt2clk, vloclk, handle_mclk, handle_divider, handle_dco, handle_bcm,
}
use msp430_emulator.Bcm.{bcsctl1_vloc, bcsctl2_vloc, dcoctl_vloc}

divider_below : (n : ℕ) (bcm : Bcm) → n < 4 → handle_divider n bcm ≡ record bcm { mclk_div = 2 ^ n }
unfolding handle_divider
divider_below zero bcm h = refl
divider_below (suc zero) bcm h = refl
divider_below (suc (suc zero)) bcm h = refl
divider_below (suc (suc (suc zero))) bcm h = refl
divider_below (suc (suc (suc (suc n)))) bcm h = absurd (omega arith)

-- The first of five values whose test holds, and the old one if none does.
abbrev pick : Bool → Bool → Bool → Bool → Bool → (ℕ × ℕ × ℕ × ℕ × ℕ) → ℕ → ℕ
pick b c d e f v old =
    if b
    then v.0
    else if c
    then v.1
    else if d
    then v.2
    else if e
    then v.3
    else if f
    then v.4
    else old

pick-pick :
    (b c d e f : Bool) (v : ℕ × ℕ × ℕ × ℕ × ℕ) (old : ℕ)
    → pick b c d e f v (pick b c d e f v old) ≡ pick b c d e f v old
pick-pick true c d e f v old = refl
pick-pick false true d e f v old = refl
pick-pick false false true e f v old = refl
pick-pick false false false true f v old = refl
pick-pick false false false false true v old = refl
pick-pick false false false false false v old = refl

-- The values that the codes DCOx and RSELx select.
abbrev selected : ℕ → ℕ → (ℕ × ℕ × ℕ × ℕ × ℕ) → ℕ → ℕ
selected dco rsel =
    pick (dco == 3 && rsel == 7) (dco == 4 && rsel == 15) (dco == 4 && rsel == 14)
      (dco == 4 && rsel == 13) (dco == 6 && rsel == 6)

abbrev freqs : ℕ × ℕ × ℕ × ℕ × ℕ
freqs = (1030000, 16000000, 12000000, 8000000, 1000000)

abbrev periods : ℕ × ℕ × ℕ × ℕ × ℕ
periods = (971, 63, 83, 125, 1000)

abbrev widths : ℕ × ℕ × ℕ × ℕ × ℕ
widths = (485, 31, 42, 62, 500)

dco-eq :
    (dco rsel : ℕ) (bcm : Bcm)
    → handle_dco dco rsel bcm ≡ record bcm {
      dco_freq = selected dco rsel freqs bcm.dco_freq;
      dco_period = selected dco rsel periods bcm.dco_period;
      dco_pulse_width = selected dco rsel widths bcm.dco_pulse_width;
    }
unfolding handle_dco
dco-eq dco rsel bcm =
    chain (dco == 3 && rsel == 7) (dco == 4 && rsel == 15) (dco == 4 && rsel == 14)
      (dco == 4 && rsel == 13) (dco == 6 && rsel == 6)
  where
    chain :
        (b c d e f : Bool)
        → (if b
            then record bcm { dco_freq = 1030000; dco_period = 971; dco_pulse_width = 485 }
            else if c
            then record bcm { dco_freq = 16000000; dco_period = 63; dco_pulse_width = 31 }
            else if d
            then record bcm { dco_freq = 12000000; dco_period = 83; dco_pulse_width = 42 }
            else if e
            then record bcm { dco_freq = 8000000; dco_period = 125; dco_pulse_width = 62 }
            else if f
            then record bcm { dco_freq = 1000000; dco_period = 1000; dco_pulse_width = 500 }
            else bcm)
          ≡ record bcm {
            dco_freq = pick b c d e f freqs bcm.dco_freq;
            dco_period = pick b c d e f periods bcm.dco_period;
            dco_pulse_width = pick b c d e f widths bcm.dco_pulse_width;
          }
    chain true c d e f = refl
    chain false true d e f = refl
    chain false false true e f = refl
    chain false false false true f = refl
    chain false false false false true = refl
    chain false false false false false = refl

abbrev source_of : Bool → Bool → Bool → ClockSource → ClockSource
source_of b c d old = if b then dcoclk else if c then xt2clk else if d then vloclk else old

source_of-source_of :
    (b c d : Bool) (old : ClockSource) → source_of b c d (source_of b c d old) ≡ source_of b c d old
source_of-source_of true c d old = refl
source_of-source_of false true d old = refl
source_of-source_of false false true old = refl
source_of-source_of false false false old = refl

module _ (ratio : ℕ → ℕ → ℕ) where
  mclk-eq :
      (selm : ℕ) (bcm : Bcm)
      → handle_mclk ratio selm bcm ≡ record bcm {
        mclk_source = source_of (selm == 0 || selm == 1) (selm == 2) (selm == 3) bcm.mclk_source;
        mclk_freq =
            if selm == 0 || selm == 1 then ratio bcm.dco_freq bcm.mclk_div else bcm.mclk_freq;
      }
  unfolding handle_mclk
  mclk-eq selm bcm = chain (selm == 0 || selm == 1) (selm == 2) (selm == 3)
    where
      chain :
          (b c d : Bool)
          → (if b
              then record bcm { mclk_source = dcoclk; mclk_freq = ratio bcm.dco_freq bcm.mclk_div }
              else if c
              then record bcm { mclk_source = xt2clk }
              else if d
              then record bcm { mclk_source = vloclk }
              else bcm)
            ≡ record bcm {
              mclk_source = source_of b c d bcm.mclk_source;
              mclk_freq = if b then ratio bcm.dco_freq bcm.mclk_div else bcm.mclk_freq;
            }
      chain true c d = refl
      chain false true d = refl
      chain false false true = refl
      chain false false false = refl

  module _ (memspace : ℕ → ℕ) where
    abbrev selm : ℕ
    selm = memspace bcsctl2_vloc / 2 ^ 6

    abbrev dco : ℕ
    dco = memspace dcoctl_vloc / 2 ^ 5

    abbrev rsel : ℕ
    rsel = memspace bcsctl1_vloc % 2 ^ 4

    -- What a pass makes of the clocks, field by field: the frequency of MCLK is computed from the
    -- oscillator and the divider of the pass before.
    abbrev pub clocked : Bcm → Bcm
    clocked bcm = record {
      mclk_source = source_of (selm == 0 || selm == 1) (selm == 2) (selm == 3) bcm.mclk_source;
      mclk_freq = if selm == 0 || selm == 1 then ratio bcm.dco_freq bcm.mclk_div else bcm.mclk_freq;
      mclk_div = 2 ^ (memspace bcsctl2_vloc / 2 ^ 4 % 2 ^ 2);
      dco_freq = selected dco rsel freqs bcm.dco_freq;
      dco_period = selected dco rsel periods bcm.dco_period;
      dco_pulse_width = selected dco rsel widths bcm.dco_pulse_width;
    }

    -- A pass over the clock module sets the divider to two to the bits 4 and 5 of BCSCTL2, the
    -- source by the bits from 6 on, and the oscillator by the codes in DCOCTL and BCSCTL1 if they
    -- are known ones, and computes the frequency of MCLK from the oscillator and the divider that
    -- it found.
    pub handle_bcm_lem : (bcm : Bcm) → handle_bcm ratio memspace bcm ≡ clocked bcm
    unfolding handle_bcm
    handle_bcm_lem bcm =
        rw
          (
            bit_and_mask 2 (memspace bcsctl2_vloc / 2 ^ 4),
            bit_and_mask 4 (memspace bcsctl1_vloc),
            mclk-eq selm bcm,
            divider_below (memspace bcsctl2_vloc / 2 ^ 4 % 2 ^ 2) _ (omega arith),
            dco-eq dco rsel,
          )
          refl

    settled : (bcm : Bcm) → clocked (clocked (clocked bcm)) ≡ clocked (clocked bcm)
    settled bcm i = record {
      mclk_source =
          source_of-source_of (selm == 0 || selm == 1) (selm == 2) (selm == 3)
            (clocked bcm).mclk_source i;
      mclk_freq = freq (selm == 0 || selm == 1) i;
      mclk_div = 2 ^ (memspace bcsctl2_vloc / 2 ^ 4 % 2 ^ 2);
      dco_freq = again freqs (clocked bcm).dco_freq i;
      dco_period = again periods (clocked bcm).dco_period i;
      dco_pulse_width = again widths (clocked bcm).dco_pulse_width i;
    }
      where
        again :
            (v : ℕ × ℕ × ℕ × ℕ × ℕ) (old : ℕ)
            → selected dco rsel v (selected dco rsel v old) ≡ selected dco rsel v old
        again v old =
            pick-pick (dco == 3 && rsel == 7) (dco == 4 && rsel == 15) (dco == 4 && rsel == 14)
              (dco == 4 && rsel == 13) (dco == 6 && rsel == 6) v old

        freq :
            (b : Bool)
            → (if b
                then ratio (clocked (clocked bcm)).dco_freq (clocked bcm).mclk_div
                else if b
                then ratio (clocked bcm).dco_freq (clocked bcm).mclk_div
                else if b
                then ratio bcm.dco_freq bcm.mclk_div
                else bcm.mclk_freq)
              ≡ (if b
                  then ratio (clocked bcm).dco_freq (clocked bcm).mclk_div
                  else if b
                  then ratio bcm.dco_freq bcm.mclk_div
                  else bcm.mclk_freq)
        freq true = ap (λ x. ratio x (clocked bcm).mclk_div) (again freqs bcm.dco_freq)
        freq false = refl

    -- Over the same memory, a third pass over the clock module changes nothing that two passes
    -- left, whatever the division of the frequencies is.
    pub handle_bcm_settles :
        (bcm : Bcm)
        → let twice = handle_bcm ratio memspace (handle_bcm ratio memspace bcm) in
          handle_bcm ratio memspace twice ≡ twice
    handle_bcm_settles bcm = simp handle_bcm_lem (settled bcm)
