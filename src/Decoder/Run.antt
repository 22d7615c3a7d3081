-- ===== src/Decoder/Run.antt =====
-- Runs of the processor from power-up: `main` of main.cpp alternates steps of the decoder with
-- peripherals, which write to the memory.
use msp430_emulator.Base.{ℕ, ◌<◌, ◌^◌, ◌≡◌, Bool, false, refl, ◌∙◌}
use msp430_emulator.Machine.{Machine, ok}
use msp430_emulator.Machine.Init.{
  initialize_msp_registers, allocated, initialize_msp_registers-IsWellFormed,
}
use msp430_emulator.Machine.Store.{IsWellFormed}
use msp430_emulator.Machine.Keeps.{modes}
use msp430_emulator.Decoder.Kept.{step-IsWellFormed, modes-step}
use msp430_emulator.Decoder

-- The machines that steps without a fault lead to, with bytes of any value written to the memory
-- between them.
pub data Reaches (s : Machine) : Machine → Type 0 where
  start : Reaches s s
  stepped : {t u : Machine} → Reaches s t → Decoder.step t ≡ ok (tt, u) → Reaches s u
  written :
      {t : Machine} (memspace : ℕ → ℕ)
      → Reaches s t
      → ((a : ℕ) → memspace a < 2 ^ 8)
      → Reaches s (record t { memspace = memspace })

reaches_lem :
    (s t : Machine) → IsWellFormed s → Reaches s t → IsWellFormed t × (modes t.sr ≡ modes s.sr)
reaches_lem s _ w start = (w, refl)
reaches_lem s u w (stepped {t} r e) =
    let h = reaches_lem s t w r in (step-IsWellFormed t u h.0 e, modes-step t u h.0 e ∙ h.1)
reaches_lem s _ w (written {t} memspace r fit) =
    let h = reaches_lem s t w r in
    (
      record {
        regs_fit = h.0.regs_fit;
        bytes_fit = fit;
        bogus_fits = h.0.bogus_fits;
        reserved_fits = h.0.reserved_fits;
      },
      h.1,
    )

-- From power-up over any memory of bytes, whatever the program is and whatever bytes are written to
-- the memory between its instructions, every machine that steps without a fault lead to is well
-- formed, and its status register has GIE, CPUOFF, OSCOFF, SCG0, SCG1 and the reserved bits clear.
pub power_up_lem :
    (memspace : ℕ → ℕ) (d : Bool) (t : Machine)
    → ((a : ℕ) → memspace a < 2 ^ 8)
    → Reaches (initialize_msp_registers (allocated memspace d)) t
    → IsWellFormed t × (modes t.sr ≡ (0, false, false, false, false, false))
power_up_lem memspace d t fit r =
    reaches_lem _ t (initialize_msp_registers-IsWellFormed memspace d fit) r
