-- ===== src/Decoder/Kept.antt =====
-- One step of the processor keeps the machine well formed and cannot change the mode bits.
use msp430_emulator.Base.{
  ℕ, ◌+◌, ◌≡◌, Bool, true, false, subst, refl, arith, u16, u8, ◌==◌, leb, ◌&&◌, ◌>>>◌,
}
use msp430_emulator.Machine.{Machine, Result, ok}
use msp430_emulator.Machine.Store.{IsWellFormed}
use msp430_emulator.Machine.Keeps.{
  Keeps, Any, IsKept, Post, modes, step, done, failed, Keeps-fetch, Keeps-if, Post-if, IsKept-reg,
}
use msp430_emulator.Format1.Kept.{Keeps-decode_format_i}
use msp430_emulator.Format2.Kept.{Keeps-decode_format_ii}
use msp430_emulator.Format3.{decode_format_iii, jumps, condition, signed_offset}
use msp430_emulator.Decoder.{decode}
use msp430_emulator.Decoder

module _ (r : Machine) where
  Keeps-decode_format_iii : (n : ℕ) (d : Bool) → Keeps r Any (decode_format_iii n d)
  unfolding decode_format_iii
  Keeps-decode_format_iii n d s i = Post-if r d (done tt s i tt) (
      Post-if r (jumps (condition n) s.sr)
        (done tt _ (IsKept-reg r s 0 (u16 (s.regs 0 + signed_offset n)) (omega arith) i) tt)
        (done tt s i tt))

  pub IsKept-stopped :
      {s : Machine} → IsKept r s → IsKept r (record s { running = false; debug_mode = true })
  IsKept-stopped i = record {
    fits = record {
      regs_fit = i.fits.regs_fit;
      bytes_fit = i.fits.bytes_fit;
      bogus_fits = i.fits.bogus_fits;
      reserved_fits = i.fits.reserved_fits;
    };
    modes_same = i.modes_same;
    stays_stopped = λ e. refl;
  }

  pub Keeps-decode : (n : ℕ) (d : Bool) → Keeps r Any (decode n d)
  unfolding decode
  Keeps-decode n d = Keeps-if r (u8 (n >>> 12) == 1) (Keeps-decode_format_ii r n d) (
      Keeps-if r (leb 2 (u8 (n >>> 12)) && leb (u8 (n >>> 12)) 3) (Keeps-decode_format_iii n d) (
        Keeps-if r (leb 4 (u8 (n >>> 12))) (Keeps-decode_format_i r n d)
          (λ s i. done tt _ (IsKept-stopped i) tt)))

  pub Keeps-step : Keeps r Any Decoder.step
  unfolding Decoder.step
  Keeps-step s i = step r (Keeps-fetch r s i) λ n s1 i1 _. Keeps-decode n false s1 i1

pub ok-state :
    {A : Type 0} {a b : A} (t u : Machine)
    → ◌≡◌ {A = Result (A × Machine)} (ok (a, t)) (ok (b, u))
    → t ≡ u
ok-state t u e = cc

-- What is known of a run that ends well.
pub Post-ok :
    {A : Type 0} (r : Machine) {a : A} {t : Machine} {x : Result (A × Machine)}
    → Post r Any x
    → x ≡ ok (a, t)
    → IsKept r t
Post-ok r (done a u i p) e = subst (IsKept r) (ok-state u _ e) i
Post-ok r (failed f) e = cc

pub IsKept-self : (s : Machine) → IsWellFormed s → IsKept s s
IsKept-self s w = record { fits = w; modes_same = refl; stays_stopped = λ e. e }

-- A step from a well-formed machine that runs into no fault leaves it well formed: all registers
-- fit 16 bits, the reserved field 7 bits, and all memory cells a byte.
pub step-IsWellFormed :
    (s t : Machine) → IsWellFormed s → Decoder.step s ≡ ok (tt, t) → IsWellFormed t
step-IsWellFormed s t w e = (Post-ok s (Keeps-step s s (IsKept-self s w)) e).fits

-- A step from a well-formed machine that runs into no fault changes neither the reserved bits nor
-- the mode bits SCG1, SCG0, OSCOFF, CPUOFF and GIE of the status register.
pub modes-step :
    (s t : Machine) → IsWellFormed s → Decoder.step s ≡ ok (tt, t) → modes t.sr ≡ modes s.sr
modes-step s t w e = (Post-ok s (Keeps-step s s (IsKept-self s w)) e).modes_same

-- A step from a well-formed machine that runs into no fault leaves it well formed, so that all
-- registers fit 16 bits, the reserved field 7 bits and all memory cells a byte, and changes neither
-- the reserved bits nor the mode bits SCG1, SCG0, OSCOFF, CPUOFF and GIE of the status register.
pub step_lem :
    (s t : Machine)
    → IsWellFormed s
    → Decoder.step s ≡ ok (tt, t)
    → IsWellFormed t × (modes t.sr ≡ modes s.sr)
step_lem s t w e = (step-IsWellFormed s t w e, modes-step s t w e)
