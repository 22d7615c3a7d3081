-- ===== src/Emulator/Kept.antt =====
-- Every round of the loop keeps the machine well formed and the mode bits as they are.
use msp430_emulator.Base.{
  ℕ, zero, suc, ◌+◌, ◌<◌, ◌^◌, ◌≡◌, Bool, true, false, Option, none, some, has, bit_and, not, ◌==◌,
  ◌&&◌, update, if◌then◌else◌, arith, refl,
}
use msp430_emulator.Base.Bits.{bit_and-le, bit_or-lt}
use msp430_emulator.Machine.{Machine, Result, ok, fault, Fault}
use msp430_emulator.Machine.Keeps.{
  Keeps, Any, IsKept, Post, step, done, failed, Keeps-fetch, Keeps-if, IsKept-reg,
}
use msp430_emulator.Decoder.Kept.{Keeps-decode, Keeps-step, IsKept-stopped}
use msp430_emulator.Disassembler.{disassemble, decode_range}
use msp430_emulator.Debugger.{Debugger, pause, hit, breakpoints_from, handle_breakpoints}
use msp430_emulator.Port1.{Pin}
use msp430_emulator.Usci.{
  Pass, handle_usci, transmit, lower_flag, raise_flag, ifg2_vloc, txbuf_vloc,
}
use msp430_emulator.TimerA.{Doubles}
use msp430_emulator.TimerA.Passes.{pass-bytes}
use msp430_emulator.Emulator.{
  Emulator, handle_peripherals, step_all, then_peripherals, then_step, cycle,
}

abbrev pub IsBytes : (ℕ → ℕ) → Type 0
IsBytes m = (a : ℕ) → m a < 2 ^ 8

lower_flag-IsBytes : (m : ℕ → ℕ) → IsBytes m → IsBytes (lower_flag m)
lower_flag-IsBytes m h a = ground (arith, h a, bit_and-le (m ifg2_vloc) 253)

pub raise_flag-IsBytes : (m : ℕ → ℕ) → IsBytes m → IsBytes (raise_flag m)
raise_flag-IsBytes m h a = ground (arith, h a, bit_or-lt 8 (m ifg2_vloc) 2 (h ifg2_vloc))

pub update-IsBytes : (m : ℕ → ℕ) (a : ℕ) → IsBytes m → IsBytes (update m a 0)
update-IsBytes m a h b = ground (arith, h b)

handle_usci-IsBytes :
    (web_interface : Bool) (p : Pin) (m : ℕ → ℕ)
    → IsBytes m
    → IsBytes (handle_usci web_interface p m).0
unfolding handle_usci transmit
handle_usci-IsBytes web_interface p m h =
    chosen (p.sel && p.sel2) (has (m ifg2_vloc) 2) (not (bit_and (m txbuf_vloc) 0xFF == 0))
  where
    lowered : IsBytes (lower_flag m)
    lowered = lower_flag-IsBytes m h

    chosen :
        (b c e : Bool)
        → let pass : Pass =
            if b
            then (if c
                then (if e
                    then (
                      raise_flag (update (lower_flag m) txbuf_vloc 0),
                      (if web_interface then some (m txbuf_vloc) else none),
                    )
                    else (raise_flag (lower_flag m), none))
                else (m, none))
            else (m, none) in
          IsBytes pass.0
    chosen true true true = raise_flag-IsBytes _ (update-IsBytes (lower_flag m) txbuf_vloc lowered)
    chosen true true false = raise_flag-IsBytes _ lowered
    chosen true false e = h
    chosen false c e = h

module _ (r : Machine) where
  Keeps-decode_range : (times : ℕ) → Keeps r Any (decode_range times)
  unfolding decode_range
  Keeps-decode_range zero s i = done tt s i tt
  Keeps-decode_range (suc times) s i = step r (Keeps-fetch r s i) λ opcode s1 i1 _.
      step r (Keeps-decode r opcode true s1 i1) λ _ s2 i2 _. Keeps-decode_range times s2 i2

  pub Keeps-disassemble :
      (start_addr times : ℕ) → start_addr < 2 ^ 16 → Keeps r Any (disassemble start_addr times)
  unfolding disassemble
  Keeps-disassemble start_addr times h s i =
      step r (Keeps-decode_range times _ (IsKept-reg r s 0 start_addr h i))
        λ _ t j _. done tt _ (IsKept-reg r t 0 (s.regs 0) (i.fits.regs_fit 0) j) tt

  Keeps-hit : (k : ℕ) → Keeps r Any (hit k)
  unfolding hit
  Keeps-hit k s i =
      step r (Keeps-disassemble (s.regs 0) 1 (i.fits.regs_fit 0) (pause s) (IsKept-stopped r i))
        λ _ t j _. done _ t j tt

  Keeps-breakpoints_from : (deb : Debugger) (i left : ℕ) → Keeps r Any (breakpoints_from deb i left)
  unfolding breakpoints_from
  Keeps-breakpoints_from deb i zero s k = done none s k tt
  Keeps-breakpoints_from deb i (suc left) s k =
      Keeps-if r (s.regs 0 == deb.bp_addresses i) (Keeps-hit i)
        (Keeps-breakpoints_from deb (i + 1) left) s k

  pub Keeps-handle_breakpoints : (deb : Debugger) → Keeps r Any (handle_breakpoints deb)
  unfolding handle_breakpoints
  Keeps-handle_breakpoints deb = Keeps-breakpoints_from deb 0 deb.num_bps

  IsKept-memory :
      {t : Machine} (m : ℕ → ℕ) → IsBytes m → IsKept r t → IsKept r (record t { memspace = m })
  IsKept-memory m h i = record {
    fits = record {
      regs_fit = i.fits.regs_fit;
      bytes_fit = h;
      bogus_fits = i.fits.bogus_fits;
      reserved_fits = i.fits.reserved_fits;
    };
    modes_same = i.modes_same;
    stays_stopped = i.stays_stopped;
  }

module _ {D : Type 0} (ratio : ℕ → ℕ → ℕ) (d : Doubles D) where
  -- A round from a kept machine ends with a kept one and the same debugger, or in a fault.
  pub data Held (r : Machine) (deb : Debugger) : Result (Emulator D) → Type 0 where
    held : (e : Emulator D) → IsKept r e.machine → e.debugger ≡ deb → Held r deb (ok e)
    faulted : (f : Fault) → Held r deb (fault f)

  module _ (r : Machine) where
    IsKept-handle_peripherals :
        (e : Emulator D) → IsKept r e.machine → IsKept r (handle_peripherals ratio d e).machine
    unfolding handle_peripherals
    IsKept-handle_peripherals e i =
        IsKept-memory r _
          (handle_usci-IsBytes _ _ _ (pass-bytes d _ e.machine.memspace i.fits.bytes_fit e.timer_a))
          i

    pub step_all-Held :
        (e : Emulator D) → IsKept r e.machine → Held r e.debugger (step_all ratio d e)
    unfolding step_all handle_peripherals
    step_all-Held e i = stepped (Keeps-step r e.machine i)
      where
        stepped :
            {x : Result (Unit {0} × Machine)}
            → Post r Any x
            → Held r e.debugger (then_peripherals ratio d e x)
        stepped (done a t j p) =
            held _ (IsKept-handle_peripherals (record e { machine = t }) j) refl
        stepped (failed f) = faulted f

    pub cycle-Held : (e : Emulator D) → IsKept r e.machine → Held r e.debugger (cycle ratio d e)
    unfolding cycle
    cycle-Held e i = chosen e.machine.running
      where
        checked :
            {x : Result (Option ℕ × Machine)}
            → Post r Any x
            → Held r e.debugger (then_step ratio d e x)
        checked (done a t j p) = step_all-Held (record e { machine = t }) j
        checked (failed f) = faulted f

        chosen :
            (b : Bool)
            → Held r e.debugger
                (if b then then_step ratio d e (handle_breakpoints e.debugger e.machine) else ok e)
        chosen true = checked (Keeps-handle_breakpoints r e.debugger e.machine i)
        chosen false = held e i refl
