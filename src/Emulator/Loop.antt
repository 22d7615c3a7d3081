-- ===== src/Emulator/Loop.antt =====
-- The loop from the set-up on, and at a breakpoint.
use msp430_emulator.Base.{
  ℕ, zero, suc, ◌<◌, ◌≡◌, Bool, true, false, Option, if◌then◌else◌, arith, refl, sym, subst, ◌∙◌,
}
use msp430_emulator.Machine.{Machine, Result, ok, fault}
use msp430_emulator.Machine.Store.{IsWellFormed}
use msp430_emulator.Machine.Keeps.{IsKept, modes}
use msp430_emulator.Decoder.Kept.{IsKept-self, Post-ok}
use msp430_emulator.Debugger.{Debugger, handle_breakpoints}
use msp430_emulator.Debugger.Breakpoints.{Checked, passed, stopped, handle_breakpoints_lem}
use msp430_emulator.TimerA.{Doubles}
use msp430_emulator.Emulator.{Emulator, cycle, cycles, step_all, then_step, then_cycles}
use msp430_emulator.Emulator.Kept.{
  Held, held, faulted, cycle-Held, step_all-Held, Keeps-handle_breakpoints,
}

module _ {D : Type 0} (ratio : ℕ → ℕ → ℕ) (d : Doubles D) where
  cycles-Held :
      (r : Machine) (times : ℕ) (e : Emulator D)
      → IsKept r e.machine
      → Held ratio d r e.debugger (cycles ratio d times e)
  unfolding cycles
  cycles-Held r zero e i = held e i refl
  cycles-Held r (suc times) e i =
      chosen e.debugger.quit (λ e' j. cycles-Held r times e' j) (cycle-Held ratio d r e i)
    where
      then_held :
          {x : Result (Emulator D)}
          → ((e' : Emulator D)
              → IsKept r e'.machine
              → Held ratio d r e'.debugger (cycles ratio d times e'))
          → Held ratio d r e.debugger x
          → Held ratio d r e.debugger (then_cycles (cycles ratio d times) x)
      then_held go (held e' j same) =
          subst (λ deb. Held ratio d r deb (cycles ratio d times e')) same (go e' j)
      then_held go (faulted f) = faulted f

      chosen :
          (b : Bool)
          → ((e' : Emulator D)
              → IsKept r e'.machine
              → Held ratio d r e'.debugger (cycles ratio d times e'))
          → Held ratio d r e.debugger (cycle ratio d e)
          → Held ratio d r e.debugger
              (if b then ok e else then_cycles (cycles ratio d times) (cycle ratio d e))
      chosen true go h = held e i refl
      chosen false go h = then_held go h

  Held-ok :
      {r : Machine} {deb : Debugger} {x : Result (Emulator D)} (e : Emulator D)
      → Held ratio d r deb x
      → x ≡ ok e
      → IsKept r e.machine
  Held-ok {r} e (held e' i same) run =
      let ends : e' ≡ e = cc in subst (λ f. IsKept r f.machine) ends i
  Held-ok e (faulted f) run = cc

  -- Any number of rounds of the main loop, over the debugger, the processor and all peripherals,
  -- that run into no fault keep the machine well formed and the reserved and mode bits of the
  -- status register as they were, whatever breakpoints are set and whatever the arithmetic of
  -- doubles is.
  pub cycles-IsWellFormed :
      (e0 e : Emulator D) (times : ℕ)
      → IsWellFormed e0.machine
      → cycles ratio d times e0 ≡ ok e
      → IsWellFormed e.machine × (modes e.machine.sr ≡ modes e0.machine.sr)
  cycles-IsWellFormed e0 e times w run =
      let kept = Held-ok e (cycles-Held e0.machine times e0 (IsKept-self e0.machine w)) run in
      (kept.fits, kept.modes_same)

  -- A stopped processor stays stopped.
  stopped_cycles :
      (times : ℕ) (e : Emulator D) → e.machine.running ≡ false → cycles ratio d times e ≡ ok e
  unfolding cycles cycle
  stopped_cycles zero e s = refl
  stopped_cycles (suc times) e s =
      chosen e.debugger.quit e.machine.running s (stopped_cycles times e s)
    where
      chosen :
          (q b : Bool)
          → b ≡ false
          → cycles ratio d times e ≡ ok e
          → (if q
              then ok e
              else then_cycles (cycles ratio d times) (
                  if b
                  then then_step ratio d e (handle_breakpoints e.debugger e.machine)
                  else ok e))
            ≡ ok e
      chosen true b t h = refl
      chosen false true t h = cc
      chosen false false t h = h

  -- Nothing follows a round that stops the processor or faults.
  abbrev Ends : Result (Emulator D) → Type 0
  Ends x = (times : ℕ) → then_cycles (cycles ratio d times) x ≡ x

  stopped-Ends : (e : Emulator D) → e.machine.running ≡ false → Ends (ok e)
  stopped-Ends e s times = stopped_cycles times e s

  Held-Ends :
      {t : Machine} {deb : Debugger} {x : Result (Emulator D)}
      → t.running ≡ false
      → Held ratio d t deb x
      → Ends x
  Held-Ends s (held e i same) times = stopped-Ends e (i.stays_stopped s) times
  Held-Ends s (faulted f) times = refl

  Checked-Ends :
      (e : Emulator D) (k : ℕ) (r : Option ℕ) (t : Machine)
      → IsWellFormed t
      → k < e.debugger.num_bps
      → e.machine.regs 0 ≡ e.debugger.bp_addresses k
      → Checked e.debugger e.machine 0 e.debugger.num_bps r t
      → Ends (step_all ratio d (record e { machine = t }))
  Checked-Ends e k r t w h a (passed n) = absurd (n k (omega arith) h a)
  Checked-Ends e k r t w h a (stopped j u v b c p m q g) =
      Held-Ends p.0 (step_all-Held ratio d t (record e { machine = t }) (IsKept-self t w))

  breakpoint-Ends :
      (e : Emulator D) (k : ℕ)
      → IsWellFormed e.machine
      → k < e.debugger.num_bps
      → e.machine.regs 0 ≡ e.debugger.bp_addresses k
      → Ends (then_step ratio d e (handle_breakpoints e.debugger e.machine))
  breakpoint-Ends e k w h a = shown (handle_breakpoints e.debugger e.machine) refl
    where
      shown :
          (x : Result (Option ℕ × Machine))
          → handle_breakpoints e.debugger e.machine ≡ x
          → Ends (then_step ratio d e x)
      shown (ok (r, t)) run times =
          Checked-Ends e k r t
            (Post-ok e.machine
              (Keeps-handle_breakpoints e.machine e.debugger e.machine (IsKept-self e.machine w))
              run).fits
            h a (handle_breakpoints_lem e.debugger e.machine r t run) times
      shown (fault f) run times = refl

  -- If the program counter of a well-formed machine is at a breakpoint, then the next round of the
  -- main loop is the last one that changes anything: any number of further rounds adds nothing to
  -- it, be it that it ends well or in a fault.
  pub breakpoint_stops :
      (e : Emulator D) (k times : ℕ)
      → IsWellFormed e.machine
      → k < e.debugger.num_bps
      → e.machine.regs 0 ≡ e.debugger.bp_addresses k
      → cycles ratio d (suc times) e ≡ cycles ratio d 1 e
  unfolding cycles cycle
  breakpoint_stops e k times w h a =
      chosen e.debugger.quit e.machine.running refl (breakpoint-Ends e k w h a)
    where
      round : Bool → Result (Emulator D)
      round b = if b then then_step ratio d e (handle_breakpoints e.debugger e.machine) else ok e

      chosen :
          (q b : Bool)
          → e.machine.running ≡ b
          → Ends (then_step ratio d e (handle_breakpoints e.debugger e.machine))
          → (if q then ok e else then_cycles (cycles ratio d times) (round b))
            ≡ (if q then ok e else then_cycles (cycles ratio d 0) (round b))
      chosen true b s h = refl
      chosen false true s h = h times ∙ sym (h 0)
      chosen false false s h = stopped_cycles times e s
