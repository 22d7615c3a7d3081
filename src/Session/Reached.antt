-- ===== src/Session/Reached.antt =====
-- Rounds of the main loop, messages from the web interface, and the stores of the threads that feed
-- the serial port, in any order.
use msp430_emulator.Base.{
  ℕ, ◌<◌, ◌^◌, ◌≤◌, ◌≡◌, has, bit_or, update, arith, Bool, true, false, List, ltb, ◌==◌, ◌&&◌, not,
  length, if◌then◌else◌, subst, sym,
}
use msp430_emulator.Base.Bits.{bit_or-lt}
use msp430_emulator.Machine.{Machine, Result, ok}
use msp430_emulator.Machine.Store.{IsWellFormed}
use msp430_emulator.Decoder.Kept.{IsKept-self}
use msp430_emulator.Debugger.{Debugger, max_breakpoints}
use msp430_emulator.TimerA.{Doubles}
use msp430_emulator.Emulator.{Emulator, cycle}
use msp430_emulator.Emulator.Kept.{Held, held, faulted, cycle-Held}
use msp430_emulator.Commands.{Scanner, exec_cmd, on_machine}
use msp430_emulator.Commands.Bounds.{
  Extends, Leaves, leaves, leaves_none, Leaves-on_machine, exec_cmd-Extends,
}
use msp430_emulator.Web.Upload.{Upload, Received, returned, other, exits, undefined, receive}
use msp430_emulator.Usci.{ifg2_vloc}
use msp430_emulator.Web.Serial.{rxbuf_vloc, store_thing, raise_received}
use msp430_emulator.Session.{
  Session, Answer, halt, answer, play, pause_message, uploaded, console_message, dispatch,
  drop_first, handled, on_message,
}
use msp430_emulator.Session.Fits.{Sound, sound, unsound, exec_cmd-Sound, halt-Sound}

-- All registers and memory cells fit their types, and the table of breakpoints is not overfull.
pub record IsSafe {D : Type 0} (e : Emulator D) : Type 0 where
  pub fits : IsWellFormed e.machine
  pub in_bounds : e.debugger.num_bps ≤ max_breakpoints

abbrev pub Bounded : Debugger → Type 0
Bounded deb = deb.num_bps ≤ max_breakpoints

module _ {D : Type 0} where
  data Good : Answer D → Type 0 where
    good : (s : Session D) → IsSafe s.emulator → Good (Answer.continued s)
    gone : Good Answer.exited
    lost : Good Answer.faulted

  Good-if : (b : Bool) {x y : Answer D} → Good x → Good y → Good (if b then x else y)
  Good-if true h k = h
  Good-if false h k = k

  Good-answer :
      (u : Upload) {x : Result (Emulator D)} → Sound x → Leaves Bounded x → Good (answer u x)
  Good-answer u (sound e w) (leaves _ b) = good _ (record { fits = w; in_bounds = b })
  Good-answer u (unsound f) h = lost

  widened : {a : Debugger} {x : Result (Emulator D)} → Leaves (Extends a) x → Leaves Bounded x
  widened (leaves e h) = leaves e h.in_bounds
  widened (leaves_none f) = leaves_none f

  pause-Good : (u : Upload) (e : Emulator D) → IsSafe e → Good (answer u (pause_message e))
  unfolding pause_message
  pause-Good u e h = chosen e.machine.running
    where
      chosen : (b : Bool) → Good (answer u (if b then on_machine halt e else ok e))
      chosen true =
          Good-answer u (halt-Sound e h.fits) (Leaves-on_machine Bounded halt e h.in_bounds)
      chosen false = good _ h

  play-IsSafe : (e : Emulator D) → IsSafe e → IsSafe (play e)
  unfolding play
  play-IsSafe e h = record {
    fits = record {
      regs_fit = h.fits.regs_fit;
      bytes_fit = h.fits.bytes_fit;
      bogus_fits = h.fits.bogus_fits;
      reserved_fits = h.fits.reserved_fits;
    };
    in_bounds = h.in_bounds;
  }

  -- The emulator after a store to the memory.
  abbrev pub with_store : ((ℕ → ℕ) → ℕ → ℕ) → Emulator D → Emulator D
  with_store f e = record e { machine = record (e.machine) { memspace = f e.machine.memspace } }

  stored-IsSafe :
      (a v : ℕ) (e : Emulator D) → v < 2 ^ 8 → IsSafe e → IsSafe (with_store (λ m. update m a v) e)
  stored-IsSafe a v e l h = record {
    fits = record {
      regs_fit = h.fits.regs_fit;
      bytes_fit = λ b. ground (arith, h.fits.bytes_fit b);
      bogus_fits = h.fits.bogus_fits;
      reserved_fits = h.fits.reserved_fits;
    };
    in_bounds = h.in_bounds;
  }

  module _ (ratio : ℕ → ℕ → ℕ) (d : Doubles D) (scan : Scanner) where
    console-Good :
        (line : List ℕ) (u : Upload) (e : Emulator D)
        → IsSafe e
        → Good (answer u (console_message ratio d scan line e))
    unfolding console_message
    console-Good line u e h = chosen (not e.machine.running && e.machine.debug_mode)
      where
        chosen : (b : Bool) → Good (answer u (if b then exec_cmd ratio d scan line e else ok e))
        chosen true =
            Good-answer u (exec_cmd-Sound ratio d scan line e h.fits)
              (widened (exec_cmd-Extends ratio d scan line e h.in_bounds))
        chosen false = good _ h

    dispatch-Good :
        (opcode : ℕ) (message : List ℕ) (e : Emulator D) (u : Upload)
        → IsSafe e
        → Good (dispatch ratio d scan opcode message e u)
    unfolding dispatch
    dispatch-Good opcode message e u h = Good-if (opcode == 1) (good _ (play-IsSafe e h)) (
        Good-if (opcode == 2) (pause-Good u e h) (
          Good-if (opcode == 3) (Good-if (ltb 1000 (length message)) gone (good _ h)) (
            Good-if (opcode == 4)
              (Good-if (ltb 1000 (length message)) gone (console-Good (drop_first message) u e h))
              (good _ h))))

    handled-Good :
        (message : List ℕ) (e : Emulator D) (r : Received)
        → IsSafe e
        → Good (handled ratio d scan message e r)
    handled-Good message e (returned u) h =
        good (uploaded e u) (record { fits = h.fits; in_bounds = h.in_bounds })
    handled-Good message e (other opcode u) h = dispatch-Good opcode message e u h
    handled-Good message e (exits u) h = gone
    handled-Good message e undefined h = lost

    module _ (fopen : List ℕ → Bool) where
      -- What rounds and messages lead to, while nothing ends the process or runs into a fault.
      pub data Reaches (s : Session D) : Session D → Type 0 where
        start : Reaches s s
        round :
            {t : Session D} {e : Emulator D}
            → Reaches s t
            → cycle ratio d t.emulator ≡ ok e
            → Reaches s (record t { emulator = e })
        message :
            {t u : Session D} (bytes : List ℕ)
            → Reaches s t
            → on_message ratio d scan fopen bytes t ≡ Answer.continued u
            → Reaches s u
        -- A thread of the serial port stores a byte, having seen that the last one was taken.
        stored :
            {t : Session D} (thing : ℕ)
            → Reaches s t
            → thing < 2 ^ 8
            → has (t.emulator.machine.memspace ifg2_vloc) 1 ≡ false
            → Reaches s (record t { emulator = with_store (store_thing thing) t.emulator })
        -- And it raises the flag, whatever happened in between.
        raised :
            {t : Session D}
            → Reaches s t
            → Reaches s (record t { emulator = with_store raise_received t.emulator })

      continued-IsSafe :
          {x : Answer D} (u : Session D) → Good x → x ≡ Answer.continued u → IsSafe u.emulator
      continued-IsSafe u (good s h) e =
          let same : s ≡ u = cc in subst (λ v. IsSafe v.emulator) same h
      continued-IsSafe u gone e = cc
      continued-IsSafe u lost e = cc

      round-IsSafe :
          {deb : Debugger} {r : Machine} {x : Result (Emulator D)} (e : Emulator D)
          → Bounded deb
          → Held ratio d r deb x
          → x ≡ ok e
          → IsSafe e
      round-IsSafe e b (held f i same) run =
          let ends : f ≡ e = cc in
          subst IsSafe ends (record { fits = i.fits; in_bounds = subst Bounded (sym same) b })
      round-IsSafe e b (faulted f) run = cc

      -- From an emulator whose machine is well formed and whose table has at most 100 breakpoints,
      -- whatever rounds of the main loop, messages from the web interface and stores of the threads
      -- of the serial port follow in any order, uploads, commands of the console, run and pause
      -- among the messages, both hold, while no round or message ends the process or runs into a fault.
      pub session_lem : (s t : Session D) → IsSafe s.emulator → Reaches s t → IsSafe t.emulator
      unfolding on_message
      session_lem s _ h start = h
      session_lem s _ h (round {t} {e} r run) =
          let i = session_lem s t h r in
          round-IsSafe e i.in_bounds
            (cycle-Held ratio d t.emulator.machine t.emulator
              (IsKept-self t.emulator.machine i.fits))
            run
      session_lem s u h (message {t} bytes r run) =
          continued-IsSafe u
            (handled-Good bytes t.emulator (receive fopen bytes t.upload) (session_lem s t h r)) run
      session_lem s _ h (stored {t} thing r l clear) =
          stored-IsSafe rxbuf_vloc thing t.emulator l (session_lem s t h r)
      session_lem s _ h (raised {t} r) =
          let i = session_lem s t h r in
          stored-IsSafe ifg2_vloc (bit_or (t.emulator.machine.memspace ifg2_vloc) 1) t.emulator
            (bit_or-lt 8 _ 1 (i.fits.bytes_fit ifg2_vloc) (omega arith)) i
