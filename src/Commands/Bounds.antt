-- ===== src/Commands/Bounds.antt =====
-- What commands do to the table of breakpoints.
use msp430_emulator.Base.{
  ℕ, zero, suc, ◌+◌, ◌%◌, ◌/◌, ◌^◌, ◌≤◌, ◌<◌, ◌≡◌, Bool, true, false, List, length, ◌==◌, ltb, leb,
  ◌||◌, is_text, update, u16, arith, refl, subst, if◌then◌else◌,
}
use msp430_emulator.Machine.{Machine, M, Result, ok, fault, Fault}
use msp430_emulator.Debugger.{Debugger, max_breakpoints}
use msp430_emulator.TimerA.{Doubles}
use msp430_emulator.Emulator.{Emulator, step_all, then_peripherals, handle_peripherals}
use msp430_emulator.Commands.{
  Scanner, with_machine, add_breakpoint, set_breakpoint, list_breakpoints, on_machine, then_do,
  step_times, step_command, exec_cmd, disassemble_here, scan_text, reset, list_instructions, dump,
  set,
}
use msp430_emulator.Decoder

-- The table has at most one breakpoint more, within its bounds, and the others are the same.
pub record Extends (a b : Debugger) : Type 0 where
  pub none_lost : a.num_bps ≤ b.num_bps
  pub one_more : b.num_bps ≤ a.num_bps + 1
  pub in_bounds : b.num_bps ≤ max_breakpoints
  pub same : (k : ℕ) → k < a.num_bps → b.bp_addresses k ≡ a.bp_addresses k

module _ (a : Debugger) (h : a.num_bps ≤ max_breakpoints) where
  Extends-self : Extends a a
  Extends-self = record {
    none_lost = omega arith;
    one_more = omega arith;
    in_bounds = h;
    same = λ k l. refl;
  }

  Extends-quit : Extends a (record a { quit = true })
  Extends-quit = record {
    none_lost = omega arith;
    one_more = omega arith;
    in_bounds = h;
    same = λ k l. refl;
  }

  Extends-add : (v : ℕ) → a.num_bps < max_breakpoints → Extends a (add_breakpoint v a)
  unfolding add_breakpoint
  Extends-add v l = chosen (ltb (a.num_bps + 1) max_breakpoints)
    where
      low : ℕ → ℕ
      low = update a.bp_addresses a.num_bps (v % 2 ^ 16)

      high : ℕ
      high = v / 2 ^ 16 % 2 ^ 16

      kept : (k : ℕ) → k < a.num_bps → low k ≡ a.bp_addresses k
      kept k m = ground arith

      kept_twice : (k : ℕ) → k < a.num_bps → update low (a.num_bps + 1) high k ≡ a.bp_addresses k
      kept_twice k m = ground arith

      chosen :
          (b : Bool)
          → Extends a (
              if b
              then record a {
                bp_addresses = update low (a.num_bps + 1) high;
                num_bps = a.num_bps + 1;
              }
              else record a { bp_addresses = low; current_bp = high; num_bps = a.num_bps + 1 })
      chosen true = record {
        none_lost = omega arith;
        one_more = omega arith;
        in_bounds = omega arith;
        same = kept_twice;
      }
      chosen false = record {
        none_lost = omega arith;
        one_more = omega arith;
        in_bounds = omega arith;
        same = kept;
      }

  Extends-set : (p : ℕ × ℕ) → Extends a (set_breakpoint p a)
  unfolding set_breakpoint
  Extends-set (ops, v) = chosen (leb max_breakpoints a.num_bps) (ops == 2) refl
    where
      chosen :
          (b c : Bool)
          → leb max_breakpoints a.num_bps ≡ b
          → Extends a (if b then a else if c then add_breakpoint v a else a)
      chosen true c e = Extends-self
      chosen false true e = Extends-add v (ground arith)
      chosen false false e = Extends-self

  Extends-list : Extends a (list_breakpoints a)
  unfolding list_breakpoints
  Extends-list = chosen (ltb 0 a.num_bps)
    where
      chosen : (b : Bool) → Extends a (if b then record a { current_bp = u16 a.num_bps } else a)
      chosen true = record {
        none_lost = omega arith;
        one_more = omega arith;
        in_bounds = h;
        same = λ k l. refl;
      }
      chosen false = Extends-self

-- A command that ends well leaves a debugger as described.
pub data Leaves {D : Type 0} (P : Debugger → Type 0) : Result (Emulator D) → Type 0 where
  leaves : (e : Emulator D) → P e.debugger → Leaves P (ok e)
  leaves_none : (f : Fault) → Leaves P (fault f)

module _ {D : Type 0} (P : Debugger → Type 0) where
  Leaves-if :
      (b : Bool) {x y : Result (Emulator D)}
      → Leaves P x
      → Leaves P y
      → Leaves P (if b then x else y)
  Leaves-if true h k = h
  Leaves-if false h k = k

  pub Leaves-on_machine :
      (m : M (Unit {0})) (e : Emulator D) → P e.debugger → Leaves P (on_machine m e)
  Leaves-on_machine m e p = ended (m e.machine)
    where
      ended : (x : Result (Unit {0} × Machine)) → Leaves P (with_machine e x)
      ended (ok s) = leaves _ p
      ended (fault f) = leaves_none f

  Leaves-then :
      {x : Result (Emulator D)} {k : Emulator D → Result (Emulator D)}
      → Leaves P x
      → ((e : Emulator D) → P e.debugger → Leaves P (k e))
      → Leaves P (then_do x k)
  Leaves-then (leaves e p) h = h e p
  Leaves-then (leaves_none f) h = leaves_none f

  module _ (ratio : ℕ → ℕ → ℕ) (d : Doubles D) where
    Leaves-step_all : (e : Emulator D) → P e.debugger → Leaves P (step_all ratio d e)
    unfolding step_all handle_peripherals
    Leaves-step_all e p = ended (Decoder.step e.machine)
      where
        ended : (x : Result (Unit {0} × Machine)) → Leaves P (then_peripherals ratio d e x)
        ended (ok s) = leaves _ p
        ended (fault f) = leaves_none f

    Leaves-step_times :
        (steps : ℕ) (e : Emulator D) → P e.debugger → Leaves P (step_times ratio d steps e)
    unfolding step_times
    Leaves-step_times zero e p = leaves e p
    Leaves-step_times (suc steps) e p = Leaves-then (Leaves-step_all e p) (Leaves-step_times steps)

    Leaves-step_command :
        (scanned : ℕ × List ℕ × ℕ) (e : Emulator D)
        → P e.debugger
        → Leaves P (step_command ratio d scanned e)
    unfolding step_command
    Leaves-step_command (ops, cmd, op1) e p =
        Leaves-then (Leaves-step_times (if ops == 2 then op1 else 1) e p)
          (Leaves-on_machine disassemble_here)

module _ {D : Type 0} (ratio : ℕ → ℕ → ℕ) (d : Doubles D) (scan : Scanner) (line : List ℕ) where
  pub exec_cmd-Extends :
      (e : Emulator D)
      → e.debugger.num_bps ≤ max_breakpoints
      → Leaves (Extends e.debugger) (exec_cmd ratio d scan line e)
  unfolding exec_cmd
  exec_cmd-Extends e h =
      let a = e.debugger in
      let cmd = (scan.command line).1 in
      let self = Extends-self a h in
      let same : (m : M (Unit {0})) → Leaves (Extends a) (on_machine m e) =
        λ m. Leaves-on_machine (Extends a) m e self in
      Leaves-if (Extends a) (leb 100 (length cmd)) (leaves_none Fault.out_of_bounds) (
        Leaves-if (Extends a) (is_text "reset" cmd || is_text "restart" cmd) (same reset) (
          Leaves-if (Extends a) (is_text "s" cmd || is_text "step" cmd)
            (Leaves-step_command (Extends a) ratio d (scan.command line) e self)
            (Leaves-if (Extends a) (is_text "quit" cmd || is_text "q" cmd)
              (leaves (record e { debugger = record a { quit = true } }) (Extends-quit a h))
              (Leaves-if (Extends a) (is_text "run" cmd || is_text "r" cmd)
                (leaves
                  (record e { machine = record (e.machine) { running = true; debug_mode = false } })
                  self)
                (Leaves-if (Extends a)
                  (is_text "disas" cmd || is_text "dis" cmd || is_text "disassemble" cmd)
                  (same (list_instructions (scan.listing line)))
                  (Leaves-if (Extends a) (is_text "dump" cmd)
                    (same (scan_text 100 (scan.place line) (dump scan.hex (scan.place line))))
                    (Leaves-if (Extends a) (is_text "set" cmd)
                      (same (
                        scan_text 50 (scan.assignment line).0 (
                          set scan.strtol (scan.assignment line).0 (u16 (scan.assignment line).1))))
                      (Leaves-if (Extends a) (is_text "break" cmd)
                        (leaves (record e { debugger = set_breakpoint (scan.address line) a })
                          (Extends-set a h (scan.address line)))
                        (Leaves-if (Extends a) (is_text "bps" cmd)
                          (leaves (record e { debugger = list_breakpoints a }) (Extends-list a h))
                          (Leaves-if (Extends a) (is_text "regs" cmd) (same disassemble_here)
                            (leaves e self)))))))))))

  left :
      {P : Debugger → Type 0} {x : Result (Emulator D)} (e : Emulator D)
      → Leaves P x
      → x ≡ ok e
      → P e.debugger
  left {P} e (leaves e' p) run = let ends : e' ≡ e = cc in subst (λ f. P f.debugger) ends p
  left e (leaves_none f) run = cc

  -- With at most 100 breakpoints, a command of the console that runs into no fault leaves at most
  -- 100 of them, adds at most one, and keeps those that were there at their addresses, whatever the
  -- conversions read from its line.
  pub exec_cmd_lem :
      (e e' : Emulator D)
      → e.debugger.num_bps ≤ max_breakpoints
      → exec_cmd ratio d scan line e ≡ ok e'
      → Extends e.debugger e'.debugger
  exec_cmd_lem e e' h run = left e' (exec_cmd-Extends e h) run
