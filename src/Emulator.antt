-- ===== src/Emulator.antt =====
-- The loop of `main` in main.cpp over the processor, the debugger and the peripherals, and the
-- set-up before it. The loaders of boot code and firmware are in Boot, and `display_registers`
-- and `update_register_display`, which only print, in Display. The waits are left out.
pub mod Kept
pub mod Loop
use msp430_emulator.Base.{
  ℕ, zero, suc, ◌+◌, Bool, true, false, Option, none, some, List, [], ◌∷◌, ◌++◌, if◌then◌else◌,
}
use msp430_emulator.Machine.{Machine, Result, ok, fault}
use msp430_emulator.Machine.Init.{initialize_msp_registers}
use msp430_emulator.Decoder
use msp430_emulator.Debugger.{Debugger, handle_breakpoints}
use msp430_emulator.Bcm.{Bcm, handle_bcm, setup_bcm, setup_bcm_memory}
use msp430_emulator.TimerA.{TimerA, Doubles, handle_timer_a, setup_timer_a, setup_timer_a_memory}
use msp430_emulator.Port1.{Pin, handle_port_1, setup_memory, setup_pins}
use msp430_emulator.Usci.{handle_usci, setup_usci}
use msp430_emulator.PacketQueue.{Packet}
use msp430_emulator.Web.Control.{print_serial}

-- `sent` are the packets that were queued, the latest last, but for those with text.
pub record Emulator (D : Type 0) : Type 0 where
  pub machine : Machine
  pub debugger : Debugger
  pub bcm : Bcm
  pub timer_a : TimerA D
  pub p1 : ℕ → Pin
  pub sent : List Packet

abbrev pub packet_list : Option Packet → List Packet
packet_list none = []
packet_list (some p) = p ∷ []

-- `print_serial` with the text of one character.
abbrev pub serial_list : Option ℕ → List Packet
serial_list none = []
serial_list (some c) = print_serial (c ∷ []) ∷ []

abbrev pub then_cycles :
    {D : Type 0} → (Emulator D → Result (Emulator D)) → Result (Emulator D) → Result (Emulator D)
then_cycles k (ok e) = k e
then_cycles k (fault f) = fault f

module _ {D : Type 0} where
  -- The set-up after `initialize_msp_memspace` and before the loaders.
  abbrev pub set_up : Emulator D → Emulator D
  set_up e = record e {
    machine = record (initialize_msp_registers e.machine) {
      memspace =
          setup_usci (setup_memory (setup_timer_a_memory (setup_bcm_memory e.machine.memspace)));
    };
    bcm = setup_bcm e.bcm;
    timer_a = setup_timer_a e.timer_a;
    p1 = setup_pins e.p1;
  }

module _ {D : Type 0} (ratio : ℕ → ℕ → ℕ) (d : Doubles D) where
  -- `handle_bcm(emu); handle_timer_a(emu); handle_port_1(emu); handle_usci(emu);`
  unfoldable pub handle_peripherals : Emulator D → Emulator D
  handle_peripherals e =
      let bcm = handle_bcm ratio e.machine.memspace e.bcm in
      let timed = handle_timer_a d bcm.mclk_freq e.machine.memspace e.timer_a in
      let p1 = handle_port_1 timed.0 e.p1 in
      let passed = handle_usci e.debugger.web_interface (p1 2) timed.0 in
      record e {
        machine = record (e.machine) { memspace = passed.0 };
        bcm = bcm;
        timer_a = timed.1.1;
        p1 = p1;
        sent = e.sent ++ packet_list timed.1.0 ++ serial_list passed.1;
      }

  abbrev pub then_peripherals : Emulator D → Result (Unit {0} × Machine) → Result (Emulator D)
  then_peripherals e (ok stepped) = ok (handle_peripherals (record e { machine = stepped.1 }))
  then_peripherals e (fault f) = fault f

  -- `decode(emu, fetch(emu), EXECUTE);` and the peripherals.
  unfoldable pub step_all : Emulator D → Result (Emulator D)
  step_all e = then_peripherals e (Decoder.step e.machine)

  abbrev pub then_step : Emulator D → Result (Option ℕ × Machine) → Result (Emulator D)
  then_step e (ok checked) = step_all (record e { machine = checked.1 })
  then_step e (fault f) = fault f

  -- The body of `while (!deb->quit)`.
  unfoldable pub cycle : Emulator D → Result (Emulator D)
  cycle e =
      if e.machine.running then then_step e (handle_breakpoints e.debugger e.machine) else ok e

  -- `times` rounds of the loop, which `quit` ends.
  unfoldable pub cycles : ℕ → Emulator D → Result (Emulator D)
  cycles zero e = ok e
  cycles (suc times) e = if e.debugger.quit then ok e else then_cycles (cycles times) (cycle e)
