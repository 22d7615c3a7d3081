-- ===== src/Tests/Rounds.antt =====
-- Rounds of the loop, and a command of the console.
use msp430_emulator.Base.{ℕ, true, [], ◌≡◌, bytes, arith, refl}
use msp430_emulator.Base.Text.{matches}
use msp430_emulator.Machine.{Machine, Result, ok, fault}
use msp430_emulator.Machine.{load16, load8, load, store16, store8, store, fetch, get_reg_ptr}
use msp430_emulator.Machine.Store.{IsWellFormed}
use msp430_emulator.Machine.Keeps.{modes}
use msp430_emulator.Decoder.{decode, step}
use msp430_emulator.Base.Hex.{hex, leading, four_digits}
use msp430_emulator.Listing.TwoOperands.{asm_operands, source_text}
use msp430_emulator.Names.{reg_num_to_name}
use msp430_emulator.Format1.{decode_format_i}
use msp430_emulator.Format1.Operands.{operands, as1_ad0, clear_upper}
use msp430_emulator.Format1.Fields.{fields}
use msp430_emulator.Format1.Alu.{execute, add, set_flags}
use msp430_emulator.Flags.{is_zero, is_negative, is_carried, is_overflowed}
use msp430_emulator.Constant.{constant, run_constant_generator}
use msp430_emulator.Debugger.{setup_debugger, handle_breakpoints, breakpoints_from}
use msp430_emulator.Emulator.{Emulator, cycle, cycles, step_all}
use msp430_emulator.Emulator.Loop.{cycles-IsWellFormed, breakpoint_stops}
use msp430_emulator.Commands.{Scanner, exec_cmd, set_breakpoint, add_breakpoint}
use msp430_emulator.Commands.Bounds.{Extends, exec_cmd_lem}
use msp430_emulator.Tests.Machines.{booted, booted-IsWellFormed}
use msp430_emulator.Tests.Clock.{clock, ratio}
use msp430_emulator.Tests.Timers.{microseconds, idle_timer}
use msp430_emulator.Tests.Pins.{pins}
use msp430_emulator.Tests.Debugging.{watching}

abbrev played : Machine
played = record booted { running = true }

played-IsWellFormed : IsWellFormed played
played-IsWellFormed = record {
  regs_fit = booted-IsWellFormed.regs_fit;
  bytes_fit = booted-IsWellFormed.bytes_fit;
  bogus_fits = booted-IsWellFormed.bogus_fits;
  reserved_fits = booted-IsWellFormed.reserved_fits;
}

abbrev started : Emulator ℕ
started = record {
  machine = played;
  debugger = setup_debugger;
  bcm = clock;
  timer_a = idle_timer;
  p1 = pins;
  sent = [];
}

abbrev after : Result (Emulator ℕ) → Emulator ℕ
after (ok e) = e
after (fault f) = started

abbrev one_on : Emulator ℕ
one_on = after (cycles ratio microseconds 1 started)

one_on-ok : cycles ratio microseconds 1 started ≡ ok one_on
unfolding cycles cycle step_all handle_breakpoints breakpoints_from step decode decode_format_i
    asm_operands source_text hex leading four_digits reg_num_to_name operands as1_ad0 clear_upper
    fields execute add set_flags is_zero is_negative is_carried is_overflowed constant
    run_constant_generator load16 load8 load store16 store8 store fetch get_reg_ptr
one_on-ok = refl

cycles-IsWellFormed_example :
    IsWellFormed one_on.machine × (modes one_on.machine.sr ≡ modes played.sr)
cycles-IsWellFormed_example =
    cycles-IsWellFormed ratio microseconds started one_on 1 played-IsWellFormed one_on-ok

abbrev watched : Emulator ℕ
watched = record started { debugger = watching }

breakpoint_stops_example :
    cycles ratio microseconds 10 watched ≡ cycles ratio microseconds 1 watched
breakpoint_stops_example =
    breakpoint_stops ratio microseconds watched 1 9 played-IsWellFormed (omega arith) refl

-- The conversions on the line `break C004`.
abbrev pub scan : Scanner
scan = record {
  command = λ line. (1, bytes "break", 0);
  listing = λ line. (1, 0, 0);
  address = λ line. (2, 0xC004);
  place = λ line. [];
  hex = λ line. 0;
  assignment = λ line. ([], 0);
  strtol = λ line. 0;
}

abbrev broken : Emulator ℕ
broken = record watched { debugger = add_breakpoint 0xC004 watching }

broken-ok : exec_cmd ratio microseconds scan (bytes "break C004") watched ≡ ok broken
unfolding exec_cmd set_breakpoint matches
broken-ok = refl

exec_cmd_lem_example : Extends watching broken.debugger
exec_cmd_lem_example =
    exec_cmd_lem ratio microseconds scan (bytes "break C004") watched broken (omega arith) broken-ok
