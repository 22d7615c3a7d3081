-- ===== src/Tests/Starts.antt =====
-- A start with a firmware of two bytes, and a message that lets it run.
use msp430_emulator.Base.{
  has, ℕ, ◌<◌, ◌^◌, ◌≡◌, true, false, Option, some, List, [], ◌∷◌, length, bytes, arith, refl,
  subst,
}
use msp430_emulator.Machine.{Result, ok, fault}
use msp430_emulator.Machine.{load16, load8, load, fetch, get_reg_ptr}
use msp430_emulator.Machine.Init.{allocated}
use msp430_emulator.Machine.Store.{IsWellFormed}
use msp430_emulator.Decoder.{decode}
use msp430_emulator.Format3.{decode_format_iii}
use msp430_emulator.Disassembler.{disassemble, decode_range}
use msp430_emulator.Debugger.{setup_debugger}
use msp430_emulator.Emulator.{Emulator}
use msp430_emulator.Commands.{disassemble_here}
use msp430_emulator.Session.{Session, on_message, Answer, dispatch, play}
use msp430_emulator.Session.Reached.{IsSafe, start, message, stored, raised, with_store}
use msp430_emulator.Web.Serial.{store_thing, raise_received}
use msp430_emulator.Usci.{ifg2_vloc, setup_usci}
use msp430_emulator.Port1.{setup_memory}
use msp430_emulator.TimerA.{clear_words}
use msp430_emulator.Web.Upload.{receive}
use msp430_emulator.Boot.Bootloader.{are_bytes, blc}
use msp430_emulator.Boot.{
  Started, continued, boot, load_bootloader, load_web_firmware, load_firmware, read_firmware,
  first_disassembly, store_bytes,
}
use msp430_emulator.Boot.Runs.{booted_session_lem}
use msp430_emulator.Tests.Clock.{clock, ratio}
use msp430_emulator.Tests.Timers.{microseconds, idle_timer}
use msp430_emulator.Tests.Pins.{pins}
use msp430_emulator.Tests.Uploads.{idle, always}
use msp430_emulator.Tests.Rounds.{scan}

abbrev blank : Emulator ℕ
blank = record {
  machine = allocated (λ a. 0) true;
  debugger = setup_debugger;
  bcm = clock;
  timer_a = idle_timer;
  p1 = pins;
  sent = [];
}

blank-IsWellFormed : IsWellFormed blank.machine
blank-IsWellFormed = record {
  regs_fit = λ n. omega arith;
  bytes_fit = λ a. omega arith;
  bogus_fits = omega arith;
  reserved_fits = omega arith;
}

-- JMP $
abbrev firmware : List ℕ
firmware = 0xFF ∷ 0x3F ∷ []

abbrev fopen : List ℕ → Option (List ℕ)
fopen name = some firmware

fits :
    (contents : List ℕ)
    → fopen (bytes "tmp.bin") ≡ some contents
    → (are_bytes contents ≡ true) × (length contents < 2 ^ 32)
fits contents h =
    let same : firmware ≡ contents = cc in
    subst (λ c. (are_bytes c ≡ true) × (length c < 2 ^ 32)) same (refl, omega arith)

abbrev after : Started (Emulator ℕ) → Emulator ℕ
after (continued e) = e
after Started.exited = blank
after Started.faulted = blank

abbrev ready : Emulator ℕ
ready = after (boot fopen blank)

ready-ok : boot fopen blank ≡ continued ready
unfolding boot load_web_firmware load_firmware read_firmware load_bootloader blc store_bytes
ready-ok = refl

abbrev after_ok : Result (Emulator ℕ) → Emulator ℕ
after_ok (ok e) = e
after_ok (fault f) = blank

abbrev displayed : Emulator ℕ
displayed = after_ok (first_disassembly ready)

displayed-ok : first_disassembly ready ≡ ok displayed
unfolding first_disassembly disassemble_here disassemble decode_range decode fetch load16 load8 load
    get_reg_ptr boot load_web_firmware load_bootloader blc load_firmware read_firmware store_bytes
    decode_format_iii
displayed-ok = refl

abbrev opened_session : Session ℕ
opened_session = record { emulator = displayed; upload = idle }

abbrev released : Session ℕ
released = record opened_session {
  emulator = record displayed {
    machine = record (displayed.machine) { running = true; debug_mode = false };
  };
}

released-ok :
    on_message ratio microseconds scan always (1 ∷ []) opened_session ≡ Answer.continued released
unfolding on_message receive dispatch play
released-ok = refl

not_received : has (released.emulator.machine.memspace ifg2_vloc) 1 ≡ false
unfolding first_disassembly disassemble_here disassemble decode_range decode fetch load16 load8 load
    get_reg_ptr boot load_web_firmware load_bootloader blc load_firmware read_firmware store_bytes
    decode_format_iii setup_usci setup_memory clear_words
not_received = refl

-- A thread of the serial port feeds an A.
abbrev fed_a : Emulator ℕ
fed_a = with_store raise_received (with_store (store_thing b'A') released.emulator)

booted_session_lem_example : IsSafe fed_a
booted_session_lem_example =
    booted_session_lem blank blank-IsWellFormed ratio microseconds scan fopen always ready displayed
      idle (record released { emulator = fed_a }) refl (omega arith) fits ready-ok displayed-ok
      (raised (stored b'A' (message (1 ∷ []) start released-ok) (omega arith) not_received))
