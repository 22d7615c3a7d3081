-- ===== src/Session.antt =====
-- The branch LWS_CALLBACK_RECEIVE of `callback_emu` in debugger/websockets/emu_server.cpp, whole:
-- uploads, and the messages that run and pause the processor and bring commands. The stores of the thread
-- that a serial message starts are in Web/Serial, and steps of their own in Session/Reached; the
-- display of registers is left out.
pub mod Fits
pub mod Reached
use msp430_emulator.Base.{
  ℕ, suc, Bool, true, false, Option, none, some, List, [], ◌∷◌, length, ltb, ◌==◌, ◌&&◌, not,
  if◌then◌else◌,
}
use msp430_emulator.Machine.{Machine, M, Result, ok, fault, get, put, ◌>>=◌, ◌>>◌}
use msp430_emulator.Debugger.{pause}
use msp430_emulator.TimerA.{Doubles}
use msp430_emulator.Emulator.{Emulator}
use msp430_emulator.Commands.{Scanner, exec_cmd, disassemble_here, on_machine}
use msp430_emulator.Web.Upload.{Upload, Received, returned, other, exits, undefined, receive}

-- `web_firmware_uploaded` of the upload is that of the debugger.
pub record Session (D : Type 0) : Type 0 where
  pub emulator : Emulator D
  pub upload : Upload

-- The callback returns, or ends the process, or runs into what C leaves undefined.
pub data Answer (D : Type 0) : Type 0 where
  continued : Session D → Answer D
  exited : Answer D
  faulted : Answer D

-- `case 0x02`, for a processor that runs.
unfoldable pub halt : M (Unit {0})
halt = do s ← get; put (pause s); disassemble_here

-- `buf + 1`
abbrev pub drop_first : List ℕ → List ℕ
drop_first [] = []
drop_first (c ∷ line) = line

module _ {D : Type 0} where
  abbrev pub answer : Upload → Result (Emulator D) → Answer D
  answer u (ok e) = continued (record { emulator = e; upload = u })
  answer u (fault f) = faulted

  unfoldable pub play : Emulator D → Emulator D
  play e = record e { machine = record (e.machine) { running = true; debug_mode = false } }

  unfoldable pub pause_message : Emulator D → Result (Emulator D)
  pause_message e = if e.machine.running then on_machine halt e else ok e

  -- The emulator after an upload went on.
  abbrev pub uploaded : Emulator D → Upload → Session D
  uploaded e u = record {
    emulator = record e {
      debugger = record (e.debugger) { web_firmware_uploaded = u.web_firmware_uploaded };
    };
    upload = u;
  }

  module _ (ratio : ℕ → ℕ → ℕ) (d : Doubles D) (scan : Scanner) where
    -- `case 0x04`, with the line behind the opcode.
    unfoldable pub console_message : List ℕ → Emulator D → Result (Emulator D)
    console_message line e =
        if not e.machine.running && e.machine.debug_mode then exec_cmd ratio d scan line e else ok e

    unfoldable pub dispatch : ℕ → List ℕ → Emulator D → Upload → Answer D
    dispatch opcode message e u =
        if opcode == 1
        then continued (record { emulator = play e; upload = u })
        else if opcode == 2
        then answer u (pause_message e)
        else if opcode == 3
        then (if ltb 1000 (length message)
            then exited
            else continued (record { emulator = e; upload = u }))
        else if opcode == 4
        then (if ltb 1000 (length message)
            then exited
            else answer u (console_message (drop_first message) e))
        else continued (record { emulator = e; upload = u })

    abbrev pub handled : List ℕ → Emulator D → Received → Answer D
    handled message e (returned u) = continued (uploaded e u)
    handled message e (other opcode u) = dispatch opcode message e u
    handled message e (exits u) = exited
    handled message e undefined = faulted

    unfoldable pub on_message : (List ℕ → Bool) → List ℕ → Session D → Answer D
    on_message fopen message s = handled message s.emulator (receive fopen message s.upload)
