-- ===== src/Debugger.antt =====
-- `Debugger` of debugger/debugger.h, and `setup_debugger`, `handle_sigint` and `handle_breakpoints`
-- of debugger/debugger.c. `debug_mode` is a field of the machine. The port is in LocalServer and
-- the text of the disassembly in Listing; the threads, and what is printed but for the number of a
-- breakpoint, are left out.
pub mod Breakpoints
use msp430_emulator.Base.{
  ℕ, zero, suc, ◌+◌, Bool, true, false, Option, none, some, ◌==◌, if◌then◌else◌,
}
use msp430_emulator.Machine.{Machine, M, get, put, pure, ◌>>=◌, ◌>>◌}
use msp430_emulator.Disassembler.{disassemble}

abbrev pub max_breakpoints : ℕ
max_breakpoints = 100

pub record Debugger : Type 0 where
  pub web_interface : Bool
  pub console_interface : Bool
  pub quit : Bool
  pub web_server_ready : Bool
  pub web_firmware_uploaded : Bool
  pub bp_addresses : ℕ → ℕ
  pub current_bp : ℕ
  pub num_bps : ℕ

abbrev pub setup_debugger : Debugger
setup_debugger = record {
  web_interface = true;
  console_interface = false;
  quit = false;
  web_server_ready = false;
  web_firmware_uploaded = false;
  bp_addresses = λ i. 0;
  current_bp = 0;
  num_bps = 0;
}

-- What stops the processor in `handle_sigint`, `handle_breakpoints` and the web interface.
abbrev pub pause : Machine → Machine
pause s = record s { running = false; debug_mode = true }

-- `local_emu` is the machine, `none` before the set-up.
unfoldable pub handle_sigint : Option Machine → Option Machine
handle_sigint none = none
handle_sigint (some s) = some (pause s)

-- The body of the `if`.
unfoldable pub hit : ℕ → M (Option ℕ)
hit i = do s ← get; put (pause s); disassemble (s.regs 0) 1; pure (some (i + 1))

module _ (deb : Debugger) where
  -- The loop from `i` on, with `left` breakpoints to go; the result is the number of the breakpoint
  -- that was hit, as the message gives it.
  unfoldable pub breakpoints_from : ℕ → ℕ → M (Option ℕ)
  breakpoints_from i zero = pure none
  breakpoints_from i (suc left) = do
    s ← get
    let rest = breakpoints_from (i + 1) left in
        if s.regs 0 == deb.bp_addresses i then hit i else rest

  unfoldable pub handle_breakpoints : M (Option ℕ)
  handle_breakpoints = breakpoints_from 0 deb.num_bps
