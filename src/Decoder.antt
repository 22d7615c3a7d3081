-- ===== src/Decoder.antt =====
-- `decode` of devices/cpu/decoder.c, and the step that the main loop and the debugger make of it.
pub mod Kept
pub mod Symbolic
pub mod Run
use msp430_emulator.Base.{
  ℕ, ◌/◌, ◌^◌, ◌%◌, Bool, true, false, ltb, leb, ◌==◌, ◌&&◌, u8, ◌>>>◌, if◌then◌else◌,
}
use msp430_emulator.Machine.{Machine, M, ok, fetch, ◌>>=◌}
use msp430_emulator.Format1.{decode_format_i}
use msp430_emulator.Format2.{decode_format_ii}
use msp430_emulator.Format3.{decode_format_iii}

-- An invalid instruction stops the processor and enters the debugger.
unfoldable pub decode : ℕ → Bool → M (Unit {0})
decode instruction disassemble =
    let format_id = u8 (instruction >>> 12) in
    if format_id == 1
    then decode_format_ii instruction disassemble
    else if leb 2 format_id && leb format_id 3
    then decode_format_iii instruction disassemble
    else if leb 4 format_id
    then decode_format_i instruction disassemble
    else λ s. ok (tt, record s { running = false; debug_mode = true })

-- `decode(emu, fetch(emu), EXECUTE)`
unfoldable pub step : M (Unit {0})
step = do instruction ← fetch; decode instruction false
