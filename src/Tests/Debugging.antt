-- ===== src/Tests/Debugging.antt =====
-- The machine after the set-up, with a breakpoint at its first instruction.
use msp430_emulator.Base.{some, ◌≡◌, update, refl}
use msp430_emulator.Machine.{Machine, Result, ok, fault}
use msp430_emulator.Machine.{load16, load8, load, store16, store8, store, fetch, get_reg_ptr}
use msp430_emulator.Decoder.{decode}
use msp430_emulator.Base.Hex.{hex, leading, four_digits}
use msp430_emulator.Listing.TwoOperands.{asm_operands, source_text}
use msp430_emulator.Names.{reg_num_to_name}
use msp430_emulator.Format1.{decode_format_i}
use msp430_emulator.Format1.Operands.{operands, as1_ad0, clear_upper}
use msp430_emulator.Format1.Fields.{fields}
use msp430_emulator.Constant.{constant, run_constant_generator}
use msp430_emulator.Disassembler.{disassemble, decode_range}
use msp430_emulator.Disassembler.Frame.{disassemble_lem}
use msp430_emulator.Debugger.{Debugger, setup_debugger, handle_breakpoints, breakpoints_from, hit}
use msp430_emulator.Debugger.Breakpoints.{Checked, handle_breakpoints_lem}
use msp430_emulator.Tests.Machines.{booted}

abbrev state : {A : Type 0} → Machine → Result (A × Machine) → Machine
state s (ok r) = r.1
state s (fault f) = s

abbrev disassembled : Machine
disassembled = state booted (disassemble 0xC000 1 booted)

disassembled-ok : disassemble 0xC000 1 booted ≡ ok (tt, disassembled)
unfolding disassemble decode_range decode decode_format_i asm_operands source_text hex leading
    four_digits reg_num_to_name operands as1_ad0 clear_upper fields constant run_constant_generator
    load16 load8 load store16 store8 store fetch get_reg_ptr
disassembled-ok = refl

disassemble_lem_example :
    (disassembled.memspace ≡ booted.memspace)
    × (disassembled.sr ≡ booted.sr)
    × (disassembled.regs 0 ≡ booted.regs 0)
disassemble_lem_example = disassemble_lem 0xC000 1 booted disassembled disassembled-ok

abbrev pub watching : Debugger
watching = record setup_debugger { bp_addresses = update (λ i. 0) 1 0xC000; num_bps = 2 }

abbrev halted : Machine
halted = state booted (handle_breakpoints watching booted)

halted-ok : handle_breakpoints watching booted ≡ ok (some 2, halted)
unfolding handle_breakpoints breakpoints_from hit disassemble decode_range decode decode_format_i
    asm_operands source_text hex leading four_digits reg_num_to_name operands as1_ad0 clear_upper
    fields constant run_constant_generator load16 load8 load store16 store8 store fetch get_reg_ptr
halted-ok = refl

handle_breakpoints_lem_example : Checked watching booted 0 2 (some 2) halted
handle_breakpoints_lem_example = handle_breakpoints_lem watching booted (some 2) halted halted-ok
