-- ===== src/Tests/Run.antt =====
-- The step from power-up, and what is kept along it.
use msp430_emulator.Base.{◌≡◌, refl, update}
use msp430_emulator.Machine.{Machine, ok}
use msp430_emulator.Machine.Store.{IsWellFormed}
use msp430_emulator.Machine.Keeps.{modes}
use msp430_emulator.Machine.{load16, load8, load, store16, store8, store, fetch, get_reg_ptr}
use msp430_emulator.Decoder.{step, decode}
use msp430_emulator.Decoder.Kept.{step_lem}
use msp430_emulator.Base.Hex.{hex, leading, four_digits}
use msp430_emulator.Listing.TwoOperands.{asm_operands, source_text}
use msp430_emulator.Names.{reg_num_to_name}
use msp430_emulator.Format1.{decode_format_i}
use msp430_emulator.Format1.Operands.{operands, as1_ad0, clear_upper}
use msp430_emulator.Format1.Fields.{fields}
use msp430_emulator.Format1.Alu.{execute, add, set_flags}
use msp430_emulator.Flags.{is_zero, is_negative, is_carried, is_overflowed}
use msp430_emulator.Constant.{constant, run_constant_generator}
use msp430_emulator.Tests.Machines.{booted, booted-IsWellFormed}

-- After ADD #1, R5.
abbrev next : Machine
next = record booted { regs = update (update booted.regs 0 0xC002) 5 1 }

step-booted : step booted ≡ ok (tt, next)
unfolding step decode decode_format_i asm_operands source_text hex leading four_digits
    reg_num_to_name operands as1_ad0 clear_upper fields execute add set_flags is_zero is_negative
    is_carried is_overflowed constant run_constant_generator load16 load8 load store16 store8 store
    fetch get_reg_ptr
step-booted = refl

step_lem_example : IsWellFormed next × (modes next.sr ≡ modes booted.sr)
step_lem_example = step_lem booted next booted-IsWellFormed step-booted
