-- ===== src/Commands.antt =====
-- `exec_cmd` of debugger/debugger.c: the commands of the console. `sscanf` and `strtol` are
-- parameters. The texts that commands print are left out, and so is what the stores of 32 bits to
-- 16-bit locals make of the variables behind them; where such a store goes to the table of
-- breakpoints it is modelled.
pub mod Bounds
use msp430_emulator.Base.{
  ℕ, zero, suc, ◌+◌, ◌/◌, ◌%◌, ◌^◌, Bool, true, false, Option, none, some, List, [], ◌∷◌, length,
  ltb, leb, ◌==◌, ◌&&◌, ◌||◌, bytes, is_text, u8, u16, update, if◌then◌else◌,
}
use msp430_emulator.Status.{set_sr_value}
use msp430_emulator.Machine.{
  Machine, M, Result, ok, fault, Fault, get, put, pure, fail, load16, store16, get_reg_ptr,
  get_addr_ptr, ◌>>=◌, ◌>>◌,
}
use msp430_emulator.Names.{reg_name_to_num}
use msp430_emulator.Disassembler.{disassemble, set_pc}
use msp430_emulator.Debugger.{Debugger, max_breakpoints}
use msp430_emulator.TimerA.{Doubles}
use msp430_emulator.Emulator.{Emulator, step_all}

-- What the conversions of C read from a line: the number of fields, and their values, which are
-- the initial ones for a field that is not there.
pub record Scanner : Type 0 where
  -- `"%s %u %u"`, the text and the first number
  pub command : List ℕ → ℕ × List ℕ × ℕ
  -- `"%s %u %X"`, both numbers
  pub listing : List ℕ → ℕ × ℕ × ℕ
  -- `"%s %X"`, the number
  pub address : List ℕ → ℕ × ℕ
  -- `"%s %s"`, the second text
  pub place : List ℕ → List ℕ
  -- `"%X"`
  pub hex : List ℕ → ℕ
  -- `"%s %s %X"`, the second text and the number
  pub assignment : List ℕ → List ℕ × ℕ
  -- `strtol(s, NULL, 0)` as `uint16_t`
  pub strtol : List ℕ → ℕ

-- `%s` of `sscanf` into an array of `size` characters, one of them for the end of the text.
abbrev pub scan_text : ℕ → List ℕ → M (Unit {0}) → M (Unit {0})
scan_text size text rest = if ltb (length text) size then rest else fail Fault.out_of_bounds

-- `disassemble(emu, cpu->pc, 1)`
unfoldable pub disassemble_here : M (Unit {0})
disassemble_here = do s ← get; disassemble (s.regs 0) 1

-- `get_reg_ptr(emu, reg_name_to_num(name))`, where -1 becomes the 255 of an `uint8_t`.
abbrev pub number_or_255 : Option ℕ → ℕ
number_or_255 none = 255
number_or_255 (some n) = n

unfoldable pub reset : M (Unit {0})
reset = do set_pc 0xC000; disassemble_here

-- The bytes that `dump_memory` prints, from `start_addr` on.
unfoldable pub dump_memory : ℕ → M (Unit {0})
dump_memory start_addr = if leb (start_addr + 32) 0x10000 then pure tt else fail Fault.out_of_bounds

unfoldable pub dump_register : List ℕ → M (Unit {0})
dump_register name = do
  p ← get_reg_ptr (number_or_255 (reg_name_to_num name))
  start_addr ← load16 p
  dump_memory start_addr

-- The first character of the operand decides between an address, a register and the default.
unfoldable pub dump : (List ℕ → ℕ) → List ℕ → M (Unit {0})
dump hex [] = do s ← get; dump_memory (s.regs 0)
dump hex (c ∷ str) =
    if leb b'0' c && leb c b'9'
    then dump_memory (u16 (hex (c ∷ str)))
    else if c == b'%' || c == b'r' || c == b'R'
    then dump_register (c ∷ str)
    else (λ s. dump_memory (s.regs 0) s)

abbrev pub store_register : ℕ → ℕ → M (Unit {0})
store_register number value = do p ← get_reg_ptr number; store16 p value

abbrev pub assign_register : ℕ → ℕ → M (Unit {0})
assign_register number value =
    if number == 2
    then (λ s. ok (tt, record s { sr = set_sr_value value }))
    else store_register number value

-- `set` of a register.
unfoldable pub set_register : ℕ → ℕ → M (Unit {0})
set_register number value = do assign_register number value; disassemble_here

-- `set` of a register, or of a word of the memory for what is no name of a register.
unfoldable pub set : (List ℕ → ℕ) → List ℕ → ℕ → M (Unit {0})
set strtol place value = elim (reg_name_to_num place) [
  | some number ↦ set_register number value
  | none ↦ store16 (get_addr_ptr (strtol place)) value
]

-- `disas`: the number of instructions is cut to a `uint8_t`, where `disassemble` takes it.
unfoldable pub list_instructions : ℕ × ℕ × ℕ → M (Unit {0})
list_instructions (ops, count, start) s =
    let start_addr = if ops == 3 then u16 start else s.regs 0 in
    let num = if ops == 2 || ops == 3 then count else 10 in disassemble start_addr (u8 num) s

-- The store of 32 bits at `bp_addresses[num_bps]`, the upper half of which goes to the next entry,
-- or to `current_bp` behind the last one, and the count.
unfoldable pub add_breakpoint : ℕ → Debugger → Debugger
add_breakpoint value deb =
    let low = update deb.bp_addresses deb.num_bps (value % 2 ^ 16) in
    let high = value / 2 ^ 16 % 2 ^ 16 in
    if ltb (deb.num_bps + 1) max_breakpoints
    then record deb { bp_addresses = update low (deb.num_bps + 1) high; num_bps = deb.num_bps + 1 }
    else record deb { bp_addresses = low; current_bp = high; num_bps = deb.num_bps + 1 }

-- `break`
unfoldable pub set_breakpoint : ℕ × ℕ → Debugger → Debugger
set_breakpoint (ops, value) deb =
    if leb max_breakpoints deb.num_bps
    then deb
    else if ops == 2
    then add_breakpoint value deb
    else deb

-- `bps`: `current_bp` runs to `num_bps`.
unfoldable pub list_breakpoints : Debugger → Debugger
list_breakpoints deb =
    if ltb 0 deb.num_bps then record deb { current_bp = u16 deb.num_bps } else deb

module _ {D : Type 0} where
  abbrev pub with_machine : Emulator D → Result (Unit {0} × Machine) → Result (Emulator D)
  with_machine e (ok done) = ok (record e { machine = done.1 })
  with_machine e (fault f) = fault f

  abbrev pub on_machine : M (Unit {0}) → Emulator D → Result (Emulator D)
  on_machine m e = with_machine e (m e.machine)

  abbrev pub then_do :
      Result (Emulator D) → (Emulator D → Result (Emulator D)) → Result (Emulator D)
  then_do (ok e) k = k e
  then_do (fault f) k = fault f

  abbrev pub on_debugger : (Debugger → Debugger) → Emulator D → Result (Emulator D)
  on_debugger f e = ok (record e { debugger = f e.debugger })

  module _ (ratio : ℕ → ℕ → ℕ) (d : Doubles D) where
    -- The loop of `step`.
    unfoldable pub step_times : ℕ → Emulator D → Result (Emulator D)
    step_times zero e = ok e
    step_times (suc steps) e = then_do (step_all ratio d e) (step_times steps)

    unfoldable pub step_command : ℕ × List ℕ × ℕ → Emulator D → Result (Emulator D)
    step_command (ops, cmd, op1) e =
        then_do (step_times (if ops == 2 then op1 else 1) e) (on_machine disassemble_here)

    -- The texts of `sscanf` go to `cmd` and `bogus1` of 100 characters, `str` of 100 and
    -- `reg_name_or_addr` of 50.
    unfoldable pub exec_cmd : Scanner → List ℕ → Emulator D → Result (Emulator D)
    exec_cmd scan line e =
        let scanned = scan.command line in
        let cmd = scanned.1 in
        if leb 100 (length cmd)
        then fault Fault.out_of_bounds
        else if is_text "reset" cmd || is_text "restart" cmd
        then on_machine reset e
        else if is_text "s" cmd || is_text "step" cmd
        then step_command scanned e
        else if is_text "quit" cmd || is_text "q" cmd
        then on_debugger (λ deb. record deb { quit = true }) e
        else if is_text "run" cmd || is_text "r" cmd
        then ok (record e { machine = record (e.machine) { running = true; debug_mode = false } })
        else if is_text "disas" cmd || is_text "dis" cmd || is_text "disassemble" cmd
        then on_machine (list_instructions (scan.listing line)) e
        else if is_text "dump" cmd
        then on_machine (scan_text 100 (scan.place line) (dump scan.hex (scan.place line))) e
        else if is_text "set" cmd
        then on_machine
            (scan_text 50 (scan.assignment line).0
              (set scan.strtol (scan.assignment line).0 (u16 (scan.assignment line).1)))
            e
        else if is_text "break" cmd
        then on_debugger (set_breakpoint (scan.address line)) e
        else if is_text "bps" cmd
        then on_debugger list_breakpoints e
        else if is_text "regs" cmd
        then on_machine disassemble_here e
        else ok e
