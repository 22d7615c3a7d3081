-- ===== src/Display.antt =====
-- How the registers are shown: `update_register_display` of devices/cpu/registers.c, for the web
-- interface, and `display_registers` of debugger/register_display.c, for the console.
pub mod Shown
use msp430_emulator.Base.{
  ℕ, zero, suc, ◌+◌, Bool, true, false, Option, some, List, [], ◌∷◌, ◌++◌, bytes, ◌==◌, ◌||◌,
  to_bit, concat, if◌then◌else◌,
}
use msp430_emulator.Base.Hex.{hex}
use msp430_emulator.Status.{StatusReg, sr_to_value}
use msp430_emulator.Machine.{Machine}
use msp430_emulator.PacketQueue.{Packet}
use msp430_emulator.Web.Control.{send_control}

abbrev pub update_reg_r0_packet : ℕ
update_reg_r0_packet = 0x10

abbrev pub update_all_regs_packet : ℕ
update_all_regs_packet = 0x20

-- The value that is shown for a register: `sr_to_value(emu)` for R2.
unfoldable pub shown_value : Machine → ℕ → ℕ
shown_value s n = if n == 2 then sr_to_value s.sr else s.regs n

-- `sprintf(thing, "%04X", …); send_control(emu, UPDATE_REG_R…_PACKET, thing, strlen(thing));`
unfoldable pub register_packet : Machine → ℕ → Packet
register_packet s n = send_control (update_reg_r0_packet + n) (some (hex (shown_value s n)))

-- The packets for `left` registers from `n` on.
unfoldable pub register_packets : Machine → ℕ → ℕ → List Packet
register_packets s n zero = []
register_packets s n (suc left) = register_packet s n ∷ register_packets s (n + 1) left

unfoldable pub update_register_display : Machine → List Packet
update_register_display s =
    if s.running
    then send_control update_all_regs_packet (some (bytes "....")) ∷ []
    else register_packets s 0 16

-- The colours of `display_registers`, which are empty texts without the console.
abbrev colour : Bool → List ℕ → List ℕ
colour true code = 0x1B ∷ code
colour false code = []

abbrev red : Bool → List ℕ
red console = colour console (bytes "[31;1m")

abbrev green : Bool → List ℕ
green console = colour console (bytes "[32;1m")

abbrev cyan : Bool → List ℕ
cyan console = colour console (bytes "[36;1m")

abbrev blue : Bool → List ℕ
blue console = colour console (bytes "[34;1m")

abbrev white : Bool → List ℕ
white console = colour console (bytes "[37;1m")

-- `"V\x1b[0m"` and `"\x1b[36;1mN\x1b[0m"`
abbrev reset_colour : Bool → List ℕ
reset_colour console = colour console (bytes "[0m")

abbrev v_flag : Bool → List ℕ
v_flag console = bytes "V" ++ reset_colour console

abbrev other_flag : Bool → List ℕ → List ℕ
other_flag console letter = cyan console ++ (letter ++ reset_colour console)

-- `"%s%s%s:   %s%04X  "`, with the gap that stands behind the colon.
unfoldable pub special_entry : Bool → List ℕ → List ℕ → ℕ → List ℕ
special_entry console name gap v =
    concat (
      red console
      ∷ name
      ∷ green console
      ∷ bytes ":"
      ∷ gap
      ∷ white console
      ∷ hex v
      ∷ bytes "  "
      ∷ [])

-- `"%s%%%s%s%s:  %s%04X  "`
unfoldable pub register_entry : Bool → List ℕ → List ℕ → ℕ → List ℕ
register_entry console name gap v = concat (
    green console
    ∷ bytes "%"
    ∷ blue console
    ∷ name
    ∷ green console
    ∷ bytes ":"
    ∷ gap
    ∷ white console
    ∷ hex v
    ∷ bytes "  "
    ∷ [])

-- `"%s%s%s: %s%d\n"`
unfoldable pub flag_entry : Bool → List ℕ → Bool → List ℕ
flag_entry console name flag = concat (
    cyan console
    ∷ name
    ∷ green console
    ∷ bytes ": "
    ∷ white console
    ∷ ((b'0' + to_bit flag) ∷ [])
    ∷ bytes "\n"
    ∷ [])

unfoldable pub special_row : Bool → Machine → List ℕ
special_row console s = concat (
    special_entry console (bytes "PC") (bytes "   ") (s.regs 0)
    ∷ special_entry console (bytes "SP") (bytes "   ") (s.regs 1)
    ∷ special_entry console (bytes "SR") (bytes "   ") (sr_to_value s.sr)
    ∷ special_entry console (bytes "CG2") (bytes "  ") (s.regs 3)
    ∷ flag_entry console (other_flag console (bytes "C")) s.sr.carry
    ∷ [])

-- Four registers with their names, and a flag.
abbrev row : Bool → (ℕ → List ℕ) → (ℕ → List ℕ) → Machine → ℕ → List ℕ → List ℕ
row console name gap s n flag = concat (
    register_entry console (name n) (gap n) (s.regs n)
    ∷ register_entry console (name (n + 1)) (gap (n + 1)) (s.regs (n + 1))
    ∷ register_entry console (name (n + 2)) (gap (n + 2)) (s.regs (n + 2))
    ∷ register_entry console (name (n + 3)) (gap (n + 3)) (s.regs (n + 3))
    ∷ flag
    ∷ [])

abbrev name_of : ℕ → List ℕ
name_of n =
    if n == 4
    then bytes "R4"
    else if n == 5
    then bytes "R5"
    else if n == 6
    then bytes "R6"
    else if n == 7
    then bytes "R7"
    else if n == 8
    then bytes "R8"
    else if n == 9
    then bytes "R9"
    else if n == 10
    then bytes "R10"
    else if n == 11
    then bytes "R11"
    else if n == 12
    then bytes "R12"
    else if n == 13
    then bytes "R13"
    else if n == 14
    then bytes "R14"
    else bytes "R15"

abbrev gap_of : ℕ → List ℕ
gap_of n =
    if n == 4 || n == 5 || n == 6 || n == 7 || n == 8 || n == 9 then bytes "  " else bytes " "

-- `full`, the text of `display_registers`.
unfoldable pub display_registers : Bool → Machine → List ℕ
display_registers console s = concat (
    bytes "\n"
    ∷ special_row console s
    ∷ row console name_of gap_of s 4 (flag_entry console (other_flag console (bytes "Z")) s.sr.zero)
    ∷ row console name_of gap_of s 8
        (flag_entry console (other_flag console (bytes "N")) s.sr.negative)
    ∷ row console name_of gap_of s 12 (flag_entry console (v_flag console) s.sr.overflow)
    ∷ bytes "\n"
    ∷ [])
