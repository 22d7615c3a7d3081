-- ===== src/Names.antt =====
-- `reg_name_to_num` and `reg_num_to_name` of devices/utilities.c.
pub mod RoundTrip
use msp430_emulator.Base.{
  ℕ, Bool, Option, none, some, List, ◌==◌, ◌||◌, bytes, is_text, if◌then◌else◌,
}

-- -1 for a name of no register is `none`.
unfoldable pub reg_name_to_num : List ℕ → Option ℕ
reg_name_to_num name =
    if is_text "%r0" name || is_text "r0" name || is_text "%pc" name || is_text "pc" name
    then some 0
    else if is_text "%r1" name || is_text "r1" name || is_text "%sp" name || is_text "sp" name
    then some 1
    else if is_text "%r2" name || is_text "r2" name || is_text "%sr" name || is_text "sr" name
    then some 2
    else if is_text "%r3" name || is_text "r3" name || is_text "%cg2" name || is_text "cg2" name
    then some 3
    else if is_text "%r4" name || is_text "r4" name
    then some 4
    else if is_text "%r5" name || is_text "r5" name
    then some 5
    else if is_text "%r6" name || is_text "r6" name
    then some 6
    else if is_text "%r7" name || is_text "r7" name
    then some 7
    else if is_text "%r8" name || is_text "r8" name
    then some 8
    else if is_text "%r9" name || is_text "r9" name
    then some 9
    else if is_text "%r10" name || is_text "r10" name
    then some 10
    else if is_text "%r11" name || is_text "r11" name
    then some 11
    else if is_text "%r12" name || is_text "r12" name
    then some 12
    else if is_text "%r13" name || is_text "r13" name
    then some 13
    else if is_text "%r14" name || is_text "r14" name
    then some 14
    else if is_text "%r15" name || is_text "r15" name
    then some 15
    else none

unfoldable pub reg_num_to_name : ℕ → List ℕ
reg_num_to_name number =
    if number == 0
    then bytes "PC"
    else if number == 1
    then bytes "SP"
    else if number == 2
    then bytes "SR"
    else if number == 3
    then bytes "R3"
    else if number == 4
    then bytes "R4"
    else if number == 5
    then bytes "R5"
    else if number == 6
    then bytes "R6"
    else if number == 7
    then bytes "R7"
    else if number == 8
    then bytes "R8"
    else if number == 9
    then bytes "R9"
    else if number == 10
    then bytes "R10"
    else if number == 11
    then bytes "R11"
    else if number == 12
    then bytes "R12"
    else if number == 13
    then bytes "R13"
    else if number == 14
    then bytes "R14"
    else if number == 15
    then bytes "R15"
    else bytes "???"
