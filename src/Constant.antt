-- ===== src/Constant.antt =====
-- `run_constant_generator` of devices/cpu/decoder.c, and the test before its calls.
use msp430_emulator.Base.{ℕ, Option, none, some, ltb, ◌==◌, ◌&&◌, ◌||◌, if◌then◌else◌}

-- The constants of R2 and R3, -1 as its 16-bit pattern; 0 where a message is printed.
unfoldable pub run_constant_generator : ℕ → ℕ → ℕ
run_constant_generator source as_flag =
    if source == 2
    then (if as_flag == 2 then 4 else if as_flag == 3 then 8 else 0)
    else if source == 3
    then (if as_flag == 0
        then 0
        else if as_flag == 1
        then 1
        else if as_flag == 2
        then 2
        else if as_flag == 3
        then 65535
        else 0)
    else 0

-- `constant_generator_active`, with `immediate_constant` where it is set.
unfoldable pub constant : ℕ → ℕ → Option ℕ
constant source as_flag =
    if (source == 2 && ltb 1 as_flag) || source == 3
    then some (run_constant_generator source as_flag)
    else none
