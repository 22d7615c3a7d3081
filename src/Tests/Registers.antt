-- ===== src/Tests/Registers.antt =====
-- Names of registers.
use msp430_emulator.Base.{◌≡◌, some, bytes, arith, refl}
use msp430_emulator.Names.{reg_name_to_num, reg_num_to_name}
use msp430_emulator.Names.RoundTrip.{reg_name_to_num-reg_num_to_name}

reg_name_to_num-reg_num_to_name_example : reg_name_to_num (bytes "pC") ≡ some 0
unfolding reg_num_to_name
reg_name_to_num-reg_num_to_name_example =
    reg_name_to_num-reg_num_to_name 0 (bytes "pC") (omega arith) refl
