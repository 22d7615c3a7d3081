-- ===== src/Tests/Machines.antt =====
-- A machine at power-up with an instruction in its flash memory, for the tests.
use msp430_emulator.Base.{ℕ, ◌<◌, ◌^◌, false, update, arith}
use msp430_emulator.Machine.{Machine, reg}
use msp430_emulator.Machine.Init.{
  initialize_msp_memspace, initialize_msp_memspace-lt, initialize_msp_registers, allocated,
  initialize_msp_registers-IsWellFormed,
}
use msp430_emulator.Machine.Store.{IsWellFormed, put16-IsWellFormed}
use msp430_emulator.Machine.{put16}

-- ADD #1, R5 at the first address of the flash memory.
abbrev pub program : ℕ → ℕ
program = update (update initialize_msp_memspace 0xC000 0x15) 0xC001 0x53

pub program-lt : (a : ℕ) → program a < 2 ^ 8
program-lt a = ground (arith, initialize_msp_memspace-lt a)

abbrev pub booted : Machine
booted = initialize_msp_registers (allocated program false)

pub booted-IsWellFormed : IsWellFormed booted
booted-IsWellFormed = initialize_msp_registers-IsWellFormed program false program-lt

-- The same with a value in R5.
abbrev pub with_r5 : ℕ → Machine
with_r5 v = put16 booted (reg 5) v

pub with_r5-IsWellFormed : (v : ℕ) → v < 2 ^ 16 → IsWellFormed (with_r5 v)
with_r5-IsWellFormed v h = put16-IsWellFormed booted (reg 5) v h booted-IsWellFormed
