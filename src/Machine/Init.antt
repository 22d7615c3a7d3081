-- ===== src/Machine/Init.antt =====
-- The machine at power-up: `initialize_msp_memspace` of devices/memory/memspace.c and
-- `initialize_msp_registers` of devices/cpu/registers.c.
use msp430_emulator.Base.{
  ℕ, ◌+◌, ◌<◌, ◌^◌, ◌≡◌, Bool, false, ◌==◌, ltb, leb, ◌&&◌, update, arith, refl, if◌then◌else◌,
}
use msp430_emulator.Status.{cleared}
use msp430_emulator.Machine.{Machine, get16, cell}
use msp430_emulator.Machine.Store.{IsWellFormed}

-- `memset(MEMSPACE + first, c, size)`
abbrev pub memset : ℕ → ℕ → ℕ → (ℕ → ℕ) → ℕ → ℕ
memset first c size m a = if leb first a && ltb a (first + size) then c else m a

-- The stores of the calibration data, in the order of the code.
abbrev pub calibrate : (ℕ → ℕ) → ℕ → ℕ
calibrate m =
    let m16 = update (update m 0x10F8 0x95) 0x10F9 0x8F in
    let m12 = update (update m16 0x10FA 0x9E) 0x10FB 0x8E in
    let m8 = update (update m12 0x10FC 0x92) 0x10FD 0x8D in
    update (update m8 0x10FE 0xD1) 0x10FF 0x86

abbrev pub initialize_msp_memspace : ℕ → ℕ
initialize_msp_memspace = calibrate (memset 0xC000 0xFF 16384 (memset 0x1000 0xFF 256 (λ a. 0)))

-- The registers, given the memory, the mode of the debugger and the static variables of the
-- decoders, which the function leaves alone.
abbrev pub initialize_msp_registers : Machine → Machine
initialize_msp_registers s = record s {
  running = false;
  regs = λ n. if n == 2 then s.regs 2 else if n == 0 then 0xC000 else if n == 1 then 0x400 else 0;
  sr = cleared;
}

-- The cleared memory of `calloc` behind the registers, with the static variables at zero.
abbrev pub allocated : (ℕ → ℕ) → Bool → Machine
allocated memspace debug_mode = record {
  running = false;
  debug_mode = debug_mode;
  regs = λ n. 0;
  sr = cleared;
  memspace = memspace;
  bogus_reg = 0;
}

pub initialize_msp_memspace-lt : (a : ℕ) → initialize_msp_memspace a < 2 ^ 8
initialize_msp_memspace-lt a = ground arith

-- The registers are set up well formed over every memory of bytes.
pub initialize_msp_registers-IsWellFormed :
    (memspace : ℕ → ℕ) (d : Bool)
    → ((a : ℕ) → memspace a < 2 ^ 8)
    → IsWellFormed (initialize_msp_registers (allocated memspace d))
initialize_msp_registers-IsWellFormed memspace d fit = record {
  regs_fit = λ n. ground arith;
  bytes_fit = fit;
  bogus_fits = omega arith;
  reserved_fits = omega arith;
}

-- The calibration data that the firmware reads for 16, 12, 8 and 1 MHz, as words with DCOCTL low.
pub calibration_words :
    (s : Machine)
    → let t = record s { memspace = initialize_msp_memspace } in
      (get16 t (cell 0x10F8) ≡ 0x8F95)
      × (get16 t (cell 0x10FA) ≡ 0x8E9E)
      × (get16 t (cell 0x10FC) ≡ 0x8D92)
      × (get16 t (cell 0x10FE) ≡ 0x86D1)
calibration_words s = (refl, refl, refl, refl)
