-- ===== src/Tests/Shifts.antt =====
-- The rotations and shifts of format II on R5.
use msp430_emulator.Base.{ℕ, ◌≡◌, true, not, ◌==◌, arith}
use msp430_emulator.Base.Int.{pos, negsuc, signed16, ◌+ℤ◌}
use msp430_emulator.Machine.{Machine, word, ok, reg, get16}
use msp430_emulator.Format2.Alu.{rrc, rra, sxt, swpb}
use msp430_emulator.Format2.Alu.Steps.{IsShifted}
use msp430_emulator.Format2.Alu.Words.{shifts_word}
use msp430_emulator.Tests.Machines.{with_r5, with_r5-IsWellFormed}

-- -3 for the shift; its low byte is -3 too.
shifts_word_example :
    ((t : Machine) × (rrc word (reg 5) (with_r5 0xFFFD) ≡ ok (tt, t))
      × IsShifted (with_r5 0xFFFD) (reg 5) 0x7FFE true t)
    × ((r : ℕ) × (t : Machine) × (rra word (reg 5) (with_r5 0xFFFD) ≡ ok (tt, t))
        × IsShifted (with_r5 0xFFFD) (reg 5) r true t
        × (negsuc 2 ≡ signed16 r +ℤ signed16 r +ℤ pos 1))
    × ((r : ℕ) × (t : Machine) × (sxt (reg 5) (with_r5 0xFFFD) ≡ ok (tt, t))
        × IsShifted (with_r5 0xFFFD) (reg 5) r (not (r == 0)) t
        × (signed16 r ≡ negsuc 2))
    × ((t : Machine) × (swpb (reg 5) (with_r5 0xFFFD) ≡ ok (tt, t))
        × (get16 t (reg 5) ≡ 0xFDFF)
        × (swpb (reg 5) t ≡ ok (tt, with_r5 0xFFFD)))
shifts_word_example =
    shifts_word (reg 5) (with_r5 0xFFFD) (with_r5-IsWellFormed 0xFFFD (omega arith)) tt
