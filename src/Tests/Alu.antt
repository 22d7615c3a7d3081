-- ===== src/Tests/Alu.antt =====
-- The arithmetic of format I on R5, and calls and returns.
use msp430_emulator.Base.{
  ℕ, ◌≡◌, ◌↔◌, true, false, refl, arith, some, update, ◌+◌, ◌||◌, ◌==◌, if◌then◌else◌,
}
use msp430_emulator.Base.Int.{pos, negsuc, ◌+ℤ◌, ◌-ℤ◌}
use msp430_emulator.Status.{StatusReg}
use msp430_emulator.Machine.{Machine, word, ok, reg, cell, get16}
use msp430_emulator.Format1.{decode_format_i}
use msp430_emulator.Format1.Alu.{add, addc, sub, cmp}
use msp430_emulator.Format1.Alu.Words.{
  IsResult, add_word, addc_word, sub_word, sub_word_overflow, cmp_word, cmp-jumps,
}
use msp430_emulator.Format2.Alu.{push, call}
use msp430_emulator.Format2.Alu.Stack.{push_word, call-ret, pushed, ret}
use msp430_emulator.Format3.{jumps}
use msp430_emulator.Tests.Machines.{booted, with_r5, with_r5-IsWellFormed}

-- 7 + 5.
add_word_example :
    (t : Machine) × (add word 5 (reg 5) (with_r5 7) ≡ ok (tt, t))
    × IsResult (with_r5 7) (reg 5) 12 false t
    × ((t.sr.overflow ≡ false) ↔ (pos 12 ≡ pos 7 +ℤ pos 5))
add_word_example =
    add_word 5 (reg 5) (with_r5 7) (with_r5-IsWellFormed 7 (omega arith)) tt (omega arith)

addc_word_example :
    (t : Machine) × (addc word 5 (reg 5) (with_r5 7) ≡ ok (tt, t))
    × IsResult (with_r5 7) (reg 5) 12 false t
    × ((t.sr.overflow ≡ false) ↔ (pos 12 ≡ pos 7 +ℤ pos 5 +ℤ pos 0))
addc_word_example =
    addc_word 5 (reg 5) (with_r5 7) (with_r5-IsWellFormed 7 (omega arith)) tt (omega arith)

-- 5 - 7: the carry flag is set where the arithmetic borrows.
sub_word_example :
    (t : Machine) × (sub word 7 (reg 5) (with_r5 5) ≡ ok (tt, t))
    × IsResult (with_r5 5) (reg 5) 0xFFFE true t
sub_word_example =
    sub_word 7 (reg 5) (with_r5 5) (with_r5-IsWellFormed 5 (omega arith)) tt (omega arith)

sub_word_overflow_example :
    (t : Machine) × (sub word 7 (reg 5) (with_r5 5) ≡ ok (tt, t))
    × ((t.sr.overflow ≡ false) ↔ (negsuc 1 ≡ pos 5 -ℤ pos 7))
sub_word_overflow_example =
    sub_word_overflow 7 (reg 5) (with_r5 5) (with_r5-IsWellFormed 5 (omega arith)) tt (omega arith)
      (omega arith)

-- A negative destination below the source as unsigned numbers: the carry flag is set.
cmp_word_example :
    (f : StatusReg) × (cmp word 0xFFFF (reg 5) (with_r5 0x8000)
      ≡ ok (tt, record (with_r5 0x8000) { sr = f }))
    × (f.zero ≡ false)
    × (f.carry ≡ true)
cmp_word_example =
    cmp_word 0xFFFF (reg 5) (with_r5 0x8000) (with_r5-IsWellFormed 0x8000 (omega arith)) tt
      (omega arith)

-- -1 against 3.
cmp-jumps_example :
    (f : StatusReg) × (cmp word 3 (reg 5) (with_r5 0xFFFF)
      ≡ ok (tt, record (with_r5 0xFFFF) { sr = f }))
    × (jumps 6 f ≡ true)
    × (jumps 5 f ≡ false)
    × (jumps 1 f ≡ false)
    × (jumps 0 f ≡ true)
cmp-jumps_example =
    cmp-jumps 3 (reg 5) (with_r5 0xFFFF) (with_r5-IsWellFormed 0xFFFF (omega arith)) tt
      (omega arith) (omega arith)

push_word_example :
    (t : Machine) × (push word (some 0x1234) booted ≡ ok (tt, t))
    × (t.regs ≡ update booted.regs 1 0x3FE)
    × (get16 t (cell (t.regs 1)) ≡ 0x1234)
    × ((a : ℕ)
        → t.memspace a
          ≡ (if a == t.regs 1 || a == t.regs 1 + 1 then t.memspace a else booted.memspace a))
    × (t.sr ≡ booted.sr)
push_word_example = push_word booted 0x1234 (omega arith)

call-ret_example :
    (t v : Machine) × (call (reg 5) (with_r5 0xC100) ≡ ok (tt, t))
    × (t.regs 0 ≡ 0xC100)
    × (t.regs 1 ≡ 0x3FE)
    × (get16 t (cell 0x3FE) ≡ 0xC000)
    × (decode_format_i ret false (pushed (with_r5 0xC100) 0xC000) ≡ ok (tt, v))
    × (v.regs 0 ≡ 0xC000)
    × (v.regs 1 ≡ 0x400)
call-ret_example =
    call-ret (with_r5 0xC100) (pushed (with_r5 0xC100) 0xC000) 5
      (with_r5-IsWellFormed 0xC100 (omega arith)) (omega arith) refl refl
