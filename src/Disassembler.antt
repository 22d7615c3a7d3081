-- ===== src/Disassembler.antt =====
-- `disassemble` of debugger/disassembler.c on the processor: the decoder runs over instructions
-- without executing them, and the program counter is restored. The text is in Listing; the
-- flag `disassemble_mode`, which nothing else reads, is not modelled.
pub mod Frame
use msp430_emulator.Base.{ℕ, zero, suc, true, update}
use msp430_emulator.Machine.{M, fetch, get, put, pure, ◌>>=◌, ◌>>◌}
use msp430_emulator.Decoder.{decode}

-- `for (i = 0; i < times; i++) { opcode = fetch(emu); decode(emu, opcode, DISASSEMBLE); }`
unfoldable pub decode_range : ℕ → M (Unit {0})
decode_range zero = pure tt
decode_range (suc times) = do opcode ← fetch; decode opcode true; decode_range times

-- `cpu->pc = v`
abbrev pub set_pc : ℕ → M (Unit {0})
set_pc v = do s ← get; put (record s { regs = update s.regs 0 v })

-- `times` is a `uint8_t`.
unfoldable pub disassemble : ℕ → ℕ → M (Unit {0})
disassemble start_addr times = do s ← get; set_pc start_addr; decode_range times; set_pc (s.regs 0)
