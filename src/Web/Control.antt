-- ===== src/Web/Control.antt =====
-- `send_control`, `print_serial` and `print_console` of debugger/websockets/emu_server.cpp: the
-- packets that they queue.
use msp430_emulator.Base.{ℕ, ◌+◌, u8, Option, none, some, List, [], ◌∷◌, ◌++◌, length}
use msp430_emulator.PacketQueue.{Packet}

-- Without data the opcode alone; with data the opcode, the low byte of the number of bytes, and
-- the bytes.
unfoldable pub send_control : ℕ → Option (List ℕ) → Packet
send_control code none = record { message = code ∷ []; length = 1; opcode = 0x00 }
send_control code (some bytes) = record {
  message = code ∷ u8 (length bytes) ∷ bytes;
  length = 1 + 1 + length bytes;
  opcode = 0x00;
}

-- A C text is the bytes before its terminator.
unfoldable pub print_serial : List ℕ → Packet
print_serial buf = record { message = buf ++ (0 ∷ []); length = length buf + 1; opcode = 0x02 }

unfoldable pub print_console : List ℕ → Packet
print_console buf = record { message = buf ++ (0 ∷ []); length = length buf + 1; opcode = 0x01 }
