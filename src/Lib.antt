-- ===== src/Lib.antt =====
-- The MSP430 emulator. The processor is a function on an explicit machine state; the peripherals
-- are functions on the memory and on what they keep of their own.
--
-- The emulator (main.cpp) allocates a processor with 64 KiB of memory, and then alternates one
-- step of the processor, `decode(emu, fetch(emu), EXECUTE)`, with passes over the peripherals,
-- which mirror registers that are mapped into the memory. Output for the web interface goes
-- through a queue of packets to the thread of the server. The decoder chooses one of three
-- instruction formats by the upper bits; each computes pointers to its operands and changes what
-- is behind them and the flags.
--
-- Files, and the code that they are about:
--   Status        devices/cpu/registers.c and .h: `Status_reg`, `set_sr_value`, `sr_to_value`
--   Machine       devices/cpu/registers.h, devices/utilities.c: `Cpu`, the memory, `get_addr_ptr`,
--                 `get_stack_ptr`, `get_reg_ptr`; devices/cpu/decoder.c: `fetch`. Machine/Init is
--                 `initialize_msp_registers` and `initialize_msp_memspace`
--   Flags         devices/cpu/flag_handler.c: `is_zero`, `is_negative`, `is_carried`,
--                 `is_overflowed`
--   Constant      devices/cpu/decoder.c: `run_constant_generator`
--   Format1       devices/cpu/formatI.c: Fields, Operands (the addressing modes), Alu (the
--                 `switch` over the operations)
--   Format2       devices/cpu/formatII.c, in the same parts
--   Format3       devices/cpu/formatIII.c: the jumps
--   Decoder       devices/cpu/decoder.c: `decode`; Decoder/Run is what the loop of `main` makes of
--                 it
--   Port1         devices/peripherals/port1.c: `handle_port_1`, `setup_port_1`
--   Bcm           devices/peripherals/bcm.c: `handle_bcm`, `setup_bcm`; the division of doubles is a
--                 parameter. Bcm/Waits has `mclk_wait_cycles` and `smclk_wait_cycles`,
--                 with the readings of the clock as a parameter; their rounds are bounded
--   Usci          devices/peripherals/usci.c: `handle_usci`, `setup_usci`
--   TimerA        devices/peripherals/timer_a.c: `handle_timer_a`, `setup_timer_a`; the arithmetic
--                 of doubles is a parameter
--   PacketQueue   debugger/websockets/packet_queue.c: the packets for the web interface; Race has
--                 two threads in `packet_enqueue`
--   Names         devices/utilities.c: `reg_name_to_num`, `reg_num_to_name`
--   Disassembler  debugger/disassembler.c: `disassemble`, without its text
--   Listing       the text of the disassembly: the last parts of the three decoders, and what
--                 debugger/disassembler.c makes of them; Pieces has what they share, TwoOperands,
--                 OneOperand and Jump are the formats
--   Display       devices/cpu/registers.c: `update_register_display`, and
--                 debugger/register_display.c: `display_registers`
--   Debugger      debugger/debugger.c: `setup_debugger`, `handle_breakpoints`, `handle_sigint`
--   Commands      debugger/debugger.c: `exec_cmd`; `sscanf` and `strtol` are parameters
--   Web           debugger/websockets/emu_server.cpp: Leds and Upload are parts of `callback_emu`,
--                 Writeable its branch for a writable connection, Serial is `thrd`, Control has
--                 `send_control`, `print_serial` and `print_console`
--   Session       debugger/websockets/emu_server.cpp: the branch of `callback_emu` for a message;
--                 Session/Reached has it, and the stores of `thrd`, between rounds of the loop
--   Emulator      main.cpp: the set-up and the loop over all components
--   Boot          main.cpp: the start from the upload to the loop, with `load_bootloader` and
--                 `load_firmware` of devices/utilities.c and the table of
--                 devices/memory/memspace.h (Boot/Bootloader)
--   LocalServer   debugger/server/server.c: the server that starts an emulator for a connection
--   Base          shared names, words and bit operations; Tests: runs at concrete inputs
--
-- A function of the emulator that changes the processor is a function in the monad `M` of Machine:
-- from a machine to a result and a machine, or to a `Fault`. A fault is what C leaves undefined: an
-- access outside of the memory, a use of a null pointer or of an unassigned variable. `int16_t`
-- and `uint16_t` are both patterns below 2^16; where a conversion to 32 bits sign-extends, `sext16`
-- does. Pointers are values of `Loc`; words lie in memory low byte first. But for the wait for
-- the clock, whose rounds are bounded with a theorem that says how many are enough, no loop of the
-- modelled code needs fuel: a step is total, and the walks along packets, breakpoints and messages
-- are structural; the rounds of the main loop and of the feed of the serial port are counted.
--
-- The text of a line of disassembly is a function of the machine behind the fetch of the first
-- word, since the words that are fetched for it are those ahead; a text that does not fit the buffer
-- of the code is the fault of an access outside of it, also in execution. A number is written in decimal with fuel for
-- ten digits, and in hexadecimal for eight, which is enough for 32 bits.
--
-- Not modelled: the texts that commands of the console print, the messages of the peripherals, the
-- conversion of the uploaded file by `objcopy` (what `fopen` gives is a parameter), the websocket
-- library, and threads but for those of the packet queue and the stores of those of the serial port,
-- which stand between whole rounds. The wait for the host clock is a model of its own and not a part
-- of the rounds of the loop, since it changes nothing.
pub mod Base
pub mod Status
pub mod Machine
pub mod Flags
pub mod Constant
pub mod Format1
pub mod Format2
pub mod Format3
pub mod Decoder
pub mod Port1
pub mod PacketQueue
pub mod Bcm
pub mod Usci
pub mod TimerA
pub mod Names
pub mod Disassembler
pub mod Listing
pub mod Debugger
pub mod Web
pub mod Display
pub mod Emulator
pub mod Commands
pub mod Session
pub mod Boot
pub mod LocalServer
pub mod Tests
