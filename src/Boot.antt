-- ===== src/Boot.antt =====
-- What `main` of main.cpp does between the upload of the firmware and the loop: the memory and the
-- registers are initialised, the components set up, and boot code and firmware loaded with
-- `load_bootloader` and `load_firmware` of devices/utilities.c. The messages are left out.
pub mod Bootloader
pub mod Contents
pub mod SetUp
pub mod Runs
use msp430_emulator.Base.{
  ℕ, ◌+◌, ◌-◌, Bool, true, false, Option, none, some, List, [], ◌∷◌, length, take, ltb, leb, update,
  u16, u32, bytes, if◌then◌else◌,
}
use msp430_emulator.Machine.{Machine, Result, ok, fault, Fault}
use msp430_emulator.Machine.Init.{initialize_msp_memspace}
use msp430_emulator.Debugger.{Debugger}
use msp430_emulator.Emulator.{Emulator, set_up}
use msp430_emulator.Commands.{on_machine, disassemble_here}
use msp430_emulator.Boot.Bootloader.{blc}

-- `memmove(MEMSPACE + a, bytes, sizeof bytes)`, and `fread` of all the bytes to there.
unfoldable pub store_bytes : List ℕ → ℕ → (ℕ → ℕ) → ℕ → ℕ
store_bytes [] a m = m
store_bytes (b ∷ bs) a m = store_bytes bs (a + 1) (update m a b)

-- The same where the memory has 64 KiB.
abbrev pub place_bytes : List ℕ → ℕ → (ℕ → ℕ) → Result (ℕ → ℕ)
place_bytes bs a m =
    if leb (a + length bs) 0x10000 then ok (store_bytes bs a m) else fault Fault.out_of_bounds

unfoldable pub load_bootloader : ℕ → (ℕ → ℕ) → Result (ℕ → ℕ)
load_bootloader virt_addr m = place_bytes blc (u16 virt_addr) m

-- How a part of the start ends: with a value, in `exit(1)`, or in what C leaves undefined.
pub data Started {ℓ} (A : Type ℓ) : Type ℓ where
  continued : A → Started A
  exited : Started A
  faulted : Started A

abbrev pub placed : {A : Type 0} → Result A → Started A
placed (ok a) = continued a
placed (fault f) = faulted

-- `sprintf(str, "Loading firmware: ( %s )\n", file_name)` with `char str[100]`.
abbrev pub message_fits : List ℕ → Bool
message_fits file_name = ltb (length (bytes "Loading firmware: ( ") + length file_name + 3) 100

-- `size = ftell(fd)`, a `uint32_t`, and what follows.
unfoldable pub read_firmware : List ℕ → ℕ → (ℕ → ℕ) → Started (ℕ → ℕ)
read_firmware file virt_addr m =
    let size = u32 (length file) in
    if ltb (0x10000 - 0x0C000) size
    then exited
    else placed (place_bytes (take size file) (u16 virt_addr) m)

abbrev pub opened : Option (List ℕ) → ℕ → (ℕ → ℕ) → Started (ℕ → ℕ)
opened none virt_addr m = exited
opened (some file) virt_addr m = read_firmware file virt_addr m

-- `fopen` gives the content of the file, or `none` where the file cannot be opened.
unfoldable pub load_firmware : (List ℕ → Option (List ℕ)) → List ℕ → ℕ → (ℕ → ℕ) → Started (ℕ → ℕ)
load_firmware fopen file_name virt_addr m =
    if message_fits file_name then opened (fopen file_name) virt_addr m else faulted

module _ {D : Type 0} where
  abbrev pub with_memory : Emulator D → (ℕ → ℕ) → Emulator D
  with_memory e m = record e { machine = record (e.machine) { memspace = m } }

  abbrev pub loaded : Emulator D → Started (ℕ → ℕ) → Started (Emulator D)
  loaded e (continued m) = continued (with_memory e m)
  loaded e exited = exited
  loaded e faulted = faulted

  -- `if (deb->web_interface) load_firmware(emu, (char*)"tmp.bin", 0xC000);`
  unfoldable pub load_web_firmware :
      (List ℕ → Option (List ℕ)) → Emulator D → Result (ℕ → ℕ) → Started (Emulator D)
  load_web_firmware fopen e (fault f) = faulted
  load_web_firmware fopen e (ok m) =
      if e.debugger.web_interface
      then loaded e (load_firmware fopen (bytes "tmp.bin") 0xC000 m)
      else continued (with_memory e m)

  -- From `initialize_msp_memspace();` to the loop.
  unfoldable pub boot : (List ℕ → Option (List ℕ)) → Emulator D → Started (Emulator D)
  boot fopen e0 =
      let e = set_up (with_memory e0 initialize_msp_memspace) in
      load_web_firmware fopen e (load_bootloader 0x0C00 e.machine.memspace)

  -- `disassemble(emu, cpu->pc, 1);` between the two displays of the registers.
  unfoldable pub first_disassembly : Emulator D → Result (Emulator D)
  first_disassembly = on_machine disassemble_here
