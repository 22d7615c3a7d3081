-- ===== src/Boot/Runs.antt =====
-- The start with any firmware, and every session after it.
use msp430_emulator.Base.{
  ℕ, ◌+◌, ◌<◌, ◌≤◌, ◌^◌, ◌≡◌, Bool, true, false, Option, none, some, List, length, get_elem?, bytes,
  arith, refl, subst, ◌∙◌, if◌then◌else◌,
}
use native.Mathlib.Decide.{dec_lt}
use msp430_emulator.Machine.{Result, ok}
use msp430_emulator.Machine.Init.{initialize_msp_memspace, initialize_msp_memspace-lt}
use msp430_emulator.Machine.Store.{IsWellFormed}
use msp430_emulator.Machine.Keeps.{modes}
use msp430_emulator.Debugger.{max_breakpoints}
use msp430_emulator.TimerA.{Doubles}
use msp430_emulator.Commands.{Scanner, disassemble_here}
use msp430_emulator.Commands.Bounds.{Leaves, leaves, Leaves-on_machine}
use msp430_emulator.Session.Fits.{Sound, sound, unsound, disassemble_here-Sound}
use msp430_emulator.Web.Upload.{Upload}
use msp430_emulator.Session.{Session}
use msp430_emulator.Session.Reached.{IsSafe, Bounded, Reaches, session_lem}
use msp430_emulator.Emulator.{Emulator, set_up}
use msp430_emulator.Boot.Bootloader.{blc, are_bytes, blc-are_bytes, length-blc}
use msp430_emulator.Boot.{
  Started, continued, exited, store_bytes, load_bootloader, read_firmware, load_firmware,
  load_web_firmware, loaded, opened, with_memory, boot, first_disassembly,
}
use msp430_emulator.Boot.SetUp.{set_up_memory, set_up_memory-IsBytes, set_up_memory-above}
use msp430_emulator.Boot.Contents.{
  get_elem?-lt, store_bytes-below, store_bytes-above, store_bytes-at, store_bytes-IsBytes,
  read_firmware-big, read_firmware-small,
}

-- The machine stands stopped at the first address of the flash memory, with the firmware there,
-- ones behind it, the boot code at 0x0C00, and between them what the emulator starts with.
pub record IsBooted {D : Type 0} (file : List ℕ) (e0 e : Emulator D) : Type 0 where
  pub fits : IsWellFormed e.machine
  pub modes_clear : modes e.machine.sr ≡ (0, false, false, false, false, false)
  pub is_stopped : e.machine.running ≡ false
  pub at_start : e.machine.regs 0 ≡ 0xC000
  pub same_debugger : e.debugger ≡ e0.debugger
  pub firmware : (i b : ℕ) → get_elem? file i ≡ some b → e.machine.memspace (0xC000 + i) ≡ b
  pub erased : (i : ℕ) → length file ≤ i → i < 0x4000 → e.machine.memspace (0xC000 + i) ≡ 0xFF
  pub boot_code : (i b : ℕ) → get_elem? blc i ≡ some b → e.machine.memspace (0x0C00 + i) ≡ b
  pub between : (a : ℕ) → 0x1000 ≤ a → a < 0xC000 → e.machine.memspace a ≡ initialize_msp_memspace a

-- How a start ends, given what can be read from the file.
pub data Boots {D : Type 0} (e0 : Emulator D)
    : Option (List ℕ) → Started (Emulator D) → Type 0 where
  booted :
      (file : List ℕ) (e : Emulator D)
      → length file ≤ 0x4000
      → IsBooted file e0 e
      → Boots e0 (some file) (continued e)
  too_big : (file : List ℕ) → 0x4000 < length file → Boots e0 (some file) exited
  missing : Boots e0 none exited

abbrev set_memory : ℕ → ℕ
set_memory = set_up_memory initialize_msp_memspace

abbrev boot_memory : ℕ → ℕ
boot_memory = store_bytes blc 0x0C00 set_memory

load_bootloader-eq : load_bootloader 0x0C00 set_memory ≡ ok boot_memory
unfolding load_bootloader
load_bootloader-eq = rw length-blc refl

boot_memory-above : (a : ℕ) → 0x1000 ≤ a → boot_memory a ≡ initialize_msp_memspace a
boot_memory-above a h =
    store_bytes-above blc 0x0C00 set_memory a (rw length-blc (omega arith))
    ∙ set_up_memory-above initialize_msp_memspace a (omega arith)

module _ {D : Type 0} (e0 : Emulator D) (w : IsWellFormed e0.machine) where
  -- The emulator with a firmware.
  with_file : List ℕ → Emulator D
  with_file file =
      with_memory (set_up (with_memory e0 initialize_msp_memspace))
        (store_bytes file 0xC000 boot_memory)

  with_file-IsBooted :
      (file : List ℕ)
      → are_bytes file ≡ true
      → length file ≤ 0x4000
      → IsBooted file e0 (with_file file)
  unfolding with_file
  with_file-IsBooted file b l = record {
    fits = record {
      regs_fit = λ n. ground (arith, w.regs_fit 2);
      bytes_fit = store_bytes-IsBytes file 0xC000 boot_memory b (
          store_bytes-IsBytes blc 0x0C00 set_memory blc-are_bytes
            (set_up_memory-IsBytes initialize_msp_memspace initialize_msp_memspace-lt));
      bogus_fits = w.bogus_fits;
      reserved_fits = omega arith;
    };
    modes_clear = refl;
    is_stopped = refl;
    at_start = refl;
    same_debugger = refl;
    firmware = λ i b h. store_bytes-at file 0xC000 boot_memory i b h;
    erased = λ i h k.
        store_bytes-above file 0xC000 boot_memory (0xC000 + i) (omega arith)
        ∙ boot_memory-above (0xC000 + i) (omega arith)
        ∙ ground arith;
    boot_code = λ i b h.
        store_bytes-below file 0xC000 boot_memory (0x0C00 + i)
          (omega (arith, length-blc, get_elem?-lt blc i b h))
        ∙ store_bytes-at blc 0x0C00 set_memory i b h;
    between = λ a h k. store_bytes-below file 0xC000 boot_memory a k ∙ boot_memory-above a h;
  }

  boot-file :
      (file : List ℕ)
      → are_bytes file ≡ true
      → length file < 2 ^ 32
      → Boots e0 (some file) (
          loaded
            (set_up (with_memory e0 initialize_msp_memspace))
            (read_firmware file 0xC000 boot_memory))
  unfolding with_file
  boot-file file b k = elim (dec_lt 0x4000 (length file)) [
    | yes h ↦ rw (read_firmware-big file boot_memory h k) (too_big file h)
    | no h ↦
        let small : length file ≤ 0x4000 = omega arith in
        rw (read_firmware-small file boot_memory small)
          (booted file (with_file file) small (with_file-IsBooted file b small))
  ]

  boot-opened :
      (file : Option (List ℕ))
      → ((contents : List ℕ)
          → file ≡ some contents
          → (are_bytes contents ≡ true) × (length contents < 2 ^ 32))
      → Boots e0 file (
          loaded (set_up (with_memory e0 initialize_msp_memspace)) (opened file 0xC000 boot_memory))
  boot-opened none fits = missing
  boot-opened (some file) fits = let fit = fits file refl in boot-file file fit.0 fit.1

  pub boot_lem :
      (fopen : List ℕ → Option (List ℕ))
      → e0.debugger.web_interface ≡ true
      → ((contents : List ℕ)
          → fopen (bytes "tmp.bin") ≡ some contents
          → (are_bytes contents ≡ true) × (length contents < 2 ^ 32))
      → Boots e0 (fopen (bytes "tmp.bin")) (boot fopen e0)
  unfolding boot load_web_firmware load_firmware
  boot_lem fopen web fits =
      rw load_bootloader-eq
        (chosen e0.debugger.web_interface _ _ web (boot-opened (fopen (bytes "tmp.bin")) fits))
    where
      chosen :
          (b : Bool) (x y : Started (Emulator D))
          → b ≡ true
          → Boots e0 (fopen (bytes "tmp.bin")) x
          → Boots e0 (fopen (bytes "tmp.bin")) (if b then x else y)
      chosen true x y h go = go
      chosen false x y h go = cc

  booted-IsSafe :
      (x : Started (Emulator D)) (file : Option (List ℕ)) (e : Emulator D)
      → e0.debugger.num_bps ≤ max_breakpoints
      → Boots e0 file x
      → x ≡ continued e
      → IsSafe e
  booted-IsSafe x file e n (booted contents f l i) run =
      let same : f ≡ e = cc in
      subst IsSafe same (record { fits = i.fits; in_bounds = rw i.same_debugger n })
  booted-IsSafe x file e n (too_big contents l) run = cc
  booted-IsSafe x file e n missing run = cc

  displayed-IsSafe :
      {x : Result (Emulator D)} (e : Emulator D) → Sound x → Leaves Bounded x → x ≡ ok e → IsSafe e
  displayed-IsSafe e (sound f w) (leaves _ n) run =
      let same : f ≡ e = cc in subst IsSafe same (record { fits = w; in_bounds = n })
  displayed-IsSafe e (unsound f) h run = cc

  first_disassembly-IsSafe : (e f : Emulator D) → IsSafe e → first_disassembly e ≡ ok f → IsSafe f
  unfolding first_disassembly
  first_disassembly-IsSafe e f h run =
      displayed-IsSafe f (disassemble_here-Sound e h.fits)
        (Leaves-on_machine Bounded disassemble_here e h.in_bounds) run

  -- From a start that went on, with a well-formed machine and at most 100 breakpoints before it,
  -- whatever firmware was loaded, and after the first disassembly, whatever rounds of the main
  -- loop, messages from the web interface and stores of the threads of the serial port follow in
  -- any order, uploads, commands of the console, run and pause among the messages: while none of
  -- them ends the process or runs into a fault, the machine is well formed and there are at most
  -- 100 breakpoints.
  pub booted_session_lem :
      (ratio : ℕ → ℕ → ℕ) (d : Doubles D) (scan : Scanner) (fopen : List ℕ → Option (List ℕ))
      (received : List ℕ → Bool) (e f : Emulator D) (u : Upload) (t : Session D)
      → e0.debugger.web_interface ≡ true
      → e0.debugger.num_bps ≤ max_breakpoints
      → ((contents : List ℕ)
          → fopen (bytes "tmp.bin") ≡ some contents
          → (are_bytes contents ≡ true) × (length contents < 2 ^ 32))
      → boot fopen e0 ≡ continued e
      → first_disassembly e ≡ ok f
      → Reaches ratio d scan received (record { emulator = f; upload = u }) t
      → IsSafe t.emulator
  booted_session_lem ratio d scan fopen received e f u t web n fits run shown r =
      session_lem ratio d scan received _ t
        (first_disassembly-IsSafe e f
          (booted-IsSafe (boot fopen e0) (fopen (bytes "tmp.bin")) e n (boot_lem fopen web fits)
            run)
          shown)
        r
