-- ===== src/Machine.antt =====
-- The processor and its memory: `Cpu` of devices/cpu/registers.h, `MEMSPACE` of
-- devices/memory/memspace.c, and the pointers of devices/utilities.c.
-- A 16-bit pattern stands for `uint16_t` and `int16_t` alike; words lie in memory low byte first,
-- as they do on the hosts that the emulator is built for.
pub mod Store
pub mod Init
pub mod Keeps
pub mod Fetch
use msp430_emulator.Base.{
  ℕ, ◌+◌, ◌*◌, ◌/◌, ◌%◌, ◌^◌, Bool, true, false, ltb, ◌==◌, update, u16, if◌then◌else◌,
}
use msp430_emulator.Status.{StatusReg, sr_to_value}

-- What C leaves undefined where the code runs into it: an access outside of the 64 KiB, a use of a
-- null pointer, and a use of a variable that was not assigned.
pub data Fault : Type 0 where
  out_of_bounds null_pointer indeterminate : Fault

pub data Result {ℓ} (A : Type ℓ) : Type ℓ where
  ok : A → Result A
  fault : Fault → Result A

-- `regs n` is the cell behind `get_reg_ptr(n)`: `pc`, `sp`, the static `r2` of that function,
-- `cg2`, `r4` to `r15`. The status register itself is `sr`. `bogus_reg` is the local of
-- `decode_formatII` that immediate operands are put in.
pub record Machine : Type 0 where
  pub running : Bool
  pub debug_mode : Bool
  pub regs : ℕ → ℕ
  pub sr : StatusReg
  pub memspace : ℕ → ℕ
  pub bogus_reg : ℕ

-- The targets of the pointers that the decoders compute.
pub data Loc : Type 0 where
  reg : ℕ → Loc
  cell : ℕ → Loc
  bogus : Loc
  null : Loc

-- `enum { WORD, BYTE }`
pub data Width : Type 0 where
  word byte : Width

abbrev pub M : Type 0 → Type 0
M A = Machine → Result (A × Machine)

abbrev pub pure : {A : Type 0} → A → M A
pure a s = ok (a, s)

abbrev pub fail : {A : Type 0} → Fault → M A
fail e s = fault e

module _ {A B : Type 0} where
  abbrev pub and_then : Result (A × Machine) → (A → M B) → Result (B × Machine)
  and_then (ok r) k = k r.0 r.1
  and_then (fault e) k = fault e

  infixl 5 ◌>>=◌ ◌>>◌
  abbrev pub ◌>>=◌ : M A → (A → M B) → M B
  m >>= k = λ s. and_then (m s) k

  abbrev pub ◌>>◌ : M A → M B → M B
  m >> n = m >>= λ _. n

abbrev pub get : M Machine
get s = ok (s, s)

abbrev pub put : Machine → M (Unit {0})
put t s = ok (tt, t)

-- The word and the low byte behind a pointer.
abbrev pub get16 : Machine → Loc → ℕ
get16 s (reg n) = s.regs n
get16 s (cell a) = s.memspace a + s.memspace (a + 1) * 2 ^ 8
get16 s bogus = s.bogus_reg
get16 s null = 0

abbrev pub get8 : Machine → Loc → ℕ
get8 s (reg n) = s.regs n % 2 ^ 8
get8 s (cell a) = s.memspace a
get8 s bogus = s.bogus_reg % 2 ^ 8
get8 s null = 0

-- A byte that is stored leaves the other byte of a word alone.
abbrev pub with_low : ℕ → ℕ → ℕ
with_low w b = w / 2 ^ 8 * 2 ^ 8 + b

abbrev pub put16 : Machine → Loc → ℕ → Machine
put16 s (reg n) v = record s { regs = update s.regs n v }
put16 s (cell a) v = record s {
  memspace = update (update s.memspace a (v % 2 ^ 8)) (a + 1) (v / 2 ^ 8);
}
put16 s bogus v = record s { bogus_reg = v }
put16 s null v = s

abbrev pub put8 : Machine → Loc → ℕ → Machine
put8 s (reg n) b = record s { regs = update s.regs n (with_low (s.regs n) b) }
put8 s (cell a) b = record s { memspace = update s.memspace a b }
put8 s bogus b = record s { bogus_reg = with_low s.bogus_reg b }
put8 s null b = s

-- Why a word, or a byte, cannot be accessed through a pointer.
abbrev pub check16 : {A : Type 0} → Loc → Result A → Result A
check16 (cell a) r = if ltb (a + 1) 0x10000 then r else fault Fault.out_of_bounds
check16 null r = fault Fault.null_pointer
check16 _ r = r

abbrev pub check8 : {A : Type 0} → Loc → Result A → Result A
check8 (cell a) r = if ltb a 0x10000 then r else fault Fault.out_of_bounds
check8 null r = fault Fault.null_pointer
check8 _ r = r

-- `*p`, `*(uint8_t *) p`, and the assignments to them.
unfoldable pub load16 : Loc → M ℕ
load16 l s = check16 l (ok (get16 s l, s))

unfoldable pub load8 : Loc → M ℕ
load8 l s = check8 l (ok (get8 s l, s))

unfoldable pub store16 : Loc → ℕ → M (Unit {0})
store16 l v s = check16 l (ok (tt, put16 s l v))

unfoldable pub store8 : Loc → ℕ → M (Unit {0})
store8 l b s = check8 l (ok (tt, put8 s l b))

-- The load and the store that the width of an instruction selects.
unfoldable pub load : Width → Loc → M ℕ
load word l = load16 l
load byte l = load8 l

unfoldable pub store : Width → Loc → ℕ → M (Unit {0})
store word l v = store16 l v
store byte l v = store8 l v

-- `cpu->sr.f = …` for some of the flags.
abbrev pub set_sr : (StatusReg → StatusReg) → M (Unit {0})
set_sr f s = ok (tt, record s { sr = f s.sr })

-- `get_addr_ptr` takes a `uint16_t`, so the sum that is passed to it is cut to 16 bits.
abbrev pub get_addr_ptr : ℕ → Loc
get_addr_ptr virt_addr = cell (u16 virt_addr)

abbrev pub get_stack_ptr : Machine → Loc
get_stack_ptr s = cell (s.regs 1)

-- `get_reg_ptr`: for R2 a copy of the status register is made, and the pointer is to the copy.
unfoldable pub get_reg_ptr : ℕ → M Loc
get_reg_ptr n s =
    if n == 2
    then ok (reg 2, record s { regs = update s.regs 2 (sr_to_value s.sr) })
    else if ltb n 16
    then ok (reg n, s)
    else ok (null, s)

-- `fetch`
unfoldable pub fetch : M ℕ
unfolding load16
fetch = do
  s ← get
  w ← load16 (get_addr_ptr (s.regs 0))
  put (record s { regs = update s.regs 0 (u16 (s.regs 0 + 2)) })
  pure w
