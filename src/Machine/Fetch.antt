-- ===== src/Machine/Fetch.antt =====
-- What `fetch` of devices/cpu/decoder.c gives where it ends well.
use msp430_emulator.Base.{ℕ, ◌+◌, ◌≡◌, Bool, true, false, ltb, u16, update, if◌then◌else◌}
use msp430_emulator.Machine.{
  Machine, ok, fault, Fault, fetch, load16, get16, get_addr_ptr, and_then, put, pure, ◌>>◌,
}

-- The machine behind a fetch.
abbrev pub behind : Machine → Machine
behind s = record s { regs = update s.regs 0 (u16 (s.regs 0 + 2)) }

pub fetch-ok :
    (s t : Machine) (n : ℕ)
    → fetch s ≡ ok (n, t)
    → (n ≡ get16 s (get_addr_ptr (s.regs 0))) × (t ≡ behind s)
unfolding fetch load16
fetch-ok s t n e = chosen (ltb (u16 (s.regs 0) + 1) 0x10000) (get16 s (get_addr_ptr (s.regs 0))) e
  where
    chosen :
        (b : Bool) (v : ℕ)
        → and_then {A = ℕ}
            (if b then ok (v, s) else fault Fault.out_of_bounds)
            (λ w. put (record s { regs = update s.regs 0 (u16 (s.regs 0 + 2)) }) >> pure w)
          ≡ ok (n, t)
        → (n ≡ v) × (t ≡ behind s)
    chosen true v h = (cc, cc)
    chosen false v h = cc
