-- ===== src/Port1/Pins.antt =====
-- The flags of port 1 against the bits of its registers.
use msp430_emulator.Base.{
  ℕ, zero, suc, ◌/◌, ◌%◌, ◌^◌, ◌<◌, ◌≤◌, ◌≡◌, Bool, true, false, ltb, ◌==◌, arith, refl, fun_ext,
  if◌then◌else◌,
}
use msp430_emulator.Base.Bits.{has_bit}
use msp430_emulator.Port1.{
  Pin, handle_io, handle_select, handle_low_pins, handle_high_pins, handle_port_1, setup_memory,
  setup_pins,
}
use msp430_emulator.Port1.{dir_vloc, out_vloc, ie_vloc, ifg_vloc, sel_vloc, sel2_vloc}

-- Bit `k` of the register at an address.
abbrev pub register_bit : (ℕ → ℕ) → ℕ → ℕ → Bool
register_bit memspace vloc k = memspace vloc / 2 ^ k % 2 == 1

-- What pin `k` becomes: direction and interrupt enable are the bits of their registers; output and
-- pending interrupt are the bits of theirs while the pin is an output, or enabled, and are kept
-- otherwise; the select flags are the bits of their registers for the pins 0 to 2 and are kept for
-- the others.
abbrev pub mirrored : (ℕ → ℕ) → ℕ → Pin → Pin
mirrored memspace k p = record {
  dir = register_bit memspace dir_vloc k;
  out = if register_bit memspace dir_vloc k then register_bit memspace out_vloc k else p.out;
  ie = register_bit memspace ie_vloc k;
  ifg = if register_bit memspace ie_vloc k then register_bit memspace ifg_vloc k else p.ifg;
  sel = if ltb k 3 then register_bit memspace sel_vloc k else p.sel;
  sel2 = if ltb k 3 then register_bit memspace sel2_vloc k else p.sel2;
}

handle_io-eq :
    (memspace : ℕ → ℕ) (k : ℕ) (p : Pin)
    → handle_io memspace (2 ^ k) p ≡ record p {
      dir = register_bit memspace dir_vloc k;
      out = if register_bit memspace dir_vloc k then register_bit memspace out_vloc k else p.out;
      ie = register_bit memspace ie_vloc k;
      ifg = if register_bit memspace ie_vloc k then register_bit memspace ifg_vloc k else p.ifg;
    }
unfolding handle_io
handle_io-eq memspace k p =
    rw
      (
        has_bit k (memspace dir_vloc),
        has_bit k (memspace out_vloc),
        has_bit k (memspace ie_vloc),
        has_bit k (memspace ifg_vloc),
      )
      (choose (register_bit memspace dir_vloc k) (register_bit memspace ie_vloc k))
  where
    choose :
        (d e : Bool)
        → (if e
            then record (if d
                then record p { dir = true; out = register_bit memspace out_vloc k }
                else record p { dir = false }) { ie = true; ifg = register_bit memspace ifg_vloc k }
            else record (if d
                then record p { dir = true; out = register_bit memspace out_vloc k }
                else record p { dir = false }) { ie = false })
          ≡ record p {
            dir = d;
            out = if d then register_bit memspace out_vloc k else p.out;
            ie = e;
            ifg = if e then register_bit memspace ifg_vloc k else p.ifg;
          }
    choose true true = refl
    choose true false = refl
    choose false true = refl
    choose false false = refl

low-eq :
    (memspace : ℕ → ℕ) (k : ℕ) (p : Pin)
    → k < 3
    → handle_select memspace (2 ^ k) (handle_io memspace (2 ^ k) p) ≡ mirrored memspace k p
unfolding handle_select
low-eq memspace k p h =
    let low : ltb k 3 ≡ true = ground arith in
    rw
      (
        handle_io-eq memspace k p,
        has_bit k (memspace sel_vloc),
        has_bit k (memspace sel2_vloc),
        low,
      )
      refl

high-eq :
    (memspace : ℕ → ℕ) (k : ℕ) (p : Pin)
    → 3 ≤ k
    → handle_io memspace (2 ^ k) p ≡ mirrored memspace k p
high-eq memspace k p h =
    let high : ltb k 3 ≡ false = ground arith in rw (handle_io-eq memspace k p, high) refl

-- The flags of every pin from 0 to 7 mirror the registers of the port: direction and interrupt
-- enable are the bits of their registers; output and pending interrupt are the bits of theirs while
-- the pin is an output, or enabled, and are kept otherwise; the select flags are the bits of theirs
-- for the pins 0 to 2 and are kept for the others. There are no other pins.
pub handle_port_1_lem :
    (memspace : ℕ → ℕ) (p : ℕ → Pin) (k : ℕ)
    → handle_port_1 memspace p k ≡ (if ltb k 8 then mirrored memspace k (p k) else p k)
unfolding handle_port_1 handle_low_pins handle_high_pins
handle_port_1_lem memspace p zero = low-eq memspace 0 (p 0) (omega arith)
handle_port_1_lem memspace p (suc zero) = low-eq memspace 1 (p 1) (omega arith)
handle_port_1_lem memspace p (suc (suc zero)) = low-eq memspace 2 (p 2) (omega arith)
handle_port_1_lem memspace p (suc (suc (suc zero))) = high-eq memspace 3 (p 3) (omega arith)
handle_port_1_lem memspace p (suc (suc (suc (suc zero)))) = high-eq memspace 4 (p 4) (omega arith)
handle_port_1_lem memspace p (suc (suc (suc (suc (suc zero))))) =
    high-eq memspace 5 (p 5) (omega arith)
handle_port_1_lem memspace p (suc (suc (suc (suc (suc (suc zero)))))) =
    high-eq memspace 6 (p 6) (omega arith)
handle_port_1_lem memspace p (suc (suc (suc (suc (suc (suc (suc zero))))))) =
    high-eq memspace 7 (p 7) (omega arith)
handle_port_1_lem memspace p (suc (suc (suc (suc (suc (suc (suc (suc k)))))))) = ground arith

if-if :
    {A : Type 0} (b : Bool) (x y : A) → (if b then x else if b then x else y) ≡ (if b then x else y)
if-if true x y = refl
if-if false x y = refl

mirrored-mirrored :
    (memspace : ℕ → ℕ) (k : ℕ) (p : Pin)
    → mirrored memspace k (mirrored memspace k p) ≡ mirrored memspace k p
mirrored-mirrored memspace k p i = record (mirrored memspace k p) {
  out = if-if (register_bit memspace dir_vloc k) (register_bit memspace out_vloc k) p.out i;
  ifg = if-if (register_bit memspace ie_vloc k) (register_bit memspace ifg_vloc k) p.ifg i;
  sel = if-if (ltb k 3) (register_bit memspace sel_vloc k) p.sel i;
  sel2 = if-if (ltb k 3) (register_bit memspace sel2_vloc k) p.sel2 i;
}

-- Handling the port a second time over the same memory changes nothing.
pub handle_port_1-handle_port_1 :
    (memspace : ℕ → ℕ) (p : ℕ → Pin)
    → handle_port_1 memspace (handle_port_1 memspace p) ≡ handle_port_1 memspace p
handle_port_1-handle_port_1 memspace p = fun_ext (λ k.
    rw (handle_port_1_lem memspace (handle_port_1 memspace p) k, handle_port_1_lem memspace p k)
      (twice k (ltb k 8)))
  where
    twice :
        (k : ℕ) (b : Bool)
        → ◌≡◌ {A = Pin}
            (if b
              then mirrored memspace k (if b then mirrored memspace k (p k) else p k)
              else if b
              then mirrored memspace k (p k)
              else p k)
            (if b then mirrored memspace k (p k) else p k)
    twice k true = mirrored-mirrored memspace k (p k)
    twice k false = refl

-- After the set-up of the port a pass over it leaves all its flags reset, whatever they and the
-- memory were before.
pub handle_port_1-setup :
    (memspace : ℕ → ℕ) (p : ℕ → Pin)
    → handle_port_1 (setup_memory memspace) (setup_pins p) ≡ setup_pins p
unfolding setup_memory setup_pins handle_port_1 handle_low_pins handle_high_pins handle_io
    handle_select
handle_port_1-setup memspace p = fun_ext pin
  where
    pin : (k : ℕ) → handle_port_1 (setup_memory memspace) (setup_pins p) k ≡ setup_pins p k
    pin zero = refl
    pin (suc zero) = refl
    pin (suc (suc zero)) = refl
    pin (suc (suc (suc zero))) = refl
    pin (suc (suc (suc (suc zero)))) = refl
    pin (suc (suc (suc (suc (suc zero))))) = refl
    pin (suc (suc (suc (suc (suc (suc zero)))))) = refl
    pin (suc (suc (suc (suc (suc (suc (suc zero))))))) = refl
    pin (suc (suc (suc (suc (suc (suc (suc (suc k)))))))) = ground arith

-- The flags of every pin from 0 to 7 mirror the registers of the port: direction and interrupt
-- enable are the bits of their registers; output and pending interrupt are the bits of theirs while
-- the pin is an output, or enabled, and are kept otherwise; the select flags are the bits of theirs
-- for the pins 0 to 2 and are kept for the others. There are no other pins. A second pass over the
-- same memory changes nothing, and after the set-up of the port a pass leaves all flags as the
-- set-up reset them.
pub handle_port_1_passes :
    (memspace : ℕ → ℕ) (p : ℕ → Pin) (k : ℕ)
    → let once = handle_port_1 memspace p in
      (once k ≡ (if ltb k 8 then mirrored memspace k (p k) else p k))
      × (handle_port_1 memspace once ≡ once)
      × (handle_port_1 (setup_memory memspace) (setup_pins p) ≡ setup_pins p)
handle_port_1_passes memspace p k = (
  handle_port_1_lem memspace p k,
  handle_port_1-handle_port_1 memspace p,
  handle_port_1-setup memspace p,
)
