-- ===== src/Port1.antt =====
-- `handle_port_1` and `setup_port_1` of devices/peripherals/port1.c: the flags that the emulator
-- keeps for the pins of port 1, and the memory-mapped registers that they mirror. The messages
-- on a change of a select flag are not modelled.
pub mod Pins
use msp430_emulator.Base.{ℕ, ◌+◌, ◌^◌, Bool, true, false, has, ◌==◌, update, if◌then◌else◌}

-- The flags of one pin, of which pins 3 to 7 do not use the last two.
pub record Pin : Type 0 where
  pub dir : Bool
  pub out : Bool
  pub ie : Bool
  pub ifg : Bool
  pub sel : Bool
  pub sel2 : Bool

-- The addresses of the registers.
abbrev pub in_vloc : ℕ
in_vloc = 0x20

abbrev pub out_vloc : ℕ
out_vloc = 0x21

abbrev pub dir_vloc : ℕ
dir_vloc = 0x22

abbrev pub ifg_vloc : ℕ
ifg_vloc = 0x23

abbrev pub ies_vloc : ℕ
ies_vloc = 0x24

abbrev pub ie_vloc : ℕ
ie_vloc = 0x25

abbrev pub sel_vloc : ℕ
sel_vloc = 0x26

abbrev pub ren_vloc : ℕ
ren_vloc = 0x27

abbrev pub sel2_vloc : ℕ
sel2_vloc = 0x41

-- Direction and output, then interrupt enable and pending interrupt, of a pin with the mask `m`.
unfoldable pub handle_io : (ℕ → ℕ) → ℕ → Pin → Pin
handle_io memspace m p =
    let q =
      if has (memspace dir_vloc) m
      then record p { dir = true; out = has (memspace out_vloc) m }
      else record p { dir = false } in
    if has (memspace ie_vloc) m
    then record q { ie = true; ifg = has (memspace ifg_vloc) m }
    else record q { ie = false }

-- The primary and the secondary select of a pin.
unfoldable pub handle_select : (ℕ → ℕ) → ℕ → Pin → Pin
handle_select memspace m p = record p {
  sel = has (memspace sel_vloc) m;
  sel2 = has (memspace sel2_vloc) m;
}

-- Pins 0, 1 and 2.
unfoldable pub handle_low_pins : (ℕ → ℕ) → (ℕ → Pin) → ℕ → Pin
handle_low_pins memspace p =
    let p0 = update p 0 (handle_select memspace 0x01 (handle_io memspace 0x01 (p 0))) in
    let p1 = update p0 1 (handle_select memspace 0x02 (handle_io memspace 0x02 (p0 1))) in
    update p1 2 (handle_select memspace 0x04 (handle_io memspace 0x04 (p1 2)))

-- Pins 3 to 7.
unfoldable pub handle_high_pins : (ℕ → ℕ) → (ℕ → Pin) → ℕ → Pin
handle_high_pins memspace p =
    let p3 = update p 3 (handle_io memspace 0x08 (p 3)) in
    let p4 = update p3 4 (handle_io memspace 0x10 (p3 4)) in
    let p5 = update p4 5 (handle_io memspace 0x20 (p4 5)) in
    let p6 = update p5 6 (handle_io memspace 0x40 (p5 6)) in
    update p6 7 (handle_io memspace 0x80 (p6 7))

unfoldable pub handle_port_1 : (ℕ → ℕ) → (ℕ → Pin) → ℕ → Pin
handle_port_1 memspace p = handle_high_pins memspace (handle_low_pins memspace p)

-- All flags of a pin reset.
abbrev pub reset_pin : Pin
reset_pin = record { dir = false; out = false; ie = false; ifg = false; sel = false; sel2 = false }

-- `setup_port_1` on the memory, in the order of the stores, and on the pins.
unfoldable pub setup_memory : (ℕ → ℕ) → ℕ → ℕ
setup_memory m =
    let m1 = update (update (update m in_vloc 0) out_vloc 0) dir_vloc 0 in
    let m2 = update (update (update m1 ifg_vloc 0) ies_vloc 0) ie_vloc 0 in
    update (update (update m2 sel_vloc 0) sel2_vloc 0) ren_vloc 0

unfoldable pub setup_pins : (ℕ → Pin) → ℕ → Pin
setup_pins p =
    let q = update (update (update (update p 0 reset_pin) 1 reset_pin) 2 reset_pin) 3 reset_pin in
    update (update (update (update q 4 reset_pin) 5 reset_pin) 6 reset_pin) 7 reset_pin
