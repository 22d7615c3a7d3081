-- ===== src/Usci.antt =====
-- `handle_usci` and `setup_usci` of devices/peripherals/usci.c: the transmitter of the serial
-- port. The message at the first activation, and the static flag that it needs, are left out.
pub mod Transmit
use msp430_emulator.Base.{
  ℕ, ◌-◌, Bool, Option, none, some, has, bit_and, bit_or, ◌==◌, ◌&&◌, not, u8, update,
  if◌then◌else◌,
}
use msp430_emulator.Port1.{Pin}

abbrev pub ifg2_vloc : ℕ
ifg2_vloc = 0x03

abbrev pub txbuf_vloc : ℕ
txbuf_vloc = 0x67

-- The memory after a pass, and the byte that went to `print_serial`.
abbrev pub Pass : Type 0
Pass = (ℕ → ℕ) × Option ℕ

-- `*usci->IFG2 &= ~TXIFG;` and `*usci->IFG2 |= TXIFG;`
abbrev pub lower_flag : (ℕ → ℕ) → ℕ → ℕ
lower_flag m = update m ifg2_vloc (bit_and (m ifg2_vloc) (255 - 2))

abbrev pub raise_flag : (ℕ → ℕ) → ℕ → ℕ
raise_flag m = update m ifg2_vloc (bit_or (m ifg2_vloc) 2)

-- The branch on `*usci->IFG2 & TXIFG`, after the flag was read as set.
unfoldable pub transmit : Bool → (ℕ → ℕ) → Pass
transmit web_interface m =
    let c = m txbuf_vloc in
    let m1 = lower_flag m in
    if not (bit_and c 0xFF == 0)
    then (raise_flag (update m1 txbuf_vloc 0), (if web_interface then some c else none))
    else (raise_flag m1, none)

-- Pin 2 of port 1 is the transmitter where both of its select flags are set.
unfoldable pub handle_usci : Bool → Pin → (ℕ → ℕ) → Pass
handle_usci web_interface pin2 m =
    if pin2.sel && pin2.sel2
    then (if has (m ifg2_vloc) 2 then transmit web_interface m else (m, none))
    else (m, none)

-- The stores of `setup_usci`, in its order.
unfoldable pub setup_usci : (ℕ → ℕ) → ℕ → ℕ
setup_usci m =
    let m1 = update (update (update (update m 0x60 0) 0x61 0x01) 0x62 0) 0x63 0 in
    let m2 = update (update (update (update m1 0x64 0) 0x65 0) 0x66 0) txbuf_vloc 0 in
    let m3 = raise_flag (update (update (update m2 0x5D 0) 0x5E 0) 0x5F 0) in
    update m3 ifg2_vloc (bit_and (m3 ifg2_vloc) (255 - 1))
