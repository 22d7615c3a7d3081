-- ===== src/Tests/Pins.antt =====
-- Port 1 with pin 2 an output that is high.
use msp430_emulator.Base.{ℕ, ◌≡◌, true, update}
use msp430_emulator.Machine.Init.{initialize_msp_memspace}
use msp430_emulator.Port1.{
  Pin, handle_port_1, reset_pin, dir_vloc, out_vloc, setup_memory, setup_pins,
}
use msp430_emulator.Port1.Pins.{handle_port_1_passes}

abbrev memory : ℕ → ℕ
memory = update (update initialize_msp_memspace dir_vloc 0x04) out_vloc 0x0C

abbrev pub pins : ℕ → Pin
pins k = reset_pin

handle_port_1_passes_example :
    (handle_port_1 memory pins 2 ≡ record reset_pin { dir = true; out = true })
    × (handle_port_1 memory (handle_port_1 memory pins) ≡ handle_port_1 memory pins)
    × (handle_port_1 (setup_memory memory) (setup_pins pins) ≡ setup_pins pins)
handle_port_1_passes_example = handle_port_1_passes memory pins 2
