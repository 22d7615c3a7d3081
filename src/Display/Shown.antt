-- ===== src/Display/Shown.antt =====
-- What the display of the registers says, and that its text fits the buffer.
use msp430_emulator.Base.{
  ℕ, zero, suc, ◌+◌, ◌^◌, ◌<◌, ◌≡◌, Bool, true, false, Option, none, some, update, List, ◌∷◌,
  length, get_elem?, arith, refl, ap, ◌∙◌, ◌==◌, ltb, if◌then◌else◌,
}
use msp430_emulator.Base.Hex.{hex, four_digits, read_hex, hex-four_digits, read_hex-hex}
use msp430_emulator.Status.{sr_to_value}
use msp430_emulator.Status.RoundTrip.{sr_to_value-lt}
use msp430_emulator.Machine.{
  Machine, Result, ok, fault, Loc, reg, null, check16, get16, get_reg_ptr, load16, and_then,
}
use msp430_emulator.Machine.Store.{IsWellFormed}
use msp430_emulator.PacketQueue.{Packet}
use msp430_emulator.Web.Control.{send_control}
use msp430_emulator.Display.{
  update_reg_r0_packet, shown_value, register_packet, register_packets, update_register_display,
  special_entry, register_entry, flag_entry, special_row, display_registers,
}

shown_value-lt : (s : Machine) (n : ℕ) → IsWellFormed s → shown_value s n < 2 ^ 16
unfolding shown_value
shown_value-lt s n w = ground (arith, w.regs_fit n, sr_to_value-lt s.sr w.reserved_fits)

get_elem?-register_packets :
    (s : Machine) (left n i : ℕ)
    → i < left
    → get_elem? (register_packets s n left) i ≡ some (register_packet s (n + i))
unfolding register_packets
get_elem?-register_packets s zero n i h = absurd (omega arith)
get_elem?-register_packets s (suc left) n zero h =
    let same : n + 0 ≡ n = omega arith in rw same refl
get_elem?-register_packets s (suc left) n (suc i) h =
    let same : n + suc i ≡ n + 1 + i = omega arith in
    rw same (get_elem?-register_packets s left (n + 1) i (omega arith))

register_packet-eq :
    (s : Machine) (n : ℕ)
    → IsWellFormed s
    → register_packet s n
      ≡ record { message = (0x10 + n) ∷ 4 ∷ four_digits (shown_value s n); length = 6; opcode = 0 }
unfolding register_packet send_control four_digits
register_packet-eq s n w = rw (hex-four_digits (shown_value s n) (shown_value-lt s n w)) refl

-- What an instruction reads from a register, through `get_reg_ptr`.
abbrev pub value_read : Result (ℕ × Machine) → Option ℕ
value_read (ok r) = some r.0
value_read (fault f) = none

register_read :
    (s : Machine) (n : ℕ)
    → n < 16
    → value_read (and_then (get_reg_ptr n s) load16) ≡ some (shown_value s n)
unfolding get_reg_ptr load16 shown_value
register_read s n h = chosen (n == 2) (ltb n 16) (ground arith)
  where
    chosen :
        (b c : Bool)
        → c ≡ true
        → value_read (
            and_then {A = Loc}
              (if b
                then ok (reg 2, record s { regs = update s.regs 2 (sr_to_value s.sr) })
                else if c
                then ok (reg n, s)
                else ok (null, s))
              (λ l t. check16 l (ok (get16 t l, t))))
          ≡ some (if b then sr_to_value s.sr else s.regs n)
    chosen true c e = refl
    chosen false true e = refl
    chosen false false e = cc

get_elem?-if :
    (b : Bool) (x y : List Packet) (n : ℕ)
    → b ≡ false
    → get_elem? (if b then x else y) n ≡ get_elem? y n
get_elem?-if true x y n h = cc
get_elem?-if false x y n h = refl

-- For a well-formed machine that is stopped and each of the 16 registers, the packet in its place
-- names the register and has four digits, which read back are the value that an instruction reads
-- from that register.
pub update_register_display_lem :
    (s : Machine) (n : ℕ)
    → IsWellFormed s
    → s.running ≡ false
    → n < 16
    → let v = shown_value s n in
      (get_elem? (update_register_display s) n
        ≡ some (record {
          message = (update_reg_r0_packet + n) ∷ 4 ∷ four_digits v;
          length = 6;
          opcode = 0;
        }))
      × (read_hex 0 (four_digits v) ≡ v)
      × (value_read (and_then (get_reg_ptr n s) load16) ≡ some v)
unfolding update_register_display
update_register_display_lem s n w stopped h =
    let v : ℕ = shown_value s n in
    let below : v < 2 ^ 16 = shown_value-lt s n w in
    let packets : get_elem? (update_register_display s) n ≡ some (register_packet s n) =
      get_elem?-if s.running _ (register_packets s 0 16) n stopped
      ∙ get_elem?-register_packets s 16 0 n h
      ∙ ap (λ i. some (register_packet s i)) (omega arith) in
    (
      packets ∙ ap some (register_packet-eq s n w),
      rw⁻¹ (hex-four_digits v below) (read_hex-hex v below),
      register_read s n h,
    )

hex-eq : (n : ℕ) → n < 2 ^ 16 → hex n ≡ four_digits n
hex-eq n h = hex-four_digits n h

-- The text of `display_registers` has 755 characters with its colours and 214 without: it fits
-- `char full[1000]`.
pub display_registers_fits :
    (console : Bool) (s : Machine)
    → IsWellFormed s
    → length (display_registers console s) ≡ (if console then 755 else 214)
unfolding display_registers special_row special_entry register_entry flag_entry four_digits
display_registers_fits true s w =
    rw
      (
        hex-four_digits (sr_to_value s.sr) (sr_to_value-lt s.sr w.reserved_fits),
        hex-four_digits (s.regs 0) (w.regs_fit 0),
        hex-four_digits (s.regs 1) (w.regs_fit 1),
        hex-four_digits (s.regs 3) (w.regs_fit 3),
        hex-four_digits (s.regs 4) (w.regs_fit 4),
        hex-four_digits (s.regs 5) (w.regs_fit 5),
        hex-four_digits (s.regs 6) (w.regs_fit 6),
        hex-four_digits (s.regs 7) (w.regs_fit 7),
        hex-four_digits (s.regs 8) (w.regs_fit 8),
        hex-four_digits (s.regs 9) (w.regs_fit 9),
        hex-four_digits (s.regs 10) (w.regs_fit 10),
        hex-four_digits (s.regs 11) (w.regs_fit 11),
        hex-four_digits (s.regs 12) (w.regs_fit 12),
        hex-four_digits (s.regs 13) (w.regs_fit 13),
        hex-four_digits (s.regs 14) (w.regs_fit 14),
        hex-four_digits (s.regs 15) (w.regs_fit 15),
      )
      refl
display_registers_fits false s w =
    rw
      (
        hex-four_digits (sr_to_value s.sr) (sr_to_value-lt s.sr w.reserved_fits),
        hex-four_digits (s.regs 0) (w.regs_fit 0),
        hex-four_digits (s.regs 1) (w.regs_fit 1),
        hex-four_digits (s.regs 3) (w.regs_fit 3),
        hex-four_digits (s.regs 4) (w.regs_fit 4),
        hex-four_digits (s.regs 5) (w.regs_fit 5),
        hex-four_digits (s.regs 6) (w.regs_fit 6),
        hex-four_digits (s.regs 7) (w.regs_fit 7),
        hex-four_digits (s.regs 8) (w.regs_fit 8),
        hex-four_digits (s.regs 9) (w.regs_fit 9),
        hex-four_digits (s.regs 10) (w.regs_fit 10),
        hex-four_digits (s.regs 11) (w.regs_fit 11),
        hex-four_digits (s.regs 12) (w.regs_fit 12),
        hex-four_digits (s.regs 13) (w.regs_fit 13),
        hex-four_digits (s.regs 14) (w.regs_fit 14),
        hex-four_digits (s.regs 15) (w.regs_fit 15),
      )
      refl
