-- ===== src/Tests/Fields.antt =====
-- Encodings of instructions, of jump offsets and of the status register.
use msp430_emulator.Base.{◌<◌, ◌≤◌, ◌≡◌, ◌↔◌, true, false, arith, u16, ◌+◌}
use msp430_emulator.Status.{cleared, set_sr_value, sr_to_value}
use msp430_emulator.Status.RoundTrip.{value_round_trips}
use msp430_emulator.Machine.{word}
use msp430_emulator.Format1.Fields.{Fields, fields}
use msp430_emulator.Format1.Fields.RoundTrip.{encode, fields-encode}
use msp430_emulator.Format3.{signed_offset, decode_format_iii}
use msp430_emulator.Format3.Target.{offset_bits, target, target_iff, Lands, decode_format_iii_lem}
use msp430_emulator.Tests.Machines.{booted}

-- MOV @SP+, PC.
abbrev ret_fields : Fields
ret_fields = record {
  opcode = 4;
  source = 1;
  as_flag = 3;
  destination = 0;
  ad_flag = 0;
  bw_flag = word;
}

fields-encode_example : fields (encode ret_fields) ≡ ret_fields
fields-encode_example = fields-encode ret_fields (record {
  opcode_fits = omega arith;
  source_fits = omega arith;
  as_fits = omega arith;
  destination_fits = omega arith;
  ad_fits = omega arith;
})

-- JMP over 256 words.
target_iff_example :
    (u16 (0xC002 + signed_offset 0x3D00) ≡ target 0xC002 0x3D00)
    ↔ ¬ ((256 ≤ offset_bits 0x3D00) × (offset_bits 0x3D00 < 512))
target_iff_example = target_iff 0xC002 0x3D00

-- JMP to the instruction itself.
decode_format_iii_lem_example : Lands 0x3FFF booted (decode_format_iii 0x3FFF false booted)
decode_format_iii_lem_example = decode_format_iii_lem 0x3FFF booted (λ p. absurd (omega (arith, p)))

value_round_trips_example :
    (sr_to_value (set_sr_value 0xFE08) ≡ 8)
    × (set_sr_value (sr_to_value (record cleared { reserved = 5; gie = true }))
        ≡ record cleared { gie = true })
value_round_trips_example =
    value_round_trips 0xFE08 (record cleared { reserved = 5; gie = true }) (omega arith)
