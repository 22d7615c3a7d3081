-- ===== src/Format1/Fields/RoundTrip.antt =====
-- The fields of a format I instruction against its encoding.
use msp430_emulator.Base.{ℕ, ◌+◌, ◌*◌, ◌/◌, ◌%◌, ◌^◌, ◌<◌, ◌≡◌, arith, refl, ◌∙◌, ap}
use msp430_emulator.Base.Bits.{bit_field, bit_and_mask}
use msp430_emulator.Machine.{Width, word, byte}
use msp430_emulator.Format1.Fields.{Fields, fields, width_of}

abbrev pub of_width : Width → ℕ
of_width word = 0
of_width byte = 1

of_width-lt : (w : Width) → of_width w < 2
of_width-lt word = omega arith
of_width-lt byte = omega arith

width_of-of_width : (w : Width) → width_of (of_width w) ≡ w
width_of-of_width word = refl
width_of-of_width byte = refl

-- The layout `[CCCC][SSSS][ABaa][DDDD]`.
abbrev pub encode : Fields → ℕ
encode f =
    f.opcode * 2 ^ 12
    + f.source * 2 ^ 8
    + f.ad_flag * 2 ^ 7
    + of_width f.bw_flag * 2 ^ 6
    + f.as_flag * 2 ^ 4
    + f.destination

-- The fields fit their bits.
pub record IsFields (f : Fields) : Type 0 where
  pub opcode_fits : f.opcode < 2 ^ 4
  pub source_fits : f.source < 2 ^ 4
  pub as_fits : f.as_flag < 2 ^ 2
  pub destination_fits : f.destination < 2 ^ 4
  pub ad_fits : f.ad_flag < 2

pub fields_lem :
    (n : ℕ)
    → fields n ≡ record {
      opcode = n / 2 ^ 12 % 2 ^ 4;
      source = n / 2 ^ 8 % 2 ^ 4;
      as_flag = n / 2 ^ 4 % 2 ^ 2;
      destination = n % 2 ^ 4;
      ad_flag = n / 2 ^ 7 % 2;
      bw_flag = width_of (n / 2 ^ 6 % 2);
    }
unfolding fields
fields_lem n = rw (
  bit_field 12 4 n,
  bit_field 8 4 n,
  bit_field 4 2 n,
  bit_and_mask 4 n,
  bit_field 7 1 n,
  bit_field 6 1 n,
)

-- Decoding the fields of an encoded two-operand instruction gives them back, if each fits its bits.
pub fields-encode : (f : Fields) → IsFields f → fields (encode f) ≡ f
fields-encode f h = fields_lem (encode f) ∙ λ i. record {
  opcode = opcode_back i;
  source = source_back i;
  as_flag = as_back i;
  destination = destination_back i;
  ad_flag = ad_back i;
  bw_flag = bw_back i;
}
  where
    bw_lt : of_width f.bw_flag < 2
    bw_lt = of_width-lt f.bw_flag

    opcode_back : encode f / 2 ^ 12 % 2 ^ 4 ≡ f.opcode
    opcode_back =
        omega (arith, h.opcode_fits, h.source_fits, h.as_fits, h.destination_fits, h.ad_fits, bw_lt)

    source_back : encode f / 2 ^ 8 % 2 ^ 4 ≡ f.source
    source_back =
        omega (arith, h.opcode_fits, h.source_fits, h.as_fits, h.destination_fits, h.ad_fits, bw_lt)

    as_back : encode f / 2 ^ 4 % 2 ^ 2 ≡ f.as_flag
    as_back =
        omega (arith, h.opcode_fits, h.source_fits, h.as_fits, h.destination_fits, h.ad_fits, bw_lt)

    destination_back : encode f % 2 ^ 4 ≡ f.destination
    destination_back =
        omega (arith, h.opcode_fits, h.source_fits, h.as_fits, h.destination_fits, h.ad_fits, bw_lt)

    ad_back : encode f / 2 ^ 7 % 2 ≡ f.ad_flag
    ad_back =
        omega (arith, h.opcode_fits, h.source_fits, h.as_fits, h.destination_fits, h.ad_fits, bw_lt)

    bw_bit : encode f / 2 ^ 6 % 2 ≡ of_width f.bw_flag
    bw_bit =
        omega (arith, h.opcode_fits, h.source_fits, h.as_fits, h.destination_fits, h.ad_fits, bw_lt)

    bw_back : width_of (encode f / 2 ^ 6 % 2) ≡ f.bw_flag
    bw_back = ap width_of bw_bit ∙ width_of-of_width f.bw_flag
