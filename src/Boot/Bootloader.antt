-- ===== src/Boot/Bootloader.antt =====
-- The bootloader code `blc` of devices/memory/memspace.h, in parts of 64 bytes.
use msp430_emulator.Base.{ℕ, ◌≡◌, Bool, true, ltb, ◌&&◌, List, [], ◌∷◌, concat, length, refl}

abbrev parts : List (List ℕ)
parts =
    (0x06 ∷ 0x0C ∷ 0x1E ∷ 0x0C ∷ 0xFF ∷ 0x3F ∷ 0xB2 ∷ 0x40 ∷ 0x40 ∷ 0xA5 ∷ 0x2C ∷ 0x01 ∷ 0xB2 ∷ 0x90
      ∷ 0x55 ∷ 0xAA ∷ 0xDE ∷ 0xFF ∷ 0xFF ∷ 0x27 ∷ 0x31 ∷ 0x40 ∷ 0x20 ∷ 0x02 ∷ 0x0B ∷ 0x43 ∷ 0xC0
      ∷ 0x43 ∷ 0xFA ∷ 0xF5 ∷ 0x32 ∷ 0xC2 ∷ 0xF2 ∷ 0xC0 ∷ 0x32 ∷ 0x00 ∷ 0x00 ∷ 0x00 ∷ 0xB2 ∷ 0x40
      ∷ 0x80 ∷ 0x5A ∷ 0x20 ∷ 0x01 ∷ 0xF2 ∷ 0x40 ∷ 0x88 ∷ 0x00 ∷ 0x57 ∷ 0x00 ∷ 0xF2 ∷ 0x40 ∷ 0x80
      ∷ 0x00 ∷ 0x56 ∷ 0x00 ∷ 0xE2 ∷ 0xD3 ∷ 0x21 ∷ 0x00 ∷ 0xE2 ∷ 0xD3 ∷ 0x22 ∷ 0x00 ∷ [])
    ∷ (0xF2 ∷ 0xC0 ∷ 0x22 ∷ 0x00 ∷ 0x26 ∷ 0x00 ∷ 0xF2 ∷ 0xC0 ∷ 0x20 ∷ 0x00 ∷ 0x22 ∷ 0x00 ∷ 0xB2
        ∷ 0x40 ∷ 0x00 ∷ 0xA5 ∷ 0x28 ∷ 0x01 ∷ 0x3B ∷ 0xC0 ∷ 0x7A ∷ 0x00 ∷ 0xB0 ∷ 0x12 ∷ 0x7E ∷ 0x0E
        ∷ 0x82 ∷ 0x43 ∷ 0x12 ∷ 0x02 ∷ 0x09 ∷ 0x43 ∷ 0x36 ∷ 0x40 ∷ 0x0A ∷ 0x02 ∷ 0x37 ∷ 0x42 ∷ 0xB0
        ∷ 0x12 ∷ 0x52 ∷ 0x0F ∷ 0xC6 ∷ 0x4C ∷ 0x00 ∷ 0x00 ∷ 0x16 ∷ 0x53 ∷ 0x17 ∷ 0x83 ∷ 0xF9 ∷ 0x23
        ∷ 0x2B ∷ 0xB3 ∷ 0x26 ∷ 0x20 ∷ 0x55 ∷ 0x42 ∷ 0x0B ∷ 0x02 ∷ 0x75 ∷ 0x90 ∷ 0x12 ∷ 0x00 ∷ [])
    ∷ (0x75 ∷ 0x24 ∷ 0x75 ∷ 0x90 ∷ 0x10 ∷ 0x00 ∷ 0x54 ∷ 0x24 ∷ 0xB0 ∷ 0x12 ∷ 0x50 ∷ 0x0E ∷ 0x55
        ∷ 0x42 ∷ 0x0B ∷ 0x02 ∷ 0x75 ∷ 0x90 ∷ 0x18 ∷ 0x00 ∷ 0x2E ∷ 0x24 ∷ 0x2B ∷ 0xB2 ∷ 0x15 ∷ 0x24
        ∷ 0x75 ∷ 0x90 ∷ 0x20 ∷ 0x00 ∷ 0x15 ∷ 0x24 ∷ 0x75 ∷ 0x90 ∷ 0x16 ∷ 0x00 ∷ 0x22 ∷ 0x24 ∷ 0x75
        ∷ 0x90 ∷ 0x14 ∷ 0x00 ∷ 0x9D ∷ 0x24 ∷ 0x75 ∷ 0x90 ∷ 0x1A ∷ 0x00 ∷ 0x18 ∷ 0x24 ∷ 0x75 ∷ 0x90
        ∷ 0x1C ∷ 0x00 ∷ 0x2F ∷ 0x24 ∷ 0x05 ∷ 0x3C ∷ 0x2B ∷ 0xD2 ∷ 0xB0 ∷ 0x12 ∷ 0xE4 ∷ 0x0E ∷ [])
    ∷ (0xC5 ∷ 0x3F ∷ 0x21 ∷ 0x53 ∷ 0xB0 ∷ 0x12 ∷ 0xEA ∷ 0x0E ∷ 0xC1 ∷ 0x3F ∷ 0xB0 ∷ 0x12 ∷ 0xE4
        ∷ 0x0E ∷ 0xD2 ∷ 0x42 ∷ 0x0E ∷ 0x02 ∷ 0x56 ∷ 0x00 ∷ 0xD2 ∷ 0x42 ∷ 0x0F ∷ 0x02 ∷ 0x57 ∷ 0x00
        ∷ 0xD2 ∷ 0x42 ∷ 0x10 ∷ 0x02 ∷ 0x16 ∷ 0x02 ∷ 0xB5 ∷ 0x3F ∷ 0xB0 ∷ 0x12 ∷ 0xE4 ∷ 0x0E ∷ 0x10
        ∷ 0x42 ∷ 0x0E ∷ 0x02 ∷ 0x16 ∷ 0x42 ∷ 0x0E ∷ 0x02 ∷ 0x15 ∷ 0x43 ∷ 0x07 ∷ 0x3C ∷ 0x36 ∷ 0x40
        ∷ 0xFE ∷ 0xFF ∷ 0xB2 ∷ 0x40 ∷ 0x06 ∷ 0xA5 ∷ 0x10 ∷ 0x02 ∷ 0x35 ∷ 0x40 ∷ 0x0C ∷ 0x00 ∷ [])
    ∷ (0x92 ∷ 0x42 ∷ 0x10 ∷ 0x02 ∷ 0x28 ∷ 0x01 ∷ 0xB6 ∷ 0x43 ∷ 0x00 ∷ 0x00 ∷ 0x92 ∷ 0xB3 ∷ 0x2C
        ∷ 0x01 ∷ 0xFD ∷ 0x23 ∷ 0x15 ∷ 0x83 ∷ 0xF6 ∷ 0x23 ∷ 0xD3 ∷ 0x3F ∷ 0x16 ∷ 0x42 ∷ 0x0E ∷ 0x02
        ∷ 0x17 ∷ 0x42 ∷ 0x10 ∷ 0x02 ∷ 0x35 ∷ 0x43 ∷ 0x75 ∷ 0x96 ∷ 0x03 ∷ 0x20 ∷ 0x17 ∷ 0x83 ∷ 0xFC
        ∷ 0x23 ∷ 0xC9 ∷ 0x3F ∷ 0x82 ∷ 0x46 ∷ 0x00 ∷ 0x02 ∷ 0xCA ∷ 0x3F ∷ 0x36 ∷ 0x40 ∷ 0xE0 ∷ 0xFF
        ∷ 0x37 ∷ 0x40 ∷ 0x20 ∷ 0x00 ∷ 0x0A ∷ 0x12 ∷ 0x0A ∷ 0x43 ∷ 0xB0 ∷ 0x12 ∷ 0x52 ∷ 0x0F ∷ [])
    ∷ (0x7C ∷ 0xE6 ∷ 0x4A ∷ 0xDC ∷ 0x17 ∷ 0x83 ∷ 0xFA ∷ 0x23 ∷ 0xB0 ∷ 0x12 ∷ 0x50 ∷ 0x0E ∷ 0x4A
        ∷ 0x93 ∷ 0x3A ∷ 0x41 ∷ 0xB4 ∷ 0x27 ∷ 0x82 ∷ 0x93 ∷ 0xDE ∷ 0xFF ∷ 0x07 ∷ 0x24 ∷ 0x31 ∷ 0x40
        ∷ 0x00 ∷ 0x10 ∷ 0x04 ∷ 0x12 ∷ 0x31 ∷ 0x90 ∷ 0x22 ∷ 0x02 ∷ 0xFC ∷ 0x23 ∷ 0xC6 ∷ 0x3F ∷ 0xB0
        ∷ 0x12 ∷ 0xEA ∷ 0x0E ∷ 0x70 ∷ 0x3F ∷ 0x16 ∷ 0x42 ∷ 0x0E ∷ 0x02 ∷ 0x17 ∷ 0x42 ∷ 0x10 ∷ 0x02
        ∷ 0x2B ∷ 0xB2 ∷ 0x30 ∷ 0x24 ∷ 0x3B ∷ 0xD0 ∷ 0x10 ∷ 0x00 ∷ 0xB0 ∷ 0x12 ∷ 0x52 ∷ 0x0F ∷ [])
    ∷ (0x2B ∷ 0xB3 ∷ 0x2C ∷ 0x20 ∷ 0x36 ∷ 0x90 ∷ 0x00 ∷ 0x10 ∷ 0x06 ∷ 0x2C ∷ 0x36 ∷ 0x90 ∷ 0x00
        ∷ 0x01 ∷ 0x06 ∷ 0x2C ∷ 0xC6 ∷ 0x4C ∷ 0x00 ∷ 0x00 ∷ 0x1B ∷ 0x3C ∷ 0xB2 ∷ 0x40 ∷ 0x40 ∷ 0xA5
        ∷ 0x28 ∷ 0x01 ∷ 0x16 ∷ 0xB3 ∷ 0x03 ∷ 0x20 ∷ 0xC2 ∷ 0x4C ∷ 0x14 ∷ 0x02 ∷ 0x13 ∷ 0x3C ∷ 0xC2
        ∷ 0x4C ∷ 0x15 ∷ 0x02 ∷ 0x86 ∷ 0x9A ∷ 0xFD ∷ 0xFF ∷ 0x01 ∷ 0x24 ∷ 0x2B ∷ 0xD3 ∷ 0x36 ∷ 0x90
        ∷ 0x01 ∷ 0x02 ∷ 0x04 ∷ 0x28 ∷ 0x3B ∷ 0xD2 ∷ 0x3B ∷ 0xB0 ∷ 0x10 ∷ 0x00 ∷ 0x02 ∷ 0x24 ∷ [])
    ∷ (0x3B ∷ 0xC0 ∷ 0x32 ∷ 0x00 ∷ 0x1A ∷ 0x42 ∷ 0x14 ∷ 0x02 ∷ 0x86 ∷ 0x4A ∷ 0xFF ∷ 0xFF ∷ 0x16
        ∷ 0x53 ∷ 0x17 ∷ 0x83 ∷ 0xD5 ∷ 0x23 ∷ 0xB0 ∷ 0x12 ∷ 0x50 ∷ 0x0E ∷ 0x72 ∷ 0x3F ∷ 0xB0 ∷ 0x12
        ∷ 0x52 ∷ 0x0F ∷ 0x17 ∷ 0x83 ∷ 0xFC ∷ 0x23 ∷ 0xB0 ∷ 0x12 ∷ 0x50 ∷ 0x0E ∷ 0x6F ∷ 0x3F ∷ 0xB2
        ∷ 0x40 ∷ 0x80 ∷ 0x00 ∷ 0x0A ∷ 0x02 ∷ 0xD2 ∷ 0x42 ∷ 0x10 ∷ 0x02 ∷ 0x0C ∷ 0x02 ∷ 0xD2 ∷ 0x42
        ∷ 0x10 ∷ 0x02 ∷ 0x0D ∷ 0x02 ∷ 0x82 ∷ 0x43 ∷ 0x12 ∷ 0x02 ∷ 0x09 ∷ 0x43 ∷ 0x36 ∷ 0x40 ∷ [])
    ∷ (0x0A ∷ 0x02 ∷ 0x27 ∷ 0x42 ∷ 0x7C ∷ 0x46 ∷ 0xB0 ∷ 0x12 ∷ 0xEE ∷ 0x0E ∷ 0x17 ∷ 0x83 ∷ 0xFB
        ∷ 0x23 ∷ 0x16 ∷ 0x42 ∷ 0x0E ∷ 0x02 ∷ 0x17 ∷ 0x42 ∷ 0x10 ∷ 0x02 ∷ 0x36 ∷ 0x90 ∷ 0x00 ∷ 0x01
        ∷ 0x0A ∷ 0x28 ∷ 0xB2 ∷ 0x46 ∷ 0x14 ∷ 0x02 ∷ 0x5C ∷ 0x42 ∷ 0x14 ∷ 0x02 ∷ 0xB0 ∷ 0x12 ∷ 0xEE
        ∷ 0x0E ∷ 0x17 ∷ 0x83 ∷ 0x5C ∷ 0x42 ∷ 0x15 ∷ 0x02 ∷ 0x01 ∷ 0x3C ∷ 0x7C ∷ 0x46 ∷ 0xB0 ∷ 0x12
        ∷ 0xEE ∷ 0x0E ∷ 0x17 ∷ 0x83 ∷ 0xEE ∷ 0x23 ∷ 0xB2 ∷ 0xE3 ∷ 0x12 ∷ 0x02 ∷ 0x5C ∷ 0x42 ∷ [])
    ∷ (0x12 ∷ 0x02 ∷ 0xB0 ∷ 0x12 ∷ 0xEE ∷ 0x0E ∷ 0x5C ∷ 0x42 ∷ 0x13 ∷ 0x02 ∷ 0xB0 ∷ 0x12 ∷ 0xEE
        ∷ 0x0E ∷ 0xFE ∷ 0x3E ∷ 0x18 ∷ 0x42 ∷ 0x12 ∷ 0x02 ∷ 0xB0 ∷ 0x12 ∷ 0x52 ∷ 0x0F ∷ 0xC2 ∷ 0x4C
        ∷ 0x12 ∷ 0x02 ∷ 0xB0 ∷ 0x12 ∷ 0x52 ∷ 0x0F ∷ 0xC2 ∷ 0x4C ∷ 0x13 ∷ 0x02 ∷ 0x38 ∷ 0xE3 ∷ 0x3B
        ∷ 0xB2 ∷ 0x04 ∷ 0x24 ∷ 0x86 ∷ 0x9A ∷ 0xFE ∷ 0xFF ∷ 0x01 ∷ 0x24 ∷ 0x2B ∷ 0xD3 ∷ 0x18 ∷ 0x92
        ∷ 0x12 ∷ 0x02 ∷ 0x25 ∷ 0x23 ∷ 0x2B ∷ 0xB3 ∷ 0x23 ∷ 0x23 ∷ 0x30 ∷ 0x41 ∷ 0xF2 ∷ 0xB0 ∷ [])
    ∷ (0x20 ∷ 0x00 ∷ 0x20 ∷ 0x00 ∷ 0xFC ∷ 0x27 ∷ 0xF2 ∷ 0xB0 ∷ 0x20 ∷ 0x00 ∷ 0x20 ∷ 0x00 ∷ 0xFC
        ∷ 0x23 ∷ 0xB2 ∷ 0x40 ∷ 0x24 ∷ 0x02 ∷ 0x60 ∷ 0x01 ∷ 0xF2 ∷ 0xB0 ∷ 0x20 ∷ 0x00 ∷ 0x20 ∷ 0x00
        ∷ 0xFC ∷ 0x27 ∷ 0x15 ∷ 0x42 ∷ 0x70 ∷ 0x01 ∷ 0x05 ∷ 0x11 ∷ 0x05 ∷ 0x11 ∷ 0x05 ∷ 0x11 ∷ 0x82
        ∷ 0x45 ∷ 0x02 ∷ 0x02 ∷ 0x05 ∷ 0x11 ∷ 0x82 ∷ 0x45 ∷ 0x04 ∷ 0x02 ∷ 0xB2 ∷ 0x80 ∷ 0x1E ∷ 0x00
        ∷ 0x04 ∷ 0x02 ∷ 0x57 ∷ 0x42 ∷ 0x16 ∷ 0x02 ∷ 0x37 ∷ 0x80 ∷ 0x03 ∷ 0x00 ∷ 0x05 ∷ 0x11 ∷ [])
    ∷ (0x05 ∷ 0x11 ∷ 0x17 ∷ 0x53 ∷ 0xFD ∷ 0x23 ∷ 0x35 ∷ 0x50 ∷ 0x40 ∷ 0xA5 ∷ 0x82 ∷ 0x45 ∷ 0x2A
        ∷ 0x01 ∷ 0x35 ∷ 0x42 ∷ 0xB2 ∷ 0x40 ∷ 0x24 ∷ 0x02 ∷ 0x60 ∷ 0x01 ∷ 0x92 ∷ 0x92 ∷ 0x70 ∷ 0x01
        ∷ 0x02 ∷ 0x02 ∷ 0xFC ∷ 0x2F ∷ 0x15 ∷ 0x83 ∷ 0xF7 ∷ 0x23 ∷ 0x09 ∷ 0x43 ∷ 0x7C ∷ 0x40 ∷ 0x90
        ∷ 0x00 ∷ 0x02 ∷ 0x3C ∷ 0x7C ∷ 0x40 ∷ 0xA0 ∷ 0x00 ∷ 0x4D ∷ 0x43 ∷ 0xC9 ∷ 0xEC ∷ 0x12 ∷ 0x02
        ∷ 0x19 ∷ 0xE3 ∷ 0x1B ∷ 0xC3 ∷ 0x45 ∷ 0x4D ∷ 0x55 ∷ 0x45 ∷ 0x00 ∷ 0x0F ∷ 0x00 ∷ 0x55 ∷ [])
    ∷ (0x0C ∷ 0x2E ∷ 0x2E ∷ 0x2E ∷ 0x2E ∷ 0x2E ∷ 0x2E ∷ 0x2E ∷ 0x2E ∷ 0x1A ∷ 0x34 ∷ 0x34 ∷ 0x92
        ∷ 0x42 ∷ 0x70 ∷ 0x01 ∷ 0x72 ∷ 0x01 ∷ 0xB2 ∷ 0x50 ∷ 0x0C ∷ 0x00 ∷ 0x72 ∷ 0x01 ∷ 0x07 ∷ 0x3C
        ∷ 0x1B ∷ 0xB3 ∷ 0x0B ∷ 0x20 ∷ 0x82 ∷ 0x43 ∷ 0x62 ∷ 0x01 ∷ 0x92 ∷ 0xB3 ∷ 0x62 ∷ 0x01 ∷ 0xFD
        ∷ 0x27 ∷ 0xE2 ∷ 0xC3 ∷ 0x21 ∷ 0x00 ∷ 0x0A ∷ 0x3C ∷ 0x4C ∷ 0x11 ∷ 0xF6 ∷ 0x2B ∷ 0x1B ∷ 0xE3
        ∷ 0x82 ∷ 0x43 ∷ 0x62 ∷ 0x01 ∷ 0x92 ∷ 0xB3 ∷ 0x62 ∷ 0x01 ∷ 0xFD ∷ 0x27 ∷ 0xE2 ∷ 0xD3 ∷ [])
    ∷ (0x21 ∷ 0x00 ∷ 0x92 ∷ 0x52 ∷ 0x02 ∷ 0x02 ∷ 0x72 ∷ 0x01 ∷ 0x5D ∷ 0x53 ∷ 0x7D ∷ 0x90 ∷ 0x0C
        ∷ 0x00 ∷ 0xD4 ∷ 0x23 ∷ 0x30 ∷ 0x41 ∷ 0x4E ∷ 0x43 ∷ 0x1B ∷ 0xC3 ∷ 0x45 ∷ 0x4E ∷ 0x55 ∷ 0x45
        ∷ 0x5E ∷ 0x0F ∷ 0x00 ∷ 0x55 ∷ 0x0C ∷ 0x5C ∷ 0x5C ∷ 0x5C ∷ 0x5C ∷ 0x5C ∷ 0x5C ∷ 0x5C ∷ 0x5C
        ∷ 0x3A ∷ 0x7C ∷ 0x00 ∷ 0xF2 ∷ 0xB0 ∷ 0x20 ∷ 0x00 ∷ 0x20 ∷ 0x00 ∷ 0xFC ∷ 0x23 ∷ 0x92 ∷ 0x42
        ∷ 0x70 ∷ 0x01 ∷ 0x72 ∷ 0x01 ∷ 0x92 ∷ 0x52 ∷ 0x04 ∷ 0x02 ∷ 0x72 ∷ 0x01 ∷ 0x82 ∷ 0x43 ∷ [])
    ∷ (0x62 ∷ 0x01 ∷ 0x92 ∷ 0xB3 ∷ 0x62 ∷ 0x01 ∷ 0xFD ∷ 0x27 ∷ 0xF2 ∷ 0xB0 ∷ 0x20 ∷ 0x00 ∷ 0x20
        ∷ 0x00 ∷ 0x20 ∷ 0x28 ∷ 0x2B ∷ 0xD3 ∷ 0x1E ∷ 0x3C ∷ 0x4C ∷ 0x10 ∷ 0x1C ∷ 0x3C ∷ 0x82 ∷ 0x43
        ∷ 0x62 ∷ 0x01 ∷ 0x92 ∷ 0xB3 ∷ 0x62 ∷ 0x01 ∷ 0xFD ∷ 0x27 ∷ 0xF2 ∷ 0xB0 ∷ 0x20 ∷ 0x00 ∷ 0x20
        ∷ 0x00 ∷ 0x01 ∷ 0x28 ∷ 0x1B ∷ 0xE3 ∷ 0x1B ∷ 0xB3 ∷ 0x01 ∷ 0x24 ∷ 0x2B ∷ 0xD3 ∷ 0xC9 ∷ 0xEC
        ∷ 0x12 ∷ 0x02 ∷ 0x19 ∷ 0xE3 ∷ 0x0B ∷ 0x3C ∷ 0x82 ∷ 0x43 ∷ 0x62 ∷ 0x01 ∷ 0x92 ∷ 0xB3 ∷ [])
    ∷ (0x62 ∷ 0x01 ∷ 0xFD ∷ 0x27 ∷ 0xF2 ∷ 0xB0 ∷ 0x20 ∷ 0x00 ∷ 0x20 ∷ 0x00 ∷ 0xE4 ∷ 0x2B ∷ 0x4C
        ∷ 0x10 ∷ 0x1B ∷ 0xE3 ∷ 0x92 ∷ 0x52 ∷ 0x02 ∷ 0x02 ∷ 0x72 ∷ 0x01 ∷ 0x5E ∷ 0x53 ∷ 0xBE ∷ 0x3F
        ∷ 0x82 ∷ 0x43 ∷ 0x62 ∷ 0x01 ∷ 0x92 ∷ 0xB3 ∷ 0x62 ∷ 0x01 ∷ 0xFD ∷ 0x27 ∷ 0xF2 ∷ 0xB0 ∷ 0x20
        ∷ 0x00 ∷ 0x20 ∷ 0x00 ∷ 0x01 ∷ 0x2C ∷ 0x2B ∷ 0xD3 ∷ 0x30 ∷ 0x41 ∷ 0x25 ∷ 0x53 ∷ 0x00 ∷ 0x60
        ∷ 0x00 ∷ 0x00 ∷ 0x00 ∷ 0x00 ∷ 0x00 ∷ 0x00 ∷ 0x02 ∷ 0x03 ∷ 0x01 ∷ 0x00 ∷ 0x26 ∷ 0x30 ∷ [])
    ∷ []

-- `blc`
unfoldable pub blc : List ℕ
blc = concat parts

abbrev pub are_bytes : List ℕ → Bool
are_bytes [] = true
are_bytes (b ∷ bs) = ltb b 0x100 && are_bytes bs

pub blc-are_bytes : are_bytes blc ≡ true
unfolding blc
blc-are_bytes = refl

pub length-blc : length blc ≡ 1024
unfolding blc
length-blc = refl
