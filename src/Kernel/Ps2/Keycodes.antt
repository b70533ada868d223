-- ===== src/Kernel/Ps2/Keycodes.antt =====
-- The tables of kernel/arch/i686/drivers/ps2_kb.c from scancodes to keycodes: 0xff is unknown, 0xfe a
-- code within a sequence.
use oldasternix.Prelude.{ℕ, List, [], ◌∷◌, get_or, ◌==◌, if◌then◌else◌}

-- `scs2_keycodes[0]`: scancode set 2.
unfoldable pub plain_codes : List ℕ
plain_codes =
    0xff ∷ 0x09 ∷ 0x07 ∷ 0x05 ∷ 0x03 ∷ 0x01 ∷ 0x02 ∷ 0x0c ∷ 0xff ∷ 0x0a ∷ 0x08 ∷ 0x06 ∷ 0x04 ∷ 0x40
    ∷ 0x20 ∷ 0xff ∷ 0xff ∷ 0xa2 ∷ 0x80 ∷ 0xff ∷ 0xa0 ∷ 0x41 ∷ 0x21 ∷ 0xff ∷ 0xff ∷ 0xff ∷ 0x81
    ∷ 0x62 ∷ 0x61 ∷ 0x42 ∷ 0x22 ∷ 0xff ∷ 0xff ∷ 0x83 ∷ 0x82 ∷ 0x63 ∷ 0x43 ∷ 0x24 ∷ 0x23 ∷ 0xff
    ∷ 0xff ∷ 0xa3 ∷ 0x84 ∷ 0x64 ∷ 0x45 ∷ 0x44 ∷ 0x25 ∷ 0xff ∷ 0xff ∷ 0x86 ∷ 0x85 ∷ 0x66 ∷ 0x65
    ∷ 0x46 ∷ 0x26 ∷ 0xff ∷ 0xff ∷ 0xff ∷ 0x87 ∷ 0x67 ∷ 0x47 ∷ 0x27 ∷ 0x28 ∷ 0xff ∷ 0xff ∷ 0x88
    ∷ 0x68 ∷ 0x48 ∷ 0x49 ∷ 0x2a ∷ 0x29 ∷ 0xff ∷ 0xff ∷ 0x89 ∷ 0x8a ∷ 0x69 ∷ 0x6a ∷ 0x4a ∷ 0x2b
    ∷ 0xff ∷ 0xff ∷ 0xff ∷ 0x6b ∷ 0xff ∷ 0x4b ∷ 0x2c ∷ 0xff ∷ 0xff ∷ 0x60 ∷ 0x8b ∷ 0x6c ∷ 0x4c
    ∷ 0xff ∷ 0x4d ∷ 0xff ∷ 0xff ∷ 0xff ∷ 0x91 ∷ 0xff ∷ 0xff ∷ 0xff ∷ 0xff ∷ 0x2d ∷ 0xff ∷ 0xff
    ∷ 0x8d ∷ 0xff ∷ 0x6d ∷ 0x51 ∷ 0xff ∷ 0xff ∷ 0xff ∷ 0xab ∷ 0xac ∷ 0x8e ∷ 0x6e ∷ 0x6f ∷ 0x52
    ∷ 0x00 ∷ 0x31 ∷ 0x0b ∷ 0x54 ∷ 0x8f ∷ 0x34 ∷ 0x33 ∷ 0x53 ∷ 0x0e ∷ 0xff ∷ 0xff ∷ 0xff ∷ 0xff
    ∷ 0x07 ∷ 0xff ∷ 0xff ∷ 0xff ∷ 0xff ∷ 0xff ∷ 0xff ∷ 0xff ∷ 0xff ∷ 0xff ∷ 0xff ∷ 0xff ∷ 0xff
    ∷ 0xff ∷ 0xff ∷ 0xff ∷ 0xff ∷ 0xff ∷ 0xff ∷ 0xff ∷ 0xff ∷ 0xff ∷ 0xff ∷ 0xff ∷ 0xff ∷ 0xff
    ∷ 0xff ∷ 0xff ∷ 0xff ∷ 0xff ∷ 0xff ∷ 0xff ∷ 0xff ∷ 0xff ∷ 0xff ∷ 0xff ∷ 0xff ∷ 0xff ∷ 0xff
    ∷ 0xff ∷ 0xff ∷ 0xff ∷ 0xff ∷ 0xff ∷ 0xff ∷ 0xff ∷ 0xff ∷ 0xff ∷ 0xff ∷ 0xff ∷ 0xff ∷ 0xff
    ∷ 0xff ∷ 0xff ∷ 0xff ∷ 0xff ∷ 0xff ∷ 0xff ∷ 0xff ∷ 0xff ∷ 0xff ∷ 0xff ∷ 0xff ∷ 0xff ∷ 0xff
    ∷ 0xff ∷ 0xff ∷ 0xff ∷ 0xff ∷ 0xff ∷ 0xff ∷ 0xff ∷ 0xff ∷ 0xff ∷ 0xff ∷ 0xff ∷ 0xff ∷ 0xff
    ∷ 0xff ∷ 0xff ∷ 0xff ∷ 0xff ∷ 0xff ∷ 0xff ∷ 0xff ∷ 0xff ∷ 0xff ∷ 0xff ∷ 0xff ∷ 0xff ∷ 0xff
    ∷ 0xff ∷ 0xff ∷ 0xff ∷ 0xff ∷ 0xff ∷ 0xff ∷ 0xff ∷ 0xff ∷ 0xff ∷ 0xff ∷ 0xff ∷ 0xff ∷ 0xff
    ∷ 0xff ∷ 0xff ∷ 0xff ∷ 0xff ∷ 0xff ∷ 0xff ∷ 0xff ∷ 0xff ∷ 0xff ∷ 0xff ∷ 0xff ∷ 0xff ∷ 0xff
    ∷ 0xff ∷ 0xff ∷ 0xff ∷ 0xff ∷ 0xff ∷ 0xff ∷ 0xff ∷ 0xff ∷ []

-- `scs2_keycodes[1]`: scancode set 2 behind the prefix 0xe0.
unfoldable pub extended_codes : List ℕ
extended_codes =
    0xff ∷ 0xff ∷ 0xff ∷ 0xff ∷ 0xff ∷ 0xff ∷ 0xff ∷ 0xff ∷ 0xff ∷ 0xff ∷ 0xff ∷ 0xff ∷ 0xff ∷ 0xff
    ∷ 0xff ∷ 0xff ∷ 0xff ∷ 0xa4 ∷ 0xfe ∷ 0xff ∷ 0xa7 ∷ 0xff ∷ 0xff ∷ 0xff ∷ 0xff ∷ 0xff ∷ 0xff
    ∷ 0xff ∷ 0xff ∷ 0xff ∷ 0xff ∷ 0xa1 ∷ 0xff ∷ 0xff ∷ 0xff ∷ 0xff ∷ 0xff ∷ 0xff ∷ 0xff ∷ 0xa5
    ∷ 0xff ∷ 0xff ∷ 0xff ∷ 0xff ∷ 0xff ∷ 0xff ∷ 0xff ∷ 0xa6 ∷ 0xff ∷ 0xff ∷ 0xff ∷ 0xff ∷ 0xff
    ∷ 0xff ∷ 0xff ∷ 0xff ∷ 0xff ∷ 0xff ∷ 0xff ∷ 0xff ∷ 0xff ∷ 0xff ∷ 0xff ∷ 0xff ∷ 0xff ∷ 0xff
    ∷ 0xff ∷ 0xff ∷ 0xff ∷ 0xff ∷ 0xff ∷ 0xff ∷ 0xff ∷ 0xff ∷ 0x32 ∷ 0xff ∷ 0xff ∷ 0xff ∷ 0xff
    ∷ 0xff ∷ 0xff ∷ 0xff ∷ 0xff ∷ 0xff ∷ 0xff ∷ 0xff ∷ 0xff ∷ 0xff ∷ 0xff ∷ 0xff ∷ 0x90 ∷ 0xff
    ∷ 0xff ∷ 0xff ∷ 0xff ∷ 0xff ∷ 0xff ∷ 0xff ∷ 0xff ∷ 0xff ∷ 0xff ∷ 0xff ∷ 0xff ∷ 0xff ∷ 0xff
    ∷ 0x4f ∷ 0xff ∷ 0xa8 ∷ 0x2f ∷ 0xff ∷ 0xff ∷ 0xff ∷ 0x2e ∷ 0x4e ∷ 0xa9 ∷ 0xff ∷ 0xaa ∷ 0x8c
    ∷ 0xff ∷ 0xff ∷ 0xff ∷ 0xff ∷ 0x50 ∷ 0xff ∷ 0x0d ∷ 0x30 ∷ 0xff ∷ 0xff ∷ 0xff ∷ 0xff ∷ 0xff
    ∷ 0xff ∷ 0xff ∷ 0xff ∷ 0xff ∷ 0xff ∷ 0xff ∷ 0xff ∷ 0xff ∷ 0xff ∷ 0xff ∷ 0xff ∷ 0xff ∷ 0xff
    ∷ 0xff ∷ 0xff ∷ 0xff ∷ 0xff ∷ 0xff ∷ 0xff ∷ 0xff ∷ 0xff ∷ 0xff ∷ 0xff ∷ 0xff ∷ 0xff ∷ 0xff
    ∷ 0xff ∷ 0xff ∷ 0xff ∷ 0xff ∷ 0xff ∷ 0xff ∷ 0xff ∷ 0xff ∷ 0xff ∷ 0xff ∷ 0xff ∷ 0xff ∷ 0xff
    ∷ 0xff ∷ 0xff ∷ 0xff ∷ 0xff ∷ 0xff ∷ 0xff ∷ 0xff ∷ 0xff ∷ 0xff ∷ 0xff ∷ 0xff ∷ 0xff ∷ 0xff
    ∷ 0xff ∷ 0xff ∷ 0xff ∷ 0xff ∷ 0xff ∷ 0xff ∷ 0xff ∷ 0xff ∷ 0xff ∷ 0xff ∷ 0xff ∷ 0xff ∷ 0xff
    ∷ 0xff ∷ 0xff ∷ 0xff ∷ 0xff ∷ 0xff ∷ 0xff ∷ 0xff ∷ 0xff ∷ 0xff ∷ 0xff ∷ 0xff ∷ 0xff ∷ 0xff
    ∷ 0xff ∷ 0xff ∷ 0xff ∷ 0xff ∷ 0xff ∷ 0xff ∷ 0xff ∷ 0xff ∷ 0xff ∷ 0xff ∷ 0xff ∷ 0xff ∷ 0xff
    ∷ 0xff ∷ 0xff ∷ 0xff ∷ 0xff ∷ 0xff ∷ 0xff ∷ 0xff ∷ 0xff ∷ 0xff ∷ 0xff ∷ 0xff ∷ 0xff ∷ 0xff
    ∷ 0xff ∷ 0xff ∷ 0xff ∷ 0xff ∷ 0xff ∷ 0xff ∷ 0xff ∷ 0xff ∷ 0xff ∷ 0xff ∷ 0xff ∷ 0xff ∷ 0xff
    ∷ 0xff ∷ 0xff ∷ 0xff ∷ 0xff ∷ 0xff ∷ 0xff ∷ 0xff ∷ 0xff ∷ []

-- `scs3_keycodes`: scancode set 3.
unfoldable pub scs3_keycodes : List ℕ
scs3_keycodes =
    0xff ∷ 0xff ∷ 0xff ∷ 0xff ∷ 0xff ∷ 0xff ∷ 0xff ∷ 0x01 ∷ 0x00 ∷ 0xff ∷ 0xff ∷ 0xff ∷ 0xff ∷ 0x40
    ∷ 0x20 ∷ 0x02 ∷ 0xff ∷ 0xa0 ∷ 0x80 ∷ 0x91 ∷ 0x60 ∷ 0x41 ∷ 0x21 ∷ 0x03 ∷ 0xff ∷ 0xa2 ∷ 0x81
    ∷ 0x62 ∷ 0x61 ∷ 0x42 ∷ 0x22 ∷ 0x04 ∷ 0xff ∷ 0x83 ∷ 0x82 ∷ 0x63 ∷ 0x43 ∷ 0x24 ∷ 0x23 ∷ 0x05
    ∷ 0xff ∷ 0xa3 ∷ 0x84 ∷ 0x64 ∷ 0x45 ∷ 0x44 ∷ 0x25 ∷ 0x06 ∷ 0xff ∷ 0x86 ∷ 0x85 ∷ 0x66 ∷ 0x65
    ∷ 0x46 ∷ 0x26 ∷ 0x07 ∷ 0xff ∷ 0xa4 ∷ 0x87 ∷ 0x67 ∷ 0x47 ∷ 0x27 ∷ 0x28 ∷ 0x08 ∷ 0xff ∷ 0x88
    ∷ 0x68 ∷ 0x48 ∷ 0x49 ∷ 0x2a ∷ 0x29 ∷ 0x09 ∷ 0xff ∷ 0x89 ∷ 0x8a ∷ 0x69 ∷ 0x6a ∷ 0x4a ∷ 0x2b
    ∷ 0x0a ∷ 0xff ∷ 0xff ∷ 0x6b ∷ 0xff ∷ 0x4b ∷ 0x2c ∷ 0x0b ∷ 0x0d ∷ 0xa7 ∷ 0x8b ∷ 0x6c ∷ 0x4c
    ∷ 0x4d ∷ 0xff ∷ 0x0c ∷ 0x0e ∷ 0xa9 ∷ 0xa8 ∷ 0x0f ∷ 0x8c ∷ 0x4e ∷ 0x4f ∷ 0x2d ∷ 0x2e ∷ 0xff
    ∷ 0x8d ∷ 0xaa ∷ 0x6d ∷ 0x51 ∷ 0x50 ∷ 0x2f ∷ 0x30 ∷ 0xab ∷ 0xac ∷ 0x8e ∷ 0x6e ∷ 0x6f ∷ 0x52
    ∷ 0x31 ∷ 0xff ∷ 0xff ∷ 0x90 ∷ 0x8f ∷ 0xff ∷ 0x54 ∷ 0x53 ∷ 0x33 ∷ 0xff ∷ 0xff ∷ 0xff ∷ 0xff
    ∷ 0xff ∷ 0xff ∷ 0xff ∷ 0xff ∷ 0xff ∷ 0xff ∷ 0xff ∷ 0xff ∷ 0xa1 ∷ 0xa5 ∷ 0xa6 ∷ 0xff ∷ 0xff
    ∷ 0xff ∷ 0xff ∷ 0xff ∷ 0xff ∷ 0xff ∷ 0xff ∷ 0xff ∷ 0xff ∷ 0xff ∷ 0xff ∷ 0xff ∷ 0xff ∷ 0xff
    ∷ 0xff ∷ 0xff ∷ 0xff ∷ 0xff ∷ 0xff ∷ 0xff ∷ 0xff ∷ 0xff ∷ 0xff ∷ 0xff ∷ 0xff ∷ 0xff ∷ 0xff
    ∷ 0xff ∷ 0xff ∷ 0xff ∷ 0xff ∷ 0xff ∷ 0xff ∷ 0xff ∷ 0xff ∷ 0xff ∷ 0xff ∷ 0xff ∷ 0xff ∷ 0xff
    ∷ 0xff ∷ 0xff ∷ 0xff ∷ 0xff ∷ 0xff ∷ 0xff ∷ 0xff ∷ 0xff ∷ 0xff ∷ 0xff ∷ 0xff ∷ 0xff ∷ 0xff
    ∷ 0xff ∷ 0xff ∷ 0xff ∷ 0xff ∷ 0xff ∷ 0xff ∷ 0xff ∷ 0xff ∷ 0xff ∷ 0xff ∷ 0xff ∷ 0xff ∷ 0xff
    ∷ 0xff ∷ 0xff ∷ 0xff ∷ 0xff ∷ 0xff ∷ 0xff ∷ 0xff ∷ 0xff ∷ 0xff ∷ 0xff ∷ 0xff ∷ 0xff ∷ 0xff
    ∷ 0xff ∷ 0xff ∷ 0xff ∷ 0xff ∷ 0xff ∷ 0xff ∷ 0xff ∷ 0xff ∷ 0xff ∷ 0xff ∷ 0xff ∷ 0xff ∷ 0xff
    ∷ 0xff ∷ 0xff ∷ 0xff ∷ 0xff ∷ 0xff ∷ 0xff ∷ 0xff ∷ 0xff ∷ 0xff ∷ 0xff ∷ 0xff ∷ 0xff ∷ 0xff
    ∷ 0xff ∷ 0xff ∷ 0xff ∷ 0xff ∷ 0xff ∷ 0xff ∷ 0xff ∷ 0xff ∷ []

-- `scs2_keycodes[plane][scancode]`, for the planes 0 and 1.
unfoldable pub scs2_keycode : ℕ → ℕ → ℕ
unfolding plain_codes extended_codes
scs2_keycode plane scancode =
    if plane == 0 then get_or plain_codes scancode 0xff else get_or extended_codes scancode 0xff

unfoldable pub scs3_keycode : ℕ → ℕ
unfolding scs3_keycodes
scs3_keycode scancode = get_or scs3_keycodes scancode 0xff
