-- ===== src/Crypto/Aes/Te1.antt =====
-- The table `TE1` of src/crypto/aes.c, read as 256 words, each as its four bytes in memory.
use remote_drone.Base.{ℕ, List, [], ◌∷◌}

-- `TE1`.
abbrev pub te_1 : List (List ℕ)
te_1 =
    (0xa5 ∷ 0xc6 ∷ 0x63 ∷ 0x63 ∷ [])
    ∷ (0x84 ∷ 0xf8 ∷ 0x7c ∷ 0x7c ∷ [])
    ∷ (0x99 ∷ 0xee ∷ 0x77 ∷ 0x77 ∷ [])
    ∷ (0x8d ∷ 0xf6 ∷ 0x7b ∷ 0x7b ∷ [])
    ∷ (0x0d ∷ 0xff ∷ 0xf2 ∷ 0xf2 ∷ [])
    ∷ (0xbd ∷ 0xd6 ∷ 0x6b ∷ 0x6b ∷ [])
    ∷ (0xb1 ∷ 0xde ∷ 0x6f ∷ 0x6f ∷ [])
    ∷ (0x54 ∷ 0x91 ∷ 0xc5 ∷ 0xc5 ∷ [])
    ∷ (0x50 ∷ 0x60 ∷ 0x30 ∷ 0x30 ∷ [])
    ∷ (0x03 ∷ 0x02 ∷ 0x01 ∷ 0x01 ∷ [])
    ∷ (0xa9 ∷ 0xce ∷ 0x67 ∷ 0x67 ∷ [])
    ∷ (0x7d ∷ 0x56 ∷ 0x2b ∷ 0x2b ∷ [])
    ∷ (0x19 ∷ 0xe7 ∷ 0xfe ∷ 0xfe ∷ [])
    ∷ (0x62 ∷ 0xb5 ∷ 0xd7 ∷ 0xd7 ∷ [])
    ∷ (0xe6 ∷ 0x4d ∷ 0xab ∷ 0xab ∷ [])
    ∷ (0x9a ∷ 0xec ∷ 0x76 ∷ 0x76 ∷ [])
    ∷ (0x45 ∷ 0x8f ∷ 0xca ∷ 0xca ∷ [])
    ∷ (0x9d ∷ 0x1f ∷ 0x82 ∷ 0x82 ∷ [])
    ∷ (0x40 ∷ 0x89 ∷ 0xc9 ∷ 0xc9 ∷ [])
    ∷ (0x87 ∷ 0xfa ∷ 0x7d ∷ 0x7d ∷ [])
    ∷ (0x15 ∷ 0xef ∷ 0xfa ∷ 0xfa ∷ [])
    ∷ (0xeb ∷ 0xb2 ∷ 0x59 ∷ 0x59 ∷ [])
    ∷ (0xc9 ∷ 0x8e ∷ 0x47 ∷ 0x47 ∷ [])
    ∷ (0x0b ∷ 0xfb ∷ 0xf0 ∷ 0xf0 ∷ [])
    ∷ (0xec ∷ 0x41 ∷ 0xad ∷ 0xad ∷ [])
    ∷ (0x67 ∷ 0xb3 ∷ 0xd4 ∷ 0xd4 ∷ [])
    ∷ (0xfd ∷ 0x5f ∷ 0xa2 ∷ 0xa2 ∷ [])
    ∷ (0xea ∷ 0x45 ∷ 0xaf ∷ 0xaf ∷ [])
    ∷ (0xbf ∷ 0x23 ∷ 0x9c ∷ 0x9c ∷ [])
    ∷ (0xf7 ∷ 0x53 ∷ 0xa4 ∷ 0xa4 ∷ [])
    ∷ (0x96 ∷ 0xe4 ∷ 0x72 ∷ 0x72 ∷ [])
    ∷ (0x5b ∷ 0x9b ∷ 0xc0 ∷ 0xc0 ∷ [])
    ∷ (0xc2 ∷ 0x75 ∷ 0xb7 ∷ 0xb7 ∷ [])
    ∷ (0x1c ∷ 0xe1 ∷ 0xfd ∷ 0xfd ∷ [])
    ∷ (0xae ∷ 0x3d ∷ 0x93 ∷ 0x93 ∷ [])
    ∷ (0x6a ∷ 0x4c ∷ 0x26 ∷ 0x26 ∷ [])
    ∷ (0x5a ∷ 0x6c ∷ 0x36 ∷ 0x36 ∷ [])
    ∷ (0x41 ∷ 0x7e ∷ 0x3f ∷ 0x3f ∷ [])
    ∷ (0x02 ∷ 0xf5 ∷ 0xf7 ∷ 0xf7 ∷ [])
    ∷ (0x4f ∷ 0x83 ∷ 0xcc ∷ 0xcc ∷ [])
    ∷ (0x5c ∷ 0x68 ∷ 0x34 ∷ 0x34 ∷ [])
    ∷ (0xf4 ∷ 0x51 ∷ 0xa5 ∷ 0xa5 ∷ [])
    ∷ (0x34 ∷ 0xd1 ∷ 0xe5 ∷ 0xe5 ∷ [])
    ∷ (0x08 ∷ 0xf9 ∷ 0xf1 ∷ 0xf1 ∷ [])
    ∷ (0x93 ∷ 0xe2 ∷ 0x71 ∷ 0x71 ∷ [])
    ∷ (0x73 ∷ 0xab ∷ 0xd8 ∷ 0xd8 ∷ [])
    ∷ (0x53 ∷ 0x62 ∷ 0x31 ∷ 0x31 ∷ [])
    ∷ (0x3f ∷ 0x2a ∷ 0x15 ∷ 0x15 ∷ [])
    ∷ (0x0c ∷ 0x08 ∷ 0x04 ∷ 0x04 ∷ [])
    ∷ (0x52 ∷ 0x95 ∷ 0xc7 ∷ 0xc7 ∷ [])
    ∷ (0x65 ∷ 0x46 ∷ 0x23 ∷ 0x23 ∷ [])
    ∷ (0x5e ∷ 0x9d ∷ 0xc3 ∷ 0xc3 ∷ [])
    ∷ (0x28 ∷ 0x30 ∷ 0x18 ∷ 0x18 ∷ [])
    ∷ (0xa1 ∷ 0x37 ∷ 0x96 ∷ 0x96 ∷ [])
    ∷ (0x0f ∷ 0x0a ∷ 0x05 ∷ 0x05 ∷ [])
    ∷ (0xb5 ∷ 0x2f ∷ 0x9a ∷ 0x9a ∷ [])
    ∷ (0x09 ∷ 0x0e ∷ 0x07 ∷ 0x07 ∷ [])
    ∷ (0x36 ∷ 0x24 ∷ 0x12 ∷ 0x12 ∷ [])
    ∷ (0x9b ∷ 0x1b ∷ 0x80 ∷ 0x80 ∷ [])
    ∷ (0x3d ∷ 0xdf ∷ 0xe2 ∷ 0xe2 ∷ [])
    ∷ (0x26 ∷ 0xcd ∷ 0xeb ∷ 0xeb ∷ [])
    ∷ (0x69 ∷ 0x4e ∷ 0x27 ∷ 0x27 ∷ [])
    ∷ (0xcd ∷ 0x7f ∷ 0xb2 ∷ 0xb2 ∷ [])
    ∷ (0x9f ∷ 0xea ∷ 0x75 ∷ 0x75 ∷ [])
    ∷ (0x1b ∷ 0x12 ∷ 0x09 ∷ 0x09 ∷ [])
    ∷ (0x9e ∷ 0x1d ∷ 0x83 ∷ 0x83 ∷ [])
    ∷ (0x74 ∷ 0x58 ∷ 0x2c ∷ 0x2c ∷ [])
    ∷ (0x2e ∷ 0x34 ∷ 0x1a ∷ 0x1a ∷ [])
    ∷ (0x2d ∷ 0x36 ∷ 0x1b ∷ 0x1b ∷ [])
    ∷ (0xb2 ∷ 0xdc ∷ 0x6e ∷ 0x6e ∷ [])
    ∷ (0xee ∷ 0xb4 ∷ 0x5a ∷ 0x5a ∷ [])
    ∷ (0xfb ∷ 0x5b ∷ 0xa0 ∷ 0xa0 ∷ [])
    ∷ (0xf6 ∷ 0xa4 ∷ 0x52 ∷ 0x52 ∷ [])
    ∷ (0x4d ∷ 0x76 ∷ 0x3b ∷ 0x3b ∷ [])
    ∷ (0x61 ∷ 0xb7 ∷ 0xd6 ∷ 0xd6 ∷ [])
    ∷ (0xce ∷ 0x7d ∷ 0xb3 ∷ 0xb3 ∷ [])
    ∷ (0x7b ∷ 0x52 ∷ 0x29 ∷ 0x29 ∷ [])
    ∷ (0x3e ∷ 0xdd ∷ 0xe3 ∷ 0xe3 ∷ [])
    ∷ (0x71 ∷ 0x5e ∷ 0x2f ∷ 0x2f ∷ [])
    ∷ (0x97 ∷ 0x13 ∷ 0x84 ∷ 0x84 ∷ [])
    ∷ (0xf5 ∷ 0xa6 ∷ 0x53 ∷ 0x53 ∷ [])
    ∷ (0x68 ∷ 0xb9 ∷ 0xd1 ∷ 0xd1 ∷ [])
    ∷ (0x00 ∷ 0x00 ∷ 0x00 ∷ 0x00 ∷ [])
    ∷ (0x2c ∷ 0xc1 ∷ 0xed ∷ 0xed ∷ [])
    ∷ (0x60 ∷ 0x40 ∷ 0x20 ∷ 0x20 ∷ [])
    ∷ (0x1f ∷ 0xe3 ∷ 0xfc ∷ 0xfc ∷ [])
    ∷ (0xc8 ∷ 0x79 ∷ 0xb1 ∷ 0xb1 ∷ [])
    ∷ (0xed ∷ 0xb6 ∷ 0x5b ∷ 0x5b ∷ [])
    ∷ (0xbe ∷ 0xd4 ∷ 0x6a ∷ 0x6a ∷ [])
    ∷ (0x46 ∷ 0x8d ∷ 0xcb ∷ 0xcb ∷ [])
    ∷ (0xd9 ∷ 0x67 ∷ 0xbe ∷ 0xbe ∷ [])
    ∷ (0x4b ∷ 0x72 ∷ 0x39 ∷ 0x39 ∷ [])
    ∷ (0xde ∷ 0x94 ∷ 0x4a ∷ 0x4a ∷ [])
    ∷ (0xd4 ∷ 0x98 ∷ 0x4c ∷ 0x4c ∷ [])
    ∷ (0xe8 ∷ 0xb0 ∷ 0x58 ∷ 0x58 ∷ [])
    ∷ (0x4a ∷ 0x85 ∷ 0xcf ∷ 0xcf ∷ [])
    ∷ (0x6b ∷ 0xbb ∷ 0xd0 ∷ 0xd0 ∷ [])
    ∷ (0x2a ∷ 0xc5 ∷ 0xef ∷ 0xef ∷ [])
    ∷ (0xe5 ∷ 0x4f ∷ 0xaa ∷ 0xaa ∷ [])
    ∷ (0x16 ∷ 0xed ∷ 0xfb ∷ 0xfb ∷ [])
    ∷ (0xc5 ∷ 0x86 ∷ 0x43 ∷ 0x43 ∷ [])
    ∷ (0xd7 ∷ 0x9a ∷ 0x4d ∷ 0x4d ∷ [])
    ∷ (0x55 ∷ 0x66 ∷ 0x33 ∷ 0x33 ∷ [])
    ∷ (0x94 ∷ 0x11 ∷ 0x85 ∷ 0x85 ∷ [])
    ∷ (0xcf ∷ 0x8a ∷ 0x45 ∷ 0x45 ∷ [])
    ∷ (0x10 ∷ 0xe9 ∷ 0xf9 ∷ 0xf9 ∷ [])
    ∷ (0x06 ∷ 0x04 ∷ 0x02 ∷ 0x02 ∷ [])
    ∷ (0x81 ∷ 0xfe ∷ 0x7f ∷ 0x7f ∷ [])
    ∷ (0xf0 ∷ 0xa0 ∷ 0x50 ∷ 0x50 ∷ [])
    ∷ (0x44 ∷ 0x78 ∷ 0x3c ∷ 0x3c ∷ [])
    ∷ (0xba ∷ 0x25 ∷ 0x9f ∷ 0x9f ∷ [])
    ∷ (0xe3 ∷ 0x4b ∷ 0xa8 ∷ 0xa8 ∷ [])
    ∷ (0xf3 ∷ 0xa2 ∷ 0x51 ∷ 0x51 ∷ [])
    ∷ (0xfe ∷ 0x5d ∷ 0xa3 ∷ 0xa3 ∷ [])
    ∷ (0xc0 ∷ 0x80 ∷ 0x40 ∷ 0x40 ∷ [])
    ∷ (0x8a ∷ 0x05 ∷ 0x8f ∷ 0x8f ∷ [])
    ∷ (0xad ∷ 0x3f ∷ 0x92 ∷ 0x92 ∷ [])
    ∷ (0xbc ∷ 0x21 ∷ 0x9d ∷ 0x9d ∷ [])
    ∷ (0x48 ∷ 0x70 ∷ 0x38 ∷ 0x38 ∷ [])
    ∷ (0x04 ∷ 0xf1 ∷ 0xf5 ∷ 0xf5 ∷ [])
    ∷ (0xdf ∷ 0x63 ∷ 0xbc ∷ 0xbc ∷ [])
    ∷ (0xc1 ∷ 0x77 ∷ 0xb6 ∷ 0xb6 ∷ [])
    ∷ (0x75 ∷ 0xaf ∷ 0xda ∷ 0xda ∷ [])
    ∷ (0x63 ∷ 0x42 ∷ 0x21 ∷ 0x21 ∷ [])
    ∷ (0x30 ∷ 0x20 ∷ 0x10 ∷ 0x10 ∷ [])
    ∷ (0x1a ∷ 0xe5 ∷ 0xff ∷ 0xff ∷ [])
    ∷ (0x0e ∷ 0xfd ∷ 0xf3 ∷ 0xf3 ∷ [])
    ∷ (0x6d ∷ 0xbf ∷ 0xd2 ∷ 0xd2 ∷ [])
    ∷ (0x4c ∷ 0x81 ∷ 0xcd ∷ 0xcd ∷ [])
    ∷ (0x14 ∷ 0x18 ∷ 0x0c ∷ 0x0c ∷ [])
    ∷ (0x35 ∷ 0x26 ∷ 0x13 ∷ 0x13 ∷ [])
    ∷ (0x2f ∷ 0xc3 ∷ 0xec ∷ 0xec ∷ [])
    ∷ (0xe1 ∷ 0xbe ∷ 0x5f ∷ 0x5f ∷ [])
    ∷ (0xa2 ∷ 0x35 ∷ 0x97 ∷ 0x97 ∷ [])
    ∷ (0xcc ∷ 0x88 ∷ 0x44 ∷ 0x44 ∷ [])
    ∷ (0x39 ∷ 0x2e ∷ 0x17 ∷ 0x17 ∷ [])
    ∷ (0x57 ∷ 0x93 ∷ 0xc4 ∷ 0xc4 ∷ [])
    ∷ (0xf2 ∷ 0x55 ∷ 0xa7 ∷ 0xa7 ∷ [])
    ∷ (0x82 ∷ 0xfc ∷ 0x7e ∷ 0x7e ∷ [])
    ∷ (0x47 ∷ 0x7a ∷ 0x3d ∷ 0x3d ∷ [])
    ∷ (0xac ∷ 0xc8 ∷ 0x64 ∷ 0x64 ∷ [])
    ∷ (0xe7 ∷ 0xba ∷ 0x5d ∷ 0x5d ∷ [])
    ∷ (0x2b ∷ 0x32 ∷ 0x19 ∷ 0x19 ∷ [])
    ∷ (0x95 ∷ 0xe6 ∷ 0x73 ∷ 0x73 ∷ [])
    ∷ (0xa0 ∷ 0xc0 ∷ 0x60 ∷ 0x60 ∷ [])
    ∷ (0x98 ∷ 0x19 ∷ 0x81 ∷ 0x81 ∷ [])
    ∷ (0xd1 ∷ 0x9e ∷ 0x4f ∷ 0x4f ∷ [])
    ∷ (0x7f ∷ 0xa3 ∷ 0xdc ∷ 0xdc ∷ [])
    ∷ (0x66 ∷ 0x44 ∷ 0x22 ∷ 0x22 ∷ [])
    ∷ (0x7e ∷ 0x54 ∷ 0x2a ∷ 0x2a ∷ [])
    ∷ (0xab ∷ 0x3b ∷ 0x90 ∷ 0x90 ∷ [])
    ∷ (0x83 ∷ 0x0b ∷ 0x88 ∷ 0x88 ∷ [])
    ∷ (0xca ∷ 0x8c ∷ 0x46 ∷ 0x46 ∷ [])
    ∷ (0x29 ∷ 0xc7 ∷ 0xee ∷ 0xee ∷ [])
    ∷ (0xd3 ∷ 0x6b ∷ 0xb8 ∷ 0xb8 ∷ [])
    ∷ (0x3c ∷ 0x28 ∷ 0x14 ∷ 0x14 ∷ [])
    ∷ (0x79 ∷ 0xa7 ∷ 0xde ∷ 0xde ∷ [])
    ∷ (0xe2 ∷ 0xbc ∷ 0x5e ∷ 0x5e ∷ [])
    ∷ (0x1d ∷ 0x16 ∷ 0x0b ∷ 0x0b ∷ [])
    ∷ (0x76 ∷ 0xad ∷ 0xdb ∷ 0xdb ∷ [])
    ∷ (0x3b ∷ 0xdb ∷ 0xe0 ∷ 0xe0 ∷ [])
    ∷ (0x56 ∷ 0x64 ∷ 0x32 ∷ 0x32 ∷ [])
    ∷ (0x4e ∷ 0x74 ∷ 0x3a ∷ 0x3a ∷ [])
    ∷ (0x1e ∷ 0x14 ∷ 0x0a ∷ 0x0a ∷ [])
    ∷ (0xdb ∷ 0x92 ∷ 0x49 ∷ 0x49 ∷ [])
    ∷ (0x0a ∷ 0x0c ∷ 0x06 ∷ 0x06 ∷ [])
    ∷ (0x6c ∷ 0x48 ∷ 0x24 ∷ 0x24 ∷ [])
    ∷ (0xe4 ∷ 0xb8 ∷ 0x5c ∷ 0x5c ∷ [])
    ∷ (0x5d ∷ 0x9f ∷ 0xc2 ∷ 0xc2 ∷ [])
    ∷ (0x6e ∷ 0xbd ∷ 0xd3 ∷ 0xd3 ∷ [])
    ∷ (0xef ∷ 0x43 ∷ 0xac ∷ 0xac ∷ [])
    ∷ (0xa6 ∷ 0xc4 ∷ 0x62 ∷ 0x62 ∷ [])
    ∷ (0xa8 ∷ 0x39 ∷ 0x91 ∷ 0x91 ∷ [])
    ∷ (0xa4 ∷ 0x31 ∷ 0x95 ∷ 0x95 ∷ [])
    ∷ (0x37 ∷ 0xd3 ∷ 0xe4 ∷ 0xe4 ∷ [])
    ∷ (0x8b ∷ 0xf2 ∷ 0x79 ∷ 0x79 ∷ [])
    ∷ (0x32 ∷ 0xd5 ∷ 0xe7 ∷ 0xe7 ∷ [])
    ∷ (0x43 ∷ 0x8b ∷ 0xc8 ∷ 0xc8 ∷ [])
    ∷ (0x59 ∷ 0x6e ∷ 0x37 ∷ 0x37 ∷ [])
    ∷ (0xb7 ∷ 0xda ∷ 0x6d ∷ 0x6d ∷ [])
    ∷ (0x8c ∷ 0x01 ∷ 0x8d ∷ 0x8d ∷ [])
    ∷ (0x64 ∷ 0xb1 ∷ 0xd5 ∷ 0xd5 ∷ [])
    ∷ (0xd2 ∷ 0x9c ∷ 0x4e ∷ 0x4e ∷ [])
    ∷ (0xe0 ∷ 0x49 ∷ 0xa9 ∷ 0xa9 ∷ [])
    ∷ (0xb4 ∷ 0xd8 ∷ 0x6c ∷ 0x6c ∷ [])
    ∷ (0xfa ∷ 0xac ∷ 0x56 ∷ 0x56 ∷ [])
    ∷ (0x07 ∷ 0xf3 ∷ 0xf4 ∷ 0xf4 ∷ [])
    ∷ (0x25 ∷ 0xcf ∷ 0xea ∷ 0xea ∷ [])
    ∷ (0xaf ∷ 0xca ∷ 0x65 ∷ 0x65 ∷ [])
    ∷ (0x8e ∷ 0xf4 ∷ 0x7a ∷ 0x7a ∷ [])
    ∷ (0xe9 ∷ 0x47 ∷ 0xae ∷ 0xae ∷ [])
    ∷ (0x18 ∷ 0x10 ∷ 0x08 ∷ 0x08 ∷ [])
    ∷ (0xd5 ∷ 0x6f ∷ 0xba ∷ 0xba ∷ [])
    ∷ (0x88 ∷ 0xf0 ∷ 0x78 ∷ 0x78 ∷ [])
    ∷ (0x6f ∷ 0x4a ∷ 0x25 ∷ 0x25 ∷ [])
    ∷ (0x72 ∷ 0x5c ∷ 0x2e ∷ 0x2e ∷ [])
    ∷ (0x24 ∷ 0x38 ∷ 0x1c ∷ 0x1c ∷ [])
    ∷ (0xf1 ∷ 0x57 ∷ 0xa6 ∷ 0xa6 ∷ [])
    ∷ (0xc7 ∷ 0x73 ∷ 0xb4 ∷ 0xb4 ∷ [])
    ∷ (0x51 ∷ 0x97 ∷ 0xc6 ∷ 0xc6 ∷ [])
    ∷ (0x23 ∷ 0xcb ∷ 0xe8 ∷ 0xe8 ∷ [])
    ∷ (0x7c ∷ 0xa1 ∷ 0xdd ∷ 0xdd ∷ [])
    ∷ (0x9c ∷ 0xe8 ∷ 0x74 ∷ 0x74 ∷ [])
    ∷ (0x21 ∷ 0x3e ∷ 0x1f ∷ 0x1f ∷ [])
    ∷ (0xdd ∷ 0x96 ∷ 0x4b ∷ 0x4b ∷ [])
    ∷ (0xdc ∷ 0x61 ∷ 0xbd ∷ 0xbd ∷ [])
    ∷ (0x86 ∷ 0x0d ∷ 0x8b ∷ 0x8b ∷ [])
    ∷ (0x85 ∷ 0x0f ∷ 0x8a ∷ 0x8a ∷ [])
    ∷ (0x90 ∷ 0xe0 ∷ 0x70 ∷ 0x70 ∷ [])
    ∷ (0x42 ∷ 0x7c ∷ 0x3e ∷ 0x3e ∷ [])
    ∷ (0xc4 ∷ 0x71 ∷ 0xb5 ∷ 0xb5 ∷ [])
    ∷ (0xaa ∷ 0xcc ∷ 0x66 ∷ 0x66 ∷ [])
    ∷ (0xd8 ∷ 0x90 ∷ 0x48 ∷ 0x48 ∷ [])
    ∷ (0x05 ∷ 0x06 ∷ 0x03 ∷ 0x03 ∷ [])
    ∷ (0x01 ∷ 0xf7 ∷ 0xf6 ∷ 0xf6 ∷ [])
    ∷ (0x12 ∷ 0x1c ∷ 0x0e ∷ 0x0e ∷ [])
    ∷ (0xa3 ∷ 0xc2 ∷ 0x61 ∷ 0x61 ∷ [])
    ∷ (0x5f ∷ 0x6a ∷ 0x35 ∷ 0x35 ∷ [])
    ∷ (0xf9 ∷ 0xae ∷ 0x57 ∷ 0x57 ∷ [])
    ∷ (0xd0 ∷ 0x69 ∷ 0xb9 ∷ 0xb9 ∷ [])
    ∷ (0x91 ∷ 0x17 ∷ 0x86 ∷ 0x86 ∷ [])
    ∷ (0x58 ∷ 0x99 ∷ 0xc1 ∷ 0xc1 ∷ [])
    ∷ (0x27 ∷ 0x3a ∷ 0x1d ∷ 0x1d ∷ [])
    ∷ (0xb9 ∷ 0x27 ∷ 0x9e ∷ 0x9e ∷ [])
    ∷ (0x38 ∷ 0xd9 ∷ 0xe1 ∷ 0xe1 ∷ [])
    ∷ (0x13 ∷ 0xeb ∷ 0xf8 ∷ 0xf8 ∷ [])
    ∷ (0xb3 ∷ 0x2b ∷ 0x98 ∷ 0x98 ∷ [])
    ∷ (0x33 ∷ 0x22 ∷ 0x11 ∷ 0x11 ∷ [])
    ∷ (0xbb ∷ 0xd2 ∷ 0x69 ∷ 0x69 ∷ [])
    ∷ (0x70 ∷ 0xa9 ∷ 0xd9 ∷ 0xd9 ∷ [])
    ∷ (0x89 ∷ 0x07 ∷ 0x8e ∷ 0x8e ∷ [])
    ∷ (0xa7 ∷ 0x33 ∷ 0x94 ∷ 0x94 ∷ [])
    ∷ (0xb6 ∷ 0x2d ∷ 0x9b ∷ 0x9b ∷ [])
    ∷ (0x22 ∷ 0x3c ∷ 0x1e ∷ 0x1e ∷ [])
    ∷ (0x92 ∷ 0x15 ∷ 0x87 ∷ 0x87 ∷ [])
    ∷ (0x20 ∷ 0xc9 ∷ 0xe9 ∷ 0xe9 ∷ [])
    ∷ (0x49 ∷ 0x87 ∷ 0xce ∷ 0xce ∷ [])
    ∷ (0xff ∷ 0xaa ∷ 0x55 ∷ 0x55 ∷ [])
    ∷ (0x78 ∷ 0x50 ∷ 0x28 ∷ 0x28 ∷ [])
    ∷ (0x7a ∷ 0xa5 ∷ 0xdf ∷ 0xdf ∷ [])
    ∷ (0x8f ∷ 0x03 ∷ 0x8c ∷ 0x8c ∷ [])
    ∷ (0xf8 ∷ 0x59 ∷ 0xa1 ∷ 0xa1 ∷ [])
    ∷ (0x80 ∷ 0x09 ∷ 0x89 ∷ 0x89 ∷ [])
    ∷ (0x17 ∷ 0x1a ∷ 0x0d ∷ 0x0d ∷ [])
    ∷ (0xda ∷ 0x65 ∷ 0xbf ∷ 0xbf ∷ [])
    ∷ (0x31 ∷ 0xd7 ∷ 0xe6 ∷ 0xe6 ∷ [])
    ∷ (0xc6 ∷ 0x84 ∷ 0x42 ∷ 0x42 ∷ [])
    ∷ (0xb8 ∷ 0xd0 ∷ 0x68 ∷ 0x68 ∷ [])
    ∷ (0xc3 ∷ 0x82 ∷ 0x41 ∷ 0x41 ∷ [])
    ∷ (0xb0 ∷ 0x29 ∷ 0x99 ∷ 0x99 ∷ [])
    ∷ (0x77 ∷ 0x5a ∷ 0x2d ∷ 0x2d ∷ [])
    ∷ (0x11 ∷ 0x1e ∷ 0x0f ∷ 0x0f ∷ [])
    ∷ (0xcb ∷ 0x7b ∷ 0xb0 ∷ 0xb0 ∷ [])
    ∷ (0xfc ∷ 0xa8 ∷ 0x54 ∷ 0x54 ∷ [])
    ∷ (0xd6 ∷ 0x6d ∷ 0xbb ∷ 0xbb ∷ [])
    ∷ (0x3a ∷ 0x2c ∷ 0x16 ∷ 0x16 ∷ [])
    ∷ []
