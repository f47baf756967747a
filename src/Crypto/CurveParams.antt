-- ===== src/Crypto/CurveParams.antt =====
-- The constants of src/general/params.c for words of 32 bits: the prime, the order and the generator
-- of the curve P-256, and their Montgomery forms.
use remote_drone.Base.{ℕ, List, [], ◌∷◌}

abbrev pub left_one_mask : ℕ
left_one_mask = 0x80000000

abbrev pub p : List ℕ
p =
    0xFFFFFFFF ∷ 0xFFFFFFFF ∷ 0xFFFFFFFF ∷ 0x00000000 ∷ 0x00000000 ∷ 0x00000000 ∷ 0x00000001
    ∷ 0xFFFFFFFF ∷ []

abbrev pub p_prime : List ℕ
p_prime =
    0x00000001 ∷ 0x00000000 ∷ 0x00000000 ∷ 0x00000001 ∷ 0x00000000 ∷ 0x00000000 ∷ 0x00000002
    ∷ 0xFFFFFFFF ∷ []

abbrev pub rp_2 : List ℕ
rp_2 =
    0x00000003 ∷ 0x00000000 ∷ 0xFFFFFFFF ∷ 0xFFFFFFFB ∷ 0xFFFFFFFE ∷ 0xFFFFFFFF ∷ 0xFFFFFFFD
    ∷ 0x00000004 ∷ []

abbrev pub n : List ℕ
n =
    0xFC632551 ∷ 0xF3B9CAC2 ∷ 0xA7179E84 ∷ 0xBCE6FAAD ∷ 0xFFFFFFFF ∷ 0xFFFFFFFF ∷ 0x00000000
    ∷ 0xFFFFFFFF ∷ []

abbrev pub n_prime : List ℕ
n_prime =
    0xEE00BC4F ∷ 0xCCD1C8AA ∷ 0x7D74D2E4 ∷ 0x48C94408 ∷ 0xC588C6F6 ∷ 0x50FE77EC ∷ 0xA9D6281C
    ∷ 0x60D06633 ∷ []

abbrev pub rn_2 : List ℕ
rn_2 =
    0xBE79EEA2 ∷ 0x83244C95 ∷ 0x49BD6FA6 ∷ 0x4699799C ∷ 0x2B6BEC59 ∷ 0x2845B239 ∷ 0xF3D95620
    ∷ 0x66E12D94 ∷ []

abbrev pub zero_words : List ℕ
zero_words =
    0x00000000 ∷ 0x00000000 ∷ 0x00000000 ∷ 0x00000000 ∷ 0x00000000 ∷ 0x00000000 ∷ 0x00000000
    ∷ 0x00000000 ∷ []

abbrev pub one_words : List ℕ
one_words =
    0x00000001 ∷ 0x00000000 ∷ 0x00000000 ∷ 0x00000000 ∷ 0x00000000 ∷ 0x00000000 ∷ 0x00000000
    ∷ 0x00000000 ∷ []

abbrev pub one_mont : List ℕ
one_mont =
    0x00000001 ∷ 0x00000000 ∷ 0x00000000 ∷ 0xFFFFFFFF ∷ 0xFFFFFFFF ∷ 0xFFFFFFFF ∷ 0xFFFFFFFE
    ∷ 0x00000000 ∷ []

abbrev pub a : List ℕ
a =
    0xFFFFFFFC ∷ 0xFFFFFFFF ∷ 0xFFFFFFFF ∷ 0x00000000 ∷ 0x00000000 ∷ 0x00000000 ∷ 0x00000001
    ∷ 0xFFFFFFFF ∷ []

abbrev pub a_mont : List ℕ
a_mont =
    0xFFFFFFFC ∷ 0xFFFFFFFF ∷ 0xFFFFFFFF ∷ 0x00000003 ∷ 0x00000000 ∷ 0x00000000 ∷ 0x00000004
    ∷ 0xFFFFFFFC ∷ []

abbrev pub b : List ℕ
b =
    0x27D2604B ∷ 0x3BCE3C3E ∷ 0xCC53B0F6 ∷ 0x651D06B0 ∷ 0x769886BC ∷ 0xB3EBBD55 ∷ 0xAA3A93E7
    ∷ 0x5AC635D8 ∷ []

abbrev pub b_mont : List ℕ
b_mont =
    0x29C4BDDF ∷ 0xD89CDF62 ∷ 0x78843090 ∷ 0xACF005CD ∷ 0xF7212ED6 ∷ 0xE5A220AB ∷ 0x04874834
    ∷ 0xDC30061D ∷ []

abbrev pub g_x_mont : List ℕ
g_x_mont =
    0x18A9143C ∷ 0x79E730D4 ∷ 0x5FEDB601 ∷ 0x75BA95FC ∷ 0x77622510 ∷ 0x79FB732B ∷ 0xA53755C6
    ∷ 0x18905F76 ∷ []

abbrev pub g_y_mont : List ℕ
g_y_mont =
    0xCE95560A ∷ 0xDDF25357 ∷ 0xBA19E45C ∷ 0x8B4AB8E4 ∷ 0xDD21F325 ∷ 0xD2E88688 ∷ 0x25885D85
    ∷ 0x8571FF18 ∷ []
