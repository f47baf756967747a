-- ===== src/Tests/Crypto.antt =====
-- Tests of src/crypto and src/general, on the field prime of src/general/params.c (SIZE_32) and
-- small arrays.
use remote_drone.Base.{
  ℕ, ◌+◌, ◌*◌, ◌%◌, ◌^◌, ◌<◌, true, List, [], ◌∷◌, ◌++◌, ◌≡◌, refl, arith, get_or, take, length,
  replicate,
}
use remote_drone.Crypto.ModArithmetic.{word_mod, array_size}
use remote_drone.Crypto.ModArithmetic.Value.{IsArray, value}
use remote_drone.Crypto.Montgomery.{mont_mul}
use remote_drone.Crypto.Montgomery.Product.{mont_mul_lem}
use remote_drone.Crypto.Aegis.{aegis_crypt, aegis_encrypt_message, aegis_decrypt_message}
use remote_drone.Crypto.Aegis.Message.{aegis_decrypt_message-encrypt}
use remote_drone.Crypto.Aegis.Header.{aegis_crypt-agree}

-- `p` and `p_prime` of params.c.
abbrev prime : List ℕ
prime = 0xFFFFFFFF ∷ 0xFFFFFFFF ∷ 0xFFFFFFFF ∷ 0 ∷ 0 ∷ 0 ∷ 1 ∷ 0xFFFFFFFF ∷ []

abbrev prime_inverse : List ℕ
prime_inverse = 1 ∷ 0 ∷ 0 ∷ 1 ∷ 0 ∷ 0 ∷ 2 ∷ 0xFFFFFFFF ∷ []

abbrev small : List ℕ
small = 7 ∷ 1 ∷ 0 ∷ 0 ∷ 0 ∷ 0 ∷ 0 ∷ 0 ∷ []

abbrev large : List ℕ
large = 5 ∷ 0xFFFFFFFF ∷ 3 ∷ 0 ∷ 0 ∷ 9 ∷ 1 ∷ 0x80000000 ∷ []

prime-IsArray : IsArray array_size prime
prime-IsArray = omega arith

small-IsArray : IsArray array_size small
small-IsArray = omega arith

large-IsArray : IsArray array_size large
large-IsArray = omega arith

mont_mul_lem_example :
    let r = mont_mul small large prime prime_inverse in
    IsArray array_size r
    × (value r < value prime)
    × (word_mod ^ 8 * value r % value prime ≡ value small * value large % value prime)
unfolding value
mont_mul_lem_example =
    mont_mul_lem small large prime prime_inverse small-IsArray large-IsArray prime-IsArray refl
      (omega arith)

abbrev eight_bytes : List ℕ
eight_bytes = 1 ∷ 2 ∷ 3 ∷ 4 ∷ 255 ∷ 0 ∷ 9 ∷ 128 ∷ []

-- A stand-in for the AES round: it writes a block, the first of its input bytes in each place.
abbrev toy_round : List ℕ → List ℕ → List ℕ
toy_round input key = replicate 16 ((get_or input 0 0 + get_or key 1 0 + 1) % 256)

toy_round-IsBlock : (a b : List ℕ) → length (toy_round a b) ≡ 16
toy_round-IsBlock a b = refl

abbrev key_bytes : List ℕ
key_bytes = replicate 16 11

abbrev iv_bytes : List ℕ
iv_bytes = replicate 16 200

abbrev head_bytes : List ℕ
head_bytes = 1 ∷ 2 ∷ 3 ∷ []

abbrev plain_bytes : List ℕ
plain_bytes = 72 ∷ 105 ∷ []

abbrev tail_bytes : List ℕ
tail_bytes = replicate 20 0

aegis_decrypt_message-encrypt_example :
    let sealed =
      aegis_encrypt_message toy_round key_bytes iv_bytes
        (head_bytes ++ (plain_bytes ++ tail_bytes))
        3
        2 in
    let opened = aegis_decrypt_message toy_round key_bytes iv_bytes sealed 3 2 in
    (opened.1 ≡ true) × (take (3 + 2) opened.0 ≡ head_bytes ++ plain_bytes)
aegis_decrypt_message-encrypt_example =
    aegis_decrypt_message-encrypt toy_round toy_round-IsBlock key_bytes iv_bytes head_bytes
      plain_bytes tail_bytes refl refl (omega arith)

-- Two headers of 32 bytes that differ in the target ID and the sequence number.
abbrev header_one : List ℕ
header_one = replicate 16 1 ++ replicate 16 2

abbrev header_two : List ℕ
header_two = replicate 16 1 ++ replicate 16 3

aegis_crypt-agree_example :
    aegis_crypt toy_round key_bytes iv_bytes header_one 32 plain_bytes true
    ≡ aegis_crypt toy_round key_bytes iv_bytes header_two 32 plain_bytes true
aegis_crypt-agree_example =
    aegis_crypt-agree toy_round key_bytes iv_bytes header_one header_two 32 plain_bytes true
      (omega arith) refl
