-- ===== src/Crypto/Aes.antt =====
-- AES-128: src/crypto/aes.c. A block is a list of 16 bytes; `state[i][j]` is the byte `4 * i + j`. The
-- words of `AESRound` are lists of their four bytes, so that the order of the bytes in a word does
-- not matter. A function that changes the state in place takes it and returns it.
pub mod Te0
pub mod Te1
pub mod Te2
pub mod Te3
pub mod SBox
pub mod Columns
pub mod Round
pub mod Blocks
pub mod Cipher
use Prim.Native.Nat.{bit_and, bit_xor}
use remote_drone.Base.{
  ℕ, zero, suc, ◌+◌, ◌-◌, ◌*◌, ◌/◌, ◌%◌, List, [], ◌∷◌, ◌++◌, get_or, set, take, drop, ◌==◌,
  if◌then◌else◌,
}
use remote_drone.Crypto.Aegis.{xor_block}
use remote_drone.Crypto.Aes.Te0.{te_0}
use remote_drone.Crypto.Aes.Te1.{te_1}
use remote_drone.Crypto.Aes.Te2.{te_2}
use remote_drone.Crypto.Aes.Te3.{te_3}
use remote_drone.Crypto.Aes.SBox.{s_box, r_con}

-- The word of a table at the byte `in[i]`.
abbrev pub looked_up : List (List ℕ) → List ℕ → ℕ → List ℕ
looked_up table input i = get_or table (get_or input i 0) []

-- One word of `AESRound`: four words of the tables and a word of the round key.
abbrev pub round_word : List ℕ → ℕ → ℕ → ℕ → ℕ → List ℕ → List ℕ
round_word input i j k l key =
    xor_block
      (xor_block
        (xor_block (xor_block (looked_up te_0 input i) (looked_up te_1 input j))
          (looked_up te_2 input k))
        (looked_up te_3 input l))
      key

-- `AESRound(out, in, rk)`.
unfoldable pub aes_round : List ℕ → List ℕ → List ℕ
aes_round input rk =
    round_word input 0 5 10 15 (take 4 rk)
    ++ (round_word input 4 9 14 3 (take 4 (drop 4 rk))
        ++ (round_word input 8 13 2 7 (take 4 (drop 8 rk))
            ++ round_word input 12 1 6 11 (take 4 (drop 12 rk))))

-- `getSBoxValue`.
abbrev pub s_box_value : ℕ → ℕ
s_box_value num = get_or s_box num 0

-- The loop body of `KeyExpansion` up to `Rcon`: the word `tempa`.
unfoldable pub key_word : ℕ → List ℕ → List ℕ
key_word i round_keys =
    let at = λ (b : ℕ). get_or round_keys ((i - 1) * 4 + b) 0 in
    if i % 4 == 0
    then bit_xor (s_box_value (at 1)) (get_or r_con (i / 4) 0)
      ∷ s_box_value (at 2)
      ∷ s_box_value (at 3)
      ∷ s_box_value (at 0)
      ∷ []
    else at 0 ∷ at 1 ∷ at 2 ∷ at 3 ∷ []

-- The second loop of `KeyExpansion`; the keys so far are the first `4 * i` bytes.
unfoldable pub key_loop : ℕ → ℕ → List ℕ → List ℕ
key_loop zero i round_keys = round_keys
key_loop (suc rounds) i round_keys =
    key_loop rounds (i + 1)
      (round_keys ++ xor_block (take 4 (drop ((i - 4) * 4) round_keys)) (key_word i round_keys))

-- `KeyExpansion` and `AES_init_ctx`: Nb * (Nr + 1) - Nk = 40 words behind those of the key.
unfoldable pub key_expansion : List ℕ → List ℕ
key_expansion key = key_loop 40 4 (take 16 key)

-- `AddRoundKey`.
unfoldable pub add_round_key : ℕ → List ℕ → List ℕ → List ℕ
add_round_key round state round_keys = xor_block state (take 16 (drop (round * 16) round_keys))

-- `SubBytes`.
unfoldable pub sub_bytes : List ℕ → List ℕ
sub_bytes [] = []
sub_bytes (b ∷ bs) = s_box_value b ∷ sub_bytes bs

-- The three parts of `ShiftRows`: `state[i][1]`, `state[i][2]` and `state[i][3]` for every `i`.
unfoldable pub rotate_first : List ℕ → List ℕ
rotate_first s0 =
    let temp = get_or s0 1 0 in
    let s1 = set s0 1 (get_or s0 5 0) in
    let s2 = set s1 5 (get_or s1 9 0) in let s3 = set s2 9 (get_or s2 13 0) in set s3 13 temp

unfoldable pub rotate_second : List ℕ → List ℕ
rotate_second s0 =
    let temp = get_or s0 2 0 in
    let s1 = set s0 2 (get_or s0 10 0) in
    let s2 = set s1 10 temp in
    let temp' = get_or s2 6 0 in let s3 = set s2 6 (get_or s2 14 0) in set s3 14 temp'

unfoldable pub rotate_third : List ℕ → List ℕ
rotate_third s0 =
    let temp = get_or s0 3 0 in
    let s1 = set s0 3 (get_or s0 15 0) in
    let s2 = set s1 15 (get_or s1 11 0) in let s3 = set s2 11 (get_or s2 7 0) in set s3 7 temp

-- `ShiftRows`.
unfoldable pub shift_rows : List ℕ → List ℕ
shift_rows state = rotate_third (rotate_second (rotate_first state))

-- `xtime`.
unfoldable pub xtime : ℕ → ℕ
xtime x = bit_xor (x * 2) (bit_and (x / 128) 1 * 0x1b) % 256

-- The loop of `MixColumns`, over the columns.
unfoldable pub mix_columns : List ℕ → List ℕ
mix_columns (a ∷ b ∷ c ∷ d ∷ rest) =
    let t = a in
    let tmp = bit_xor (bit_xor (bit_xor a b) c) d in
    let a' = bit_xor a (bit_xor (xtime (bit_xor a b)) tmp) in
    let b' = bit_xor b (bit_xor (xtime (bit_xor b c)) tmp) in
    let c' = bit_xor c (bit_xor (xtime (bit_xor c d)) tmp) in
    let d' = bit_xor d (bit_xor (xtime (bit_xor d t)) tmp) in a' ∷ b' ∷ c' ∷ d' ∷ mix_columns rest
mix_columns state = state

-- The loop of `Cipher` from `round` on, with `rounds` left before the last one.
unfoldable pub cipher_loop : ℕ → ℕ → List ℕ → List ℕ → List ℕ
cipher_loop zero round state round_keys = shift_rows (sub_bytes state)
cipher_loop (suc rounds) round state round_keys =
    cipher_loop rounds (round + 1)
      (add_round_key round (mix_columns (shift_rows (sub_bytes state))) round_keys) round_keys

-- `Cipher` and `AES_ECB_encrypt`.
unfoldable pub aes_ecb_encrypt : List ℕ → List ℕ → List ℕ
aes_ecb_encrypt round_keys buf =
    add_round_key 10 (cipher_loop 9 1 (add_round_key 0 buf round_keys) round_keys) round_keys
