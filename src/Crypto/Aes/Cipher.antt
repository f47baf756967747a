-- ===== src/Crypto/Aes/Cipher.antt =====
-- The key schedule and `Cipher` of src/crypto/aes.c, and `Cipher` by the rounds of `AESRound`.
use remote_drone.Base.{
  ℕ, zero, suc, ◌+◌, ◌-◌, ◌*◌, ◌/◌, ◌%◌, ◌≤◌, List, [], ◌∷◌, ◌++◌, ◌≡◌, refl, sym, ap, ◌∙◌, arith,
  get_or, length, take, drop, All, length-append, length-take, length-drop, inl, inr, Bool-cases,
  ◌==◌,
}
use remote_drone.General.Endian.RoundTrip.{IsByte}
use remote_drone.Crypto.Aegis.{xor_block}
use remote_drone.Crypto.Aes.{
  aes_round, sub_bytes, shift_rows, mix_columns, s_box_value, key_word, key_loop, key_expansion,
  add_round_key, cipher_loop, aes_ecb_encrypt, r_con,
}
use remote_drone.Crypto.Aes.Columns.{s_box_value-lt}
use remote_drone.Crypto.Aes.Round.{IsBlock, aes_round_lem, get_or-IsByte}
use remote_drone.Crypto.Aes.Blocks.{
  xor-IsByte, xor_block-All, xor_block-IsBlock, mixed-IsBlock, shifted-IsBlock,
}

-- `n` bytes.
abbrev pub IsBytes : ℕ → List ℕ → Type 0
IsBytes n bs = (length bs ≡ n) × All IsByte bs

pub All-take : (n : ℕ) (bs : List ℕ) → All IsByte bs → All IsByte (take n bs)
All-take zero bs a = tt
All-take (suc n) [] a = tt
All-take (suc n) (b ∷ bs) a = (a.0, All-take n bs a.1)

pub All-drop : (n : ℕ) (bs : List ℕ) → All IsByte bs → All IsByte (drop n bs)
All-drop zero bs a = a
All-drop (suc n) [] a = tt
All-drop (suc n) (b ∷ bs) a = All-drop n bs a.1

pub All-append : (xs ys : List ℕ) → All IsByte xs → All IsByte ys → All IsByte (xs ++ ys)
All-append [] ys a b = b
All-append (x ∷ xs) ys a b = (a.0, All-append xs ys a.1 b)

-- A part of an array.
pub part-IsBytes :
    (from n m : ℕ) (bs : List ℕ) → IsBytes m bs → from + n ≤ m → IsBytes n (take n (drop from bs))
part-IsBytes from n m bs h le = (
  omega (arith, length-take n (drop from bs), length-drop from bs, h.0),
  All-take n (drop from bs) (All-drop from bs h.1),
)

key_word-IsBytes : (i : ℕ) (keys : List ℕ) → All IsByte keys → IsBytes 4 (key_word i keys)
unfolding key_word
key_word-IsBytes i keys a =
    let at : (b : ℕ) → IsByte (get_or keys ((i - 1) * 4 + b) 0) = λ b. get_or-IsByte keys _ a in
    let s : (b : ℕ) → IsByte (s_box_value (get_or keys ((i - 1) * 4 + b) 0)) =
      λ b. s_box_value-lt _ (at b) in
    let r : IsByte (get_or r_con (i / 4) 0) = get_or-IsByte r_con _ (omega arith) in
    elim (Bool-cases (i % 4 == 0)) [
      | inl e ↦ rw e (refl, (xor-IsByte _ _ (s 1) r, (s 2, (s 3, (s 0, tt)))))
      | inr e ↦ rw e (refl, (at 0, (at 1, (at 2, (at 3, tt)))))
    ]

key_loop-IsBytes :
    (rounds i : ℕ) (keys : List ℕ)
    → 4 ≤ i
    → IsBytes (4 * i) keys
    → IsBytes (4 * (i + rounds)) (key_loop rounds i keys)
unfolding key_loop
key_loop-IsBytes zero i keys h k = (omega (arith, k.0), k.1)
key_loop-IsBytes (suc rounds) i keys h k =
    let old = part-IsBytes ((i - 4) * 4) 4 (4 * i) keys k (omega arith) in
    let word = key_word-IsBytes i keys k.1 in
    let part = take 4 (drop ((i - 4) * 4) keys) in
    let (len, bytes) =
      xor_block-All part (key_word i keys) (omega (arith, old.0, word.0)) old.1 word.1 in
    let next =
      key_loop-IsBytes rounds (i + 1) (keys ++ xor_block part (key_word i keys)) (omega arith) (
        omega (arith, length-append keys (xor_block part (key_word i keys)), len, old.0, k.0),
        All-append keys (xor_block part (key_word i keys)) k.1 bytes,
      ) in
    (omega (arith, next.0), next.1)

-- `KeyExpansion` makes eleven round keys of a key.
pub key_expansion-IsBytes : (key : List ℕ) → IsBlock key → IsBytes 176 (key_expansion key)
unfolding key_expansion
key_expansion-IsBytes key h =
    let whole = part-IsBytes 0 16 16 key h (omega arith) in
    key_loop-IsBytes 40 4 (take 16 key) (omega arith) whole

-- The loop of `Cipher` with each round but the last computed by `AESRound`.
unfoldable pub table_loop : ℕ → ℕ → List ℕ → List ℕ → List ℕ
table_loop zero round state round_keys = shift_rows (sub_bytes state)
table_loop (suc rounds) round state round_keys =
    table_loop rounds (round + 1) (aes_round state (take 16 (drop (round * 16) round_keys)))
      round_keys

cipher_loop-tables :
    (rounds round : ℕ) (state keys : List ℕ)
    → rounds + round ≤ 11
    → IsBlock state
    → IsBytes 176 keys
    → (cipher_loop rounds round state keys ≡ table_loop rounds round state keys)
      × IsBlock (cipher_loop rounds round state keys)
unfolding cipher_loop table_loop add_round_key
cipher_loop-tables zero round state keys le h k = (refl, shifted-IsBlock state h)
cipher_loop-tables (suc rounds) round state keys le h k =
    let key = part-IsBytes (round * 16) 16 176 keys k (omega arith) in
    let rk = take 16 (drop (round * 16) keys) in
    let mixed = mix_columns (shift_rows (sub_bytes state)) in
    let next = xor_block-IsBlock mixed rk (mixed-IsBlock state h) key in
    let (same, block) =
      cipher_loop-tables rounds (round + 1) (xor_block mixed rk) keys (omega arith) next k in
    (
      same
          ∙ ap (λ (s : List ℕ). table_loop rounds (round + 1) s keys)
              (sym (aes_round_lem state rk h key.0)),
      block,
    )

-- `AES_ECB_encrypt` is nine rounds of `AESRound`, with the key added before them and a last round
-- without `MixColumns`, and gives a block.
pub aes_ecb_encrypt-tables :
    (key buf : List ℕ)
    → IsBlock key
    → IsBlock buf
    → let keys = key_expansion key in
      (aes_ecb_encrypt keys buf
        ≡ add_round_key 10 (table_loop 9 1 (add_round_key 0 buf keys) keys) keys)
      × IsBlock (aes_ecb_encrypt keys buf)
unfolding aes_ecb_encrypt add_round_key
aes_ecb_encrypt-tables key buf h k =
    let keys = key_expansion key in
    let ks = key_expansion-IsBytes key h in
    let first = part-IsBytes 0 16 176 keys ks (omega arith) in
    let last = part-IsBytes 160 16 176 keys ks (omega arith) in
    let start = xor_block-IsBlock buf (take 16 (drop 0 keys)) k first in
    let (same, block) =
      cipher_loop-tables 9 1 (xor_block buf (take 16 (drop 0 keys))) keys (omega arith) start ks in
    (
      ap (λ (s : List ℕ). xor_block s (take 16 (drop 160 keys))) same,
      xor_block-IsBlock _ (take 16 (drop 160 keys)) block last,
    )
