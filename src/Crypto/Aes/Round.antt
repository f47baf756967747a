-- ===== src/Crypto/Aes/Round.antt =====
-- `AESRound` of src/crypto/aes.c against the steps of `Cipher` in the same file.
use remote_drone.Base.{ℕ, zero, suc, ◌<◌, List, [], ◌∷◌, ◌++◌, ◌≡◌, ap₂, arith, get_or, length, All}
use remote_drone.General.Endian.RoundTrip.{IsByte}
use remote_drone.Crypto.Aegis.{xor_block}
use remote_drone.Crypto.Aes.{
  aes_round, sub_bytes, shift_rows, rotate_first, rotate_second, rotate_third, mix_columns,
}
use remote_drone.Crypto.Aes.Columns.{round_word_lem}

-- 16 bytes.
abbrev pub IsBlock : List ℕ → Type 0
IsBlock bs = (length bs ≡ 16) × All IsByte bs

pub get_or-IsByte : (bs : List ℕ) (i : ℕ) → All IsByte bs → IsByte (get_or bs i 0)
get_or-IsByte [] i a = omega arith
get_or-IsByte (b ∷ bs) zero a = a.0
get_or-IsByte (b ∷ bs) (suc i) a = get_or-IsByte bs i a.1

-- `AESRound` is `SubBytes`, `ShiftRows`, `MixColumns` and the addition of the round key.
pub aes_round_lem :
    (input rk : List ℕ)
    → IsBlock input
    → length rk ≡ 16
    → aes_round input rk ≡ xor_block (mix_columns (shift_rows (sub_bytes input))) rk
unfolding aes_round sub_bytes shift_rows rotate_first rotate_second rotate_third mix_columns
    xor_block
aes_round_lem
      (a0 ∷ a1 ∷ a2 ∷ a3 ∷ a4 ∷ a5 ∷ a6 ∷ a7 ∷ a8 ∷ a9 ∷ a10 ∷ a11 ∷ a12 ∷ a13 ∷ a14 ∷ a15 ∷ [])
      (k0 ∷ k1 ∷ k2 ∷ k3 ∷ k4 ∷ k5 ∷ k6 ∷ k7 ∷ k8 ∷ k9 ∷ k10 ∷ k11 ∷ k12 ∷ k13 ∷ k14 ∷ k15 ∷ []) h
      l =
    let input =
      a0 ∷ a1 ∷ a2 ∷ a3 ∷ a4 ∷ a5 ∷ a6 ∷ a7 ∷ a8 ∷ a9 ∷ a10 ∷ a11 ∷ a12 ∷ a13 ∷ a14 ∷ a15 ∷ [] in
    let b : (i : ℕ) → get_or input i 0 < 256 = λ i. get_or-IsByte input i h.1 in
    let first = round_word_lem input 0 5 10 15 (k0 ∷ k1 ∷ k2 ∷ k3 ∷ []) (b 0) (b 5) (b 10) (b 15) in
    let second = round_word_lem input 4 9 14 3 (k4 ∷ k5 ∷ k6 ∷ k7 ∷ []) (b 4) (b 9) (b 14) (b 3) in
    let third = round_word_lem input 8 13 2 7 (k8 ∷ k9 ∷ k10 ∷ k11 ∷ []) (b 8) (b 13) (b 2) (b 7) in
    let fourth =
      round_word_lem input 12 1 6 11 (k12 ∷ k13 ∷ k14 ∷ k15 ∷ []) (b 12) (b 1) (b 6) (b 11) in
    ap₂ ◌++◌ first (ap₂ ◌++◌ second (ap₂ ◌++◌ third fourth))
aes_round_lem _ _ h l = absurd (omega arith)
