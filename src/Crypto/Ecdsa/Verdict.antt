-- ===== src/Crypto/Ecdsa/Verdict.antt =====
-- The verdict of `ecdsaCheck` of src/crypto/ecdsa.c.
use remote_drone.Base.{ℕ, ◌≤◌, false, List, ◌≡◌, arith, length, All, ◌⊎◌}
use remote_drone.General.Endian.{to_word_array}
use remote_drone.General.Endian.RoundTrip.{IsByte}
use remote_drone.Crypto.ModArithmetic.{array_size}
use remote_drone.Crypto.ModArithmetic.Value.{value}
use remote_drone.Crypto.EcArithmetic.Range.{range_end, ec_in_valid_range_iff}
use remote_drone.Crypto.Ecdh.Curve.{words-IsArray}
use remote_drone.Crypto.Ecdsa.{ecdsa_check}

-- `ecdsaCheck` refuses a signature one of whose numbers is 0 or has the highest word of the order,
-- whatever the message and the key are.
pub ecdsa_check-refuses :
    (sha3 : List ℕ → List ℕ) (message pkx_mont pky_mont r s : List ℕ)
    → length r ≡ 32
    → All IsByte r
    → length s ≡ 32
    → All IsByte s
    → let r_value = value (to_word_array r array_size) in
      let s_value = value (to_word_array s array_size) in
      ((r_value ≡ 0) ⊎ (s_value ≡ 0) ⊎ (range_end ≤ r_value) ⊎ (range_end ≤ s_value))
      → ecdsa_check sha3 message pkx_mont pky_mont r s ≡ false
unfolding ecdsa_check
ecdsa_check-refuses sha3 message x y r s len_r small_r len_s small_s out =
    let r_word = to_word_array r array_size in
    let s_word = to_word_array s array_size in
    let r_range = ec_in_valid_range_iff r_word (words-IsArray r len_r small_r) in
    let s_range = ec_in_valid_range_iff s_word (words-IsArray s len_s small_s) in
    ground (arith, r_range, s_range)
