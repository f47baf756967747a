-- ===== src/Crypto/Ecdsa/Signing.antt =====
-- `ecdsaSign` of src/crypto/ecdsa.c as a whole.
use remote_drone.Base.{ℕ, suc, ◌+◌, ◌*◌, ◌<◌, true, false, List, some, ◌≡◌, refl, ◌∙◌, length, All}
use remote_drone.Base.Congruence.{Congruent, Congruent-add}
use remote_drone.General.Endian.{to_little_endian, to_word_array}
use remote_drone.General.Endian.RoundTrip.{IsByte}
use remote_drone.Crypto.ModArithmetic.{array_size}
use remote_drone.Crypto.ModArithmetic.Value.{IsArray, value}
use remote_drone.Crypto.Montgomery.Domain.{IsReduced}
use remote_drone.Crypto.CurveParams.{n}
use remote_drone.Crypto.EcArithmetic.{
  ec_in_valid_range, is_zero_words, to_cartesian, point_multiply,
}
use remote_drone.Crypto.EcArithmetic.Conversion.{to_cartesian-IsReduced}
use remote_drone.Crypto.Ecdh.{random_scalar, generator}
use remote_drone.Crypto.Ecdh.Draws.{ecdh_sample-first}
use remote_drone.Crypto.Ecdh.Curve.{
  GivesBytes, words-IsArray, random_scalar-IsArray, multiple-IsCurvePoint,
}
use remote_drone.Crypto.Ecdsa.{reduce_n, digest_number, signature_s, nonce_loop, ecdsa_sign}
use remote_drone.Crypto.Ecdsa.Equation.{Is, reduce_n-Is, signature_s_lem}

-- The first coordinate of the multiple of the generator, modulo the order.
abbrev pub r_of : List ℕ → List ℕ
r_of k = reduce_n (to_cartesian (point_multiply k generator)).0

pub r_of-IsReduced : (k : List ℕ) → IsArray array_size k → IsReduced n (r_of k)
r_of-IsReduced k h =
    let q = multiple-IsCurvePoint k h in
    let (x_reduced, y_reduced) =
      to_cartesian-IsReduced (point_multiply k generator) q.coordinates q.is_point in
    (reduce_n-Is (to_cartesian (point_multiply k generator)).0 x_reduced.0).0

-- A digest of 256 bits.
abbrev pub GivesDigest : (List ℕ → List ℕ) → Type 0
GivesDigest sha3 = (message : List ℕ) → (length (sha3 message) ≡ 32) × All IsByte (sha3 message)

pub digest_number-Is :
    (sha3 : List ℕ → List ℕ) (message : List ℕ)
    → GivesDigest sha3
    → Is (digest_number sha3 message) (value (to_word_array (sha3 message) array_size))
digest_number-Is sha3 message gives =
    let (len, small) = gives message in
    reduce_n-Is (to_word_array (sha3 message) array_size) (words-IsArray (sha3 message) len small)

module _ (sha3 : List ℕ → List ℕ) (random_bytes : ℕ → ℕ → List ℕ) (gives_digest : GivesDigest sha3)
    (gives_bytes : GivesBytes random_bytes) where
  -- Where the call `start + i` of the random source is the first whose number k is accepted, the
  -- first coordinate r of the multiple of the generator is not 0, and k has an inverse modulo the
  -- order, `ecdsaSign` returns the bytes of r and of a number s below the order with s k = r d + e
  -- modulo the order, where d is the private key and e the number of the digest.
  pub ecdsa_sign_lem :
      (fuel draws start i j : ℕ) (message private_key : List ℕ)
      → i < draws
      → let k = random_scalar random_bytes (start + i) in
        ec_in_valid_range k ≡ true
        → ((j : ℕ) → j < i → ec_in_valid_range (random_scalar random_bytes (start + j)) ≡ false)
        → is_zero_words (r_of k) ≡ false
        → Congruent (value n) (value k * j) 1
        → IsReduced n private_key
        → (s : List ℕ) × (ecdsa_sign random_bytes sha3 (suc fuel) draws message private_key start
            ≡ some (to_little_endian (r_of k), to_little_endian s, start + i + 1))
          × IsReduced n s
          × Congruent
              (value n)
              (value s * value k)
              (value (r_of k) * value private_key + value (to_word_array (sha3 message) array_size))
  unfolding ecdsa_sign nonce_loop
  ecdsa_sign_lem fuel draws start i j message d lt accepted refused nonzero inverse hd =
      let k = random_scalar random_bytes (start + i) in
      let hk = random_scalar-IsArray random_bytes (start + i) gives_bytes in
      let e = digest_number sha3 message in
      let r = r_of k in
      let (e_reduced, e_form) = digest_number-Is sha3 message gives_digest in
      let (s_reduced, s_form) =
        signature_s_lem e r d k j e_reduced (r_of-IsReduced k hk) hd hk inverse in
      let drawn = ecdh_sample-first random_bytes draws start i lt accepted refused in
      (
        signature_s e r d k,
        (rw (drawn, nonzero) refl),
        s_reduced,
        s_form
            ∙ Congruent-add (value n) (value r * value d) (value r * value d) (value e)
                (value (to_word_array (sha3 message) array_size)) refl e_form,
      )
