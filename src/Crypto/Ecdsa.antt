-- ===== src/Crypto/Ecdsa.antt =====
-- Signatures: src/crypto/ecdsa.c. `sha3` gives the 32 bytes of the digest of 256 bits of a message,
-- `sha3_HashBuffer`; `random_bytes` is as in Crypto/Ecdh. Signatures are bytes, lowest word first.
pub mod Equation
pub mod Signing
pub mod Verdict
use remote_drone.Base.{
  ℕ, zero, suc, ◌+◌, Bool, true, false, ◌&&◌, ◌||◌, not, List, Option, none, some, if◌then◌else◌,
}
use remote_drone.Base.Options.{◌>>=◌}
use remote_drone.General.Compare.{equal_arrays}
use remote_drone.General.Endian.{to_little_endian, to_word_array}
use remote_drone.Crypto.ModArithmetic.{array_size, mod_add}
use remote_drone.Crypto.ModInverse.{mod_inv}
use remote_drone.Crypto.Montgomery.{mont_mul}
use remote_drone.Crypto.CurveParams.{n, n_prime, rn_2, p, rp_2, zero_words, one_mont}
use remote_drone.Crypto.EcArithmetic.{
  Point, mul_p, is_zero_words, ec_in_valid_range, to_cartesian, shamir_point_multiply,
}
use remote_drone.Crypto.Ecdh.{Sample, ecdh_sample, generator}

-- `montMul` by both factors and by `rn_2`.
abbrev pub mul_n : List ℕ → List ℕ → List ℕ
mul_n x y = mont_mul (mont_mul x y n n_prime) rn_2 n n_prime

-- `mod_add(x, zero, n, x)`.
abbrev pub reduce_n : List ℕ → List ℕ
reduce_n x = mod_add x zero_words n

-- The number that both sides make of the digest.
abbrev pub digest_number : (List ℕ → List ℕ) → List ℕ → List ℕ
digest_number sha3 message = reduce_n (to_word_array (sha3 message) array_size)

-- The part of `ecdsaSign` under "Compute s".
unfoldable pub signature_s : List ℕ → List ℕ → List ℕ → List ℕ → List ℕ
signature_s e r private_key k = mul_n (mod_inv k n) (mod_add (mul_n r private_key) e n)

-- A scalar, the number `r` of its point, and the calls of the random source so far.
pub record Nonce : Type 0 where
  pub k : List ℕ
  pub r : List ℕ
  pub randoms_read : ℕ

module _ (random_bytes : ℕ → ℕ → List ℕ) where
  -- `ecdsaGenerateKeyPair`: the private key, the public key, and the calls so far.
  unfoldable pub ecdsa_generate_key_pair : ℕ → ℕ → Option (List ℕ × List ℕ × List ℕ × ℕ)
  ecdsa_generate_key_pair fuel randoms_read = do
    sample ← ecdh_sample random_bytes fuel randoms_read
    let (x, y) = to_cartesian sample.point
    some (sample.scalar, mul_p x rp_2, mul_p y rp_2, sample.randoms_read)

  -- The loop of `ecdsaSign`; `draws` is the fuel of `ecdh_sample`.
  unfoldable pub nonce_loop : ℕ → ℕ → ℕ → Option Nonce
  nonce_loop zero draws randoms_read = none
  nonce_loop (suc fuel) draws randoms_read = do
    sample ← ecdh_sample random_bytes draws randoms_read
    let r = reduce_n (to_cartesian sample.point).0
    let again = nonce_loop fuel draws sample.randoms_read
    let done = some (record { k = sample.scalar; r = r; randoms_read = sample.randoms_read })
    if is_zero_words r then again else done

  -- `ecdsaSign`: the bytes of `r` and of `s`, and the calls so far.
  unfoldable pub ecdsa_sign :
      (List ℕ → List ℕ) → ℕ → ℕ → List ℕ → List ℕ → ℕ → Option (List ℕ × List ℕ × ℕ)
  ecdsa_sign sha3 fuel draws message private_key randoms_read = do
    nonce ← nonce_loop fuel draws randoms_read
    let s = signature_s (digest_number sha3 message) nonce.r private_key nonce.k
    some (to_little_endian nonce.r, to_little_endian s, nonce.randoms_read)

-- `u1` and `u2` of `ecdsaCheck`.
unfoldable pub check_scalars : List ℕ → List ℕ → List ℕ → List ℕ × List ℕ
check_scalars e r s = let s_inv = mod_inv s n in (mul_n e s_inv, mul_n r s_inv)

-- `ecdsaCheck` behind the test of the ranges.
unfoldable pub check_point : List ℕ → List ℕ → List ℕ → List ℕ → List ℕ → Bool
check_point e pkx_mont pky_mont r s =
    let (u_1, u_2) = check_scalars e r s in
    let q =
      shamir_point_multiply u_1 generator u_2
        (record { x = pkx_mont; y = pky_mont; z = one_mont }) in
    let x = reduce_n (to_cartesian q).0 in
    if is_zero_words q.x && is_zero_words q.y then false else equal_arrays r x array_size

-- `ecdsaCheck`.
unfoldable pub ecdsa_check : (List ℕ → List ℕ) → List ℕ → List ℕ → List ℕ → List ℕ → List ℕ → Bool
ecdsa_check sha3 message pkx_mont pky_mont r s =
    let r_word = to_word_array r array_size in
    let s_word = to_word_array s array_size in
    if not (ec_in_valid_range r_word) || not (ec_in_valid_range s_word)
    then false
    else check_point (digest_number sha3 message) pkx_mont pky_mont r_word s_word
