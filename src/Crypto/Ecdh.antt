-- ===== src/Crypto/Ecdh.antt =====
-- Elliptic curve Diffie-Hellman: src/crypto/ecdh.c. `getRandomBytes` is `random_bytes`, which is
-- given the number of the call and of the bytes; the bytes are those of an array of words on a
-- little-endian machine. A loop that draws until a test holds has fuel, and `none` is its end.
pub mod Draws
pub mod Curve
use remote_drone.Base.{
  ℕ, zero, suc, ◌+◌, Bool, true, false, List, Option, none, some, if◌then◌else◌,
}
use remote_drone.Base.Options.{◌>>=◌}
use remote_drone.General.Endian.{to_little_endian, to_word_array}
use remote_drone.Crypto.ModArithmetic.{array_size}
use remote_drone.Crypto.CurveParams.{g_x_mont, g_y_mont, one_mont}
use remote_drone.Crypto.EcArithmetic.{
  Point, ec_in_valid_range, point_multiply, to_jacobian, to_cartesian,
}

abbrev pub generator : Point
generator = record { x = g_x_mont; y = g_y_mont; z = one_mont }

abbrev pub scalar_bytes : ℕ
scalar_bytes = 32

-- A scalar, its multiple of the generator, and the calls of the random source so far.
pub record Sample : Type 0 where
  pub scalar : List ℕ
  pub point : Point
  pub randoms_read : ℕ

module _ (random_bytes : ℕ → ℕ → List ℕ) where
  abbrev pub random_scalar : ℕ → List ℕ
  random_scalar call = to_word_array (random_bytes call scalar_bytes) array_size

  -- What `ECDHSample` makes of the call it keeps.
  abbrev pub sample_of : ℕ → Sample
  sample_of call = record {
    scalar = random_scalar call;
    point = point_multiply (random_scalar call) generator;
    randoms_read = call + 1;
  }

  -- `ECDHSample`.
  unfoldable pub ecdh_sample : ℕ → ℕ → Option Sample
  ecdh_sample zero randoms_read = none
  ecdh_sample (suc fuel) randoms_read =
      let again = ecdh_sample fuel (randoms_read + 1) in
      if ec_in_valid_range (random_scalar randoms_read)
      then some (sample_of randoms_read)
      else again

  -- `ECDHGenerateRandomSample`: the scalar, the bytes of the coordinates, and the calls so far.
  unfoldable pub ecdh_generate_random_sample : ℕ → ℕ → Option (List ℕ × List ℕ × List ℕ × ℕ)
  ecdh_generate_random_sample fuel randoms_read = do
    sample ← ecdh_sample fuel randoms_read
    let (x, y) = to_cartesian sample.point
    some (sample.scalar, to_little_endian x, to_little_endian y, sample.randoms_read)

-- `ECDHPointMultiply`.
unfoldable pub ecdh_point_multiply : List ℕ → List ℕ → List ℕ → List ℕ × List ℕ
ecdh_point_multiply scalar x y =
    let q = to_jacobian (to_word_array x array_size) (to_word_array y array_size) in
    let (x_res, y_res) = to_cartesian (point_multiply scalar q) in
    (to_little_endian x_res, to_little_endian y_res)
