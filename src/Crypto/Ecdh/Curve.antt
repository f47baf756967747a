-- ===== src/Crypto/Ecdh/Curve.antt =====
-- The points of src/crypto/ecdh.c are points of the curve.
use remote_drone.Base.{ℕ, List, ◌≡◌, refl, inl, length, All}
use remote_drone.General.Endian.{to_word_array}
use remote_drone.General.Endian.RoundTrip.{IsByte, to_word_array-All}
use remote_drone.Crypto.ModArithmetic.{array_size}
use remote_drone.Crypto.ModArithmetic.Value.{IsArray, value}
use remote_drone.Crypto.EcArithmetic.{point_multiply}
use remote_drone.Crypto.EcArithmetic.Field.{
  generator_x, generator_y, g_x_mont-Residue, g_y_mont-Residue, one_mont-Residue,
}
use remote_drone.Crypto.EcArithmetic.Formulas.{Coordinates, IsPoint}
use remote_drone.Crypto.EcArithmetic.Curve.{IsCurvePoint}
use remote_drone.Crypto.EcArithmetic.Multiply.{point_multiply-IsCurvePoint}
use remote_drone.Crypto.Ecdh.{generator, random_scalar, scalar_bytes}

-- A source of random bytes gives as many bytes as it is asked for.
abbrev pub GivesBytes : (ℕ → ℕ → List ℕ) → Type 0
GivesBytes random_bytes =
    (call nb : ℕ) → (length (random_bytes call nb) ≡ nb) × All IsByte (random_bytes call nb)

pub words-IsArray :
    (bytes : List ℕ)
    → length bytes ≡ 32
    → All IsByte bytes
    → IsArray array_size (to_word_array bytes array_size)
words-IsArray bytes len small = to_word_array-All 8 bytes len small

pub random_scalar-IsArray :
    (random_bytes : ℕ → ℕ → List ℕ) (call : ℕ)
    → GivesBytes random_bytes
    → IsArray array_size (random_scalar random_bytes call)
random_scalar-IsArray random_bytes call gives =
    let (len, small) = gives call scalar_bytes in
    words-IsArray (random_bytes call scalar_bytes) len small

abbrev pub generator_coordinates : Coordinates
generator_coordinates = record { x = generator_x; y = generator_y; z = 1 }

pub generator-IsPoint : IsPoint generator generator_coordinates
generator-IsPoint = record {
  x_residue = g_x_mont-Residue;
  y_residue = g_y_mont-Residue;
  z_residue = one_mont-Residue;
}

pub generator-IsCurvePoint : IsCurvePoint generator
unfolding value
generator-IsCurvePoint = record {
  coordinates = generator_coordinates;
  is_point = generator-IsPoint;
  equation = inl refl;
}

pub multiple-IsCurvePoint :
    (scalar : List ℕ) → IsArray array_size scalar → IsCurvePoint (point_multiply scalar generator)
multiple-IsCurvePoint scalar h =
    point_multiply-IsCurvePoint scalar generator h generator-IsCurvePoint
