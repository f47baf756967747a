-- ===== src/Tests/Curve.antt =====
-- Tests of src/crypto/ec_arithmetic.c and of `mod_inv`, on the constants of src/general/params.c.
use remote_drone.Base.{ℕ, ◌*◌, ◌%◌, ◌<◌, true, List, ◌∷◌, ◌≡◌, ◌↔◌, ◌⊎◌, refl, arith, replicate}
use remote_drone.Base.Congruence.{Congruent}
use remote_drone.Crypto.ModArithmetic.{array_size, compare}
use remote_drone.Crypto.ModArithmetic.Value.{IsArray, value}
use remote_drone.Crypto.ModInverse.{zeros, is_same, inv_loop, inv_fuel, started, mod_inv}
use remote_drone.Crypto.ModInverse.Step.{IsInverting}
use remote_drone.Crypto.ModInverse.Loop.{mod_inv-terminates, mod_inv_lem}
use remote_drone.Crypto.CurveParams.{p, zero_words}
use remote_drone.Crypto.EcArithmetic.{
  Point, mul_p, point_double, double_formula, add_formula, point_add, point_multiply,
  shamir_point_multiply, is_on_curve, to_jacobian, to_cartesian, ec_in_valid_range,
}
use remote_drone.Crypto.EcArithmetic.Field.{p-IsModulus}
use remote_drone.Crypto.EcArithmetic.Formulas.{
  scaled_x-Residue, scaled_y-Residue, added, add_formula-IsPoint, IsPoint, doubled,
  double_formula-IsPoint,
}
use remote_drone.Crypto.EcArithmetic.Curve.{
  IsCurvePoint, point_double-IsCurvePoint, point_add-IsCurvePoint,
}
use remote_drone.Crypto.EcArithmetic.Multiply.{multiple, point_multiply_lem}
use remote_drone.Crypto.EcArithmetic.Shamir.{multiple_sum, shamir_point_multiply_lem}
use remote_drone.Crypto.EcArithmetic.Conversion.{
  Equation, is_on_curve_iff, to_cartesian-to_jacobian,
}
use remote_drone.Crypto.EcArithmetic.Range.{range_end, ec_in_valid_range_iff}
use remote_drone.Crypto.Ecdh.{generator}
use remote_drone.Crypto.Ecdh.Curve.{
  generator_coordinates, generator-IsPoint, generator-IsCurvePoint,
}

abbrev two : List ℕ
two = 2 ∷ replicate 7 0

abbrev five : List ℕ
five = 5 ∷ replicate 7 0

two-IsArray : IsArray array_size two
two-IsArray = (refl, omega arith)

five-IsArray : IsArray array_size five
five-IsArray = (refl, omega arith)

odd_prime : value p % 2 ≡ 1
unfolding value
odd_prime = refl

mod_inv-terminates_example :
    let w = inv_loop inv_fuel p (started two p) in
    (is_same (compare w.v zeros) ≡ true) × IsInverting p two w
mod_inv-terminates_example =
    mod_inv-terminates p two p-IsModulus.modulus_array odd_prime two-IsArray p-IsModulus.big

two_half :
    Congruent
      (value p)
      (value two * 0x7FFFFFFF80000000800000000000000000000000800000000000000000000000)
      1
unfolding value
two_half = refl

mod_inv_lem_example :
    IsArray array_size (mod_inv two p)
    × (value (mod_inv two p) < value p)
    × Congruent (value p) (value (mod_inv two p) * value two) 1
mod_inv_lem_example =
    mod_inv_lem p two p-IsModulus.modulus_array odd_prime
      0x7FFFFFFF80000000800000000000000000000000800000000000000000000000 two-IsArray p-IsModulus.big
      two_half

abbrev doubled_generator : Point
doubled_generator = double_formula generator

add_formula-IsPoint_example :
    let u_1 = mul_p (mul_p doubled_generator.z doubled_generator.z) generator.x in
    let s_1 =
      mul_p
        (mul_p (mul_p doubled_generator.z doubled_generator.z) doubled_generator.z)
        generator.y in
    let u_2 = mul_p (mul_p generator.z generator.z) doubled_generator.x in
    let s_2 = mul_p (mul_p (mul_p generator.z generator.z) generator.z) doubled_generator.y in
    IsPoint
      (add_formula u_1 s_1 u_2 s_2 generator doubled_generator)
      (added generator_coordinates (doubled generator_coordinates))
add_formula-IsPoint_example =
    let c = generator_coordinates in
    let i = generator-IsPoint in
    let j = double_formula-IsPoint generator c i in
    add_formula-IsPoint (mul_p (mul_p doubled_generator.z doubled_generator.z) generator.x)
      (mul_p (mul_p (mul_p doubled_generator.z doubled_generator.z) doubled_generator.z)
        generator.y)
      (mul_p (mul_p generator.z generator.z) doubled_generator.x)
      (mul_p (mul_p (mul_p generator.z generator.z) generator.z) doubled_generator.y) generator
      doubled_generator c (doubled c) i j (scaled_x-Residue i j) (scaled_y-Residue i j)
      (scaled_x-Residue j i) (scaled_y-Residue j i)

abbrev twice : Point
twice = point_double generator

point_double-IsCurvePoint_example : IsCurvePoint (point_double generator)
point_double-IsCurvePoint_example = point_double-IsCurvePoint generator generator-IsCurvePoint

twice-IsCurvePoint : IsCurvePoint twice
twice-IsCurvePoint = point_double-IsCurvePoint generator generator-IsCurvePoint

point_add-IsCurvePoint_example : IsCurvePoint (point_add generator twice)
point_add-IsCurvePoint_example =
    point_add-IsCurvePoint generator twice generator-IsCurvePoint twice-IsCurvePoint

point_multiply_lem_example : point_multiply five generator ≡ multiple 3 (value five) generator
unfolding value
point_multiply_lem_example = point_multiply_lem five generator 3 five-IsArray (omega arith)

shamir_point_multiply_lem_example :
    shamir_point_multiply five generator two twice
    ≡ multiple_sum 3 (value five) (value two) generator twice
unfolding value
shamir_point_multiply_lem_example =
    shamir_point_multiply_lem five two generator twice 3 five-IsArray two-IsArray (omega arith)
      (omega arith)

is_on_curve_iff_example :
    (is_on_curve five two ≡ true)
    ↔ ((five ≡ zero_words) × (two ≡ zero_words)) ⊎ Equation (value five) (value two)
is_on_curve_iff_example = is_on_curve_iff five two five-IsArray two-IsArray

to_cartesian-to_jacobian_example : to_cartesian (to_jacobian five two) ≡ (five, two)
unfolding value
to_cartesian-to_jacobian_example =
    to_cartesian-to_jacobian five two (five-IsArray, omega arith) (two-IsArray, omega arith)

ec_in_valid_range_iff_example :
    (ec_in_valid_range five ≡ true) ↔ (0 < value five) × (value five < range_end)
ec_in_valid_range_iff_example = ec_in_valid_range_iff five five-IsArray
