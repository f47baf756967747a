-- ===== src/Crypto/EcArithmetic.antt =====
-- Points of the curve P-256: src/crypto/ec_arithmetic.c. A function that writes coordinates returns
-- them. Each reads its arguments before it writes a result of the same name, so that the result is
-- the same where both are one array, as in `pointMultiply`.
pub mod Field
pub mod Formulas
pub mod Identities
pub mod Curve
pub mod Digits
pub mod Multiply
pub mod Shamir
pub mod Conversion
pub mod Range
use Prim.Native.Nat.{bit_and}
use remote_drone.Base.{
  ℕ, zero, suc, ◌+◌, ◌*◌, ◌%◌, Bool, true, false, ◌&&◌, not, List, [], ◌∷◌, get_or, ltb, ◌==◌,
  if◌then◌else◌,
}
use remote_drone.General.Compare.{equal_arrays}
use remote_drone.Crypto.ModArithmetic.{word_mod, array_size, mod_add, mod_sub}
use remote_drone.Crypto.Montgomery.{mont_mul}
use remote_drone.Crypto.ModInverse.{mod_inv}
use remote_drone.Crypto.CurveParams.{
  p, p_prime, rp_2, n, zero_words, one_words, one_mont, a_mont, b, b_mont, left_one_mask,
}

-- The loop of `ECInValidRange` over the words below `i`, from the highest.
unfoldable pub range_loop : ℕ → List ℕ → Bool
range_loop zero number = false
range_loop (suc i) number =
    let rest = range_loop i number in
    if ltb (get_or number i 0) (get_or n i 0)
    then true
    else if ltb (get_or b i 0) (get_or number i 0)
    then false
    else rest

-- `ECInValidRange`.
unfoldable pub ec_in_valid_range : List ℕ → Bool
ec_in_valid_range number =
    if equal_arrays number zero_words array_size then false else range_loop array_size number

-- `montMul`, `mod_add` and `mod_sub` with the prime of the curve.
abbrev pub mul_p : List ℕ → List ℕ → List ℕ
mul_p x y = mont_mul x y p p_prime

abbrev pub add_p : List ℕ → List ℕ → List ℕ
add_p x y = mod_add x y p

abbrev pub sub_p : List ℕ → List ℕ → List ℕ
sub_p x y = mod_sub x y p

abbrev pub is_zero_words : List ℕ → Bool
is_zero_words x = equal_arrays x zero_words array_size

-- `isOnCurve`.
unfoldable pub is_on_curve : List ℕ → List ℕ → Bool
is_on_curve x y =
    let x_mont = mul_p x rp_2 in
    let y_mont = mul_p y rp_2 in
    let y_2 = mul_p y_mont y_mont in
    let ax = mul_p a_mont x_mont in
    let x_2 = mul_p x_mont x_mont in
    let x_3 = mul_p x_2 x_mont in
    let sum = add_p x_3 ax in
    let right = add_p sum b_mont in
    if is_zero_words x && is_zero_words y then true else equal_arrays y_2 right array_size

-- Three coordinates in the Montgomery domain.
pub record Point : Type 0 where
  pub x : List ℕ
  pub y : List ℕ
  pub z : List ℕ

-- `toJacobian`.
unfoldable pub to_jacobian : List ℕ → List ℕ → Point
to_jacobian x y = record { x = mul_p x rp_2; y = mul_p y rp_2; z = one_mont }

-- `toCartesian`.
unfoldable pub to_cartesian : Point → List ℕ × List ℕ
to_cartesian q =
    let z_2 = mul_p q.z q.z in
    let z_3 = mul_p z_2 q.z in
    let normal_2 = mul_p z_2 one_words in
    let normal_3 = mul_p z_3 one_words in
    (mul_p q.x (mod_inv normal_2 p), mul_p q.y (mod_inv normal_3 p))

-- `loadPointAtInfinity`.
unfoldable pub point_at_infinity : Point
point_at_infinity = record { x = zero_words; y = zero_words; z = one_mont }

-- `pointDouble` of a point with a second coordinate other than 0.
unfoldable pub double_formula : Point → Point
double_formula q =
    let y_2 = mul_p q.y q.y in
    let s_1 = mul_p y_2 q.x in
    let s_2 = add_p s_1 s_1 in
    let s = add_p s_2 s_2 in
    let z_2 = mul_p q.z q.z in
    let z_4 = mul_p z_2 z_2 in
    let az_4 = mul_p a_mont z_4 in
    let x_2 = mul_p q.x q.x in
    let m_2 = add_p x_2 x_2 in
    let m_3 = add_p m_2 x_2 in
    let m = add_p m_3 az_4 in
    let x_res = sub_p (mul_p m m) (add_p s s) in
    let yz = mul_p q.y q.z in
    let y_4 = mul_p y_2 y_2 in
    let y_4_2 = add_p y_4 y_4 in
    let y_4_4 = add_p y_4_2 y_4_2 in
    let y_4_8 = add_p y_4_4 y_4_4 in
    record { x = x_res; y = sub_p (mul_p m (sub_p s x_res)) y_4_8; z = add_p yz yz }

-- `pointDouble`.
unfoldable pub point_double : Point → Point
point_double q = if is_zero_words q.y then point_at_infinity else double_formula q

-- `pointAdd` behind the special cases, from `U1`, `S1`, `U2` and `S2` on.
unfoldable pub add_formula : List ℕ → List ℕ → List ℕ → List ℕ → Point → Point → Point
add_formula u_1 s_1 u_2 s_2 q r =
    let h = sub_p u_2 u_1 in
    let h_2 = mul_p h h in
    let h_3 = mul_p h_2 h in
    let d = sub_p s_2 s_1 in
    let uh_2 = mul_p u_1 h_2 in
    let x_res = sub_p (sub_p (mul_p d d) h_3) (add_p uh_2 uh_2) in
    record {
      x = x_res;
      y = sub_p (mul_p d (sub_p uh_2 x_res)) (mul_p s_1 h_3);
      z = mul_p h (mul_p q.z r.z);
    }

-- `pointAdd`.
unfoldable pub point_add : Point → Point → Point
point_add q r =
    let z_2 = mul_p r.z r.z in
    let u_1 = mul_p z_2 q.x in
    let s_1 = mul_p (mul_p z_2 r.z) q.y in
    let z_1 = mul_p q.z q.z in
    let u_2 = mul_p z_1 r.x in
    let s_2 = mul_p (mul_p z_1 q.z) r.y in
    if is_zero_words q.x && is_zero_words q.y
    then r
    else if is_zero_words r.x && is_zero_words r.y
    then q
    else if equal_arrays u_1 u_2 array_size
    then if equal_arrays s_1 s_2 array_size then point_double q else point_at_infinity
    else add_formula u_1 s_1 u_2 s_2 q r

-- The inner loop of `pointMultiply` for `rounds` bits of a word, from the highest.
unfoldable pub multiply_bits : ℕ → ℕ → Point → Point → Point
multiply_bits zero current q res = res
multiply_bits (suc rounds) current q res =
    let doubled = point_double res in
    let next = if bit_and current left_one_mask == 0 then doubled else point_add doubled q in
    multiply_bits rounds (current * 2 % word_mod) q next

-- The words of the scalar below index `i`, from the highest.
unfoldable pub multiply_words : ℕ → List ℕ → Point → Point → Point
multiply_words zero scalar q res = res
multiply_words (suc i) scalar q res =
    multiply_words i scalar q (multiply_bits 32 (get_or scalar i 0) q res)

-- `pointMultiply`.
unfoldable pub point_multiply : List ℕ → Point → Point
point_multiply scalar q = multiply_words array_size scalar q point_at_infinity

-- The inner loop of `shamirPointMultiply`.
unfoldable pub shamir_bits : ℕ → ℕ → ℕ → Point → Point → Point → Point
shamir_bits zero current_1 current_2 q r res = res
shamir_bits (suc rounds) current_1 current_2 q r res =
    let doubled = point_double res in
    let first = if bit_and current_1 left_one_mask == 0 then doubled else point_add doubled q in
    let next = if bit_and current_2 left_one_mask == 0 then first else point_add first r in
    shamir_bits rounds (current_1 * 2 % word_mod) (current_2 * 2 % word_mod) q r next

unfoldable pub shamir_words : ℕ → List ℕ → List ℕ → Point → Point → Point → Point
shamir_words zero k l q r res = res
shamir_words (suc i) k l q r res =
    shamir_words i k l q r (shamir_bits 32 (get_or k i 0) (get_or l i 0) q r res)

-- `shamirPointMultiply`.
unfoldable pub shamir_point_multiply : List ℕ → Point → List ℕ → Point → Point
shamir_point_multiply k q l r = shamir_words array_size k l q r point_at_infinity
