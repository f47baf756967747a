-- ===== src/Crypto/EcArithmetic/Formulas.antt =====
-- `pointDouble` and `pointAdd` of src/crypto/ec_arithmetic.c compute the formulas of Jacobian
-- coordinates on residues modulo the prime of the curve.
use remote_drone.Base.{ℕ, ◌+◌, ◌-◌, ◌*◌, List, ◌≡◌, sym, arith}
use remote_drone.Crypto.ModArithmetic.Value.{value}
use remote_drone.Crypto.Montgomery.Domain.{
  mont_mul-Represents, mod_add-Represents, mod_sub-Represents,
}
use remote_drone.Crypto.CurveParams.{p}
use remote_drone.Crypto.EcArithmetic.{Point, mul_p, add_p, sub_p, double_formula, add_formula}
use remote_drone.Crypto.EcArithmetic.Field.{coefficient_a, p-IsModulus, Residue, a_mont-Residue}

-- -1 as a residue.
abbrev pub minus_one : ℕ
minus_one = value p - 1

pub mul_p-Residue :
    {x y : List ℕ} {a b : ℕ} → Residue x a → Residue y b → Residue (mul_p x y) (a * b)
mul_p-Residue f g = mont_mul-Represents p-IsModulus f g

pub add_p-Residue :
    {x y : List ℕ} {a b : ℕ} → Residue x a → Residue y b → Residue (add_p x y) (a + b)
add_p-Residue f g = mod_add-Represents p-IsModulus f g

pub sub_p-Residue :
    {x y : List ℕ} {a b : ℕ} → Residue x a → Residue y b → Residue (sub_p x y) (a + minus_one * b)
sub_p-Residue f g = mod_sub-Represents p-IsModulus f g

-- The same residue, written in another way.
renamed : {x : List ℕ} {a b : ℕ} → Residue x a → a ≡ b → Residue x b
renamed f e = rw (sym e) f

-- Three residues.
pub record Coordinates : Type 0 where
  pub x : ℕ
  pub y : ℕ
  pub z : ℕ

-- The coordinates of a point hold these residues.
pub record IsPoint (q : Point) (c : Coordinates) : Type 0 where
  pub x_residue : Residue q.x c.x
  pub y_residue : Residue q.y c.y
  pub z_residue : Residue q.z c.z

-- The slope M = 3 X^2 + a Z^4 of the tangent, and S = 4 X Y^2.
abbrev pub tangent : Coordinates → ℕ
tangent c = 3 * (c.x * c.x) + coefficient_a * (c.z * c.z * (c.z * c.z))

abbrev pub middle : Coordinates → ℕ
middle c = 4 * (c.x * (c.y * c.y))

-- X' = M^2 - 2 S, Y' = M (S - X') - 8 Y^4, Z' = 2 Y Z.
abbrev pub doubled_x : Coordinates → ℕ
doubled_x c = tangent c * tangent c + minus_one * (2 * middle c)

abbrev pub doubled : Coordinates → Coordinates
doubled c = record {
  x = doubled_x c;
  y =
      tangent c * (middle c + minus_one * doubled_x c)
      + minus_one * (8 * (c.y * c.y * (c.y * c.y)));
  z = 2 * (c.y * c.z);
}

pub double_formula-IsPoint :
    (q : Point) (c : Coordinates) → IsPoint q c → IsPoint (double_formula q) (doubled c)
unfolding double_formula
double_formula-IsPoint q c i =
    let x = c.x in
    let y = c.y in
    let z = c.z in
    let y_2 = mul_p-Residue i.y_residue i.y_residue in
    let s_1 = mul_p-Residue y_2 i.x_residue in
    let s_2 = add_p-Residue s_1 s_1 in
    let s = renamed {b = middle c} (add_p-Residue s_2 s_2) (omega arith) in
    let z_2 = mul_p-Residue i.z_residue i.z_residue in
    let az_4 = mul_p-Residue a_mont-Residue (mul_p-Residue z_2 z_2) in
    let x_2 = mul_p-Residue i.x_residue i.x_residue in
    let m_3 = add_p-Residue (add_p-Residue x_2 x_2) x_2 in
    let m = renamed {b = tangent c} (add_p-Residue m_3 az_4) (omega arith) in
    let s_twice = renamed {b = 2 * middle c} (add_p-Residue s s) (omega arith) in
    let x_res = sub_p-Residue (mul_p-Residue m m) s_twice in
    let yz = mul_p-Residue i.y_residue i.z_residue in
    let y_4 = mul_p-Residue y_2 y_2 in
    let y_4_2 = add_p-Residue y_4 y_4 in
    let y_4_4 = add_p-Residue y_4_2 y_4_2 in
    let y_4_8 = renamed {b = 8 * (y * y * (y * y))} (add_p-Residue y_4_4 y_4_4) (omega arith) in
    record {
      x_residue = x_res;
      y_residue = sub_p-Residue (mul_p-Residue m (sub_p-Residue s x_res)) y_4_8;
      z_residue = renamed {b = 2 * (y * z)} (add_p-Residue yz yz) (omega arith);
    }

-- U1 = Z2^2 X1 and S1 = Z2^3 Y1 for the first point, and for the second one the points swapped.
abbrev pub scaled_x : Coordinates → Coordinates → ℕ
scaled_x c d = d.z * d.z * c.x

abbrev pub scaled_y : Coordinates → Coordinates → ℕ
scaled_y c d = d.z * d.z * d.z * c.y

-- H = U2 - U1 and D = S2 - S1.
abbrev pub step_x : Coordinates → Coordinates → ℕ
step_x c d = scaled_x d c + minus_one * scaled_x c d

abbrev pub step_y : Coordinates → Coordinates → ℕ
step_y c d = scaled_y d c + minus_one * scaled_y c d

-- X' = D^2 - H^3 - 2 U1 H^2, Y' = D (U1 H^2 - X') - S1 H^3, Z' = H Z1 Z2.
abbrev pub added_x : Coordinates → Coordinates → ℕ
added_x c d =
    let H = step_x c d in
    step_y c d * step_y c d + minus_one * (H * H * H) + minus_one * (2 * (scaled_x c d * (H * H)))

abbrev pub added : Coordinates → Coordinates → Coordinates
added c d =
    let H = step_x c d in
    record {
      x = added_x c d;
      y =
          step_y c d * (scaled_x c d * (H * H) + minus_one * added_x c d)
          + minus_one * (scaled_y c d * (H * H * H));
      z = H * (c.z * d.z);
    }

pub scaled_x-Residue :
    {q r : Point} {c d : Coordinates}
    → IsPoint q c
    → IsPoint r d
    → Residue (mul_p (mul_p r.z r.z) q.x) (scaled_x c d)
scaled_x-Residue i j = mul_p-Residue (mul_p-Residue j.z_residue j.z_residue) i.x_residue

pub scaled_y-Residue :
    {q r : Point} {c d : Coordinates}
    → IsPoint q c
    → IsPoint r d
    → Residue (mul_p (mul_p (mul_p r.z r.z) r.z) q.y) (scaled_y c d)
scaled_y-Residue i j =
    mul_p-Residue (mul_p-Residue (mul_p-Residue j.z_residue j.z_residue) j.z_residue) i.y_residue

pub add_formula-IsPoint :
    (u_1 s_1 u_2 s_2 : List ℕ) (q r : Point) (c d : Coordinates)
    → IsPoint q c
    → IsPoint r d
    → Residue u_1 (scaled_x c d)
    → Residue s_1 (scaled_y c d)
    → Residue u_2 (scaled_x d c)
    → Residue s_2 (scaled_y d c)
    → IsPoint (add_formula u_1 s_1 u_2 s_2 q r) (added c d)
unfolding add_formula
add_formula-IsPoint u_1 s_1 u_2 s_2 q r c d i j f1 g1 f2 g2 =
    let H = step_x c d in
    let h = sub_p-Residue f2 f1 in
    let h_2 = mul_p-Residue h h in
    let h_3 = mul_p-Residue h_2 h in
    let e = sub_p-Residue g2 g1 in
    let uh_2 = mul_p-Residue f1 h_2 in
    let twice =
      renamed {b = 2 * (scaled_x c d * (H * H))} (add_p-Residue uh_2 uh_2) (omega arith) in
    let x_res = sub_p-Residue (sub_p-Residue (mul_p-Residue e e) h_3) twice in
    record {
      x_residue = x_res;
      y_residue = sub_p-Residue (mul_p-Residue e (sub_p-Residue uh_2 x_res)) (mul_p-Residue g1 h_3);
      z_residue = mul_p-Residue h (mul_p-Residue i.z_residue j.z_residue);
    }
