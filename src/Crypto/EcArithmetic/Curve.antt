-- ===== src/Crypto/EcArithmetic/Curve.antt =====
-- The operations of src/crypto/ec_arithmetic.c keep points on the curve.
use remote_drone.Base.{
  ℕ, zero, suc, ◌+◌, ◌-◌, ◌*◌, ◌%◌, ◌<◌, true, false, ◌&&◌, List, ◌≡◌, refl, sym, ap, ◌∙◌, arith,
  ◌⊎◌, inl, inr, Bool-cases,
}
use remote_drone.Base.Congruence.{Congruent, Congruent-of_eq, Congruent-add, Congruent-mul}
use remote_drone.General.Compare.{equal_arrays}
use remote_drone.Crypto.ModArithmetic.{array_size}
use remote_drone.Crypto.ModArithmetic.Value.{value}
use remote_drone.Crypto.Montgomery.Domain.{Represents-unique, equal_words_iff}
use remote_drone.Crypto.CurveParams.{p, zero_words}
use remote_drone.Crypto.EcArithmetic.{
  Point, mul_p, is_zero_words, point_double, point_add, point_at_infinity,
}
use remote_drone.Crypto.EcArithmetic.Field.{
  coefficient_a, coefficient_b, p-IsModulus, Residue, zero_words-Residue, one_mont-Residue,
}
use remote_drone.Crypto.EcArithmetic.Formulas.{
  minus_one, Coordinates, IsPoint, tangent, middle, doubled_x, doubled, double_formula-IsPoint,
  scaled_x, scaled_y, step_x, step_y, added_x, added, scaled_x-Residue, scaled_y-Residue,
  add_formula-IsPoint,
}
use remote_drone.Crypto.EcArithmetic.Identities.{cube, tangent_identity, chord_identity}

-- The equation of the curve in Jacobian coordinates.
abbrev pub OnCurve : Coordinates → Type 0
OnCurve c = Congruent (value p) (c.y * c.y) (
    cube c.x
    + coefficient_a * (c.z * c.z * (c.z * c.z)) * c.x
    + coefficient_b * (cube c.z * cube c.z))

-- The code takes a point with two coordinates 0 for the point at infinity.
abbrev pub AtInfinity : Coordinates → Type 0
AtInfinity c = (Congruent (value p) c.x 0) × (Congruent (value p) c.y 0)

-- The arrays are those of a point of the curve.
pub record IsCurvePoint (q : Point) : Type 0 where
  pub coordinates : Coordinates
  pub is_point : IsPoint q coordinates
  pub equation : OnCurve coordinates ⊎ AtInfinity coordinates

-- A sum with -1 times a number, and that number.
restored : (a b : ℕ) → Congruent (value p) (a + minus_one * b + b) a
restored a b =
    Congruent-of_eq (value p) (a + minus_one * b + b) a 0 b
      (whole (value p) (omega (arith, p-IsModulus.big)))
  where
    whole : (P : ℕ) → 0 < P → a + (P - 1) * b + b + 0 * P ≡ a + b * P
    whole zero h = absurd (omega arith)
    whole (suc k) h = let less_one : suc k - 1 ≡ k = omega arith in rw less_one (omega arith)

-- Zero words are the form of 0 alone.
zero_words-cases :
    {x : List ℕ} {a : ℕ} → Residue x a → Congruent (value p) a 0 → is_zero_words x ≡ true
zero_words-cases {x} f e =
    (equal_words_iff x zero_words f.array zero_words-Residue.array).1
      (Represents-unique f zero_words-Residue e)

zero_words-Congruent : {x : List ℕ} {a : ℕ} → Residue x a → is_zero_words x ≡ true → Residue x 0
zero_words-Congruent {x} f e =
    let same = (equal_words_iff x zero_words f.array zero_words-Residue.array).0 e in
    rw same zero_words-Residue

pub point_at_infinity-IsCurvePoint : IsCurvePoint point_at_infinity
unfolding point_at_infinity
point_at_infinity-IsCurvePoint = record {
  coordinates = record { x = 0; y = 0; z = 1 };
  is_point = record {
    x_residue = zero_words-Residue;
    y_residue = zero_words-Residue;
    z_residue = one_mont-Residue;
  };
  equation = inr (refl, refl);
}

doubled-OnCurve : (c : Coordinates) → OnCurve c → OnCurve (doubled c)
doubled-OnCurve c on =
    let P = value p in
    let z_2 = c.z * c.z in
    let A = coefficient_a * (z_2 * z_2) in
    let B = coefficient_b * (cube c.z * cube c.z) in
    let y_4 = c.y * c.y * (c.y * c.y) in
    let T = middle c + minus_one * doubled_x c in
    let d = doubled c in
    let result =
      tangent_identity P c.x c.y A B d.x T d.y (restored (tangent c * tangent c) (2 * middle c))
        (restored (middle c) (doubled_x c)) (restored (tangent c * T) (8 * y_4)) on in
    let form : cube d.x + 16 * (A * y_4) * d.x + 64 * (y_4 * (c.y * c.y)) * B
        ≡ cube d.x
          + coefficient_a * (d.z * d.z * (d.z * d.z)) * d.x
          + coefficient_b * (cube d.z * cube d.z) =
      doubled_form (cube d.x) d.x c.y c.z coefficient_a coefficient_b in
    result ∙ ap (λ (t : ℕ). t % P) form
  where
    doubled_form :
        (k X y z a b : ℕ)
        → k
            + 16 * (a * (z * z * (z * z)) * (y * y * (y * y))) * X
            + 64 * (y * y * (y * y) * (y * y)) * (b * (cube z * cube z))
          ≡ k
            + a * (2 * (y * z) * (2 * (y * z)) * (2 * (y * z) * (2 * (y * z)))) * X
            + b * (cube (2 * (y * z)) * cube (2 * (y * z)))
    doubled_form k X y z a b = omega arith

-- `pointDouble` of a point of the curve is one.
pub point_double-IsCurvePoint : (q : Point) → IsCurvePoint q → IsCurvePoint (point_double q)
unfolding point_double
point_double-IsCurvePoint q k = elim (Bool-cases (is_zero_words q.y)) [
  | inl z ↦ rw z point_at_infinity-IsCurvePoint
  | inr z ↦ rw z (elim k.equation [
    | inl on ↦ record {
      coordinates = doubled k.coordinates;
      is_point = double_formula-IsPoint q k.coordinates k.is_point;
      equation = inl (doubled-OnCurve k.coordinates on);
    }
    | inr inf ↦ absurd (cc (sym (zero_words-cases k.is_point.y_residue inf.1) ∙ z))
  ])
]

-- The equation of the curve over the common denominator of two points.
abbrev Over : (Z U S : ℕ) → Type 0
Over Z U S =
    Congruent (value p) (S * S)
      (cube U + coefficient_a * (Z * Z * (Z * Z)) * U + coefficient_b * (cube Z * cube Z))

scaled-Over : (c d : Coordinates) → OnCurve c → Over (c.z * d.z) (scaled_x c d) (scaled_y c d)
scaled-Over c d on =
    let factor : ℕ = cube d.z * cube d.z in
    ap (λ (t : ℕ). t % value p) (left c.y d.z)
    ∙ Congruent-mul (value p) factor factor (c.y * c.y)
        (cube c.x
          + coefficient_a * (c.z * c.z * (c.z * c.z)) * c.x
          + coefficient_b * (cube c.z * cube c.z))
        refl on
    ∙ ap (λ (t : ℕ). t % value p) (right c.x c.z d.z coefficient_a coefficient_b)
  where
    left : (y z : ℕ) → z * z * z * y * (z * z * z * y) ≡ cube z * cube z * (y * y)
    left y z = omega arith

    right :
        (x w z a b : ℕ)
        → cube z * cube z * (cube x + a * (w * w * (w * w)) * x + b * (cube w * cube w))
          ≡ cube (z * z * x)
            + a * (w * z * (w * z) * (w * z * (w * z))) * (z * z * x)
            + b * (cube (w * z) * cube (w * z))
    right x w z a b = omega arith

-- The equation holds of residues.
Over-Congruent :
    (Z U S U' S' : ℕ)
    → Congruent (value p) U' U
    → Congruent (value p) S' S
    → Over Z U S
    → Over Z U' S'
Over-Congruent Z U S U' S' e f o =
    let P = value p in
    let A = coefficient_a * (Z * Z * (Z * Z)) in
    let B = coefficient_b * (cube Z * cube Z) in
    let cubes = Congruent-mul P (U' * U') (U * U) U' U (Congruent-mul P U' U U' U e e) e in
    let linear = Congruent-mul P A A U' U refl e in
    Congruent-mul P S' S S' S f f
    ∙ o
    ∙ sym (
        Congruent-add P (cube U' + A * U') (cube U + A * U) B B
          (Congruent-add P (cube U') (cube U) (A * U') (A * U) cubes linear) refl)

added-OnCurve : (c d : Coordinates) → OnCurve c → OnCurve d → OnCurve (added c d)
added-OnCurve c d on_c on_d =
    let P = value p in
    let Z = c.z * d.z in
    let A = coefficient_a * (Z * Z * (Z * Z)) in
    let B = coefficient_b * (cube Z * cube Z) in
    let U = scaled_x c d in
    let S = scaled_y c d in
    let H = step_x c d in
    let D = step_y c d in
    let V = U * (H * H) in
    let X = added_x c d in
    let T = V + minus_one * X in
    let Y = (added c d).y in
    let first : Over Z U S = scaled-Over c d on_c in
    let commuted : d.z * c.z ≡ Z = omega arith in
    let second : Over Z (scaled_x d c) (scaled_y d c) = rw commuted at (scaled-Over d c on_d) in
    let to_x : Congruent P (U + H) (scaled_x d c) =
      ap (λ (t : ℕ). t % P) (moved U (scaled_x d c) minus_one) ∙ restored (scaled_x d c) U in
    let to_y : Congruent P (S + D) (scaled_y d c) =
      ap (λ (t : ℕ). t % P) (moved S (scaled_y d c) minus_one) ∙ restored (scaled_y d c) S in
    let e1 : Congruent P (X + cube H + 2 * V) (D * D) =
      ap (λ (t : ℕ). t % P) (regrouped (D * D) (cube H) (2 * V) minus_one)
      ∙ Congruent-add P (D * D + minus_one * cube H + minus_one * (2 * V) + 2 * V)
          (D * D + minus_one * cube H) (cube H) (cube H)
          (restored (D * D + minus_one * cube H) (2 * V)) refl
      ∙ restored (D * D) (cube H) in
    let result =
      chord_identity P U S H D A B X T Y e1 (restored V X) (restored (D * T) (S * cube H)) first
        (Over-Congruent Z (scaled_x d c) (scaled_y d c) (U + H) (S + D) to_x to_y second) in
    result ∙ ap (λ (t : ℕ). t % P) (added_form (cube X) X H Z coefficient_a coefficient_b)
  where
    moved : (u v m : ℕ) → u + (v + m * u) ≡ v + m * u + u
    moved u v m = omega arith

    regrouped : (d h v m : ℕ) → d + m * h + m * v + h + v ≡ d + m * h + m * v + v + h
    regrouped d h v m = omega arith

    added_form :
        (k X H Z a b : ℕ)
        → k + a * (Z * Z * (Z * Z)) * (H * cube H) * X + b * (cube Z * cube Z) * (cube H * cube H)
          ≡ k + a * (H * Z * (H * Z) * (H * Z * (H * Z))) * X + b * (cube (H * Z) * cube (H * Z))
    added_form k X H Z a b = omega arith

-- `pointAdd` of two points of the curve is one.
pub point_add-IsCurvePoint :
    (q r : Point) → IsCurvePoint q → IsCurvePoint r → IsCurvePoint (point_add q r)
unfolding point_add
point_add-IsCurvePoint q r k l =
    let i = k.is_point in
    let j = l.is_point in
    let f1 = scaled_x-Residue i j in
    let g1 = scaled_y-Residue i j in
    let f2 = scaled_x-Residue j i in
    let g2 = scaled_y-Residue j i in
    let u_1 = mul_p (mul_p r.z r.z) q.x in
    let s_1 = mul_p (mul_p (mul_p r.z r.z) r.z) q.y in
    let u_2 = mul_p (mul_p q.z q.z) r.x in
    let s_2 = mul_p (mul_p (mul_p q.z q.z) q.z) r.y in
    elim (finite q k) [
      | inl e ↦ rw e l
      | inr (e, on_q) ↦ elim (finite r l) [
        | inl e' ↦ rw (e, e') k
        | inr (e', on_r) ↦ elim (Bool-cases (equal_arrays u_1 u_2 array_size)) [
          | inl same_x ↦ elim (Bool-cases (equal_arrays s_1 s_2 array_size)) [
            | inl same_y ↦ rw (e, e', same_x, same_y) (point_double-IsCurvePoint q k)
            | inr other ↦ rw (e, e', same_x, other) point_at_infinity-IsCurvePoint
          ]
          | inr other ↦
              rw (e, e', other)
                (record {
                  coordinates = added k.coordinates l.coordinates;
                  is_point =
                      add_formula-IsPoint u_1 s_1 u_2 s_2 q r k.coordinates l.coordinates i j f1 g1
                        f2 g2;
                  equation = inl (added-OnCurve k.coordinates l.coordinates on_q on_r);
                })
        ]
      ]
    ]
  where
    finite :
        (q : Point) (k : IsCurvePoint q)
        → ((is_zero_words q.x && is_zero_words q.y) ≡ true)
          ⊎ (((is_zero_words q.x && is_zero_words q.y) ≡ false) × OnCurve k.coordinates)
    finite q k = elim (Bool-cases (is_zero_words q.x && is_zero_words q.y)) [
      | inl e ↦ inl e
      | inr e ↦ elim k.equation [
        | inl on ↦ inr (e, on)
        | inr inf ↦ inl (
            rw
              (
                zero_words-cases k.is_point.x_residue inf.0,
                zero_words-cases k.is_point.y_residue inf.1,
              )
              refl)
      ]
    ]
