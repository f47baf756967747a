-- ===== src/Crypto/EcArithmetic/Conversion.antt =====
-- `isOnCurve`, `toJacobian` and `toCartesian` of src/crypto/ec_arithmetic.c.
use remote_drone.Base.{
  ℕ, ◌+◌, ◌*◌, ◌%◌, true, ◌&&◌, List, ◌≡◌, refl, sym, ap, ◌∙◌, arith, ◌⊎◌, inl, inr, ◌↔◌,
  Bool-cases,
}
use remote_drone.Base.Congruence.{Congruent, Congruent-mul, eq_of_Congruent, Congruent-mul_right}
use remote_drone.General.Compare.{equal_arrays}
use remote_drone.Crypto.ModArithmetic.{array_size}
use remote_drone.Crypto.ModArithmetic.Value.{IsArray, value, value-injective}
use remote_drone.Crypto.ModInverse.{mod_inv}
use remote_drone.Crypto.ModInverse.Loop.{mod_inv-lt, mod_inv_lem}
use remote_drone.Crypto.Montgomery.Domain.{IsReduced, Represents-unique, equal_words_iff}
use remote_drone.Crypto.Montgomery.Normal.{enter-Represents, leave_product, residue-Congruent}
use remote_drone.Crypto.CurveParams.{p, rp_2, a_mont, b_mont, zero_words, one_words}
use remote_drone.Crypto.EcArithmetic.{
  Point, mul_p, add_p, is_zero_words, is_on_curve, to_jacobian, to_cartesian,
}
use remote_drone.Crypto.EcArithmetic.Field.{
  coefficient_a, coefficient_b, p-IsModulus, Residue, zero_words-Residue, one_mont-Residue,
  a_mont-Residue, b_mont-Residue, rp_2-Residue, one_words-Residue,
}
use remote_drone.Crypto.EcArithmetic.Formulas.{Coordinates, IsPoint, mul_p-Residue, add_p-Residue}
use remote_drone.Crypto.EcArithmetic.Identities.{cube}
use remote_drone.Crypto.EcArithmetic.Curve.{IsCurvePoint}

-- The equation of the curve for two numbers.
abbrev pub Equation : ℕ → ℕ → Type 0
Equation x y = Congruent (value p) (y * y) (cube x + coefficient_a * x + coefficient_b)

entered : (x : List ℕ) → IsArray array_size x → Residue (mul_p x rp_2) (value x)
entered x h = enter-Represents p-IsModulus x rp_2 h rp_2-Residue

-- Two arrays that represent residues are equal exactly when the residues are.
residues_iff :
    {x y : List ℕ} {a b : ℕ}
    → Residue x a
    → Residue y b
    → (equal_arrays x y array_size ≡ true) ↔ Congruent (value p) a b
residues_iff {x} {y} {a} {b} f g =
    let same = equal_words_iff x y f.array g.array in
    (λ e. from_equal (same.0 e), λ e. same.1 (Represents-unique f g e))
  where
    from_equal : x ≡ y → Congruent (value p) a b
    from_equal e = let f' : Residue y a = rw (sym e) f in residue-Congruent p-IsModulus f' g

zero_words_iff : (x : List ℕ) → IsArray array_size x → (is_zero_words x ≡ true) ↔ (x ≡ zero_words)
zero_words_iff x h = equal_words_iff x zero_words h zero_words-Residue.array

-- The last comparison of `isOnCurve`.
last_test_iff :
    (x y : List ℕ)
    → IsArray array_size x
    → IsArray array_size y
    → let x_mont = mul_p x rp_2 in
      let y_mont = mul_p y rp_2 in
      let right = add_p (add_p (mul_p (mul_p x_mont x_mont) x_mont) (mul_p a_mont x_mont)) b_mont in
      (equal_arrays (mul_p y_mont y_mont) right array_size ≡ true) ↔ Equation (value x) (value y)
last_test_iff x y hx hy =
    let f = entered x hx in
    let g = entered y hy in
    residues_iff (mul_p-Residue g g) (
      add_p-Residue
        (add_p-Residue (mul_p-Residue (mul_p-Residue f f) f) (mul_p-Residue a_mont-Residue f))
        b_mont-Residue)

-- `isOnCurve` answers 1 exactly for two zero arrays and for coordinates that satisfy the equation
-- of the curve modulo its prime.
pub is_on_curve_iff :
    (x y : List ℕ)
    → IsArray array_size x
    → IsArray array_size y
    → (is_on_curve x y ≡ true)
      ↔ ((x ≡ zero_words) × (y ≡ zero_words)) ⊎ Equation (value x) (value y)
unfolding is_on_curve
is_on_curve_iff x y hx hy =
    let both = is_zero_words x && is_zero_words y in
    elim (Bool-cases both) [
      | inl e ↦
          rw e ((λ _. inl (ground (arith, zero_words_iff x hx, zero_words_iff y hy)), λ _. refl))
      | inr e ↦ rw e (
          (
            λ h. inr ((last_test_iff x y hx hy).0 h),
            λ h. elim h [
              | inl zeros ↦ absurd (ground (arith, zero_words_iff x hx, zero_words_iff y hy))
              | inr on ↦ (last_test_iff x y hx hy).1 on
            ],
          ))
    ]

zero_at_infinity :
    (Congruent (value p) (value zero_words) 0) × (Congruent (value p) (value zero_words) 0)
unfolding value
zero_at_infinity = (refl, refl)

-- `toJacobian` of what `isOnCurve` accepts is a point of the curve.
pub to_jacobian-IsCurvePoint :
    (x y : List ℕ)
    → IsArray array_size x
    → IsArray array_size y
    → is_on_curve x y ≡ true
    → IsCurvePoint (to_jacobian x y)
unfolding to_jacobian
to_jacobian-IsCurvePoint x y hx hy h =
    let c : Coordinates = record { x = value x; y = value y; z = 1 } in
    record {
      coordinates = c;
      is_point = record {
        x_residue = entered x hx;
        y_residue = entered y hy;
        z_residue = one_mont-Residue;
      };
      equation = elim ((is_on_curve_iff x y hx hy).0 h) [
        | inl zeros ↦ inr (rw (zeros.0, zeros.1) (zero_at_infinity))
        | inr on ↦ inl (
            on
            ∙ ap (λ (t : ℕ). t % value p)
                (widened (cube (value x)) (value x) coefficient_a coefficient_b))
      ];
    }
  where
    widened : (k x a b : ℕ) → k + a * x + b ≡ k + a * (1 * 1 * (1 * 1)) * x + b * (cube 1 * cube 1)
    widened k x a b = omega arith

one_value : value one_words ≡ 1
unfolding value
one_value = refl

one_words-IsReduced : IsReduced p one_words
one_words-IsReduced = (one_words-Residue.array, one_words-Residue.reduced)

odd_p : value p % 2 ≡ 1
unfolding value
odd_p = refl

-- The numbers that `mod_inv` is given by `toCartesian`, and the quotient that is taken with the answer.
divided :
    {x w : List ℕ} {a e : ℕ} (j : ℕ)
    → Residue x a
    → Residue w e
    → Congruent (value p) (e * j) 1
    → let r = mul_p x (mod_inv (mul_p w one_words) p) in
      IsReduced p r × Congruent (value p) (value r * e) a
divided {x} {w} {a} {e} j f g inverse =
    let P = value p in
    let normal = mul_p w one_words in
    let (reduced, form) = leave_product p-IsModulus one_words g one_words-IsReduced in
    let form' : Congruent P (value normal) e =
      form ∙ ap (λ (t : ℕ). t % P) (timed_one e (value one_words) one_value) in
    let (array, lt, exact) =
      mod_inv_lem p normal p-IsModulus.modulus_array odd_p j reduced.0 p-IsModulus.big
        (Congruent-mul_right P (value normal) e j form' ∙ inverse) in
    let i = mod_inv normal p in
    let (reduced', form'') = leave_product p-IsModulus i f (array, lt) in
    let r = mul_p x i in
    (
      reduced',
      Congruent-mul P (value r) (a * value i) e (value normal) form'' (sym form')
          ∙ ap (λ (t : ℕ). t % P) (regrouped a (value i) (value normal))
          ∙ Congruent-mul P a a (value i * value normal) 1 refl exact
          ∙ ap (λ (t : ℕ). t % P) (single a),
    )
  where
    timed_one : (e v : ℕ) → v ≡ 1 → e * v ≡ e
    timed_one e v h = rw h (omega arith)

    regrouped : (a i n : ℕ) → a * i * n ≡ a * (i * n)
    regrouped a i n = omega arith

    single : (a : ℕ) → a * 1 ≡ a
    single a = omega arith

-- `toCartesian` of a point whose third coordinate has an inverse modulo the prime gives reduced
-- coordinates x and y with x Z^2 = X and y Z^3 = Y.
pub to_cartesian_lem :
    (q : Point) (c : Coordinates) (j : ℕ)
    → IsPoint q c
    → Congruent (value p) (c.z * j) 1
    → let (x, y) = to_cartesian q in
      IsReduced p x
      × IsReduced p y
      × Congruent (value p) (value x * (c.z * c.z)) c.x
      × Congruent (value p) (value y * (c.z * c.z * c.z)) c.y
unfolding to_cartesian
to_cartesian_lem q c j i inverse =
    let P = value p in
    let z_2 = mul_p-Residue i.z_residue i.z_residue in
    let z_3 = mul_p-Residue z_2 i.z_residue in
    let squared =
      ap (λ (t : ℕ). t % P) (square c.z j)
      ∙ Congruent-mul P (c.z * j) 1 (c.z * j) 1 inverse inverse in
    let cubed =
      ap (λ (t : ℕ). t % P) (cubic c.z j)
      ∙ Congruent-mul P (c.z * c.z * (j * j)) 1 (c.z * j) 1 squared inverse in
    let (x_reduced, x_form) = divided (j * j) i.x_residue z_2 squared in
    let (y_reduced, y_form) = divided (j * j * j) i.y_residue z_3 cubed in
    (x_reduced, y_reduced, x_form, y_form)
  where
    square : (z j : ℕ) → z * z * (j * j) ≡ z * j * (z * j)
    square z j = omega arith

    cubic : (z j : ℕ) → z * z * z * (j * j * j) ≡ z * z * (j * j) * (z * j)
    cubic z j = omega arith

-- The coordinates that `toCartesian` gives are reduced, whether there is an inverse or not.
pub to_cartesian-IsReduced :
    (q : Point) (c : Coordinates)
    → IsPoint q c
    → let (x, y) = to_cartesian q in IsReduced p x × IsReduced p y
unfolding to_cartesian
to_cartesian-IsReduced q c i =
    let z_2 = mul_p-Residue i.z_residue i.z_residue in
    let z_3 = mul_p-Residue z_2 i.z_residue in (quotient i.x_residue z_2, quotient i.y_residue z_3)
  where
    quotient :
        {x w : List ℕ} {a e : ℕ}
        → Residue x a
        → Residue w e
        → IsReduced p (mul_p x (mod_inv (mul_p w one_words) p))
    quotient {x} {w} f g =
        let (reduced, form) = leave_product p-IsModulus one_words g one_words-IsReduced in
        let (array, lt) =
          mod_inv-lt p (mul_p w one_words) p-IsModulus.modulus_array odd_p reduced.0
            p-IsModulus.big in
        (leave_product p-IsModulus (mod_inv (mul_p w one_words) p) f (array, lt)).0

same_reduced :
    (x y : List ℕ) → IsReduced p x → IsReduced p y → Congruent (value p) (value x) (value y) → x ≡ y
same_reduced x y hx hy e =
    value-injective x y (hx.0.0 ∙ sym hy.0.0) hx.0.1 hy.0.1
      (eq_of_Congruent (value p) (value x) (value y) hx.1 hy.1 e)

-- `toCartesian` inverts `toJacobian` on coordinates below the prime.
pub to_cartesian-to_jacobian :
    (x y : List ℕ) → IsReduced p x → IsReduced p y → to_cartesian (to_jacobian x y) ≡ (x, y)
unfolding to_jacobian
to_cartesian-to_jacobian x y hx hy =
    let c : Coordinates = record { x = value x; y = value y; z = 1 } in
    let i : IsPoint (to_jacobian x y) c = record {
      x_residue = entered x hx.0;
      y_residue = entered y hy.0;
      z_residue = one_mont-Residue;
    } in
    let (x_reduced, y_reduced, x_form, y_form) = to_cartesian_lem (to_jacobian x y) c 1 i refl in
    let (x', y') = to_cartesian (to_jacobian x y) in
    let same_x : x' ≡ x =
      same_reduced x' x x_reduced hx
        (sym (ap (λ (t : ℕ). t % value p) (by_one (value x'))) ∙ x_form) in
    let same_y : y' ≡ y =
      same_reduced y' y y_reduced hy
        (sym (ap (λ (t : ℕ). t % value p) (by_one_cubed (value y'))) ∙ y_form) in
    cc (same_x, same_y)
  where
    by_one : (v : ℕ) → v * (1 * 1) ≡ v
    by_one v = omega arith

    by_one_cubed : (v : ℕ) → v * (1 * 1 * 1) ≡ v
    by_one_cubed v = omega arith
