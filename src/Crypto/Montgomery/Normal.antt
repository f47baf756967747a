-- ===== src/Crypto/Montgomery/Normal.antt =====
-- Into the Montgomery domain of src/crypto/mod_arithmetic.c and out of it: `montMul` by the square of
-- 2 ^ 256 and by 1.
use remote_drone.Base.{ℕ, ◌*◌, ◌%◌, List, ◌≡◌, refl, sym, ap, ◌∙◌, arith}
use remote_drone.Base.Congruence.{Congruent, Congruent-mul, Congruent-mul_right, Congruent-cancel}
use remote_drone.Crypto.ModArithmetic.{array_size}
use remote_drone.Crypto.ModArithmetic.Value.{IsArray, value}
use remote_drone.Crypto.ModArithmetic.Modular.{value-lt-256}
use remote_drone.Crypto.Montgomery.{mont_mul}
use remote_drone.Crypto.Montgomery.Product.{mont_mul_lem}
use remote_drone.Crypto.Montgomery.Domain.{
  radix, IsReduced, Represents, IsModulus, mont_mul-Represents, product_fits,
}

module _ {N n_prime : List ℕ} {inverse : ℕ} (hN : IsModulus N n_prime inverse) where
  -- A factor 2 ^ 256 against its inverse.
  undone : (a : ℕ) → Congruent (value N) (radix * (inverse * a)) a
  undone a =
      ap (λ (t : ℕ). t % value N) (regrouped radix inverse a)
      ∙ Congruent-mul_right (value N) (radix * inverse) 1 a hN.radix_inverse
      ∙ ap (λ (t : ℕ). t % value N) (single a)
    where
      regrouped : (r i a : ℕ) → r * (i * a) ≡ r * i * a
      regrouped r i a = omega arith

      single : (a : ℕ) → 1 * a ≡ a
      single a = omega arith

  -- One form stands for one residue.
  pub residue-Congruent :
      {x : List ℕ} {a b : ℕ} → Represents N x a → Represents N x b → Congruent (value N) a b
  residue-Congruent {x} {a} {b} f g =
      Congruent-cancel (value N) radix inverse a b hN.radix_inverse (sym f.form ∙ g.form)

  -- A number below the modulus is the form of its product with the inverse.
  pub normal-Represents : {x : List ℕ} → IsReduced N x → Represents N x (inverse * value x)
  normal-Represents {x} (h, lt) = record { array = h; reduced = lt; form = sym (undone (value x)) }

  -- `montMul` by the form of 2 ^ 256, of any array, reduced or not.
  pub enter-Represents :
      (x r_2 : List ℕ)
      → IsArray array_size x
      → Represents N r_2 radix
      → Represents N (mont_mul x r_2 N n_prime) (value x)
  enter-Represents x r_2 hx f =
      let M = value N in
      let fits = product_fits (value x) (value r_2) M radix (value-lt-256 x hx) f.reduced in
      let (array, lt, exact) =
        mont_mul_lem x r_2 N n_prime hx f.array hN.modulus_array hN.word_inverse fits in
      let product : Congruent M (value x * value r_2) (value x * (radix * radix)) =
        Congruent-mul M (value x) (value x) (value r_2) (radix * radix) refl f.form in
      record {
        array = array;
        reduced = lt;
        form =
            Congruent-cancel M radix inverse (value (mont_mul x r_2 N n_prime)) (radix * value x)
              hN.radix_inverse
              (exact ∙ product ∙ ap (λ (t : ℕ). t % M) (regrouped (value x) radix));
      }
    where
      regrouped : (v r : ℕ) → v * (r * r) ≡ r * (r * v)
      regrouped v r = omega arith

  -- `montMul` of a form by a number leaves the product of the residue and the number.
  pub leave_product :
      {x : List ℕ} {a : ℕ} (y : List ℕ)
      → Represents N x a
      → IsReduced N y
      → IsReduced N (mont_mul x y N n_prime)
        × Congruent (value N) (value (mont_mul x y N n_prime)) (a * value y)
  leave_product {x} {a} y f g =
      let h = mont_mul-Represents hN f (normal-Represents g) in
      let M = value N in
      (
        (h.array, h.reduced),
        h.form ∙ ap (λ (t : ℕ). t % M) (regrouped radix a inverse (value y)) ∙ undone (a * value y),
      )
    where
      regrouped : (r a i v : ℕ) → r * (a * (i * v)) ≡ r * (i * (a * v))
      regrouped r a i v = omega arith

  -- The product in the normal domain: `montMul` of the factors, and of that by the square of 2 ^ 256.
  pub normal_product :
      (x y r_2 : List ℕ)
      → IsReduced N x
      → IsReduced N y
      → Represents N r_2 radix
      → let r = mont_mul (mont_mul x y N n_prime) r_2 N n_prime in
        IsReduced N r × Congruent (value N) (value r) (value x * value y)
  normal_product x y r_2 f g h =
      let t = mont_mul-Represents hN (normal-Represents f) (normal-Represents g) in
      let r = mont_mul-Represents hN t h in
      let M = value N in
      (
        (r.array, r.reduced),
        r.form
            ∙ ap (λ (t : ℕ). t % M) (regrouped radix inverse (value x) (value y))
            ∙ undone (radix * (inverse * (value x * value y)))
            ∙ undone (value x * value y),
      )
    where
      regrouped : (r i v w : ℕ) → r * (i * v * (i * w) * r) ≡ r * (i * (r * (i * (v * w))))
      regrouped r i v w = omega arith
