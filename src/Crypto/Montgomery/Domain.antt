-- ===== src/Crypto/Montgomery/Domain.antt =====
-- The Montgomery domain of src/crypto/mod_arithmetic.c: an array stands for the residue whose product
-- with 2 ^ 256 it holds, and `montMul`, `mod_add` and `mod_sub` are the operations on residues.
use native.Mathlib.Nat.{mod-lt}
use remote_drone.Base.{
  ℕ, zero, suc, ◌+◌, ◌-◌, ◌*◌, ◌%◌, ◌^◌, ◌<◌, true, List, ◌≡◌, refl, sym, ap, ◌∙◌, arith, get_or,
  ◌↔◌,
}
use remote_drone.Base.Congruence.{
  Congruent, Congruent-of_eq, Congruent-add, Congruent-add_cancel, Congruent-mul, Congruent-cancel,
  mod-Congruent, eq_of_Congruent,
}
use remote_drone.General.Compare.{equal_arrays}
use remote_drone.General.Compare.Laws.{equal_arrays_iff}
use remote_drone.Crypto.ModArithmetic.{word_mod, array_size, mod_add, mod_sub}
use remote_drone.Crypto.ModArithmetic.Value.{IsArray, value, value-injective, take_all}
use remote_drone.Crypto.ModArithmetic.Modular.{value-lt-256, mod_add_lem, mod_sub_lem}
use remote_drone.Crypto.Montgomery.{mont_mul}
use remote_drone.Crypto.Montgomery.Product.{mont_mul_lem}

-- 2 ^ 256.
abbrev pub radix : ℕ
radix = word_mod ^ 8

abbrev pub IsReduced : List ℕ → List ℕ → Type 0
IsReduced N x = IsArray array_size x × (value x < value N)

-- The array `x` is the Montgomery form of the residue of `a`.
pub record Represents (N x : List ℕ) (a : ℕ) : Type 0 where
  pub array : IsArray array_size x
  pub reduced : value x < value N
  pub form : Congruent (value N) (value x) (radix * a)

-- A modulus that `montMul` takes: with its word `n_prime`, and an inverse of 2 ^ 256.
pub record IsModulus (N n_prime : List ℕ) (inverse : ℕ) : Type 0 where
  pub modulus_array : IsArray array_size N
  pub big : 1 < value N
  pub word_inverse : (get_or N 0 0 * get_or n_prime 0 0 + 1) % word_mod ≡ 0
  pub radix_inverse : Congruent (value N) (radix * inverse) 1

pub product_fits : (a b N r : ℕ) → a < r → b < N → a * b < r * N
product_fits a b N r h k = grind arith

negated :
    (M a b : ℕ) → 0 < M → radix * (a + (M - 1) * b) + radix * b + 0 * M ≡ radix * a + radix * b * M
negated zero a b h = absurd (omega arith)
negated (suc m) a b h = let less_one : suc m - 1 ≡ m = omega arith in rw less_one (omega arith)

-- One residue has one form.
pub Represents-unique :
    {N x y : List ℕ} {a b : ℕ}
    → Represents N x a
    → Represents N y b
    → Congruent (value N) a b
    → x ≡ y
Represents-unique {N} {x} {y} {a} {b} f g e =
    let forms : Congruent (value N) (radix * a) (radix * b) =
      Congruent-mul (value N) radix radix a b refl e in
    value-injective x y (f.array.0 ∙ sym g.array.0) f.array.1 g.array.1 (
      eq_of_Congruent (value N) (value x) (value y) f.reduced g.reduced
        (f.form ∙ forms ∙ sym g.form))

pub Represents-Congruent :
    {N x : List ℕ} {a b : ℕ} → Represents N x a → Congruent (value N) a b → Represents N x b
Represents-Congruent {N} {x} {a} {b} f e = record {
  array = f.array;
  reduced = f.reduced;
  form = f.form ∙ Congruent-mul (value N) radix radix a b refl e;
}

-- The word arrays that `equalWordArrays` finds equal.
pub equal_words_iff :
    (x y : List ℕ)
    → IsArray array_size x
    → IsArray array_size y
    → (equal_arrays x y array_size ≡ true) ↔ (x ≡ y)
equal_words_iff x y hx hy =
    rw (take_all 8 x hx.0, take_all 8 y hy.0) at
      (equal_arrays_iff 8 x y (omega arith) (omega arith))

module _ {N n_prime : List ℕ} {inverse : ℕ} (hN : IsModulus N n_prime inverse) where
  pub mont_mul-Represents :
      {x y : List ℕ} {a b : ℕ}
      → Represents N x a
      → Represents N y b
      → Represents N (mont_mul x y N n_prime) (a * b)
  mont_mul-Represents {x} {y} {a} {b} f g =
      let M = value N in
      let fits = product_fits (value x) (value y) M radix (value-lt-256 x f.array) g.reduced in
      let (array, lt, exact) =
        mont_mul_lem x y N n_prime f.array g.array hN.modulus_array hN.word_inverse fits in
      let product : Congruent M (value x * value y) (radix * a * (radix * b)) =
        Congruent-mul M (value x) (radix * a) (value y) (radix * b) f.form g.form in
      let regrouped : radix * a * (radix * b) ≡ radix * (radix * (a * b)) = omega arith in
      record {
        array = array;
        reduced = lt;
        form =
            Congruent-cancel M radix inverse (value (mont_mul x y N n_prime)) (radix * (a * b))
              hN.radix_inverse (exact ∙ product ∙ ap (λ (t : ℕ). t % M) regrouped);
      }

  pub mod_add-Represents :
      {x y : List ℕ} {a b : ℕ}
      → Represents N x a
      → Represents N y b
      → Represents N (mod_add x y N) (a + b)
  mod_add-Represents {x} {y} {a} {b} f g =
      let M = value N in
      let fits : value x + value y < 2 * M = omega (arith, f.reduced, g.reduced) in
      let (exact, array) = mod_add_lem x y N f.array g.array hN.modulus_array fits in
      let sum : Congruent M (value x + value y) (radix * a + radix * b) =
        Congruent-add M (value x) (radix * a) (value y) (radix * b) f.form g.form in
      let spread : radix * a + radix * b ≡ radix * (a + b) = omega arith in
      record {
        array = array;
        reduced = rw exact (mod-lt (value x + value y) (omega (arith, hN.big)));
        form =
            rw exact (sym (mod-Congruent M (value x + value y)))
            ∙ sum
            ∙ ap (λ (t : ℕ). t % M) spread;
      }

  -- The difference of two residues is the sum with the product by -1, which is `value N - 1`.
  pub mod_sub-Represents :
      {x y : List ℕ} {a b : ℕ}
      → Represents N x a
      → Represents N y b
      → Represents N (mod_sub x y N) (a + (value N - 1) * b)
  mod_sub-Represents {x} {y} {a} {b} f g =
      let M = value N in
      let d = value x + M - value y in
      let c = a + (M - 1) * b in
      let (exact, array) = mod_sub_lem x y N f.array g.array hN.modulus_array f.reduced g.reduced in
      let total : Congruent M (d % M + value y) (value x) =
        Congruent-add M (d % M) d (value y) (value y) (sym (mod-Congruent M d)) refl
        ∙ Congruent-of_eq M (d + value y) (value x) 0 1 (omega (arith, g.reduced)) in
      let spread : radix * c + radix * b + 0 * M ≡ radix * a + radix * b * M =
        negated M a b (omega (arith, hN.big)) in
      record {
        array = array;
        reduced = rw exact (mod-lt d (omega (arith, hN.big)));
        form = rw exact (
            Congruent-add_cancel M (d % M) (radix * c) (value y) (
              total
              ∙ f.form
              ∙ sym (Congruent-of_eq M (radix * c + radix * b) (radix * a) 0 (radix * b) spread)
              ∙ sym (Congruent-add M (radix * c) (radix * c) (value y) (radix * b) refl g.form)));
      }
