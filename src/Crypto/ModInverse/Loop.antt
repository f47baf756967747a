-- ===== src/Crypto/ModInverse/Loop.antt =====
-- The loop of `mod_inv` in src/crypto/mod_arithmetic.c ends, and what it leaves is the inverse.
use Prim.Native.Nat.{◌∣◌}
use native.Mathlib.Nat.{
  pow-suc, dvd_refl, dvd-zero, eq-one_of_dvd-one, dvd-add_iff_right, dvd-mul_right_of_dvd,
  dvd-mul_left_of_dvd, mod-add-div', mod-eq_of_lt,
}
use remote_drone.Base.{
  ℕ, zero, suc, ◌+◌, ◌*◌, ◌/◌, ◌%◌, ◌^◌, ◌≤◌, ◌<◌, true, false, List, [], ◌∷◌, ◌≡◌, refl, sym, ◌∙◌,
  arith, get_or, ltb, ◌⊎◌, inl, inr, Bool-cases,
}
use remote_drone.Base.Congruence.{Congruent, Congruent-of_eq}
use remote_drone.Crypto.ModArithmetic.{
  word_mod, array_size, Comparison, less, same, greater, compare,
}
use remote_drone.Crypto.ModArithmetic.Value.{IsArray, value}
use remote_drone.Crypto.ModArithmetic.Modular.{value-lt-256}
use remote_drone.Crypto.ModArithmetic.Halving.{Ordered, compare_lem}
use remote_drone.Crypto.ModInverse.{
  Work, zeros, is_same, inv_step, inv_loop, started, inv_fuel, inv_result, mod_inv,
}
use remote_drone.Crypto.ModInverse.Step.{
  IsInverting, Progress, product, greater-cases, inv_step-IsInverting,
}

zeros-IsArray : (IsArray array_size zeros) × (value zeros ≡ 0)
unfolding value
zeros-IsArray = ((refl, omega arith), refl)

-- The test of the loop.
zero-cases :
    (a : List ℕ)
    → IsArray array_size a
    → ((is_same (compare a zeros) ≡ true) × (value a ≡ 0))
      ⊎ ((is_same (compare a zeros) ≡ false) × (0 < value a))
zero-cases a ha = by_answer (compare a zeros) (compare_lem a zeros ha zeros-IsArray.0)
  where
    by_answer :
        (c : Comparison)
        → Ordered c (value a) (value zeros)
        → ((is_same c ≡ true) × (value a ≡ 0)) ⊎ ((is_same c ≡ false) × (0 < value a))
    by_answer less h = absurd (omega (arith, zeros-IsArray.1))
    by_answer same h = inl (refl, h ∙ zeros-IsArray.1)
    by_answer greater h = inr (refl, omega arith)

-- Enough rounds for a product below 2 ^ k: two for each bit, and one more where it is odd.
abbrev Enough : ℕ → ℕ → ℕ → Type 0
Enough fuel k n = (n < 2 ^ k) × (2 * k + n % 2 ≤ fuel)

product_pos : (a b : ℕ) → 0 < a → 0 < b → 0 < a * b
product_pos a b h k = grind arith

Enough-next :
    (fuel k n n' : ℕ)
    → 0 < n
    → Enough (suc fuel) k n
    → Progress n n'
    → (k' : ℕ) × (n' < 2 ^ k') × (2 * k' + n' % 2 ≤ fuel)
Enough-next fuel zero n n' pos (lt, room) pr = absurd (omega arith)
Enough-next fuel (suc k) n n' pos (lt, room) (inl e) = (k, omega (arith, pow-suc 2 k), omega arith)
Enough-next fuel (suc k) n n' pos (lt, room) (inr (odd, le, even)) =
    (suc k, omega arith, omega arith)

no_rounds : (k n : ℕ) → 0 < n → Enough 0 k n → ⊥
no_rounds zero n pos (lt, room) = omega arith
no_rounds (suc k) n pos (lt, room) = omega arith

product-lt : (a b : ℕ) → a < word_mod ^ 8 → b < word_mod ^ 8 → a * b < 2 ^ 512
product-lt a b h k = grind arith

mod-add-div'' : (n m : ℕ) → n / m * m + n % m ≡ n
mod-add-div'' n m = omega (arith, mod-add-div' n m)

low_word : (u : List ℕ) → value u ≡ 1 → ltb 1 (get_or u 0 0) ≡ false
unfolding value
low_word [] e = refl
low_word (w ∷ ws) e = ground arith

module _ (p x : List ℕ) (hp : IsArray array_size p) (odd : value p % 2 ≡ 1) where
  -- With enough rounds the loop ends by its test, and keeps the invariant.
  inv_loop-ends :
      (fuel k : ℕ) (w : Work)
      → IsInverting p x w
      → Enough fuel k (product w)
      → IsInverting p x (inv_loop fuel p w) × (value (inv_loop fuel p w).v ≡ 0)
  unfolding inv_loop
  inv_loop-ends zero k w i enough = elim (zero-cases w.v i.v_array) [
    | inl (e, none_left) ↦ (i, none_left)
    | inr (e, pos) ↦
        let one_left = product_pos (value w.u) (value w.v) i.u_pos pos in
        absurd (no_rounds k (product w) one_left enough)
  ]
  inv_loop-ends (suc fuel) k w i enough = elim (zero-cases w.v i.v_array) [
    | inl (e, none_left) ↦ rw e (i, none_left)
    | inr (e, pos) ↦
        let one_left = product_pos (value w.u) (value w.v) i.u_pos pos in
        let (i', progress) = inv_step-IsInverting p x hp odd w i in
        let next =
          Enough-next fuel k (product w) (product (inv_step p w)) one_left enough progress in
        rw e (inv_loop-ends fuel next.0 (inv_step p w) i' (next.1, next.2))
  ]

  started-IsInverting : IsArray array_size x → 1 < value p → IsInverting p x (started x p)
  unfolding value
  started-IsInverting hx big = record {
    u_array = hp;
    v_array = hx;
    r_array = zeros-IsArray.0;
    s_array = (refl, omega arith);
    u_pos = omega arith;
    r_lt = omega arith;
    s_lt = omega arith;
    r_congruent = Congruent-of_eq (value p) (0 * value x) (value p) 1 0 (omega arith);
    s_congruent = Congruent-of_eq (value p) (1 * value x) (value x) 0 0 (omega arith);
    common = λ d h k. (h, k);
  }

  -- INV_FUEL rounds are enough for every number and every odd modulus above 1: the loop of `mod_inv`
  -- ends by its own test, with `V` at 0 and the invariant kept.
  pub mod_inv-terminates :
      IsArray array_size x
      → 1 < value p
      → let w = inv_loop inv_fuel p (started x p) in
        (is_same (compare w.v zeros) ≡ true) × IsInverting p x w
  mod_inv-terminates hx big =
      let start = started-IsInverting hx big in
      let p_lt = value-lt-256 p hp in
      let x_lt = value-lt-256 x hx in
      let enough : Enough inv_fuel 512 (product (started x p)) =
        (product-lt (value p) (value x) p_lt x_lt, omega arith) in
      let (i, none_left) = inv_loop-ends inv_fuel 512 (started x p) start enough in
      elim (zero-cases (inv_loop inv_fuel p (started x p)).v i.v_array) [
        | inl (e, _) ↦ (e, i)
        | inr (e, pos) ↦ absurd (omega arith)
      ]

  -- The common divisor that is left is 1 where `x` has an inverse.
  left_one :
      (w : Work) (j : ℕ)
      → IsInverting p x w
      → value w.v ≡ 0
      → 1 < value p
      → Congruent (value p) (value x * j) 1
      → value w.u ≡ 1
  left_one w j i none_left big inverse =
      let u = value w.u in
      let P = value p in
      let divides = i.common u (dvd_refl u) (rw none_left (dvd-zero u)) in
      let rest : value x * j % P ≡ 1 = inverse ∙ mod-eq_of_lt big in
      let whole : value x * j / P * P + 1 ≡ value x * j =
        rw rest at (mod-add-div'' (value x * j) P) in
      let u_whole : u ∣ value x * j / P * P + 1 = rw whole (dvd-mul_right_of_dvd u divides.1 j) in
      eq-one_of_dvd-one
        ((dvd-add_iff_right u (dvd-mul_left_of_dvd u divides.0 (value x * j / P))).1 u_whole)

  -- Whatever `x` is, `mod_inv` gives a number below the modulus.
  pub mod_inv-lt :
      IsArray array_size x
      → 1 < value p
      → IsArray array_size (mod_inv x p) × (value (mod_inv x p) < value p)
  unfolding mod_inv inv_result
  mod_inv-lt hx big =
      let w = inv_loop inv_fuel p (started x p) in
      let (ended, i) = mod_inv-terminates hx big in
      let no_inverse : IsArray array_size zeros × (value zeros < value p) =
        (zeros-IsArray.0, omega (arith, zeros-IsArray.1)) in
      elim (Bool-cases (ltb 1 (get_or w.u 0 0))) [
        | inl e ↦ rw e no_inverse
        | inr e ↦ elim (greater-cases w.r p i.r_array hp) [
          | inl (g, gt) ↦ absurd (omega (arith, i.r_lt))
          | inr (g, le) ↦ rw (e, g) (i.r_array, i.r_lt)
        ]
      ]

  -- Where `x` has an inverse modulo an odd `p` above 1, `mod_inv` gives it, below `p`.
  pub mod_inv_lem :
      (j : ℕ)
      → IsArray array_size x
      → 1 < value p
      → Congruent (value p) (value x * j) 1
      → IsArray array_size (mod_inv x p)
        × (value (mod_inv x p) < value p)
        × Congruent (value p) (value (mod_inv x p) * value x) 1
  unfolding mod_inv inv_result
  mod_inv_lem j hx big inverse =
      let w = inv_loop inv_fuel p (started x p) in
      let (ended, i) = mod_inv-terminates hx big in
      elim (zero-cases w.v i.v_array) [
        | inl (e, none_left) ↦
            let u_one = left_one w j i none_left big inverse in
            let low : ltb 1 (get_or w.u 0 0) ≡ false = low_word w.u u_one in
            elim (greater-cases w.r p i.r_array hp) [
              | inl (g, gt) ↦ absurd (omega (arith, i.r_lt))
              | inr (g, le) ↦ rw (low, g) (i.r_array, i.r_lt, rw u_one at i.r_congruent)
            ]
        | inr (e, pos) ↦ absurd (cc (sym ended ∙ e))
      ]
