-- ===== src/Crypto/ModInverse/Step.antt =====
-- One round of the loop of `mod_inv` in src/crypto/mod_arithmetic.c keeps the congruences and the
-- common divisors, and takes the product of the two numbers down.
use Prim.Native.Nat.{bit_and, ◌∣◌}
use native.Mathlib.Nat.{dvd-mul_left_of_dvd, dvd-add, mod-lt}
use remote_drone.Base.{
  ℕ, ◌+◌, ◌-◌, ◌*◌, ◌/◌, ◌%◌, ◌≤◌, ◌<◌, true, false, List, [], ◌∷◌, ◌≡◌, refl, sym, ap, ◌∙◌, arith,
  ◌==◌, ◌⊎◌, inl, inr, Bool-cases,
}
use remote_drone.Base.Bits.{bit_and-one}
use remote_drone.Base.Congruence.{
  Congruent, Congruent-of_eq, Congruent-add_cancel, Congruent-halve, Congruent-add,
  Congruent-mul_right, mod-Congruent,
}
use remote_drone.Crypto.ModArithmetic.{
  array_size, add_overflow, sub_overflow, mod_sub, Comparison, less, same, greater, compare,
  divide_by_two,
}
use remote_drone.Crypto.ModArithmetic.Value.{IsArray, value}
use remote_drone.Crypto.ModArithmetic.AddSub.{add_overflow_exact, sub_overflow_exact}
use remote_drone.Crypto.ModArithmetic.Modular.{value-lt-256, mod_sub_lem}
use remote_drone.Crypto.ModArithmetic.Halving.{Ordered, compare_lem, divide_by_two_lem}
use remote_drone.Crypto.ModInverse.{Work, is_even, is_greater, halve, inv_step}

pub even-cases :
    (a : List ℕ)
    → ((is_even a ≡ true) × (value a % 2 ≡ 0)) ⊎ ((is_even a ≡ false) × (value a % 2 ≡ 1))
unfolding value
even-cases [] = inl (ground (arith, bit_and-one 0), refl)
even-cases (w ∷ ws) = elim (Bool-cases (bit_and w 1 == 0)) [
  | inl e ↦ inl (e, ground (arith, bit_and-one w))
  | inr e ↦ inr (e, ground (arith, bit_and-one w))
]

pub greater-cases :
    (a b : List ℕ)
    → IsArray array_size a
    → IsArray array_size b
    → ((is_greater (compare a b) ≡ true) × (value b < value a))
      ⊎ ((is_greater (compare a b) ≡ false) × (value a ≤ value b))
greater-cases a b ha hb = by_answer (compare a b) (compare_lem a b ha hb)
  where
    by_answer :
        (c : Comparison)
        → Ordered c (value a) (value b)
        → ((is_greater c ≡ true) × (value b < value a))
          ⊎ ((is_greater c ≡ false) × (value a ≤ value b))
    by_answer less h = inr (refl, omega arith)
    by_answer same h = inr (refl, omega arith)
    by_answer greater h = inl (refl, h)

-- Half of a number, without a rest.
halved :
    (a : List ℕ)
    → IsArray array_size a
    → value a % 2 ≡ 0
    → (value a ≡ 2 * value (divide_by_two a 0)) × IsArray array_size (divide_by_two a 0)
halved a ha e = let (half, array) = divide_by_two_lem a 0 ha (omega arith) in (omega arith, array)

module _ (p : List ℕ) (hp : IsArray array_size p) (odd : value p % 2 ≡ 1) where
  -- The half modulo `p`.
  halve_lem :
      (a : List ℕ)
      → IsArray array_size a
      → value a < value p
      → IsArray array_size (halve p a)
        × (value (halve p a) < value p)
        × Congruent (value p) (2 * value (halve p a)) (value a)
  unfolding halve
  halve_lem a ha h =
      let (sum, array, bit) = add_overflow_exact a p ha hp in
      let total = (add_overflow a p array_size).0 in
      let carry = (add_overflow a p array_size).1 in
      let (half, array') = divide_by_two_lem total carry array bit in
      elim (even-cases a) [
        | inl (e, even) ↦
            let (twice, words) = halved a ha even in
            rw e (words, omega arith, Congruent-of_eq (value p) _ _ 0 0 (omega arith))
        | inr (e, odd_a) ↦
            rw e (array', omega arith, Congruent-of_eq (value p) _ _ 0 1 (omega arith))
      ]

halved-Congruent :
    (P X r r' u u' : ℕ)
    → P % 2 ≡ 1
    → Congruent P (2 * r') r
    → Congruent P (r * X) u
    → u ≡ 2 * u'
    → Congruent P (r' * X) u'
halved-Congruent P X r r' u u' odd h e twice =
    let doubled : 2 * (r' * X) ≡ 2 * r' * X = omega arith in
    Congruent-halve P (r' * X) u' odd (
      ap (λ (x : ℕ). x % P) doubled
      ∙ Congruent-mul_right P (2 * r') r X h
      ∙ e
      ∙ ap (λ (x : ℕ). x % P) twice)

subtracted-Congruent :
    (P X r s r' u v u' : ℕ)
    → Congruent P (r' + s) r
    → Congruent P (r * X) u
    → Congruent P (s * X) v
    → u' + v ≡ u
    → Congruent P (r' * X) u'
subtracted-Congruent P X r s r' u v u' h e f total =
    let spread : r' * X + s * X ≡ (r' + s) * X = omega arith in
    Congruent-add_cancel P (r' * X) u' v (
      Congruent-add P (r' * X) (r' * X) v (s * X) refl (sym f)
      ∙ ap (λ (x : ℕ). x % P) spread
      ∙ Congruent-mul_right P (r' + s) r X h
      ∙ e
      ∙ ap (λ (x : ℕ). x % P) (sym total))

odd_product : (a b : ℕ) → a % 2 ≡ 1 → b % 2 ≡ 1 → a * b % 2 ≡ 1
odd_product a b h k =
    let whole : a * b ≡ 2 * (a / 2 * b) + b = omega (arith, ap (λ (n : ℕ). n * b) (split a h)) in
    omega (arith, whole)
  where
    split : (n : ℕ) → n % 2 ≡ 1 → n ≡ 2 * (n / 2) + 1
    split n e = omega arith

-- A difference of two odd numbers in the place of the larger one.
odd_difference : (d a b : ℕ) → d + b ≡ a → a % 2 ≡ 1 → b % 2 ≡ 1 → (d * b ≤ a * b) × (d * b % 2 ≡ 0)
odd_difference d a b e h k =
    let half : d ≡ 2 * (d / 2) = omega arith in
    let whole : d * b ≡ 2 * (d / 2 * b) = omega (arith, ap (λ (n : ℕ). n * b) half) in
    (omega (arith, ap (λ (n : ℕ). n * b) e), omega (arith, whole))

-- What the loop keeps: `R * x` is congruent to `U` and `S * x` to `V`, and the common divisors of `U`
-- and `V` are among those of `p` and `x`.
pub record IsInverting (p x : List ℕ) (w : Work) : Type 0 where
  pub u_array : IsArray array_size w.u
  pub v_array : IsArray array_size w.v
  pub r_array : IsArray array_size w.r
  pub s_array : IsArray array_size w.s
  pub u_pos : 0 < value w.u
  pub r_lt : value w.r < value p
  pub s_lt : value w.s < value p
  pub r_congruent : Congruent (value p) (value w.r * value x) (value w.u)
  pub s_congruent : Congruent (value p) (value w.s * value x) (value w.v)
  pub common : (d : ℕ) → d ∣ value w.u → d ∣ value w.v → (d ∣ value p) × (d ∣ value x)

-- The difference of two numbers, and that of their factors.
subtracted :
    (p a b : List ℕ)
    → IsArray array_size p
    → IsArray array_size a
    → IsArray array_size b
    → value a < value p
    → value b < value p
    → IsArray array_size (mod_sub a b p)
      × (value (mod_sub a b p) < value p)
      × Congruent (value p) (value (mod_sub a b p) + value b) (value a)
subtracted p a b hp ha hb h k =
    let (exact, array) = mod_sub_lem a b p ha hb hp h k in
    let P = value p in
    let d = value a + P - value b in
    let total : d + value b ≡ value a + P = omega arith in
    (
      array,
      rw exact (mod-lt d (omega arith)),
      rw exact (
          Congruent-add P (d % P) d (value b) (value b) (sym (mod-Congruent P d)) refl
          ∙ Congruent-of_eq P (d + value b) (value a) 0 1 (omega arith)),
    )

difference :
    (a b : List ℕ)
    → IsArray array_size a
    → IsArray array_size b
    → value b ≤ value a
    → IsArray array_size (sub_overflow a b).0 × (value (sub_overflow a b).0 + value b ≡ value a)
difference a b ha hb h =
    let (exact, array, borrow) = sub_overflow_exact a b ha hb in
    let below = value-lt-256 (sub_overflow a b).0 array in (array, ground arith)

-- A round halves the product of `U` and `V`, or makes an odd one even and no larger.
abbrev pub Progress : ℕ → ℕ → Type 0
Progress before after =
    (before ≡ 2 * after) ⊎ ((before % 2 ≡ 1) × (after ≤ before) × (after % 2 ≡ 0))

abbrev pub product : Work → ℕ
product w = value w.u * value w.v

module _ (p x : List ℕ) (hp : IsArray array_size p) (odd : value p % 2 ≡ 1) where
  halve_u :
      (w : Work)
      → IsInverting p x w
      → value w.u % 2 ≡ 0
      → let w' : Work = record w { u = divide_by_two w.u 0; r = halve p w.r } in
        IsInverting p x w' × Progress (product w) (product w')
  halve_u w i even =
      let (twice, array) = halved w.u i.u_array even in
      let (words, lt, half) = halve_lem p hp odd w.r i.r_array i.r_lt in
      let U = value (divide_by_two w.u 0) in
      (
        record {
          u_array = array;
          v_array = i.v_array;
          r_array = words;
          s_array = i.s_array;
          u_pos = omega (arith, i.u_pos);
          r_lt = lt;
          s_lt = i.s_lt;
          r_congruent =
              halved-Congruent (value p) (value x) (value w.r) (value (halve p w.r)) (value w.u) U
                odd half i.r_congruent twice;
          s_congruent = i.s_congruent;
          common = λ d h k. i.common d (rw twice (dvd-mul_left_of_dvd d h 2)) k;
        },
        inl (omega (arith, ap (λ (n : ℕ). n * value w.v) twice)),
      )

  halve_v :
      (w : Work)
      → IsInverting p x w
      → value w.v % 2 ≡ 0
      → let w' : Work = record w { v = divide_by_two w.v 0; s = halve p w.s } in
        IsInverting p x w' × Progress (product w) (product w')
  halve_v w i even =
      let (twice, array) = halved w.v i.v_array even in
      let (words, lt, half) = halve_lem p hp odd w.s i.s_array i.s_lt in
      let V' = value (divide_by_two w.v 0) in
      (
        record {
          u_array = i.u_array;
          v_array = array;
          r_array = i.r_array;
          s_array = words;
          u_pos = i.u_pos;
          r_lt = i.r_lt;
          s_lt = lt;
          r_congruent = i.r_congruent;
          s_congruent =
              halved-Congruent (value p) (value x) (value w.s) (value (halve p w.s)) (value w.v) V'
                odd half i.s_congruent twice;
          common = λ d h k. i.common d h (rw twice (dvd-mul_left_of_dvd d k 2));
        },
        inl (omega (arith, ap (λ (n : ℕ). value w.u * n) twice)),
      )

  subtract_from_u :
      (w : Work)
      → IsInverting p x w
      → value w.u % 2 ≡ 1
      → value w.v % 2 ≡ 1
      → value w.v < value w.u
      → let w' : Work = record w { u = (sub_overflow w.u w.v).0; r = mod_sub w.r w.s p } in
        IsInverting p x w' × Progress (product w) (product w')
  subtract_from_u w i odd_u odd_v lt =
      let (array, total) = difference w.u w.v i.u_array i.v_array (omega arith) in
      let (words, below, joined) = subtracted p w.r w.s hp i.r_array i.s_array i.r_lt i.s_lt in
      let d = value (sub_overflow w.u w.v).0 in
      let (le, even) = odd_difference d (value w.u) (value w.v) total odd_u odd_v in
      (
        record {
          u_array = array;
          v_array = i.v_array;
          r_array = words;
          s_array = i.s_array;
          u_pos = omega arith;
          r_lt = below;
          s_lt = i.s_lt;
          r_congruent =
              subtracted-Congruent (value p) (value x) (value w.r) (value w.s)
                (value (mod_sub w.r w.s p)) (value w.u) (value w.v) d joined i.r_congruent
                i.s_congruent total;
          s_congruent = i.s_congruent;
          common = λ c h k. i.common c (rw (sym total) (dvd-add c h k)) k;
        },
        inr (odd_product (value w.u) (value w.v) odd_u odd_v, le, even),
      )

  subtract_from_v :
      (w : Work)
      → IsInverting p x w
      → value w.u % 2 ≡ 1
      → value w.v % 2 ≡ 1
      → value w.u ≤ value w.v
      → let w' : Work = record w { v = (sub_overflow w.v w.u).0; s = mod_sub w.s w.r p } in
        IsInverting p x w' × Progress (product w) (product w')
  subtract_from_v w i odd_u odd_v le_uv =
      let (array, total) = difference w.v w.u i.v_array i.u_array le_uv in
      let (words, below, joined) = subtracted p w.s w.r hp i.s_array i.r_array i.s_lt i.r_lt in
      let d = value (sub_overflow w.v w.u).0 in
      let (le, even) = odd_difference d (value w.v) (value w.u) total odd_v odd_u in
      (
        record {
          u_array = i.u_array;
          v_array = array;
          r_array = i.r_array;
          s_array = words;
          u_pos = i.u_pos;
          r_lt = i.r_lt;
          s_lt = below;
          r_congruent = i.r_congruent;
          s_congruent =
              subtracted-Congruent (value p) (value x) (value w.s) (value w.r)
                (value (mod_sub w.s w.r p)) (value w.v) (value w.u) d joined i.s_congruent
                i.r_congruent total;
          common = λ c h k. i.common c h (rw (sym total) (dvd-add c k h));
        },
        inr (odd_product (value w.u) (value w.v) odd_u odd_v, omega arith, omega (arith, even)),
      )

  -- One round of the loop, whichever way it goes.
  pub inv_step-IsInverting :
      (w : Work)
      → IsInverting p x w
      → IsInverting p x (inv_step p w) × Progress (product w) (product (inv_step p w))
  unfolding inv_step
  inv_step-IsInverting w i = elim (even-cases w.u) [
    | inl (e, even) ↦ rw e (halve_u w i even)
    | inr (e, odd_u) ↦ elim (even-cases w.v) [
      | inl (e', even) ↦ rw (e, e') (halve_v w i even)
      | inr (e', odd_v) ↦ elim (greater-cases w.u w.v i.u_array i.v_array) [
        | inl (g, lt) ↦ rw (e, e', g) (subtract_from_u w i odd_u odd_v lt)
        | inr (g, le) ↦ rw (e, e', g) (subtract_from_v w i odd_u odd_v le)
      ]
    ]
  ]
