-- ===== src/Crypto/Ecdsa/Equation.antt =====
-- The numbers modulo the order of the group that `ecdsaSign` and `ecdsaCheck` of src/crypto/ecdsa.c
-- compute.
use native.Mathlib.Nat.{mod-lt}
use remote_drone.Base.{ℕ, ◌+◌, ◌*◌, ◌%◌, ◌<◌, List, ◌≡◌, refl, sym, ap, ◌∙◌, arith}
use remote_drone.Base.Congruence.{
  Congruent, mod-Congruent, Congruent-add, Congruent-mul_right, Congruent-cancel,
}
use remote_drone.Crypto.ModArithmetic.{array_size, mod_add}
use remote_drone.Crypto.ModArithmetic.Value.{IsArray, value}
use remote_drone.Crypto.ModArithmetic.Modular.{value-lt-256, mod_add_lem}
use remote_drone.Crypto.ModInverse.{mod_inv}
use remote_drone.Crypto.ModInverse.Loop.{mod_inv_lem}
use remote_drone.Crypto.Montgomery.Domain.{radix, IsReduced, Represents}
use remote_drone.Crypto.Montgomery.Normal.{normal_product}
use remote_drone.Crypto.CurveParams.{n, rn_2, zero_words}
use remote_drone.Crypto.EcArithmetic.Field.{n-IsModulus, value-n}
use remote_drone.Crypto.Ecdsa.{mul_n, reduce_n, signature_s, check_scalars}

rn_2-Represents : Represents n rn_2 radix
unfolding value
rn_2-Represents = record { array = (refl, omega arith); reduced = omega arith; form = refl }

odd_n : value n % 2 ≡ 1
unfolding value
odd_n = refl

-- An array that is below the order and congruent to a number modulo it.
abbrev pub Is : List ℕ → ℕ → Type 0
Is x a = IsReduced n x × Congruent (value n) (value x) a

mul_n-Is : (x y : List ℕ) → IsReduced n x → IsReduced n y → Is (mul_n x y) (value x * value y)
mul_n-Is x y f g = normal_product n-IsModulus x y rn_2 f g rn_2-Represents

-- `mod_add` of two arrays whose sum is below twice the order.
mod_add-Is :
    (x y : List ℕ)
    → IsArray array_size x
    → IsArray array_size y
    → value x + value y < 2 * value n
    → Is (mod_add x y n) (value x + value y)
mod_add-Is x y hx hy fits =
    let (exact, array) = mod_add_lem x y n hx hy n-IsModulus.modulus_array fits in
    let pos : 0 < value n = omega (arith, n-IsModulus.big) in
    (
      (array, rw exact (mod-lt (value x + value y) pos)),
      rw exact (sym (mod-Congruent (value n) (value x + value y))),
    )

zero_words-IsArray : IsArray array_size zero_words × (value zero_words ≡ 0)
unfolding value
zero_words-IsArray = ((refl, omega arith), refl)

-- `mod_add(x, zero, n, x)` reduces every array modulo the order.
pub reduce_n-Is : (x : List ℕ) → IsArray array_size x → Is (reduce_n x) (value x)
reduce_n-Is x h =
    let no_more = zero_words-IsArray.1 in
    let sum : value x + value zero_words ≡ value x = rw no_more (omega arith) in
    rw sum at (
      mod_add-Is x zero_words h zero_words-IsArray.0
        (omega (arith, no_more, value-lt-256 x h, value-n)))

inverse-Is :
    (x : List ℕ) (j : ℕ)
    → IsArray array_size x
    → Congruent (value n) (value x * j) 1
    → IsReduced n (mod_inv x n) × Congruent (value n) (value (mod_inv x n) * value x) 1
inverse-Is x j h inverse =
    let (array, lt, exact) =
      mod_inv_lem n x n-IsModulus.modulus_array odd_n j h n-IsModulus.big inverse in
    ((array, lt), exact)

-- The number times its inverse falls away.
cancelled : (m a b i x : ℕ) → Congruent m a (i * x) → Congruent m (i * b) 1 → Congruent m (a * b) x
cancelled m a b i x e f =
    Congruent-mul_right m a (i * x) b e
    ∙ ap (λ (t : ℕ). t % m) (regrouped i x b)
    ∙ Congruent-mul_right m (i * b) 1 x f
    ∙ ap (λ (t : ℕ). t % m) (single x)
  where
    regrouped : (i x b : ℕ) → i * x * b ≡ i * b * x
    regrouped i x b = omega arith

    single : (x : ℕ) → 1 * x ≡ x
    single x = omega arith

-- `ecdsaSign` computes, for a scalar `k` with an inverse modulo the order, a number s below the
-- order with s k = r d + e modulo the order, where d is the private key and e the digest.
pub signature_s_lem :
    (e r private_key k : List ℕ) (j : ℕ)
    → IsReduced n e
    → IsReduced n r
    → IsReduced n private_key
    → IsArray array_size k
    → Congruent (value n) (value k * j) 1
    → let s = signature_s e r private_key k in
      IsReduced n s
      × Congruent (value n) (value s * value k) (value r * value private_key + value e)
unfolding signature_s
signature_s_lem e r d k j he hr hd hk inverse =
    let N = value n in
    let (i_reduced, i_inverse) = inverse-Is k j hk inverse in
    let (t_reduced, t_form) = mul_n-Is r d hr hd in
    let t = mul_n r d in
    let (sum_reduced, sum_form) =
      mod_add-Is t e t_reduced.0 he.0 (omega (arith, t_reduced.1, he.1)) in
    let sum = mod_add t e n in
    let (s_reduced, s_form) = mul_n-Is (mod_inv k n) sum i_reduced sum_reduced in
    (
      s_reduced,
      cancelled N (value (signature_s e r d k)) (value k) (value (mod_inv k n)) (value sum) s_form
            i_inverse
          ∙ sum_form
          ∙ Congruent-add N (value t) (value r * value d) (value e) (value e) t_form refl,
    )

-- `ecdsaCheck` computes, for a number s with an inverse modulo the order, numbers u1 and u2 below
-- the order with u1 s = e and u2 s = r modulo the order.
pub check_scalars_lem :
    (e r s : List ℕ) (j : ℕ)
    → IsReduced n e
    → IsReduced n r
    → IsArray array_size s
    → Congruent (value n) (value s * j) 1
    → let (u_1, u_2) = check_scalars e r s in
      IsReduced n u_1
      × IsReduced n u_2
      × Congruent (value n) (value u_1 * value s) (value e)
      × Congruent (value n) (value u_2 * value s) (value r)
unfolding check_scalars
check_scalars_lem e r s j he hr hs inverse =
    let N = value n in
    let s_inv = mod_inv s n in
    let (i_reduced, i_inverse) = inverse-Is s j hs inverse in
    let quotient : (x : List ℕ)
        → IsReduced n x
        → IsReduced n (mul_n x s_inv) × Congruent N (value (mul_n x s_inv) * value s) (value x) =
      λ x h.
        let (reduced, form) = mul_n-Is x s_inv h i_reduced in
        (
          reduced,
          cancelled N (value (mul_n x s_inv)) (value s) (value s_inv) (value x)
              (form ∙ ap (λ (t : ℕ). t % N) (swapped (value x) (value s_inv))) i_inverse,
        ) in
    let (u_1_reduced, u_1_form) = quotient e he in
    let (u_2_reduced, u_2_form) = quotient r hr in (u_1_reduced, u_2_reduced, u_1_form, u_2_form)
  where
    swapped : (x i : ℕ) → x * i ≡ i * x
    swapped x i = omega arith

-- The check of a signature comes back to the scalar that made it: with the numbers s of
-- `ecdsaSign` and u1, u2 of `ecdsaCheck` for one digest and one r, u1 + u2 d = k modulo the order.
-- Both k and s are to have inverses modulo the order.
pub check_scalars-signature_s :
    (e r private_key k : List ℕ) (i j : ℕ)
    → IsReduced n e
    → IsReduced n r
    → IsReduced n private_key
    → IsArray array_size k
    → Congruent (value n) (value k * i) 1
    → Congruent (value n) (value (signature_s e r private_key k) * j) 1
    → let (u_1, u_2) = check_scalars e r (signature_s e r private_key k) in
      Congruent (value n) (value u_1 + value u_2 * value private_key) (value k)
check_scalars-signature_s e r d k i j he hr hd hk k_inverse s_inverse =
    let N = value n in
    let s = signature_s e r d k in
    let (s_reduced, s_form) = signature_s_lem e r d k i he hr hd hk k_inverse in
    let (u_1, u_2) = check_scalars e r s in
    let (_, _, u_1_form, u_2_form) = check_scalars_lem e r s j he hr s_reduced.0 s_inverse in
    let scaled : Congruent N (value u_2 * value s * value d) (value r * value d) =
      Congruent-mul_right N (value u_2 * value s) (value r) (value d) u_2_form in
    Congruent-cancel N (value s) j (value u_1 + value u_2 * value d) (value k) s_inverse (
      ap (λ (t : ℕ). t % N) (spread (value s) (value u_1) (value u_2) (value d))
      ∙ Congruent-add N (value u_2 * value s * value d) (value r * value d) (value u_1 * value s)
          (value e) scaled u_1_form
      ∙ sym s_form)
  where
    spread : (s u v d : ℕ) → s * (u + v * d) ≡ v * s * d + u * s
    spread s u v d = omega arith
