-- ===== src/Crypto/EcArithmetic/Digits.antt =====
-- The digits of a word that `pointMultiply` of src/crypto/ec_arithmetic.c shifts out at the left.
use Prim.Native.Nat.{bit_and}
use native.Mathlib.Nat.{pow-suc, mul-le-mul_right}
use remote_drone.Base.{
  ℕ, zero, suc, ◌+◌, ◌*◌, ◌%◌, ◌^◌, ◌≤◌, ◌<◌, ◌-◌, ◌⊎◌, inl, inr, Bool-cases, true, false, ◌≡◌, ap,
  ◌∙◌, arith, ◌==◌, ltb, if◌then◌else◌,
}
use remote_drone.Base.Bits.{bit_and-highest}
use remote_drone.Crypto.ModArithmetic.{word_mod}
use remote_drone.Crypto.CurveParams.{left_one_mask}

-- The powers of two around a word in which `s` of 32 bits are already shifted out.
pow_split : (k s n : ℕ) → k + s ≡ n → 2 ^ k * 2 ^ s ≡ 2 ^ n
pow_split zero s n e = let same : s ≡ n = omega arith in rw same (omega arith)
pow_split (suc k) s zero e = absurd (omega arith)
pow_split (suc k) s (suc n) e = omega (
  arith,
  pow-suc 2 k,
  pow-suc 2 n,
  pow_split k s n (omega arith),
  ap (λ (t : ℕ). t * 2 ^ s) (pow-suc 2 k),
)

-- The highest digit of the `k + 1` digits of `x` that are left in `x * 2 ^ s`, and the other ones.
pub record Digits (k s x current : ℕ) : Type 0 where
  pub digit : ℕ
  pub rest : ℕ
  pub whole : x ≡ digit * 2 ^ k + rest
  pub digit_lt : digit < 2
  pub rest_lt : rest < 2 ^ k
  pub tested : (bit_and current left_one_mask == 0) ≡ (digit == 0)
  pub shifted : current * 2 % word_mod ≡ rest * 2 ^ suc s

highest_digit :
    (current rest : ℕ)
    → rest < 2 ^ 31
    → (current ≡ rest) ⊎ (current ≡ 2 ^ 31 + rest)
    → ((bit_and current left_one_mask == 0) ≡ (if ltb current (2 ^ 31) then true else false))
      × (current * 2 % word_mod ≡ rest * 2)
highest_digit current rest h (inl e) = ground (arith, bit_and-highest 31 current)
highest_digit current rest h (inr e) = ground (arith, bit_and-highest 31 current)

pub two_pow_pos : (s : ℕ) → 0 < 2 ^ s
two_pow_pos zero = omega arith
two_pow_pos (suc s) = omega (arith, pow-suc 2 s, two_pow_pos s)

shifted_once : (r s : ℕ) → r * 2 * 2 ^ s ≡ r * 2 ^ suc s
shifted_once r s = let step : 2 ^ suc s ≡ 2 ^ s * 2 = pow-suc 2 s in rw step (omega arith)

product_below : (r k s n : ℕ) → r < 2 ^ k → 2 ^ k * 2 ^ s ≡ 2 ^ n → r * 2 ^ s < 2 ^ n
product_below r k s n lt powers =
    let bound : suc r * 2 ^ s ≤ 2 ^ k * 2 ^ s = mul-le-mul_right (2 ^ s) lt in
    omega (arith, bound, two_pow_pos s)

pub split-Digits :
    (k s x current : ℕ) → k + s ≡ 31 → x < 2 ^ suc k → current ≡ x * 2 ^ s → Digits k s x current
split-Digits k s x current e h c =
    let powers = pow_split k s 31 e in
    let twice = pow-suc 2 k in
    elim (Bool-cases (ltb x (2 ^ k))) [
      | inl small ↦
          let lt : x < 2 ^ k = ground arith in
          let below : x * 2 ^ s < 2 ^ 31 = product_below x k s 31 lt powers in
          let (test, next) = highest_digit current (x * 2 ^ s) below (inl c) in
          record {
            digit = 0;
            rest = x;
            whole = omega arith;
            digit_lt = omega arith;
            rest_lt = lt;
            tested = ground arith;
            shifted = next ∙ omega (arith, shifted_once x s);
          }
      | inr large ↦
          let le : 2 ^ k ≤ x = ground arith in
          let r : ℕ = x - 2 ^ k in
          let lt : r < 2 ^ k = omega arith in
          let below : r * 2 ^ s < 2 ^ 31 = product_below r k s 31 lt powers in
          let sum : x ≡ 2 ^ k + r = omega arith in
          let parts : current ≡ 2 ^ 31 + r * 2 ^ s =
            omega (arith, ap (λ (t : ℕ). t * 2 ^ s) sum, powers) in
          let (test, next) = highest_digit current (r * 2 ^ s) below (inr parts) in
          record {
            digit = 1;
            rest = r;
            whole = omega arith;
            digit_lt = omega arith;
            rest_lt = lt;
            tested = ground arith;
            shifted = next ∙ omega (arith, shifted_once r s);
          }
    ]
