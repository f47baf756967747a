-- ===== src/Crypto/EcArithmetic/Multiply.antt =====
-- `pointMultiply` of src/crypto/ec_arithmetic.c against the recursion on
-- binary digits that it unrolls.
use Prim.Native.Nat.{bit_and}
use native.Mathlib.Nat.{pow-suc}
use remote_drone.Base.{
  ℕ, zero, suc, ◌+◌, ◌*◌, ◌/◌, ◌%◌, ◌^◌, ◌≤◌, ◌<◌, Bool, true, List, ◌≡◌, refl, sym, ap, ◌∙◌, arith,
  ◌==◌, if◌then◌else◌, get_or, take, length, All, if-keeps,
}
use remote_drone.Crypto.ModArithmetic.{word_mod, array_size}
use remote_drone.Crypto.ModArithmetic.Value.{
  IsWord, IsArray, value, value-take-suc, take_all, get_or-IsWord,
}
use remote_drone.Crypto.ModArithmetic.Modular.{value-lt-256}
use remote_drone.Crypto.CurveParams.{left_one_mask}
use remote_drone.General.Compare.{equal_arrays}
use remote_drone.Crypto.EcArithmetic.Digits.{split-Digits, two_pow_pos}
use remote_drone.Crypto.EcArithmetic.Curve.{
  IsCurvePoint, point_at_infinity-IsCurvePoint, point_double-IsCurvePoint, point_add-IsCurvePoint,
}
use remote_drone.Crypto.EcArithmetic.{
  Point, point_double, point_add, point_at_infinity, multiply_bits, multiply_words, point_multiply,
}

-- The multiple by a number of at most `k` binary digits: twice that by its half, and the point once
-- more where it is odd.
unfoldable pub multiple : ℕ → ℕ → Point → Point
multiple zero m q = point_at_infinity
multiple (suc k) m q =
    let doubled = point_double (multiple k (m / 2) q) in
    if m % 2 == 0 then doubled else point_add doubled q

pub double_infinity : point_double point_at_infinity ≡ point_at_infinity
unfolding point_double point_at_infinity equal_arrays
double_infinity = refl

-- The result so far is the multiple by `m`, however many digits `m` is given.
abbrev Reached : ℕ → Point → Point → Type 0
Reached m q res = (k : ℕ) → m < 2 ^ k → multiple k m q ≡ res

Reached-step :
    (m digit : ℕ) (q res : Point) (test : Bool)
    → digit < 2
    → test ≡ (digit == 0)
    → Reached m q res
    → let doubled = point_double res in
      Reached (2 * m + digit) q (if test then doubled else point_add doubled q)
unfolding multiple
Reached-step m digit q res test lt e r zero h =
    let none : m ≡ 0 = omega arith in
    let no_digit : digit ≡ 0 = omega arith in
    let start : point_at_infinity ≡ res = r 0 (omega arith) in
    let even : test ≡ true = e ∙ (rw no_digit refl) in rw (even, sym start, double_infinity) refl
Reached-step m digit q res test lt e r (suc k) h =
    let half : (2 * m + digit) / 2 ≡ m = omega arith in
    let low : (2 * m + digit) % 2 ≡ digit = omega arith in
    rw (half, low, e, r k (omega (arith, pow-suc 2 k))) refl

Reached-eq : (m m' : ℕ) (q res : Point) → m ≡ m' → Reached m q res → Reached m' q res
Reached-eq m m' q res e r = rw (sym e) r

-- The digits of `x` that are left in the word go behind those of `m`.
multiply_bits-Reached :
    (rounds s x current m : ℕ) (q res : Point)
    → rounds + s ≡ 32
    → x < 2 ^ rounds
    → current ≡ x * 2 ^ s
    → Reached m q res
    → Reached (m * 2 ^ rounds + x) q (multiply_bits rounds current q res)
unfolding multiply_bits
multiply_bits-Reached zero s x current m q res e h c r =
    Reached-eq m (m * 2 ^ 0 + x) q res (omega arith) r
multiply_bits-Reached (suc rounds) s x current m q res e h c r =
    let d = split-Digits rounds s x current (omega arith) h c in
    let next =
      Reached-step m d.digit q res (bit_and current left_one_mask == 0) d.digit_lt d.tested r in
    let doubled = point_double res in
    let res' = if bit_and current left_one_mask == 0 then doubled else point_add doubled q in
    let all =
      multiply_bits-Reached rounds (suc s) d.rest (current * 2 % word_mod) (2 * m + d.digit) q res'
        (omega arith) d.rest_lt d.shifted next in
    Reached-eq ((2 * m + d.digit) * 2 ^ rounds + d.rest) (m * 2 ^ suc rounds + x) q _
      (omega (arith, d.whole, pow-suc 2 rounds, ap (λ (t : ℕ). m * t) (pow-suc 2 rounds))) all

multiply_words-Reached :
    (i m : ℕ) (scalar : List ℕ) (q res : Point)
    → i ≤ length scalar
    → All IsWord scalar
    → Reached m q res
    → Reached (m * word_mod ^ i + value (take i scalar)) q (multiply_words i scalar q res)
unfolding multiply_words value
multiply_words-Reached zero m scalar q res h w r =
    Reached-eq m (m * word_mod ^ 0 + 0) q res (omega arith) r
multiply_words-Reached (suc i) m scalar q res h w r =
    let word = get_or scalar i 0 in
    let bits =
      multiply_bits-Reached 32 0 word word m q res refl (get_or-IsWord i scalar w) (omega arith)
        r in
    let all =
      multiply_words-Reached i (m * 2 ^ 32 + word) scalar q (multiply_bits 32 word q res)
        (omega arith) w bits in
    let powers : word_mod ^ suc i ≡ word_mod ^ i * word_mod = pow-suc word_mod i in
    Reached-eq ((m * 2 ^ 32 + word) * word_mod ^ i + value (take i scalar))
      (m * word_mod ^ suc i + value (take (suc i) scalar)) q _
      (omega (arith, value-take-suc i scalar, ap (λ (t : ℕ). m * t) powers)) all

infinity-Reached : (q : Point) → Reached 0 q point_at_infinity
unfolding multiple
infinity-Reached q zero h = refl
infinity-Reached q (suc k) h =
    rw (infinity-Reached q k (omega (arith, two_pow_pos k)), double_infinity) refl

-- `pointMultiply` computes the multiple by the number that the scalar stands for: from twice the
-- multiple by half of it, with the point added where it is odd, down to 0, which gives the point at
-- infinity. The number of digits does not matter.
pub point_multiply_lem :
    (scalar : List ℕ) (q : Point) (k : ℕ)
    → IsArray array_size scalar
    → value scalar < 2 ^ k
    → point_multiply scalar q ≡ multiple k (value scalar) q
unfolding point_multiply
point_multiply_lem scalar q k hs h =
    let all =
      multiply_words-Reached 8 0 scalar q point_at_infinity (omega arith) hs.1
        (infinity-Reached q) in
    let exact =
      Reached-eq (0 * word_mod ^ 8 + value (take 8 scalar)) (value scalar) q _
        (rw (take_all 8 scalar hs.0) (omega arith)) all in
    sym (exact k h)

multiple-IsCurvePoint : (k m : ℕ) (q : Point) → IsCurvePoint q → IsCurvePoint (multiple k m q)
unfolding multiple
multiple-IsCurvePoint zero m q i = point_at_infinity-IsCurvePoint
multiple-IsCurvePoint (suc k) m q i =
    let doubled =
      point_double-IsCurvePoint (multiple k (m / 2) q) (multiple-IsCurvePoint k (m / 2) q i) in
    if-keeps IsCurvePoint (m % 2 == 0) doubled (point_add-IsCurvePoint _ q doubled i)

-- `pointMultiply` of a point of the curve is one.
pub point_multiply-IsCurvePoint :
    (scalar : List ℕ) (q : Point)
    → IsArray array_size scalar
    → IsCurvePoint q
    → IsCurvePoint (point_multiply scalar q)
point_multiply-IsCurvePoint scalar q hs i =
    rw (point_multiply_lem scalar q 256 hs (value-lt-256 scalar hs))
      (multiple-IsCurvePoint 256 (value scalar) q i)
