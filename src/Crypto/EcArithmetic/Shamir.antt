-- ===== src/Crypto/EcArithmetic/Shamir.antt =====
-- `shamirPointMultiply` of src/crypto/ec_arithmetic.c against the recursion on the binary digits of
-- both scalars that it unrolls.
use Prim.Native.Nat.{bit_and}
use native.Mathlib.Nat.{pow-suc}
use remote_drone.Base.{
  ℕ, zero, suc, ◌+◌, ◌*◌, ◌/◌, ◌%◌, ◌^◌, ◌≤◌, ◌<◌, Bool, true, List, ◌≡◌, refl, sym, ap, ◌∙◌, arith,
  ◌==◌, if◌then◌else◌, get_or, take, length, All, if-keeps,
}
use remote_drone.Crypto.ModArithmetic.{word_mod, array_size}
use remote_drone.Crypto.ModArithmetic.Value.{
  IsWord, IsArray, value, value-take-suc, take_all, get_or-IsWord,
}
use remote_drone.Crypto.ModArithmetic.Modular.{value-lt-256}
use remote_drone.Crypto.CurveParams.{left_one_mask}
use remote_drone.Crypto.EcArithmetic.Digits.{split-Digits, two_pow_pos}
use remote_drone.Crypto.EcArithmetic.Multiply.{double_infinity}
use remote_drone.Crypto.EcArithmetic.Curve.{
  IsCurvePoint, point_at_infinity-IsCurvePoint, point_double-IsCurvePoint, point_add-IsCurvePoint,
}
use remote_drone.Crypto.EcArithmetic.{
  Point, point_double, point_add, point_at_infinity, shamir_bits, shamir_words,
  shamir_point_multiply,
}

-- One doubling, and the points added that the two digits select.
abbrev pub joined : Bool → Bool → Point → Point → Point → Point
joined even_1 even_2 q r res =
    let doubled = point_double res in
    let first = if even_1 then doubled else point_add doubled q in
    if even_2 then first else point_add first r

-- The sum of two multiples of at most `k` binary digits, by the digits of both numbers at once.
unfoldable pub multiple_sum : ℕ → ℕ → ℕ → Point → Point → Point
multiple_sum zero m n q r = point_at_infinity
multiple_sum (suc k) m n q r =
    joined (m % 2 == 0) (n % 2 == 0) q r (multiple_sum k (m / 2) (n / 2) q r)

-- The result so far is the sum for `m` and `n`, however many digits they are given.
abbrev Reached : ℕ → ℕ → Point → Point → Point → Type 0
Reached m n q r res = (k : ℕ) → m < 2 ^ k → n < 2 ^ k → multiple_sum k m n q r ≡ res

Reached-step :
    (m n d e : ℕ) (q r res : Point) (test_1 test_2 : Bool)
    → d < 2
    → e < 2
    → test_1 ≡ (d == 0)
    → test_2 ≡ (e == 0)
    → Reached m n q r res
    → Reached (2 * m + d) (2 * n + e) q r (joined test_1 test_2 q r res)
unfolding multiple_sum
Reached-step m n d e q r res test_1 test_2 lt_d lt_e t_1 t_2 h zero l_1 l_2 =
    let none_1 : m ≡ 0 = omega arith in
    let none_2 : n ≡ 0 = omega arith in
    let no_digit_1 : d ≡ 0 = omega arith in
    let no_digit_2 : e ≡ 0 = omega arith in
    let start : point_at_infinity ≡ res = h 0 (omega arith) (omega arith) in
    let even_1 : test_1 ≡ true = t_1 ∙ (rw no_digit_1 refl) in
    let even_2 : test_2 ≡ true = t_2 ∙ (rw no_digit_2 refl) in
    rw (even_1, even_2, sym start, double_infinity) refl
Reached-step m n d e q r res test_1 test_2 lt_d lt_e t_1 t_2 h (suc k) l_1 l_2 =
    let half_1 : (2 * m + d) / 2 ≡ m = omega arith in
    let half_2 : (2 * n + e) / 2 ≡ n = omega arith in
    let low_1 : (2 * m + d) % 2 ≡ d = omega arith in
    let low_2 : (2 * n + e) % 2 ≡ e = omega arith in
    let before = h k (omega (arith, pow-suc 2 k)) (omega (arith, pow-suc 2 k)) in
    rw (half_1, half_2, low_1, low_2, t_1, t_2, before) refl

Reached-eq :
    (m m' n n' : ℕ) (q r res : Point)
    → m ≡ m'
    → n ≡ n'
    → Reached m n q r res
    → Reached m' n' q r res
Reached-eq m m' n n' q r res e f h = rw (sym e, sym f) h

-- A number with the digits of a word behind it.
appended :
    (rounds m digit rest x : ℕ)
    → x ≡ digit * 2 ^ rounds + rest
    → (2 * m + digit) * 2 ^ rounds + rest ≡ m * 2 ^ suc rounds + x
appended rounds m digit rest x whole =
    omega (arith, whole, pow-suc 2 rounds, ap (λ (t : ℕ). m * t) (pow-suc 2 rounds))

shamir_bits-Reached :
    (rounds s x y current_1 current_2 m n : ℕ) (q r res : Point)
    → rounds + s ≡ 32
    → x < 2 ^ rounds
    → y < 2 ^ rounds
    → current_1 ≡ x * 2 ^ s
    → current_2 ≡ y * 2 ^ s
    → Reached m n q r res
    → Reached
        (m * 2 ^ rounds + x)
        (n * 2 ^ rounds + y)
        q
        r
        (shamir_bits rounds current_1 current_2 q r res)
unfolding shamir_bits
shamir_bits-Reached zero s x y c_1 c_2 m n q r res e l_1 l_2 f_1 f_2 h =
    Reached-eq m (m * 2 ^ 0 + x) n (n * 2 ^ 0 + y) q r res (omega arith) (omega arith) h
shamir_bits-Reached (suc rounds) s x y c_1 c_2 m n q r res e l_1 l_2 f_1 f_2 h =
    let d_1 = split-Digits rounds s x c_1 (omega arith) l_1 f_1 in
    let d_2 = split-Digits rounds s y c_2 (omega arith) l_2 f_2 in
    let test_1 = bit_and c_1 left_one_mask == 0 in
    let test_2 = bit_and c_2 left_one_mask == 0 in
    let next =
      Reached-step m n d_1.digit d_2.digit q r res test_1 test_2 d_1.digit_lt d_2.digit_lt
        d_1.tested d_2.tested h in
    let all =
      shamir_bits-Reached rounds (suc s) d_1.rest d_2.rest (c_1 * 2 % word_mod) (c_2 * 2 % word_mod)
        (2 * m + d_1.digit) (2 * n + d_2.digit) q r (joined test_1 test_2 q r res) (omega arith)
        d_1.rest_lt d_2.rest_lt d_1.shifted d_2.shifted next in
    Reached-eq ((2 * m + d_1.digit) * 2 ^ rounds + d_1.rest) (m * 2 ^ suc rounds + x)
      ((2 * n + d_2.digit) * 2 ^ rounds + d_2.rest) (n * 2 ^ suc rounds + y) q r _
      (appended rounds m d_1.digit d_1.rest x d_1.whole)
      (appended rounds n d_2.digit d_2.rest y d_2.whole) all

-- A number with a word of an array behind it.
word_appended :
    (i m : ℕ) (ws : List ℕ)
    → suc i ≤ length ws
    → (m * 2 ^ 32 + get_or ws i 0) * word_mod ^ i + value (take i ws)
      ≡ m * word_mod ^ suc i + value (take (suc i) ws)
word_appended i m ws h =
    let powers : word_mod ^ suc i ≡ word_mod ^ i * word_mod = pow-suc word_mod i in
    omega (arith, value-take-suc i ws h, ap (λ (t : ℕ). m * t) powers)

shamir_words-Reached :
    (i m n : ℕ) (k l : List ℕ) (q r res : Point)
    → i ≤ length k
    → i ≤ length l
    → All IsWord k
    → All IsWord l
    → Reached m n q r res
    → Reached
        (m * word_mod ^ i + value (take i k))
        (n * word_mod ^ i + value (take i l))
        q
        r
        (shamir_words i k l q r res)
unfolding shamir_words value
shamir_words-Reached zero m n k l q r res h_1 h_2 w_1 w_2 h =
    Reached-eq m (m * word_mod ^ 0 + 0) n (n * word_mod ^ 0 + 0) q r res (omega arith) (omega arith)
      h
shamir_words-Reached (suc i) m n k l q r res h_1 h_2 w_1 w_2 h =
    let x = get_or k i 0 in
    let y = get_or l i 0 in
    let bits =
      shamir_bits-Reached 32 0 x y x y m n q r res refl (get_or-IsWord i k w_1)
        (get_or-IsWord i l w_2) (omega arith) (omega arith) h in
    let all =
      shamir_words-Reached i (m * 2 ^ 32 + x) (n * 2 ^ 32 + y) k l q r (shamir_bits 32 x y q r res)
        (omega arith) (omega arith) w_1 w_2 bits in
    Reached-eq ((m * 2 ^ 32 + x) * word_mod ^ i + value (take i k))
      (m * word_mod ^ suc i + value (take (suc i) k))
      ((n * 2 ^ 32 + y) * word_mod ^ i + value (take i l))
      (n * word_mod ^ suc i + value (take (suc i) l)) q r _ (word_appended i m k h_1)
      (word_appended i n l h_2) all

infinity-Reached : (q r : Point) → Reached 0 0 q r point_at_infinity
unfolding multiple_sum
infinity-Reached q r zero h h' = refl
infinity-Reached q r (suc k) h h' =
    let before = infinity-Reached q r k (two_pow_pos k) (two_pow_pos k) in
    rw (before, double_infinity) refl

-- `shamirPointMultiply` computes the sum of the two multiples by the recursion on the binary digits
-- of both numbers, with one doubling for both. The number of digits does not matter.
pub shamir_point_multiply_lem :
    (k l : List ℕ) (q r : Point) (digits : ℕ)
    → IsArray array_size k
    → IsArray array_size l
    → value k < 2 ^ digits
    → value l < 2 ^ digits
    → shamir_point_multiply k q l r ≡ multiple_sum digits (value k) (value l) q r
unfolding shamir_point_multiply
shamir_point_multiply_lem k l q r digits hk hl h_1 h_2 =
    let all =
      shamir_words-Reached 8 0 0 k l q r point_at_infinity (omega arith) (omega arith) hk.1 hl.1
        (infinity-Reached q r) in
    let exact =
      Reached-eq (0 * word_mod ^ 8 + value (take 8 k)) (value k)
        (0 * word_mod ^ 8 + value (take 8 l)) (value l) q r _ (rw (take_all 8 k hk.0) (omega arith))
        (rw (take_all 8 l hl.0) (omega arith)) all in
    sym (exact digits h_1 h_2)

multiple_sum-IsCurvePoint :
    (k m n : ℕ) (q r : Point)
    → IsCurvePoint q
    → IsCurvePoint r
    → IsCurvePoint (multiple_sum k m n q r)
unfolding multiple_sum
multiple_sum-IsCurvePoint zero m n q r i j = point_at_infinity-IsCurvePoint
multiple_sum-IsCurvePoint (suc k) m n q r i j =
    let half = multiple_sum-IsCurvePoint k (m / 2) (n / 2) q r i j in
    let doubled = point_double-IsCurvePoint _ half in
    let first = if-keeps IsCurvePoint (m % 2 == 0) doubled (point_add-IsCurvePoint _ q doubled i) in
    if-keeps IsCurvePoint (n % 2 == 0) first (point_add-IsCurvePoint _ r first j)

-- `shamirPointMultiply` of two points of the curve is one.
pub shamir_point_multiply-IsCurvePoint :
    (k l : List ℕ) (q r : Point)
    → IsArray array_size k
    → IsArray array_size l
    → IsCurvePoint q
    → IsCurvePoint r
    → IsCurvePoint (shamir_point_multiply k q l r)
shamir_point_multiply-IsCurvePoint k l q r hk hl i j =
    rw (shamir_point_multiply_lem k l q r 256 hk hl (value-lt-256 k hk) (value-lt-256 l hl))
      (multiple_sum-IsCurvePoint 256 (value k) (value l) q r i j)
