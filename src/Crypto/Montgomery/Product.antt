-- ===== src/Crypto/Montgomery/Product.antt =====
-- `conditionalSubtract` and `montMul` of src/crypto/mod_arithmetic.c: the Montgomery product.
use native.Mathlib.Nat.{mul-le-mul_right, add-mul-mod_self_right}
use remote_drone.Base.{
  ℕ, zero, suc, ◌+◌, ◌*◌, ◌%◌, ◌^◌, ◌≤◌, ◌<◌, List, [], ◌∷◌, ◌++◌, ◌≡◌, refl, ap, arith, length,
  length-drop, get_or, take, drop, replicate, ◌==◌, ◌∙◌, sym, Bool-cases, ◌⊎◌, inl, inr,
}
use remote_drone.Crypto.ModArithmetic.{word_mod, array_size, sub_overflow, reaches_sub}
use remote_drone.Crypto.ModArithmetic.Value.{
  IsArray, value, value-take-suc, take_all, All-take, value-lt, value-take-lt,
}
use remote_drone.Crypto.ModArithmetic.AddSub.{sub_overflow_low_exact, reaches_sub_iff}
use remote_drone.Crypto.Montgomery.{mul_rows, reduce_rows, conditional_subtract, mont_mul}
use remote_drone.Crypto.Montgomery.Rows.{mul_rows_exact}
use remote_drone.Crypto.Montgomery.Reduction.{reduce_rows_exact}

take-append : (n : ℕ) (xs ys : List ℕ) → length xs ≡ n → take n (xs ++ ys) ≡ xs
take-append zero [] ys e = refl
take-append zero (x ∷ xs) ys e = absurd (omega arith)
take-append (suc n) [] ys e = absurd (omega arith)
take-append (suc n) (x ∷ xs) ys e = ap (◌∷◌ x) (take-append n xs ys (omega arith))

length-take_exact : (n : ℕ) (xs : List ℕ) → n ≤ length xs → length (take n xs) ≡ n
length-take_exact zero xs h = refl
length-take_exact (suc n) [] h = absurd (omega arith)
length-take_exact (suc n) (x ∷ xs) h = ap suc (length-take_exact n xs (omega arith))

congruent : (x y A B m : ℕ) → x + A * m ≡ y + B * m → x % m ≡ y % m
congruent x y A B m e =
    sym (add-mul-mod_self_right x A m) ∙ ap (λ (s : ℕ). s % m) e ∙ add-mul-mod_self_right y B m

-- `conditionalSubtract` on SIZE + 1 words below twice the modulus leaves a number below the modulus.
pub conditional_subtract_lem :
    (u N : List ℕ)
    → IsArray 9 u
    → IsArray array_size N
    → value u < 2 * value N
    → let r = take array_size (conditional_subtract u N) in
      IsArray array_size r
      × (value r < value N)
      × ((value u ≡ value r) ⊎ (value u ≡ value r + value N))
unfolding conditional_subtract
conditional_subtract_lem u N hu hN h =
    let lo : ℕ = value (take 8 u) in
    let split : value u ≡ lo + word_mod ^ 8 * get_or u 8 0 =
      ap value (sym (take_all 9 u hu.0)) ∙ value-take-suc 8 u (omega arith) in
    let N_lt : value N < word_mod ^ 8 = rw hN.0 at (value-lt N hN.1) in
    let lo_lt = value-take-lt 8 u (omega arith) hu.1 in
    let (diff, array, borrow) = sub_overflow_low_exact u N (omega arith) hu.1 hN in
    let r_lt : value (sub_overflow u N).0 < word_mod ^ 8 =
      rw array.0 at (value-lt (sub_overflow u N).0 array.1) in
    let test = reaches_sub_iff 7 u N (omega arith) (omega arith) hu.1 hN.1 in
    let whole = take_all 8 N hN.0 in
    elim (Bool-cases (get_or u 8 0 == 0)) [
      | inl z ↦ elim (Bool-cases (reaches_sub 7 u N)) [
        | inl e ↦
            let ge : value N ≤ lo = rw whole at (test.0 e) in
            rw (z, e, take-append 8 (sub_overflow u N).0 (drop 8 u) array.0)
              (array, ground arith, inr (ground arith))
        | inr e ↦
            let lt : lo < value N = ground (arith, test, whole) in
            rw (z, e)
              ((length-take_exact 8 u (omega arith), All-take 8 u hu.1), lt, inl (ground arith))
      ]
      | inr z ↦
          rw (z, take-append 8 (sub_overflow u N).0 (0 ∷ drop 9 u) array.0)
            (array, ground arith, inr (ground arith))
    ]

product_bounds :
    (ab M V X : ℕ)
    → V < word_mod ^ 8
    → ab < word_mod ^ 8 * V
    → M < word_mod ^ 8
    → word_mod ^ 8 * X ≡ ab + M * V
    → X < 2 * V
product_bounds ab M V X hV h hM e =
    let m : M * V ≤ word_mod ^ 8 * V = mul-le-mul_right V (omega arith) in omega arith

product_congruent :
    (ab M V X Y : ℕ)
    → word_mod ^ 8 * X ≡ ab + M * V
    → (X ≡ Y) ⊎ (X ≡ Y + V)
    → word_mod ^ 8 * Y % V ≡ ab % V
product_congruent ab M V X Y e (inl s) = congruent (word_mod ^ 8 * Y) ab 0 M V (omega arith)
product_congruent ab M V X Y e (inr s) =
    congruent (word_mod ^ 8 * Y) ab (word_mod ^ 8) M V (omega arith)

zeros_value : value (replicate 17 0) ≡ 0
unfolding value
zeros_value = refl

-- The Montgomery product. For a modulus `N` with `N[0] * n_prime[0]` congruent to -1 modulo the word
-- size, and operands whose product is below 2 ^ 256 times the modulus, `montMul` returns a number
-- below the modulus that, multiplied by 2 ^ 256, is congruent to the product.
pub mont_mul_lem :
    (a b N n_prime : List ℕ)
    → IsArray array_size a
    → IsArray array_size b
    → IsArray array_size N
    → (get_or N 0 0 * get_or n_prime 0 0 + 1) % word_mod ≡ 0
    → value a * value b < word_mod ^ 8 * value N
    → let r = mont_mul a b N n_prime in
      IsArray array_size r
      × (value r < value N)
      × (word_mod ^ 8 * value r % value N ≡ value a * value b % value N)
unfolding mont_mul
mont_mul_lem a b [] n_prime ha hb hN inverse h = absurd (omega arith)
mont_mul_lem a b (n ∷ ns) n_prime ha hb hN inverse h =
    let N : List ℕ = n ∷ ns in
    let t : List ℕ = mul_rows a b (replicate 17 0) in
    let N_lt : value N < word_mod ^ 8 = rw hN.0 at (value-lt N hN.1) in
    let start : List ℕ = replicate 17 0 in
    let zeros : drop (length a) start ≡ replicate {A = ℕ} (length b + 1) 0 = rw (ha.0, hb.0) in
    let (product, words, len) = mul_rows_exact a b start 1 ha.1 hb.1 (omega arith) zeros in
    let fits : value t + word_mod ^ 8 * value N < word_mod ^ length t + value N =
      rw len (omega (arith, product, zeros_value)) in
    let red = reduce_rows_exact n ns n_prime hN.1 inverse 8 t words (omega arith) fits in
    let t' : List ℕ = reduce_rows 8 N n_prime t in
    let u : List ℕ = drop 8 t' in
    let ab : ℕ = value a * value b in
    let exact : word_mod ^ 8 * value u ≡ ab + red.multiple * value N =
      omega (arith, red.exact, product, zeros_value) in
    let below = product_bounds ab red.multiple (value N) (value u) N_lt h red.multiple_lt exact in
    let nine : length u ≡ 9 = omega (arith, length-drop 8 t', red.same_length, len) in
    let (array, lt, same) = conditional_subtract_lem u N (nine, red.words) hN below in
    (array, lt, product_congruent ab red.multiple (value N) (value u) _ exact same)
