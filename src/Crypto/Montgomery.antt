-- ===== src/Crypto/Montgomery.antt =====
-- Montgomery multiplication: `add`, `conditionalSubtract` and `montMul` of
-- src/crypto/mod_arithmetic.c. A row works on the array `t` from index `i` on, so each function here
-- takes and returns that part of `t`; the word that a row leaves at index `i` is final.
pub mod Rows
pub mod Reduction
pub mod Product
pub mod Domain
pub mod Normal
use remote_drone.Base.{
  ℕ, zero, suc, ◌+◌, ◌-◌, ◌*◌, ◌/◌, ◌%◌, ◌^◌, List, [], ◌∷◌, ◌++◌, get_or, take, drop, replicate,
  ◌==◌, if◌then◌else◌,
}
use remote_drone.Crypto.ModArithmetic.{word_mod, array_size, sub_overflow, reaches_sub}

-- A (2 * BITS)-bit sum.
abbrev pub double_word : ℕ → ℕ
double_word n = n % word_mod ^ 2

-- `add`: the carry `C` goes into `t`. A carry out of the end of `t` would be lost here; in C it would
-- be written behind the array.
unfoldable pub add : List ℕ → ℕ → List ℕ
add [] C = []
add (t ∷ ts) C =
    let sum = double_word (t + C) in
    let rest = add ts (sum / word_mod) in if C == 0 then t ∷ ts else (sum % word_mod ∷ rest)

-- The inner loop of step 1, with `t[i + SIZE] = C` at its end.
unfoldable pub mul_row : ℕ → ℕ → List ℕ → List ℕ → List ℕ
mul_row b C [] t = C ∷ drop 1 t
mul_row b C (a ∷ as') t =
    let sum = double_word (a * b + get_or t 0 0 + C) in
    sum % word_mod ∷ mul_row b (sum / word_mod) as' (drop 1 t)

-- Step 1: one row for each word of `b`.
unfoldable pub mul_rows : List ℕ → List ℕ → List ℕ → List ℕ
mul_rows a [] t = t
mul_rows a (b ∷ bs) t = let row = mul_row b 0 a t in get_or row 0 0 ∷ mul_rows a bs (drop 1 row)

-- The inner loop of step 2, with `add(t, i + SIZE, C)` at its end.
unfoldable pub reduce_row : ℕ → ℕ → List ℕ → List ℕ → List ℕ
reduce_row z C [] t = add t C
reduce_row z C (n ∷ ns) t =
    let sum = double_word (z * n + get_or t 0 0 + C) in
    sum % word_mod ∷ reduce_row z (sum / word_mod) ns (drop 1 t)

-- The word `z = (word)((double_word) t[i] * n_prime[0])`.
abbrev pub quotient_word : List ℕ → List ℕ → ℕ
quotient_word n_prime t = double_word (get_or t 0 0 * get_or n_prime 0 0) % word_mod

-- Step 2, for the rounds left.
unfoldable pub reduce_rows : ℕ → List ℕ → List ℕ → List ℕ → List ℕ
reduce_rows zero n n_prime t = t
reduce_rows (suc rounds) n n_prime t =
    let row = reduce_row (quotient_word n_prime t) 0 n t in
    get_or row 0 0 ∷ reduce_rows rounds n n_prime (drop 1 row)

-- `conditionalSubtract`: `a` has SIZE + 1 words, `b` has SIZE.
unfoldable pub conditional_subtract : List ℕ → List ℕ → List ℕ
conditional_subtract a b =
    if get_or a array_size 0 == 0
    then if reaches_sub (array_size - 1) a b then (sub_overflow a b).0 ++ drop array_size a else a
    else (sub_overflow a b).0 ++ (0 ∷ drop (array_size + 1) a)

-- `montMul`.
unfoldable pub mont_mul : List ℕ → List ℕ → List ℕ → List ℕ → List ℕ
mont_mul a b n n_prime =
    let t = mul_rows a b (replicate (2 * array_size + 1) 0) in
    let t' = reduce_rows array_size n n_prime t in
    take array_size (conditional_subtract (drop array_size t') n)
