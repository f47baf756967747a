-- ===== src/Crypto/Montgomery/Rows.antt =====
-- Step 1 of `montMul` (src/crypto/mod_arithmetic.c): the rows add up to the product.
use native.Mathlib.Nat.{mod-eq_of_lt, mul-le-mul, suc-add}
use remote_drone.Base.{
  ℕ, zero, suc, ◌+◌, ◌-◌, ◌*◌, ◌/◌, ◌^◌, ◌≤◌, ◌<◌, List, [], ◌∷◌, ◌≡◌, refl, ap, arith, length, All,
  get_or, drop, replicate, ◌∙◌,
}
use remote_drone.Crypto.ModArithmetic.{word_mod}
use remote_drone.Crypto.ModArithmetic.Value.{IsWord, value}
use remote_drone.Crypto.Montgomery.{mul_row, mul_rows}

-- The (2 * BITS)-bit sum of a round never wraps.
pub round_fits :
    (x y t C : ℕ)
    → x < word_mod
    → y < word_mod
    → t < word_mod
    → C < word_mod
    → x * y + t + C < word_mod ^ 2
round_fits x y t C hx hy ht hC =
    let product : x * y ≤ 4294967295 * 4294967295 =
      mul-le-mul {n₂ = 4294967295} {m₂ = 4294967295} (omega arith) (omega arith) in
    omega arith

-- A row adds `b` times `a`, and the carry that comes in, to `t`.
pub mul_row_exact :
    (b C : ℕ) (a t : List ℕ)
    → b < word_mod
    → C < word_mod
    → All IsWord a
    → All IsWord t
    → length a < length t
    → get_or t (length a) 0 ≡ 0
    → (value (mul_row b C a t) ≡ value t + b * value a + C)
      × All IsWord (mul_row b C a t)
      × (length (mul_row b C a t) ≡ length t)
      × (drop (suc (length a)) (mul_row b C a t) ≡ drop (suc (length a)) t)
unfolding mul_row value
mul_row_exact b C a [] hb hC wa wt l z = absurd (omega arith)
mul_row_exact b C [] (t ∷ ts) hb hC wa wt l z = (omega arith, (hC, wt.1), refl, refl)
mul_row_exact b C (a ∷ as') (t ∷ ts) hb hC wa wt l z =
    let fits = round_fits a b t C wa.0 hb wt.0 hC in
    let s : ℕ = a * b + t + C in
    let (sum, words, len, rest) =
      mul_row_exact b (s / word_mod) as' ts hb (omega arith) wa.1 wt.1 (omega arith) z in
    rw (mod-eq_of_lt fits) (omega arith, (omega arith, words), ap suc len, rest)

drop-drop-one : (n : ℕ) (xs : List ℕ) → drop n (drop 1 xs) ≡ drop (suc n) xs
drop-drop-one zero [] = refl
drop-drop-one (suc n) [] = refl
drop-drop-one n (x ∷ xs) = refl

-- Where the words from index `n` on are zeros, the word at `n` is one of them.
get_or-zeros : (n k : ℕ) (t : List ℕ) → drop n t ≡ replicate k 0 → get_or t n 0 ≡ 0
get_or-zeros n k [] e = refl
get_or-zeros zero zero (x ∷ t) e = cc
get_or-zeros zero (suc k) (x ∷ t) e = cc
get_or-zeros (suc n) k (x ∷ t) e = get_or-zeros n k t e

length-drop-replicate : (n k : ℕ) (t : List ℕ) → drop n t ≡ replicate (suc k) 0 → n < length t
length-drop-replicate zero k [] e = cc
length-drop-replicate (suc n) k [] e = cc
length-drop-replicate zero k (x ∷ t) e = omega arith
length-drop-replicate (suc n) k (x ∷ t) e = omega (arith, length-drop-replicate n k t e)

drop-suc-zeros :
    (n k : ℕ) (t : List ℕ) → drop n t ≡ replicate (suc k) 0 → drop (suc n) t ≡ replicate k 0
drop-suc-zeros zero k [] e = cc
drop-suc-zeros (suc n) k [] e = cc
drop-suc-zeros zero k (x ∷ t) e = ap (drop 1) e
drop-suc-zeros (suc n) k (x ∷ t) e = drop-suc-zeros n k t e

pub length-drop-one : (t : List ℕ) → length (drop 1 t) ≡ length t - 1
length-drop-one [] = omega arith
length-drop-one (x ∷ t) = omega arith

-- A nonempty array is its first word and the others.
pub uncons : (t : List ℕ) → 0 < length t → get_or t 0 0 ∷ drop 1 t ≡ t
uncons [] h = absurd (omega arith)
uncons (x ∷ t) h = refl

pub value-uncons :
    (t : List ℕ) → 0 < length t → get_or t 0 0 + word_mod * value (drop 1 t) ≡ value t
unfolding value
value-uncons [] h = absurd (omega arith)
value-uncons (x ∷ t) h = refl

pub All-uncons :
    (t : List ℕ) → 0 < length t → All IsWord t → IsWord (get_or t 0 0) × All IsWord (drop 1 t)
All-uncons [] h a = absurd (omega arith)
All-uncons (x ∷ t) h a = a

-- The rows over `b` add the product of `a` and `b` to `t`, whose words from the length of `a` on are
-- zeros, at least one more than `b` has words.
pub mul_rows_exact :
    (a bs t : List ℕ) (k : ℕ)
    → All IsWord a
    → All IsWord bs
    → All IsWord t
    → drop (length a) t ≡ replicate (length bs + k) 0
    → (value (mul_rows a bs t) ≡ value t + value a * value bs)
      × All IsWord (mul_rows a bs t)
      × (length (mul_rows a bs t) ≡ length t)
unfolding mul_rows value
mul_rows_exact a [] t k wa wb wt z = (omega arith, wt, refl)
mul_rows_exact a (b ∷ bs) t k wa wb wt z =
    let row : List ℕ = mul_row b 0 a t in
    let long = length-drop-replicate (length a) (length bs + k) t z' in
    let (sum, words, len, rest) =
      mul_row_exact b 0 a t wb.0 (omega arith) wa wt long (get_or-zeros (length a) _ t z) in
    let zeros : drop (length a) (drop 1 row) ≡ replicate (length bs + k) 0 =
      drop-drop-one (length a) row ∙ rest ∙ drop-suc-zeros (length a) (length bs + k) t z' in
    let nonempty : 0 < length row = omega arith in
    let (word, words') = All-uncons row nonempty words in
    let (sum', words'', len') = mul_rows_exact a bs (drop 1 row) k wa wb.1 words' zeros in
    (
      omega (arith, sum, sum', value-uncons row nonempty),
      (word, words''),
      omega (arith, len, len', length-drop-one row),
    )
  where
    z' : drop (length a) t ≡ replicate (suc (length bs + k)) 0
    z' = z ∙ rw (suc-add (length bs) k)
