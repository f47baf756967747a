-- ===== src/Crypto/Montgomery/Reduction.antt =====
-- Step 2 of `montMul` (src/crypto/mod_arithmetic.c): each row adds the multiple of `n` that clears a
-- word, and no carry leaves the array.
use native.Mathlib.Nat.{mod-eq_of_lt, pow-suc, one-le-pow, mul-le-mul_right}
use remote_drone.Base.{
  ℕ, zero, suc, ◌+◌, ◌*◌, ◌/◌, ◌%◌, ◌^◌, ◌≤◌, ◌<◌, List, [], ◌∷◌, ◌≡◌, refl, ap, arith, length, All,
  get_or, drop, ◌==◌, ◌∙◌, Bool-cases, inl, inr,
}
use remote_drone.Crypto.ModArithmetic.{word_mod}
use remote_drone.Crypto.ModArithmetic.Value.{IsWord, value, pow_suc_mul}
use remote_drone.Crypto.Montgomery.{double_word, add, reduce_row, reduce_rows, quotient_word}
use remote_drone.Crypto.Montgomery.Rows.{round_fits, value-uncons, All-uncons, length-drop-one}

-- `add` adds the carry where the sum fits the array.
pub add_exact :
    (t : List ℕ) (C : ℕ)
    → C < word_mod
    → All IsWord t
    → value t + C < word_mod ^ length t
    → (value (add t C) ≡ value t + C) × All IsWord (add t C) × (length (add t C) ≡ length t)
unfolding add value
add_exact [] C hC w fits = (omega arith, tt, refl)
add_exact (t ∷ ts) C hC w fits = elim (Bool-cases (C == 0)) [
  | inl z ↦ rw z (ground arith, w, refl)
  | inr z ↦
      let fits' : t + C < word_mod ^ 2 = omega (arith, w.0) in
      let (sum, words, len) =
        add_exact ts ((t + C) / word_mod) (omega (arith, w.0)) w.1
          (omega (arith, fits, pow-suc word_mod (length ts))) in
      rw (z, mod-eq_of_lt fits') (omega (arith, sum), (omega arith, words), ap suc len)
]

pub reduce_row_exact :
    (z C : ℕ) (ns t : List ℕ)
    → z < word_mod
    → C < word_mod
    → All IsWord ns
    → All IsWord t
    → length ns ≤ length t
    → value t + z * value ns + C < word_mod ^ length t
    → (value (reduce_row z C ns t) ≡ value t + z * value ns + C)
      × All IsWord (reduce_row z C ns t)
      × (length (reduce_row z C ns t) ≡ length t)
unfolding reduce_row value
reduce_row_exact z C [] t hz hC wn wt l fits =
    let (sum, words, len) = add_exact t C hC wt (omega arith) in (omega (arith, sum), words, len)
reduce_row_exact z C (n ∷ ns) [] hz hC wn wt l fits = absurd (omega arith)
reduce_row_exact z C (n ∷ ns) (t ∷ ts) hz hC wn wt l fits =
    let sum_fits = round_fits z n t C hz wn.0 wt.0 hC in
    let (sum, words, len) =
      reduce_row_exact z ((z * n + t + C) / word_mod) ns ts hz (omega arith) wn.1 wt.1 (omega arith)
        (omega (arith, fits, pow-suc word_mod (length ts))) in
    rw (mod-eq_of_lt sum_fits) (omega (arith, sum), (omega arith, words), ap suc len)

-- The first word of a row is what the multiple leaves of it.
reduce_row-head :
    (z n : ℕ) (ns t : List ℕ)
    → get_or (reduce_row z 0 (n ∷ ns) t) 0 0 ≡ double_word (z * n + get_or t 0 0 + 0) % word_mod
unfolding reduce_row
reduce_row-head z n ns t = refl

zero_mod : (x A B : ℕ) → x + word_mod * A ≡ word_mod * B → x % word_mod ≡ 0
zero_mod x A B h = omega arith

-- With `n[0] * n_prime[0]` congruent to -1 the word is cleared.
multiple_clears :
    (t n n' : ℕ) → (n * n' + 1) % word_mod ≡ 0 → (t * n' % word_mod * n + t) % word_mod ≡ 0
multiple_clears t n n' h =
    let z : ℕ = t * n' % word_mod in
    let q : ℕ = t * n' / word_mod in
    let k : ℕ = (n * n' + 1) / word_mod in
    let e1 : (word_mod * q + z) * n ≡ t * n' * n = ap (λ (s : ℕ). s * n) (omega arith) in
    let e2 : t * (word_mod * k) ≡ t * (n * n' + 1) = ap (λ (s : ℕ). t * s) (omega arith) in
    zero_mod (z * n + t) (q * n) (t * k) (omega (arith, e1, e2))

-- What the rounds left of step 2 do to `t`: they add a multiple of the modulus and divide by the
-- power of the word size; the result has the words behind the rounds.
pub record Reduced (rounds : ℕ) (N t result : List ℕ) : Type 0 where
  pub multiple : ℕ
  pub multiple_lt : multiple < word_mod ^ rounds
  pub exact : word_mod ^ rounds * value (drop rounds result) ≡ value t + multiple * value N
  pub words : All IsWord (drop rounds result)
  pub same_length : length result ≡ length t

module _ (n : ℕ) (ns n_prime : List ℕ) (wn : All IsWord (n ∷ ns))
    (inverse : (n * get_or n_prime 0 0 + 1) % word_mod ≡ 0) where
  abbrev V : ℕ
  V = value (n ∷ ns)

  z_multiple : (z : ℕ) → z < word_mod → (z + 1) * V ≤ word_mod * V
  z_multiple z h = mul-le-mul_right V (omega arith)

  row_fits :
      (rounds t z L : ℕ) → z < word_mod → t + word_mod ^ suc rounds * V < L + V → t + z * V + 0 < L
  row_fits rounds t z L hz h = omega (
    arith,
    pow-suc word_mod rounds,
    pow_suc_mul rounds V,
    mul-le-mul_right V (one-le-pow rounds word_mod (omega arith)),
    z_multiple z hz,
  )

  next_fits :
      (rounds t z tl L : ℕ)
      → z < word_mod
      → word_mod * tl ≡ t + z * V
      → t + word_mod ^ suc rounds * V < word_mod * L + V
      → tl + word_mod ^ rounds * V < L + V
  next_fits rounds t z tl L hz e h = omega (arith, e, h, pow_suc_mul rounds V, z_multiple z hz)

  row_clears :
      (t : ℕ) (ts : List ℕ)
      → get_or (reduce_row (quotient_word n_prime (t ∷ ts)) 0 (n ∷ ns) (t ∷ ts)) 0 0 ≡ 0
  row_clears t ts =
      let n' : ℕ = get_or n_prime 0 0 in
      let z : quotient_word n_prime (t ∷ ts) ≡ t * n' % word_mod = omega arith in
      reduce_row-head (quotient_word n_prime (t ∷ ts)) n ns (t ∷ ts)
      ∙ rw z (omega (arith, multiple_clears t n n' inverse))

  pub reduce_rows_exact :
      (rounds : ℕ) (t : List ℕ)
      → All IsWord t
      → suc (length ns) + rounds ≤ length t
      → value t + word_mod ^ rounds * V < word_mod ^ length t + V
      → Reduced rounds (n ∷ ns) t (reduce_rows rounds (n ∷ ns) n_prime t)
  unfolding reduce_rows
  reduce_rows_exact zero t wt l h = record {
    multiple = 0;
    multiple_lt = omega arith;
    exact = omega arith;
    words = wt;
    same_length = refl;
  }
  reduce_rows_exact (suc rounds) [] wt l h = absurd (omega arith)
  reduce_rows_exact (suc rounds) (t ∷ ts) wt l h =
      let z : ℕ = quotient_word n_prime (t ∷ ts) in
      let row : List ℕ = reduce_row z 0 (n ∷ ns) (t ∷ ts) in
      let hz : z < word_mod = omega arith in
      let (sum, words, len) =
        reduce_row_exact z 0 (n ∷ ns) (t ∷ ts) hz (omega arith) wn wt (omega arith)
          (row_fits rounds (value (t ∷ ts)) z _ hz h) in
      let nonempty : 0 < length row = omega arith in
      let split = value-uncons row nonempty in
      let shift : word_mod * value (drop 1 row) ≡ value (t ∷ ts) + z * V =
        omega (arith, sum, split, row_clears t ts) in
      let len' : length (drop 1 row) ≡ length ts = omega (arith, len, length-drop-one row) in
      let fits : value (drop 1 row) + word_mod ^ rounds * V < word_mod ^ length (drop 1 row) + V =
        rw len' (
          next_fits rounds (value (t ∷ ts)) z (value (drop 1 row)) (word_mod ^ length ts) hz shift
            (omega (arith, h, pow-suc word_mod (length ts)))) in
      let ih =
        reduce_rows_exact rounds (drop 1 row) (All-uncons row nonempty words).1
          (omega (arith, len', l)) fits in
      let rest : List ℕ = drop rounds (reduce_rows rounds (n ∷ ns) n_prime (drop 1 row)) in
      record {
        multiple = z + word_mod * ih.multiple;
        multiple_lt = omega (arith, ih.multiple_lt, pow-suc word_mod rounds);
        exact = omega (arith, ih.exact, shift, pow_suc_mul rounds (value rest));
        words = ih.words;
        same_length = omega (arith, ih.same_length, length-drop-one row);
      }
