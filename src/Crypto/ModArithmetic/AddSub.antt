-- ===== src/Crypto/ModArithmetic/AddSub.antt =====
-- `add_overflow`, `sub_overflow` and the test of `mod_add`, src/crypto/mod_arithmetic.c, against the
-- numbers that their arrays stand for.
use remote_drone.Base.{
  ℕ, zero, suc, ◌+◌, ◌*◌, ◌^◌, ◌≤◌, ◌<◌, true, List, [], ◌∷◌, ◌≡◌, refl, ap, arith, length, All,
  take, get_or, ◌==◌, if◌then◌else◌, ◌⊎◌, ◌↔◌, inl, inr,
}
use remote_drone.Crypto.ModArithmetic.{
  word_mod, array_size, all_one_mask, add_word, add_loop, add_overflow, sub_word, sub_loop,
  sub_overflow, reaches_sub,
}
use remote_drone.Crypto.ModArithmetic.Value.{
  IsWord, IsArray, value, value-cons, value-take-suc, take_all, pow_suc_mul, value-take-lt,
  higher_word_lt,
}

-- One round of the sum is exact: the word and the carry together are the sum.
add_word_exact :
    (carry a b : ℕ)
    → carry ≤ 1
    → a < word_mod
    → b < word_mod
    → let (r, c) = add_word carry a b in
      (r + word_mod * c ≡ a + b + carry) × (r < word_mod) × (c ≤ 1)
unfolding add_word
add_word_exact carry a b h ha hb = ground arith

pub add_loop_exact :
    (n carry : ℕ) (a b : List ℕ)
    → carry ≤ 1
    → n ≤ length a
    → n ≤ length b
    → All IsWord a
    → All IsWord b
    → let (r, c) = add_loop n carry a b in
      (value r + word_mod ^ n * c ≡ value (take n a) + value (take n b) + carry)
      × IsArray n r
      × (c ≤ 1)
unfolding add_loop value
add_loop_exact zero carry a b h la lb ha hb = (omega arith, (refl, tt), h)
add_loop_exact (suc n) carry [] b h la lb ha hb = absurd (omega arith)
add_loop_exact (suc n) carry (x ∷ a) [] h la lb ha hb = absurd (omega arith)
add_loop_exact (suc n) carry (x ∷ a) (y ∷ b) h la lb ha hb =
    let (r, c) = add_word carry x y in
    let (exact, word, bit) = add_word_exact carry x y h ha.0 hb.0 in
    let (sum, array, bit') = add_loop_exact n c a b bit (omega arith) (omega arith) ha.1 hb.1 in
    (
      omega (arith, exact, sum, pow_suc_mul n (add_loop n c a b).1),
      (ap suc array.0, (word, array.1)),
      bit',
    )

-- The carry of the difference is 0 or ALL_ONE_MASK; it stands for a borrow of 0 or 1.
abbrev pub IsBorrow : ℕ → Type 0
IsBorrow c = (c ≡ 0) ⊎ (c ≡ all_one_mask)

abbrev pub borrow_of : ℕ → ℕ
borrow_of c = if c == 0 then 0 else 1

sub_word_exact :
    (carry a b : ℕ)
    → IsBorrow carry
    → a < word_mod
    → b < word_mod
    → let (r, c) = sub_word carry a b in
      (r + b + borrow_of carry ≡ a + word_mod * borrow_of c) × (r < word_mod) × IsBorrow c
unfolding sub_word
sub_word_exact carry a b (inl e) ha hb = ground arith
sub_word_exact carry a b (inr e) ha hb = ground arith

sub_loop_exact :
    (n carry : ℕ) (a b : List ℕ)
    → IsBorrow carry
    → n ≤ length a
    → n ≤ length b
    → All IsWord a
    → All IsWord b
    → let (r, c) = sub_loop n carry a b in
      (value r + value (take n b) + borrow_of carry ≡ value (take n a) + word_mod ^ n * borrow_of c)
      × IsArray n r
      × IsBorrow c
unfolding sub_loop value
sub_loop_exact zero carry a b h la lb ha hb = (omega arith, (refl, tt), h)
sub_loop_exact (suc n) carry [] b h la lb ha hb = absurd (omega arith)
sub_loop_exact (suc n) carry (x ∷ a) [] h la lb ha hb = absurd (omega arith)
sub_loop_exact (suc n) carry (x ∷ a) (y ∷ b) h la lb ha hb =
    let (r, c) = sub_word carry x y in
    let (exact, word, bit) = sub_word_exact carry x y h ha.0 hb.0 in
    let (sum, array, bit') = sub_loop_exact n c a b bit (omega arith) (omega arith) ha.1 hb.1 in
    (
      omega (arith, exact, sum, pow_suc_mul n (borrow_of (sub_loop n c a b).1)),
      (ap suc array.0, (word, array.1)),
      bit',
    )

module _ (a b : List ℕ) (ha : IsArray array_size a) (hb : IsArray array_size b) where
  -- On arrays of SIZE words `add_overflow` gives the sum and its carry out of 256 bits.
  pub add_overflow_exact :
      let (res, carry) = add_overflow a b array_size in
      (value res + word_mod ^ 8 * carry ≡ value a + value b) × IsArray array_size res × (carry ≤ 1)
  unfolding add_overflow
  add_overflow_exact =
      let (sum, array, bit) =
        add_loop_exact 8 0 a b (omega arith) (omega arith) (omega arith) ha.1 hb.1 in
      (omega (arith, rw (take_all 8 a ha.0, take_all 8 b hb.0) at sum), array, bit)

  -- On arrays of SIZE words `sub_overflow` gives the difference and its borrow.
  pub sub_overflow_exact :
      let (res, carry) = sub_overflow a b in
      (value res + value b ≡ value a + word_mod ^ 8 * borrow_of carry)
      × IsArray array_size res
      × IsBorrow carry
  unfolding sub_overflow
  sub_overflow_exact =
      let (sum, array, bit) =
        sub_loop_exact 8 0 a b (inl refl) (omega arith) (omega arith) ha.1 hb.1 in
      (omega (arith, rw (take_all 8 a ha.0, take_all 8 b hb.0) at sum), array, bit)

-- The loop of `mod_add` from index `i` reaches the subtraction exactly when the words up to `i` of
-- the sum stand for at least those of the modulus.
pub reaches_sub_iff :
    (i : ℕ) (r N : List ℕ)
    → i < length r
    → i < length N
    → All IsWord r
    → All IsWord N
    → (reaches_sub i r N ≡ true) ↔ (value (take (suc i) N) ≤ value (take (suc i) r))
unfolding reaches_sub
reaches_sub_iff zero (x ∷ r) (y ∷ N) h k hr hN = ground (arith, value-cons x [], value-cons y [])
reaches_sub_iff zero [] N h k hr hN = absurd (omega arith)
reaches_sub_iff zero (x ∷ r) [] h k hr hN = absurd (omega arith)
reaches_sub_iff (suc i) r N h k hr hN = ground (
  arith,
  reaches_sub_iff i r N,
  value-take-suc (suc i) r,
  value-take-suc (suc i) N,
  higher_word_lt (word_mod ^ suc i) (get_or r (suc i) 0) (get_or N (suc i) 0)
      (value (take (suc i) r)) (value (take (suc i) N)) (value-take-lt (suc i) r (omega arith) hr),
  higher_word_lt (word_mod ^ suc i) (get_or N (suc i) 0) (get_or r (suc i) 0)
      (value (take (suc i) N)) (value (take (suc i) r)) (value-take-lt (suc i) N (omega arith) hN),
)

-- `sub_overflow` on a first operand of more than SIZE words works on its SIZE lowest words.
pub sub_overflow_low_exact :
    (a b : List ℕ)
    → array_size ≤ length a
    → All IsWord a
    → IsArray array_size b
    → let (res, carry) = sub_overflow a b in
      (value res + value b ≡ value (take 8 a) + word_mod ^ 8 * borrow_of carry)
      × IsArray array_size res
      × IsBorrow carry
unfolding sub_overflow
sub_overflow_low_exact a b la wa hb =
    let (sum, array, bit) = sub_loop_exact 8 0 a b (inl refl) la (omega arith) wa hb.1 in
    (omega (arith, rw (take_all 8 b hb.0) at sum), array, bit)
