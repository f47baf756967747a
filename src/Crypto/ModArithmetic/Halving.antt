-- ===== src/Crypto/ModArithmetic/Halving.antt =====
-- `compare` and `divideByTwo` of src/crypto/mod_arithmetic.c against the numbers that their arrays
-- stand for.
use remote_drone.Base.{
  ℕ, zero, suc, ◌+◌, ◌*◌, ◌/◌, ◌^◌, ◌≤◌, ◌<◌, List, [], ◌∷◌, ◌≡◌, refl, ap, arith, length, All,
  take, get_or, ◌==◌, if◌then◌else◌,
}
use Prim.Native.Nat.{bit_or}
use remote_drone.Base.Bits.{bit_or_above}
use remote_drone.Crypto.ModArithmetic.{
  word_mod, array_size, Comparison, less, same, greater, compare_loop, compare, divide_loop,
  divide_by_two,
}
use remote_drone.Crypto.ModArithmetic.Value.{
  IsWord, IsArray, value, value-take-suc, take_all, pow_suc_mul, value-take-lt, higher_word_lt,
}

-- The order of two numbers.
abbrev pub Ordered : Comparison → ℕ → ℕ → Type 0
Ordered less x y = x < y
Ordered same x y = x ≡ y
Ordered greater x y = y < x

compare_loop-Ordered :
    (i : ℕ) (a b : List ℕ)
    → i ≤ length a
    → i ≤ length b
    → All IsWord a
    → All IsWord b
    → Ordered (compare_loop i a b) (value (take i a)) (value (take i b))
unfolding compare_loop value
compare_loop-Ordered zero a b h k wa wb = refl
compare_loop-Ordered (suc i) a b h k wa wb = ground (
  arith,
  compare_loop-Ordered i a b,
  value-take-suc i a,
  value-take-suc i b,
  higher_word_lt (word_mod ^ i) (get_or a i 0) (get_or b i 0) (value (take i a)) (value (take i b))
      (value-take-lt i a (omega arith) wa),
  higher_word_lt (word_mod ^ i) (get_or b i 0) (get_or a i 0) (value (take i b)) (value (take i a))
      (value-take-lt i b (omega arith) wb),
)

-- `compare` orders two arrays of SIZE words as the numbers that they stand for.
pub compare_lem :
    (a b : List ℕ)
    → IsArray array_size a
    → IsArray array_size b
    → Ordered (compare a b) (value a) (value b)
unfolding compare
compare_lem a b ha hb =
    rw (take_all 8 a ha.0, take_all 8 b hb.0) at
      (compare_loop-Ordered 8 a b (omega arith) (omega arith) ha.1 hb.1)

-- A word shifted right with a bit let in at its left end.
shifted_word :
    (a carry : ℕ)
    → IsWord a
    → carry ≤ 1
    → (if carry == 0 then a / 2 else bit_or (a / 2) (1 * 2 ^ 31)) ≡ a / 2 + 2 ^ 31 * carry
shifted_word a carry h k = ground (arith, bit_or_above 31 (a / 2) 1)

divide_loop_exact :
    (a : List ℕ) (carry : ℕ)
    → All IsWord a
    → carry ≤ 1
    → let (r, last) = divide_loop a carry in
      (2 * value r + last ≡ value a + word_mod ^ length a * carry)
      × IsArray (length a) r
      × (last ≤ 1)
unfolding divide_loop value
divide_loop_exact [] carry h k = (omega arith, (refl, tt), k)
divide_loop_exact (a ∷ as') carry h k =
    let (exact, array, bit) = divide_loop_exact as' carry h.1 k in
    let c = (divide_loop as' carry).1 in
    let shifted = shifted_word a c h.0 bit in
    (
      omega (arith, shifted, exact, pow_suc_mul (length as') carry),
      (ap suc array.0, (omega (arith, shifted), array.1)),
      omega arith,
    )

-- `divideByTwo` with a carry of 0 or 1 as bit 256 halves the number, without its lowest bit.
pub divide_by_two_lem :
    (a : List ℕ) (carry : ℕ)
    → IsArray array_size a
    → carry ≤ 1
    → (value (divide_by_two a carry) ≡ (value a + word_mod ^ 8 * carry) / 2)
      × IsArray array_size (divide_by_two a carry)
unfolding divide_by_two
divide_by_two_lem a carry h k =
    let (exact, array, bit) = rw h.0 at (divide_loop_exact a carry h.1 k) in
    (omega (arith, exact), array)
