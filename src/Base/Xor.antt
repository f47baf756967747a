-- ===== src/Base/Xor.antt =====
-- Exclusive or on numbers: a commutative group in which every number is its own inverse.
use Prim.Native.Nat.{ℕ, zero, suc, ◌+◌, ◌/◌, ◌%◌, ◌^◌, ◌<◌, bit_xor, differ}
use mathlib.Core.Path.{◌≡◌, refl, sym, ap, ◌∙◌}
use native.Mathlib.Nat.{pow-suc}
use native.Mathlib.Omega.{arith}
use remote_drone.Base.Bits.{bit_xor_digit, bit_xor-half, bit_xor-parity, bit_xor_mask, lt_two_pow}

differ_comm : (x y : ℕ) → x < 2 → y < 2 → differ x y ≡ differ y x
differ_comm zero zero h k = refl
differ_comm zero (suc zero) h k = refl
differ_comm zero (suc (suc y)) h k = absurd (omega arith)
differ_comm (suc zero) zero h k = refl
differ_comm (suc zero) (suc zero) h k = refl
differ_comm (suc zero) (suc (suc y)) h k = absurd (omega arith)
differ_comm (suc (suc x)) y h k = absurd (omega arith)

differ_assoc : (x y z : ℕ) → x < 2 → y < 2 → z < 2 → differ (differ x y) z ≡ differ x (differ y z)
differ_assoc zero zero zero h k l = refl
differ_assoc zero zero (suc zero) h k l = refl
differ_assoc zero (suc zero) zero h k l = refl
differ_assoc zero (suc zero) (suc zero) h k l = refl
differ_assoc (suc zero) zero zero h k l = refl
differ_assoc (suc zero) zero (suc zero) h k l = refl
differ_assoc (suc zero) (suc zero) zero h k l = refl
differ_assoc (suc zero) (suc zero) (suc zero) h k l = refl
differ_assoc (suc (suc x)) y z h k l = absurd (omega arith)
differ_assoc x (suc (suc y)) z h k l = absurd (omega arith)
differ_assoc x y (suc (suc z)) h k l = absurd (omega arith)

comm_below : (k a b : ℕ) → a < 2 ^ k → b < 2 ^ k → bit_xor a b ≡ bit_xor b a
comm_below zero a b h h' =
    let none_a : a ≡ 0 = omega arith in let none_b : b ≡ 0 = omega arith in rw (none_a, none_b) refl
comm_below (suc k) a b h h' = omega (
  arith,
  bit_xor_digit a b,
  bit_xor_digit b a,
  differ_comm (a % 2) (b % 2) (omega arith) (omega arith),
  comm_below k (a / 2) (b / 2) (omega (arith, pow-suc 2 k)) (omega (arith, pow-suc 2 k)),
)

pub bit_xor_comm : (a b : ℕ) → bit_xor a b ≡ bit_xor b a
bit_xor_comm a b =
    comm_below (a + b) a b (lt_two_pow a (a + b) (omega arith)) (lt_two_pow b (a + b) (omega arith))

assoc_below :
    (k a b c : ℕ)
    → a < 2 ^ k
    → b < 2 ^ k
    → c < 2 ^ k
    → bit_xor (bit_xor a b) c ≡ bit_xor a (bit_xor b c)
assoc_below zero a b c h h' h'' =
    let none_a : a ≡ 0 = omega arith in
    let none_b : b ≡ 0 = omega arith in
    let none_c : c ≡ 0 = omega arith in rw (none_a, none_b, none_c) refl
assoc_below (suc k) a b c h h' h'' =
    let p = pow-suc 2 k in
    rw
      (
        bit_xor_digit (bit_xor a b) c,
        bit_xor_digit a (bit_xor b c),
        bit_xor-half a b,
        bit_xor-half b c,
        bit_xor-parity a b,
        bit_xor-parity b c,
        differ_assoc (a % 2) (b % 2) (c % 2) (omega arith) (omega arith) (omega arith),
        assoc_below k (a / 2) (b / 2) (c / 2) (omega (arith, p)) (omega (arith, p))
            (omega (arith, p)),
      )
      refl

pub bit_xor_assoc : (a b c : ℕ) → bit_xor (bit_xor a b) c ≡ bit_xor a (bit_xor b c)
bit_xor_assoc a b c =
    let k = a + b + c in
    assoc_below k a b c (lt_two_pow a k (omega arith)) (lt_two_pow b k (omega arith))
      (lt_two_pow c k (omega arith))

pub bit_xor_left_comm : (a b c : ℕ) → bit_xor a (bit_xor b c) ≡ bit_xor b (bit_xor a c)
bit_xor_left_comm a b c =
    sym (bit_xor_assoc a b c) ∙ ap (λ (t : ℕ). bit_xor t c) (bit_xor_comm a b) ∙ bit_xor_assoc b a c

-- To sort a sum and to cancel what stands twice in it.
pub ruleset xor_laws = (bit_xor_assoc, bit_xor_comm, bit_xor_left_comm, bit_xor_mask)

sample :
    (s t u v x y : ℕ)
    → bit_xor s (bit_xor (bit_xor x y) (bit_xor (bit_xor (bit_xor s t) u) v))
      ≡ bit_xor (bit_xor (bit_xor x (bit_xor y t)) u) v
sample s t u v x y = simp xor_laws refl
