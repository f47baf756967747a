-- ===== src/Base/Bits.antt =====
-- The native bit operations at variables: one equation for the lowest digit, and its consequences.
use Prim.Native.Nat.{
  ℕ, zero, suc, ◌+◌, ◌*◌, ◌/◌, ◌%◌, ◌^◌, ◌≤◌, ◌<◌, min, max, digits, bitwise, bit_and, bit_or,
  bit_xor, bit_and-bitwise, bit_or-bitwise, bit_xor-bitwise, differ,
}
use mathlib.Core.Path.{◌≡◌, refl}
use native.Mathlib.Nat.{pow-suc, le_refl}
use native.Mathlib.Omega.{arith}
use remote_drone.Base.Tests.{ltb, if◌then◌else◌}

module _ (z : ℕ → ℕ) (f : ℕ → ℕ → ℕ) where
  -- Fuel above the first number does not matter.
  fuel_irrelevant : (k l x y : ℕ) → x ≤ k → x ≤ l → digits z f k x y ≡ digits z f l x y
  fuel_irrelevant zero zero x y p q = refl
  fuel_irrelevant (suc k) zero zero y p q = refl
  fuel_irrelevant (suc k) zero (suc x) y p q = absurd (omega arith)
  fuel_irrelevant zero (suc l) zero y p q = refl
  fuel_irrelevant zero (suc l) (suc x) y p q = absurd (omega arith)
  fuel_irrelevant (suc k) (suc l) zero y p q = refl
  fuel_irrelevant (suc k) (suc l) (suc x) y p q =
      rw (fuel_irrelevant k l (suc x / 2) (y / 2) (omega arith) (omega arith))

  lowest_digit :
      (x y : ℕ)
      → bitwise z f (suc x) y ≡ bitwise z f (suc x / 2) (y / 2) * 2 + f (suc x % 2) (y % 2)
  lowest_digit x y =
      rw (fuel_irrelevant x (suc x / 2) (suc x / 2) (y / 2) (omega arith) (le_refl _))

pub bit_or_digit : (a b : ℕ) → bit_or a b ≡ bit_or (a / 2) (b / 2) * 2 + max (a % 2) (b % 2)
bit_or_digit zero b = simp bit_or-bitwise (omega arith)
bit_or_digit (suc a) b = simp bit_or-bitwise (lowest_digit (λ y. y) max a b)

pub bit_xor_digit : (a b : ℕ) → bit_xor a b ≡ bit_xor (a / 2) (b / 2) * 2 + differ (a % 2) (b % 2)
bit_xor_digit zero b = simp bit_xor-bitwise (omega arith)
bit_xor_digit (suc a) b = simp bit_xor-bitwise (lowest_digit (λ y. y) differ a b)

pub zero-bit_or : (b : ℕ) → bit_or 0 b ≡ b
zero-bit_or b = bit_or-bitwise 0 b

doubled_shift : (k q : ℕ) → 2 * (q * 2 ^ k) ≡ q * 2 ^ suc k
doubled_shift k q = let step : 2 ^ suc k ≡ 2 ^ k * 2 = pow-suc 2 k in rw step (omega arith)

-- `r | (q << k)` is a sum when `r` fits in `k` bits.
pub bit_or_above : (k r q : ℕ) → r < 2 ^ k → bit_or r (q * 2 ^ k) ≡ r + q * 2 ^ k
bit_or_above zero r q h = let e : r ≡ 0 = omega arith in rw e (rw zero-bit_or (omega arith))
bit_or_above (suc k) r q h = ground (
  arith,
  bit_or_digit r (q * 2 ^ suc k),
  doubled_shift k q,
  pow-suc 2 k,
  bit_or_above k (r / 2) q (omega (arith, pow-suc 2 k)),
)

differ_cancel : (x y : ℕ) → x < 2 → y < 2 → differ (differ x y) y ≡ x
differ_cancel zero zero h k = refl
differ_cancel zero (suc zero) h k = refl
differ_cancel zero (suc (suc y)) h k = absurd (omega arith)
differ_cancel (suc zero) zero h k = refl
differ_cancel (suc zero) (suc zero) h k = refl
differ_cancel (suc zero) (suc (suc y)) h k = absurd (omega arith)
differ_cancel (suc (suc x)) y h k = absurd (omega arith)

differ-lt : (x y : ℕ) → x < 2 → y < 2 → differ x y < 2
differ-lt zero y h k = k
differ-lt (suc zero) zero h k = h
differ-lt (suc zero) (suc zero) h k = omega arith
differ-lt (suc zero) (suc (suc y)) h k = absurd (omega arith)
differ-lt (suc (suc x)) y h k = absurd (omega arith)

pub bit_xor-half : (a b : ℕ) → bit_xor a b / 2 ≡ bit_xor (a / 2) (b / 2)
bit_xor-half a b =
    omega (arith, bit_xor_digit a b, differ-lt (a % 2) (b % 2) (omega arith) (omega arith))

pub bit_xor-parity : (a b : ℕ) → bit_xor a b % 2 ≡ differ (a % 2) (b % 2)
bit_xor-parity a b =
    omega (arith, bit_xor_digit a b, differ-lt (a % 2) (b % 2) (omega arith) (omega arith))

-- The exclusive or of two `k`-bit numbers has `k` bits.
pub bit_xor-lt : (k a b : ℕ) → a < 2 ^ k → b < 2 ^ k → bit_xor a b < 2 ^ k
bit_xor-lt zero zero zero h h' = h
bit_xor-lt zero zero (suc b) h h' = absurd (omega arith)
bit_xor-lt zero (suc a) b h h' = absurd (omega arith)
bit_xor-lt (suc k) a b h h' = omega (
  arith,
  pow-suc 2 k,
  bit_xor_digit a b,
  differ-lt (a % 2) (b % 2) (omega arith) (omega arith),
  bit_xor-lt k (a / 2) (b / 2) (omega (arith, pow-suc 2 k)) (omega (arith, pow-suc 2 k)),
)

-- Twice the same mask changes nothing.
pub bit_xor_cancel : (k a b : ℕ) → a < 2 ^ k → b < 2 ^ k → bit_xor (bit_xor a b) b ≡ a
bit_xor_cancel zero zero zero h h' = refl
bit_xor_cancel zero zero (suc b) h h' = absurd (omega arith)
bit_xor_cancel zero (suc a) b h h' = absurd (omega arith)
bit_xor_cancel (suc k) a b h h' =
    rw
      (
        bit_xor_digit (bit_xor a b) b,
        bit_xor-half a b,
        bit_xor-parity a b,
        differ_cancel (a % 2) (b % 2) (omega arith) (omega arith),
        bit_xor_cancel k (a / 2) (b / 2) (omega (arith, pow-suc 2 k)) (omega (arith, pow-suc 2 k)),
      )
      (omega arith)

differ_mask : (x y : ℕ) → x < 2 → y < 2 → differ x (differ x y) ≡ y
differ_mask zero zero h k = refl
differ_mask zero (suc zero) h k = refl
differ_mask zero (suc (suc y)) h k = absurd (omega arith)
differ_mask (suc zero) zero h k = refl
differ_mask (suc zero) (suc zero) h k = refl
differ_mask (suc zero) (suc (suc y)) h k = absurd (omega arith)
differ_mask (suc (suc x)) y h k = absurd (omega arith)

mask_cancel : (k a b : ℕ) → a < 2 ^ k → b < 2 ^ k → bit_xor a (bit_xor a b) ≡ b
mask_cancel zero zero zero h h' = refl
mask_cancel zero zero (suc b) h h' = absurd (omega arith)
mask_cancel zero (suc a) b h h' = absurd (omega arith)
mask_cancel (suc k) a b h h' =
    rw
      (
        bit_xor_digit a (bit_xor a b),
        bit_xor-half a b,
        bit_xor-parity a b,
        differ_mask (a % 2) (b % 2) (omega arith) (omega arith),
        mask_cancel k (a / 2) (b / 2) (omega (arith, pow-suc 2 k)) (omega (arith, pow-suc 2 k)),
      )
      (omega arith)

pub lt_two_pow : (n m : ℕ) → n ≤ m → n < 2 ^ m
lt_two_pow n zero h = omega arith
lt_two_pow zero (suc m) h = omega (arith, lt_two_pow zero m (omega arith), pow-suc 2 m)
lt_two_pow (suc n) (suc m) h = omega (arith, lt_two_pow n m (omega arith), pow-suc 2 m)

-- A mask put on twice is off again.
pub bit_xor_mask : (a b : ℕ) → bit_xor a (bit_xor a b) ≡ b
bit_xor_mask a b =
    mask_cancel (a + b) a b (lt_two_pow a (a + b) (omega arith))
      (lt_two_pow b (a + b) (omega arith))

no_digits : (k a : ℕ) → digits (λ b. 0) min k a 0 ≡ 0
no_digits zero a = refl
no_digits (suc k) zero = refl
no_digits (suc k) (suc a) = omega (arith, no_digits k (suc a / 2))

-- The lowest bit.
pub bit_and-one : (a : ℕ) → bit_and a 1 ≡ a % 2
bit_and-one zero = simp bit_and-bitwise
bit_and-one (suc a) = simp bit_and-bitwise (omega (arith, no_digits a (suc a / 2)))

bit_and_digit : (a b : ℕ) → bit_and a b ≡ bit_and (a / 2) (b / 2) * 2 + min (a % 2) (b % 2)
bit_and_digit zero b = simp bit_and-bitwise (omega arith)
bit_and_digit (suc a) b = simp bit_and-bitwise (lowest_digit (λ y. 0) min a b)

-- The highest bit of a number of `k + 1` bits.
pub bit_and-highest :
    (k a : ℕ) → a < 2 ^ suc k → bit_and a (2 ^ k) ≡ (if ltb a (2 ^ k) then 0 else 2 ^ k)
bit_and-highest zero a h = ground (arith, bit_and-one a, pow-suc 2 0)
bit_and-highest (suc k) a h =
    ground (
      arith,
      bit_and_digit a (2 ^ suc k),
      bit_and-highest k (a / 2),
      pow-suc 2 k,
      pow-suc 2 (suc k),
    )
