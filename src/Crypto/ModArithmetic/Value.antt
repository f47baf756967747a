-- ===== src/Crypto/ModArithmetic/Value.antt =====
-- The number that a word array stands for (src/crypto/mod_arithmetic.c).
use native.Mathlib.Nat.{pow-suc}
use remote_drone.Base.{
  ℕ, zero, suc, ◌+◌, ◌*◌, ◌^◌, ◌≤◌, ◌<◌, List, [], ◌∷◌, ◌≡◌, refl, ap, ap₂, arith, length, All,
  take, get_or,
}
use remote_drone.Crypto.ModArithmetic.{word_mod}

abbrev pub IsWord : ℕ → Type 0
IsWord w = w < word_mod

unfoldable pub value : List ℕ → ℕ
value [] = 0
value (w ∷ ws) = w + word_mod * value ws

-- The arrays of `n` words.
abbrev pub IsArray : ℕ → List ℕ → Type 0
IsArray n ws = (length ws ≡ n) × All IsWord ws

pub value-cons : (w : ℕ) (ws : List ℕ) → value (w ∷ ws) ≡ w + word_mod * value ws
unfolding value
value-cons w ws = refl

pub value-lt : (ws : List ℕ) → All IsWord ws → value ws < word_mod ^ length ws
unfolding value
value-lt [] a = omega arith
value-lt (w ∷ ws) a = omega (arith, value-lt ws a.1, pow-suc word_mod (length ws))

-- Arrays of one length with one value are the same array.
pub value-injective :
    (xs ys : List ℕ)
    → length xs ≡ length ys
    → All IsWord xs
    → All IsWord ys
    → value xs ≡ value ys
    → xs ≡ ys
unfolding value
value-injective [] [] l a b e = refl
value-injective [] (y ∷ ys) l a b e = absurd (omega arith)
value-injective (x ∷ xs) [] l a b e = absurd (omega arith)
value-injective (x ∷ xs) (y ∷ ys) l a b e =
    ap₂ ◌∷◌ (omega arith) (value-injective xs ys (omega arith) a.1 b.1 (omega arith))

pub pow_suc_mul : (i x : ℕ) → word_mod ^ suc i * x ≡ word_mod * (word_mod ^ i * x)
pow_suc_mul i x = rw (pow-suc word_mod i) (omega arith)

-- The words below index `i + 1` are those below `i` and the one at `i`.
pub value-take-suc :
    (i : ℕ) (ws : List ℕ)
    → i < length ws
    → value (take (suc i) ws) ≡ value (take i ws) + word_mod ^ i * get_or ws i 0
unfolding value
value-take-suc i [] h = absurd (omega arith)
value-take-suc zero (w ∷ ws) h = omega arith
value-take-suc (suc i) (w ∷ ws) h =
    let ih = value-take-suc i ws (omega arith) in omega (arith, ih, pow_suc_mul i (get_or ws i 0))

pub take_all : (n : ℕ) (ws : List ℕ) → length ws ≡ n → take n ws ≡ ws
take_all zero [] e = refl
take_all zero (w ∷ ws) e = absurd (omega arith)
take_all (suc n) [] e = absurd (omega arith)
take_all (suc n) (w ∷ ws) e = ap (◌∷◌ w) (take_all n ws (omega arith))

pub All-take : (n : ℕ) (ws : List ℕ) → All IsWord ws → All IsWord (take n ws)
All-take zero ws a = tt
All-take (suc n) [] a = tt
All-take (suc n) (w ∷ ws) a = (a.0, All-take n ws a.1)

pub get_or-IsWord : (i : ℕ) (ws : List ℕ) → All IsWord ws → get_or ws i 0 < word_mod
get_or-IsWord i [] a = omega arith
get_or-IsWord zero (w ∷ ws) a = a.0
get_or-IsWord (suc i) (w ∷ ws) a = get_or-IsWord i ws a.1

pub value-take-lt :
    (i : ℕ) (ws : List ℕ) → i ≤ length ws → All IsWord ws → value (take i ws) < word_mod ^ i
unfolding value
value-take-lt zero ws h a = omega arith
value-take-lt (suc i) [] h a = absurd (omega arith)
value-take-lt (suc i) (w ∷ ws) h a =
    omega (arith, value-take-lt i ws (omega arith) a.1, pow-suc word_mod i)

-- A higher word decides, whatever the lower words are.
pub higher_word_lt : (P x y lo hi : ℕ) → lo < P → x < y → lo + P * x < hi + P * y
higher_word_lt P x y lo hi h k = grind arith
