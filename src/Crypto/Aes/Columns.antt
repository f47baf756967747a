-- ===== src/Crypto/Aes/Columns.antt =====
-- The tables of `AESRound` in src/crypto/aes.c hold the columns that `SubBytes` and `MixColumns` of the
-- same file compute.
use Prim.Native.Nat.{bit_xor}
use mathlib.Core.List.{map}
use remote_drone.Base.{
  ℕ, zero, suc, ◌<◌, Bool, true, ◌&&◌, List, [], ◌∷◌, ◌≡◌, refl, ap, ◌∙◌, arith, get_or, length,
  ◌==◌, ltb, inl, inr, Bool-cases,
}
use remote_drone.Base.Xor.{xor_laws}
use remote_drone.Crypto.Aegis.{xor_block}
use remote_drone.Crypto.Aes.{
  round_word, s_box_value, xtime, mix_columns, te_0, te_1, te_2, te_3, s_box,
}

-- The columns that one byte contributes.
abbrev column_0 : ℕ → List ℕ
column_0 s = xtime s ∷ s ∷ s ∷ bit_xor (xtime s) s ∷ []

abbrev column_1 : ℕ → List ℕ
column_1 s = bit_xor (xtime s) s ∷ xtime s ∷ s ∷ s ∷ []

abbrev column_2 : ℕ → List ℕ
column_2 s = s ∷ bit_xor (xtime s) s ∷ xtime s ∷ s ∷ []

abbrev column_3 : ℕ → List ℕ
column_3 s = s ∷ s ∷ bit_xor (xtime s) s ∷ xtime s ∷ []

te_0_columns : te_0 ≡ map column_0 s_box
unfolding xtime
te_0_columns = refl

te_1_columns : te_1 ≡ map column_1 s_box
unfolding xtime
te_1_columns = refl

te_2_columns : te_2 ≡ map column_2 s_box
unfolding xtime
te_2_columns = refl

te_3_columns : te_3 ≡ map column_3 s_box
unfolding xtime
te_3_columns = refl

get_or-map :
    (f : ℕ → List ℕ) (xs : List ℕ) (i : ℕ)
    → i < length xs
    → get_or (map f xs) i [] ≡ f (get_or xs i 0)
get_or-map f [] i h = absurd (omega arith)
get_or-map f (x ∷ xs) zero h = refl
get_or-map f (x ∷ xs) (suc i) h = get_or-map f xs i (omega arith)

length-s_box : length s_box ≡ 256
length-s_box = refl

column_of :
    (f : ℕ → List ℕ) (table : List (List ℕ)) (b : ℕ)
    → table ≡ map f s_box
    → b < 256
    → get_or table b [] ≡ f (s_box_value b)
column_of f table b e h =
    ap (λ (t : List (List ℕ)). get_or t b []) e ∙ get_or-map f s_box b (omega (arith, length-s_box))

-- A test of all numbers below a bound.
unfoldable pub all_below : ℕ → (ℕ → Bool) → Bool
all_below zero f = true
all_below (suc n) f = f n && all_below n f

pub all_below-true : (n : ℕ) (f : ℕ → Bool) (i : ℕ) → all_below n f ≡ true → i < n → f i ≡ true
unfolding all_below
all_below-true zero f i e h = absurd (omega arith)
all_below-true (suc n) f i e h = elim (Bool-cases (i == n)) [
  | inl here ↦ let same : i ≡ n = ground arith in rw same (ground arith)
  | inr other ↦
      let rest : all_below n f ≡ true = ground arith in
      let lt : i < n = ground arith in all_below-true n f i rest lt
]

linear_test :
    all_below 256 (λ a. all_below 256 (λ b. xtime (bit_xor a b) == bit_xor (xtime a) (xtime b)))
    ≡ true
unfolding xtime all_below
linear_test = refl

-- `xtime` of a sum of two bytes.
pub xtime_linear : (a b : ℕ) → a < 256 → b < 256 → xtime (bit_xor a b) ≡ bit_xor (xtime a) (xtime b)
xtime_linear a b h k =
    let row =
      all_below-true 256
        (λ (a : ℕ). all_below 256 (λ b. xtime (bit_xor a b) == bit_xor (xtime a) (xtime b))) a
        linear_test h in
    let entry =
      all_below-true 256 (λ (b : ℕ). xtime (bit_xor a b) == bit_xor (xtime a) (xtime b)) b row k in
    ground (arith, entry)

s_box_test : all_below 256 (λ b. ltb (s_box_value b) 256) ≡ true
unfolding all_below
s_box_test = refl

pub s_box_value-lt : (b : ℕ) → b < 256 → s_box_value b < 256
s_box_value-lt b h =
    let entry = all_below-true 256 (λ (b : ℕ). ltb (s_box_value b) 256) b s_box_test h in
    ground (arith, entry)

-- `MixColumns` of one column, spread out.
mix_columns_one :
    (s0 s1 s2 s3 : ℕ)
    → s0 < 256
    → s1 < 256
    → s2 < 256
    → s3 < 256
    → mix_columns (s0 ∷ s1 ∷ s2 ∷ s3 ∷ [])
      ≡ xor_block (xor_block (xor_block (column_0 s0) (column_1 s1)) (column_2 s2)) (column_3 s3)
unfolding mix_columns xor_block
mix_columns_one s0 s1 s2 s3 h0 h1 h2 h3 =
    rw
      (
        xtime_linear s0 s1 h0 h1,
        xtime_linear s1 s2 h1 h2,
        xtime_linear s2 s3 h2 h3,
        xtime_linear s3 s0 h3 h0,
      )
      (simp xor_laws refl)

-- One word of `AESRound` is `MixColumns` of the four bytes that `SubBytes` makes of its bytes, and the
-- word of the round key.
pub round_word_lem :
    (input : List ℕ) (i j k l : ℕ) (key : List ℕ)
    → get_or input i 0 < 256
    → get_or input j 0 < 256
    → get_or input k 0 < 256
    → get_or input l 0 < 256
    → round_word input i j k l key
      ≡ xor_block
          (mix_columns (
            s_box_value (get_or input i 0)
            ∷ s_box_value (get_or input j 0)
            ∷ s_box_value (get_or input k 0)
            ∷ s_box_value (get_or input l 0)
            ∷ []))
          key
round_word_lem input i j k l key h0 h1 h2 h3 =
    rw
      (
        column_of column_0 te_0 (get_or input i 0) te_0_columns h0,
        column_of column_1 te_1 (get_or input j 0) te_1_columns h1,
        column_of column_2 te_2 (get_or input k 0) te_2_columns h2,
        column_of column_3 te_3 (get_or input l 0) te_3_columns h3,
        mix_columns_one (s_box_value (get_or input i 0)) (s_box_value (get_or input j 0))
            (s_box_value (get_or input k 0)) (s_box_value (get_or input l 0)) (s_box_value-lt _ h0)
            (s_box_value-lt _ h1) (s_box_value-lt _ h2) (s_box_value-lt _ h3),
      )
      refl
