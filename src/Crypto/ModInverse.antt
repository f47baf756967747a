-- ===== src/Crypto/ModInverse.antt =====
-- Modular inversion: `mod_inv` of src/crypto/mod_arithmetic.c.
pub mod Step
pub mod Loop
use Prim.Native.Nat.{bit_and}
use remote_drone.Base.{
  ℕ, zero, suc, Bool, true, false, List, replicate, get_or, ltb, ◌==◌, if◌then◌else◌, ◌∷◌,
}
use remote_drone.Crypto.ModArithmetic.{
  array_size, add_overflow, sub_overflow, mod_sub, Comparison, less, same, greater, compare,
  divide_by_two,
}

-- The four arrays `U`, `V`, `R` and `S`.
pub record Work : Type 0 where
  pub u : List ℕ
  pub v : List ℕ
  pub r : List ℕ
  pub s : List ℕ

-- The local array `zero`.
abbrev pub zeros : List ℕ
zeros = replicate array_size 0

abbrev pub is_even : List ℕ → Bool
is_even a = bit_and (get_or a 0 0) 1 == 0

abbrev pub is_greater : Comparison → Bool
is_greater greater = true
is_greater _ = false

abbrev pub is_same : Comparison → Bool
is_same same = true
is_same _ = false

-- The half of `R` or `S` modulo `p`: `p` is added first where the number is odd.
unfoldable pub halve : List ℕ → List ℕ → List ℕ
halve p a =
    let (sum, carry) = add_overflow a p array_size in
    if is_even a then divide_by_two a 0 else divide_by_two sum carry

-- The body of the loop.
unfoldable pub inv_step : List ℕ → Work → Work
inv_step p w =
    if is_even w.u
    then record w { u = divide_by_two w.u 0; r = halve p w.r }
    else if is_even w.v
    then record w { v = divide_by_two w.v 0; s = halve p w.s }
    else if is_greater (compare w.u w.v)
    then record w { u = (sub_overflow w.u w.v).0; r = mod_sub w.r w.s p }
    else record w { v = (sub_overflow w.v w.u).0; s = mod_sub w.s w.r p }

-- `while (compare(V, zero))`, for at most `fuel` rounds.
unfoldable pub inv_loop : ℕ → List ℕ → Work → Work
inv_loop zero p w = w
inv_loop (suc fuel) p w =
    let rest = inv_loop fuel p (inv_step p w) in if is_same (compare w.v zeros) then w else rest

-- Each two rounds halve the product of two 256-bit numbers.
abbrev pub inv_fuel : ℕ
inv_fuel = 1026

abbrev pub started : List ℕ → List ℕ → Work
started x p = record { u = p; v = x; r = zeros; s = 1 ∷ replicate 7 0 }

-- What follows the loop.
unfoldable pub inv_result : List ℕ → Work → List ℕ
inv_result p w =
    if ltb 1 (get_or w.u 0 0)
    then zeros
    else if is_greater (compare w.r p)
    then (sub_overflow w.r p).0
    else w.r

-- `mod_inv`.
unfoldable pub mod_inv : List ℕ → List ℕ → List ℕ
mod_inv x p = inv_result p (inv_loop inv_fuel p (started x p))
