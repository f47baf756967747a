-- ===== src/General/Compare/Laws.antt =====
-- src/general/compare_arrays.c: the tests decide equality of the parts compared.
use remote_drone.Base.{
  ◌++◌, ℕ, zero, suc, ◌≤◌, true, List, [], ◌∷◌, ◌≡◌, ◌↔◌, refl, arith, length, take, replicate,
}
use remote_drone.General.Compare.{equal_arrays, is_zero}

-- `equalByteArrays` answers 1 exactly when the first `size` elements agree.
pub equal_arrays_iff :
    (size : ℕ) (xs ys : List ℕ)
    → size ≤ length xs
    → size ≤ length ys
    → (equal_arrays xs ys size ≡ true) ↔ (take size xs ≡ take size ys)
unfolding equal_arrays
equal_arrays_iff zero xs ys h k = (λ _. refl, λ _. refl)
equal_arrays_iff (suc size) (x ∷ xs) (y ∷ ys) h k = ground (arith, equal_arrays_iff size xs ys)
equal_arrays_iff (suc size) [] ys h k = absurd (omega arith)
equal_arrays_iff (suc size) (x ∷ xs) [] h k = absurd (omega arith)

pub equal_arrays_refl : (size : ℕ) (xs : List ℕ) → equal_arrays xs xs size ≡ true
unfolding equal_arrays
equal_arrays_refl zero xs = refl
equal_arrays_refl (suc size) [] = equal_arrays_refl size []
equal_arrays_refl (suc size) (x ∷ xs) = ground (arith, equal_arrays_refl size xs)

-- `isZero` answers 1 exactly when the first `nbBytes` elements are all 0.
pub is_zero_iff :
    (nb_bytes : ℕ) (arr : List ℕ)
    → nb_bytes ≤ length arr
    → (is_zero arr nb_bytes ≡ true) ↔ (take nb_bytes arr ≡ replicate nb_bytes 0)
unfolding is_zero
is_zero_iff zero arr h = (λ _. refl, λ _. refl)
is_zero_iff (suc n) (x ∷ xs) h = ground (arith, is_zero_iff n xs)
is_zero_iff (suc n) [] h = absurd (omega arith)

-- An array agrees with itself, whatever follows it in the other one.
pub equal_arrays-prefix : (xs ys : List ℕ) → equal_arrays xs (xs ++ ys) (length xs) ≡ true
unfolding equal_arrays
equal_arrays-prefix [] ys = refl
equal_arrays-prefix (x ∷ xs) ys = ground (arith, equal_arrays-prefix xs ys)
