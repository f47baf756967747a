-- ===== src/General/Compare.antt =====
-- Array comparison, src/general/compare_arrays.c. A byte or word array is a list of numbers.
-- The loops advance through the arrays; a read behind the end, undefined in C, reads 0 here.
pub mod Laws
use remote_drone.Base.{ℕ, zero, suc, Bool, true, false, List, get_or, drop, ◌==◌, if◌then◌else◌}

-- `equalWordArrays` and `equalByteArrays`, which have one text for the two element types.
unfoldable pub equal_arrays : List ℕ → List ℕ → ℕ → Bool
equal_arrays ar1 ar2 zero = true
equal_arrays ar1 ar2 (suc size) =
    let rest = equal_arrays (drop 1 ar1) (drop 1 ar2) size in
    if get_or ar1 0 0 == get_or ar2 0 0 then rest else false

-- `isZero`.
unfoldable pub is_zero : List ℕ → ℕ → Bool
is_zero arr zero = true
is_zero arr (suc nb_bytes) =
    let rest = is_zero (drop 1 arr) nb_bytes in if get_or arr 0 0 == 0 then rest else false
