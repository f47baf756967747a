-- ===== src/Base/Memory.antt =====
-- The C library's `memcpy` into an array, and its laws.
use Prim.Native.Nat.{ℕ, zero, suc, ◌+◌, ◌≤◌}
use mathlib.Core.Path.{◌≡◌, refl, ap}
use mathlib.Core.List.{List, [], ◌∷◌, ◌++◌}
use native.Mathlib.Omega.{arith}
use remote_drone.Base.Lists.{length, take, drop}

-- `memcpy(dst + i, src, n)`; what would be written behind the end of `dst` is dropped.
unfoldable pub memcpy : List ℕ → ℕ → List ℕ → List ℕ
memcpy [] i src = []
memcpy (d ∷ dst) zero [] = d ∷ dst
memcpy (d ∷ dst) zero (s ∷ src) = s ∷ memcpy dst zero src
memcpy (d ∷ dst) (suc i) src = d ∷ memcpy dst i src

pub length-memcpy : (dst : List ℕ) (i : ℕ) (src : List ℕ) → length (memcpy dst i src) ≡ length dst
unfolding memcpy
length-memcpy [] i src = refl
length-memcpy (d ∷ dst) zero [] = refl
length-memcpy (d ∷ dst) zero (s ∷ src) = ap suc (length-memcpy dst zero src)
length-memcpy (d ∷ dst) (suc i) src = ap suc (length-memcpy dst i src)

take-memcpy_zero :
    (dst src : List ℕ) → length src ≤ length dst → take (length src) (memcpy dst 0 src) ≡ src
unfolding memcpy
take-memcpy_zero dst [] h = refl
take-memcpy_zero [] (s ∷ src) h = absurd (omega arith)
take-memcpy_zero (d ∷ dst) (s ∷ src) h =
    ap (λ (xs : List ℕ). s ∷ xs) (take-memcpy_zero dst src (omega arith))

-- What lies in the destination up to the end of a copy that fits.
pub take-memcpy :
    (dst : List ℕ) (i : ℕ) (src : List ℕ)
    → i + length src ≤ length dst
    → take (i + length src) (memcpy dst i src) ≡ take i dst ++ src
unfolding memcpy
take-memcpy dst zero src h =
    let none_before : 0 + length src ≡ length src = omega arith in
    rw none_before (take-memcpy_zero dst src (omega arith))
take-memcpy [] (suc i) src h = absurd (omega arith)
take-memcpy (d ∷ dst) (suc i) src h =
    let one_more : suc i + length src ≡ suc (i + length src) = omega arith in
    rw one_more (ap (λ (xs : List ℕ). d ∷ xs) (take-memcpy dst i src (omega arith)))

memcpy_zero :
    (dst src : List ℕ) → length src ≤ length dst → memcpy dst 0 src ≡ src ++ drop (length src) dst
unfolding memcpy
memcpy_zero [] [] h = refl
memcpy_zero [] (s ∷ src) h = absurd (omega arith)
memcpy_zero (d ∷ dst) [] h = refl
memcpy_zero (d ∷ dst) (s ∷ src) h = ap (λ (xs : List ℕ). s ∷ xs) (memcpy_zero dst src (omega arith))

-- A copy right behind the part `front` of an array.
pub memcpy-behind :
    (front dst src : List ℕ) (i : ℕ)
    → i ≡ length front
    → length src ≤ length dst
    → memcpy (front ++ dst) i src ≡ (front ++ src) ++ drop (length src) dst
unfolding memcpy
memcpy-behind [] dst src zero e h = memcpy_zero dst src h
memcpy-behind [] dst src (suc i) e h = absurd (omega arith)
memcpy-behind (f ∷ front) dst src zero e h = absurd (omega arith)
memcpy-behind (f ∷ front) dst src (suc i) e h =
    ap (λ (xs : List ℕ). f ∷ xs) (memcpy-behind front dst src i (omega arith) h)
