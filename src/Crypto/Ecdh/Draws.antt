-- ===== src/Crypto/Ecdh/Draws.antt =====
-- `ECDHSample` of src/crypto/ecdh.c ends with the first scalar that is accepted.
use remote_drone.Base.{ℕ, zero, suc, ◌+◌, ◌<◌, true, false, List, some, ◌≡◌, refl, arith}
use remote_drone.Crypto.EcArithmetic.{ec_in_valid_range}
use remote_drone.Crypto.Ecdh.{random_scalar, sample_of, ecdh_sample}

-- Where the call `start + i` of the random source is the first from `start` on whose number
-- `ECInValidRange` accepts, `ECDHSample` ends, with more fuel than `i`, and keeps that number.
pub ecdh_sample-first :
    (random_bytes : ℕ → ℕ → List ℕ) (fuel start i : ℕ)
    → i < fuel
    → ec_in_valid_range (random_scalar random_bytes (start + i)) ≡ true
    → ((j : ℕ) → j < i → ec_in_valid_range (random_scalar random_bytes (start + j)) ≡ false)
    → ecdh_sample random_bytes fuel start ≡ some (sample_of random_bytes (start + i))
unfolding ecdh_sample
ecdh_sample-first random_bytes zero start i lt accepted refused = absurd (omega arith)
ecdh_sample-first random_bytes (suc fuel) start zero lt accepted refused =
    let here : start + 0 ≡ start = omega arith in
    let first = rw here at accepted in rw (here, first) refl
ecdh_sample-first random_bytes (suc fuel) start (suc i) lt accepted refused =
    let here : start + 0 ≡ start = omega arith in
    let moved : (j : ℕ) → start + suc j ≡ start + 1 + j = λ j. omega arith in
    let first = rw here at (refused 0 (omega arith)) in
    let later =
      ecdh_sample-first random_bytes fuel (start + 1) i (omega arith) (rw (moved i) at accepted)
        (λ j h. rw (moved j) at (refused (suc j) (omega arith))) in
    rw (first, moved i) later
