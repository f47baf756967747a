-- ===== src/Tests/Signatures.antt =====
-- Tests of src/crypto/ecdh.c and src/crypto/ecdsa.c, with a digest and a random source made up: the
-- first number drawn is 0 and every later one is 1.
use remote_drone.Base.{
  ℕ, zero, suc, ◌+◌, ◌*◌, ◌%◌, ◌<◌, true, false, List, [], ◌∷◌, some, ◌≡◌, inl, inr, refl, arith,
  replicate, All, ap, ◌∙◌, ◌^◌, Bool-cases, length-replicate,
}
use remote_drone.Base.Congruence.{Congruent, eq_of_Congruent}
use remote_drone.General.Compare.{equal_arrays}
use remote_drone.General.Endian.{to_little_endian, to_word_array}
use remote_drone.General.Endian.RoundTrip.{IsByte}
use remote_drone.Crypto.ModArithmetic.{array_size}
use remote_drone.Crypto.ModArithmetic.Value.{IsArray, value}
use remote_drone.Crypto.Montgomery.Domain.{IsReduced}
use remote_drone.Crypto.CurveParams.{n, p}
use remote_drone.Crypto.EcArithmetic.{
  range_loop, ec_in_valid_range, is_zero_words, point_double, point_add, point_at_infinity,
  point_multiply, to_cartesian,
}
use remote_drone.Crypto.EcArithmetic.Field.{generator_x, value-p, value-n}
use remote_drone.Crypto.EcArithmetic.Multiply.{multiple, point_multiply_lem}
use remote_drone.Crypto.EcArithmetic.Conversion.{to_cartesian_lem}
use remote_drone.Crypto.EcArithmetic.Range.{zero_value}
use remote_drone.Crypto.Ecdh.{random_scalar, sample_of, ecdh_sample, generator}
use remote_drone.Crypto.Ecdh.Draws.{ecdh_sample-first}
use remote_drone.Crypto.Ecdh.Curve.{GivesBytes, generator_coordinates, generator-IsPoint}
use remote_drone.Crypto.Ecdsa.{reduce_n, signature_s, check_scalars, ecdsa_sign, ecdsa_check}
use remote_drone.Crypto.Ecdsa.Equation.{reduce_n-Is, signature_s_lem, check_scalars-signature_s}
use remote_drone.Crypto.Ecdsa.Signing.{r_of, GivesDigest, ecdsa_sign_lem}
use remote_drone.Crypto.Ecdsa.Verdict.{ecdsa_check-refuses}

abbrev one_first : ℕ → List ℕ
one_first zero = []
one_first (suc nb) = 1 ∷ replicate nb 0

abbrev random_bytes : ℕ → ℕ → List ℕ
random_bytes zero nb = replicate nb 0
random_bytes (suc call) nb = one_first nb

abbrev digest : List ℕ → List ℕ
digest message = 7 ∷ replicate 31 9

zeros-All : (nb : ℕ) → All IsByte (replicate nb 0)
zeros-All zero = tt
zeros-All (suc nb) = (omega arith, zeros-All nb)

random_bytes-GivesBytes : GivesBytes random_bytes
random_bytes-GivesBytes zero nb = (length-replicate {A = ℕ} nb 0, zeros-All nb)
random_bytes-GivesBytes (suc call) zero = (refl, tt)
random_bytes-GivesBytes (suc call) (suc nb) =
    (omega (arith, length-replicate {A = ℕ} nb 0), (omega arith, zeros-All nb))

digest-GivesDigest : GivesDigest digest
digest-GivesDigest message = (refl, omega arith)

abbrev drawn : List ℕ
drawn = random_scalar random_bytes 1

drawn_accepted : ec_in_valid_range drawn ≡ true
unfolding ec_in_valid_range equal_arrays to_word_array range_loop
drawn_accepted = refl

first_refused : (j : ℕ) → j < 1 → ec_in_valid_range (random_scalar random_bytes (0 + j)) ≡ false
unfolding ec_in_valid_range equal_arrays to_word_array
first_refused zero h = refl
first_refused (suc j) h = absurd (omega arith)

ecdh_sample-first_example : ecdh_sample random_bytes 2 0 ≡ some (sample_of random_bytes (0 + 1))
ecdh_sample-first_example =
    ecdh_sample-first random_bytes 2 0 1 (omega arith) drawn_accepted first_refused

drawn-IsArray : IsArray array_size drawn
unfolding to_word_array
drawn-IsArray = (refl, omega arith)

value-drawn : value drawn ≡ 1
unfolding to_word_array value
value-drawn = refl

generator_once : multiple 1 1 generator ≡ generator
unfolding multiple point_double point_add point_at_infinity equal_arrays
generator_once = refl

drawn_multiple : point_multiply drawn generator ≡ generator
drawn_multiple =
    let small : value drawn < 2 ^ 1 = omega (arith, value-drawn) in
    point_multiply_lem drawn generator 1 drawn-IsArray small
    ∙ ap (λ (m : ℕ). multiple 1 m generator) value-drawn
    ∙ generator_once

-- The first coordinate of the generator, out of the Montgomery domain, is not 0 modulo the order.
r_nonzero : is_zero_words (r_of drawn) ≡ false
r_nonzero =
    let i = generator-IsPoint in
    let (x_reduced, y_reduced, x_form, y_form) =
      to_cartesian_lem generator generator_coordinates 1 i refl in
    let x = (to_cartesian generator).0 in
    let (r_reduced, r_form) = reduce_n-Is x x_reduced.0 in
    let known : value x ≡ generator_x =
      eq_of_Congruent (value p) (value x) generator_x x_reduced.1 (omega (arith, value-p))
        (ap (λ (t : ℕ). t % value p) (by_one (value x)) ∙ x_form) in
    elim (Bool-cases (is_zero_words (reduce_n x))) [
      | inl e ↦
          let none_left : value (reduce_n x) ≡ 0 = (zero_value (reduce_n x) r_reduced.0).0 e in
          let impossible = rw (none_left, known, value-n) at r_form in
          absurd (omega (arith, impossible))
      | inr e ↦ rw drawn_multiple e
    ]
  where
    by_one : (v : ℕ) → v ≡ v * (1 * 1)
    by_one v = omega arith

abbrev private_key : List ℕ
private_key = 3 ∷ replicate 7 0

abbrev message : List ℕ
message = 1 ∷ 2 ∷ []

private_key-IsReduced : IsReduced n private_key
unfolding value
private_key-IsReduced = ((refl, omega arith), omega arith)

drawn_inverse : Congruent (value n) (value drawn * 1) 1
drawn_inverse = rw value-drawn refl

ecdsa_sign_lem_example :
    (s : List ℕ) × (ecdsa_sign random_bytes digest 1 2 message private_key 0
      ≡ some (to_little_endian (r_of drawn), to_little_endian s, 0 + 1 + 1))
    × IsReduced n s
    × Congruent
        (value n)
        (value s * value drawn)
        (value (r_of drawn) * value private_key + value (to_word_array (digest message) array_size))
ecdsa_sign_lem_example =
    ecdsa_sign_lem digest random_bytes digest-GivesDigest random_bytes-GivesBytes 0 2 0 1 1 message
      private_key (omega arith) drawn_accepted first_refused r_nonzero drawn_inverse
      private_key-IsReduced

-- A signature of the digest 5 with r = 2, the private key 3 and the scalar 1: s = 11.
abbrev small : ℕ → List ℕ
small w = w ∷ replicate 7 0

small-IsReduced : (w : ℕ) → w < 100 → IsReduced n (small w)
unfolding value
small-IsReduced w h = ((refl, omega arith), omega arith)

one_inverse : Congruent (value n) (value (small 1) * 1) 1
unfolding value
one_inverse = refl

abbrev eleventh : ℕ
eleventh = 0x45D1745CD1745D178BA2E8BA2E8BA2E8A7E1E746A1EF2B3B8849F17AFF03C45C

value-signature_s : value (signature_s (small 5) (small 2) (small 3) (small 1)) ≡ 11
unfolding value
value-signature_s =
    let s = signature_s (small 5) (small 2) (small 3) (small 1) in
    let (reduced, form) =
      signature_s_lem (small 5) (small 2) (small 3) (small 1) 1 (small-IsReduced 5 (omega arith))
        (small-IsReduced 2 (omega arith)) (small-IsReduced 3 (omega arith))
        (small-IsReduced 1 (omega arith)).0 one_inverse in
    eq_of_Congruent (value n) (value s) 11 reduced.1 (omega (arith, value-n))
      (ap (λ (t : ℕ). t % value n) (by_one (value s)) ∙ form)
  where
    by_one : (v : ℕ) → v ≡ v * 1
    by_one v = omega arith

s_inverse :
    Congruent (value n) (value (signature_s (small 5) (small 2) (small 3) (small 1)) * eleventh) 1
s_inverse = rw (value-signature_s, value-n) refl

check_scalars-signature_s_example :
    let s = signature_s (small 5) (small 2) (small 3) (small 1) in
    let (u_1, u_2) = check_scalars (small 5) (small 2) s in
    Congruent (value n) (value u_1 + value u_2 * value (small 3)) (value (small 1))
check_scalars-signature_s_example =
    check_scalars-signature_s (small 5) (small 2) (small 3) (small 1) 1 eleventh
      (small-IsReduced 5 (omega arith)) (small-IsReduced 2 (omega arith))
      (small-IsReduced 3 (omega arith)) (small-IsReduced 1 (omega arith)).0 one_inverse s_inverse

-- All bytes of r are 0.
ecdsa_check-refuses_example :
    ecdsa_check digest message (small 1) (small 1) (replicate 32 0) (replicate 32 1) ≡ false
unfolding to_word_array value
ecdsa_check-refuses_example =
    ecdsa_check-refuses digest message (small 1) (small 1) (replicate 32 0) (replicate 32 1) refl
      (omega arith) refl (omega arith) (inl refl)
