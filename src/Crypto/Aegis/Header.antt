-- ===== src/Crypto/Aegis/Header.antt =====
-- Which bytes of the associated data `associatedData` (src/crypto/aegis.c) reads.
use remote_drone.Base.{
  ℕ, zero, suc, ◌+◌, ◌-◌, ◌*◌, ◌≤◌, ◌<◌, Bool, List, [], ◌∷◌, take, drop, ◌≡◌, refl, sym, ◌∙◌, ap,
  arith,
}
use remote_drone.Crypto.Aegis.{
  AegisState, full_rounds, associated_loop, associated_data, aegis_crypt, initialization,
}

take-take : (n k : ℕ) (xs : List ℕ) → n ≤ k → take n (take k xs) ≡ take n xs
take-take zero k xs h = refl
take-take (suc n) zero xs h = absurd (omega arith)
take-take (suc n) (suc k) [] h = refl
take-take (suc n) (suc k) (x ∷ xs) h = ap (λ (ys : List ℕ). x ∷ ys) (take-take n k xs (omega arith))

-- Lists that agree on their first bytes agree on fewer.
agree_on_fewer : (n k : ℕ) (xs ys : List ℕ) → n ≤ k → take k xs ≡ take k ys → take n xs ≡ take n ys
agree_on_fewer n k xs ys h e =
    sym (take-take n k xs h) ∙ ap (λ (zs : List ℕ). take n zs) e ∙ take-take n k ys h

drop-take : (n k m : ℕ) (xs : List ℕ) → m ≡ n + k → drop n (take m xs) ≡ take k (drop n xs)
drop-take zero k m xs e = let same : m ≡ k = omega arith in rw same refl
drop-take (suc n) k zero xs e = absurd (omega arith)
drop-take (suc n) zero (suc m) [] e = refl
drop-take (suc n) (suc k) (suc m) [] e = refl
drop-take (suc n) k (suc m) (x ∷ xs) e = drop-take n k m xs (omega arith)

-- Lists that agree on their first bytes agree behind some of them.
agree_behind :
    (n k m : ℕ) (xs ys : List ℕ)
    → m ≡ n + k
    → take m xs ≡ take m ys
    → take k (drop n xs) ≡ take k (drop n ys)
agree_behind n k m xs ys h e =
    sym (drop-take n k m xs h) ∙ ap (λ (zs : List ℕ). drop n zs) e ∙ drop-take n k m ys h

module _ (aes_round : List ℕ → List ℕ → List ℕ) where
  associated_loop-agree :
      (rounds : ℕ) (ad ad' : List ℕ) (s : AegisState)
      → take (16 * rounds) ad ≡ take (16 * rounds) ad'
      → associated_loop aes_round rounds ad s ≡ associated_loop aes_round rounds ad' s
  unfolding associated_loop
  associated_loop-agree zero ad ad' s e = refl
  associated_loop-agree (suc rounds) ad ad' s e =
      rw (agree_on_fewer 16 (16 * suc rounds) ad ad' (omega arith) e) (
        associated_loop-agree rounds (drop 16 ad) (drop 16 ad') _
          (agree_behind 16 (16 * rounds) (16 * suc rounds) ad ad' (omega arith) e))

  -- Only the first `adlen` bytes count.
  pub associated_data-agree :
      (s : AegisState) (ad ad' : List ℕ) (adlen : ℕ)
      → take adlen ad ≡ take adlen ad'
      → associated_data aes_round s ad adlen ≡ associated_data aes_round s ad' adlen
  unfolding associated_data
  associated_data-agree s ad ad' adlen e =
      let k = full_rounds adlen in
      rw
        (
          agree_on_fewer (adlen - 16 * k) adlen ad ad' (omega arith) e,
          associated_loop-agree k ad ad' s (agree_on_fewer (16 * k) adlen ad ad' (omega arith) e),
        )
        refl

  -- If there is more associated data than a block, the ciphertext and the tag do not depend on its
  -- last block, the bytes from 16 * ((adlen - 1) / 16) on. For the header of 32 bytes, these are the
  -- bytes 16 to 31: the end of the IV, the target ID and the sequence number are not authenticated.
  pub aegis_crypt-agree :
      (key iv ad ad' : List ℕ) (adlen : ℕ) (input : List ℕ) (encrypt : Bool)
      → 16 < adlen
      → take (16 * full_rounds adlen) ad ≡ take (16 * full_rounds adlen) ad'
      → aegis_crypt aes_round key iv ad adlen input encrypt
        ≡ aegis_crypt aes_round key iv ad' adlen input encrypt
  unfolding aegis_crypt associated_data
  aegis_crypt-agree key iv ad ad' adlen input encrypt more e =
      let k = full_rounds adlen in
      let last : take (adlen - 16 * k) ad ≡ take (adlen - 16 * k) ad' =
        agree_on_fewer (adlen - 16 * k) (16 * k) ad ad' (omega arith) e in
      rw (last, associated_loop-agree k ad ad' (initialization aes_round key iv) e) refl
