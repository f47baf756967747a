-- ===== src/Crypto/Aegis/Inverse.antt =====
-- Decryption inverts encryption in src/crypto/aegis.c, and the MAC is then found right.
use remote_drone.Base.{
  ℕ, zero, suc, ◌+◌, ◌-◌, ◌*◌, ◌≤◌, min, true, false, List, [], ◌∷◌, ◌++◌, length, take, drop,
  take-append, drop-append, replicate, ◌≡◌, refl, ◌∙◌, arith, length-append, length-take,
  length-drop, take-append-drop, length-replicate,
}
use remote_drone.Base.Bits.{bit_xor_mask}
use remote_drone.Crypto.Aegis.{
  AegisState, xor_block, and_block, zero_padded, state_update_128, keystream, xcrypt_loop,
}

pub length-xor_block : (xs ys : List ℕ) → length (xor_block xs ys) ≡ min (length xs) (length ys)
unfolding xor_block
length-xor_block [] ys = omega arith
length-xor_block (x ∷ xs) [] = omega arith
length-xor_block (x ∷ xs) (y ∷ ys) = omega (arith, length-xor_block xs ys)

length-and_block : (xs ys : List ℕ) → length (and_block xs ys) ≡ min (length xs) (length ys)
unfolding and_block
length-and_block [] ys = omega arith
length-and_block (x ∷ xs) [] = omega arith
length-and_block (x ∷ xs) (y ∷ ys) = omega (arith, length-and_block xs ys)

xor_block_mask : (z xs : List ℕ) → length xs ≤ length z → xor_block z (xor_block z xs) ≡ xs
unfolding xor_block
xor_block_mask [] [] h = refl
xor_block_mask [] (x ∷ xs) h = absurd (omega arith)
xor_block_mask (z ∷ zs) [] h = refl
xor_block_mask (z ∷ zs) (x ∷ xs) h = rw (bit_xor_mask z x, xor_block_mask zs xs (omega arith)) refl

-- What lies behind `xs` does not count in the first places.
take-xor_block :
    (n : ℕ) (z xs ys : List ℕ)
    → n ≡ length xs
    → n ≤ length z
    → take n (xor_block z (xs ++ ys)) ≡ xor_block z xs
unfolding xor_block
take-xor_block zero [] [] ys e h = refl
take-xor_block zero (z ∷ zs) [] ys e h = refl
take-xor_block zero z (x ∷ xs) ys e h = absurd (omega arith)
take-xor_block (suc n) z [] ys e h = absurd (omega arith)
take-xor_block (suc n) [] (x ∷ xs) ys e h = absurd (omega arith)
take-xor_block (suc n) (z ∷ zs) (x ∷ xs) ys e h =
    rw (take-xor_block n zs xs ys (omega arith) (omega arith)) refl

abbrev pub IsBlock : List ℕ → Type 0
IsBlock xs = length xs ≡ 16

abbrev pub IsState : AegisState → Type 0
IsState s =
    IsBlock s.block_0
    × IsBlock s.block_1
    × IsBlock s.block_2
    × IsBlock s.block_3
    × IsBlock s.block_4

pub length-zero_padded : (xs : List ℕ) → length xs ≤ 16 → length (zero_padded xs) ≡ 16
length-zero_padded xs h = omega (
  arith,
  length-append xs (replicate (16 - length xs) 0),
  length-replicate {A = ℕ} (16 - length xs) 0,
)

module _ (aes_round : List ℕ → List ℕ → List ℕ)
    (aes_round-IsBlock : (a b : List ℕ) → length (aes_round a b) ≡ 16) where
  pub state_update_128-IsState :
      (s : AegisState) (m : List ℕ) → IsBlock m → IsState (state_update_128 aes_round s m)
  unfolding state_update_128
  state_update_128-IsState s m h = (
    omega (
      arith,
      length-xor_block (aes_round s.block_4 s.block_0) m,
      aes_round-IsBlock s.block_4 s.block_0,
    ),
    aes_round-IsBlock s.block_0 s.block_1,
    aes_round-IsBlock s.block_1 s.block_2,
    aes_round-IsBlock s.block_2 s.block_3,
    aes_round-IsBlock s.block_3 s.block_4,
  )

  length-keystream : (s : AegisState) → IsState s → IsBlock (keystream aes_round s)
  unfolding keystream
  length-keystream s h = omega (
    arith,
    length-and_block s.block_2 s.block_3,
    h.1,
    h.2,
    h.3,
    h.4,
    length-xor_block (and_block s.block_2 s.block_3) s.block_4,
    length-xor_block (xor_block (and_block s.block_2 s.block_3) s.block_4) s.block_1,
  )

  -- Decrypting from the same state gives the plaintext, and ends in the state of the encryption.
  pub xcrypt_loop_inverse :
      (rounds : ℕ) (s : AegisState) (input : List ℕ)
      → IsState s
      → 16 * rounds ≤ length input
      → length input ≤ 16 * rounds + 16
      → let c = xcrypt_loop aes_round rounds s input true in
        (length c.0 ≡ length input) × (xcrypt_loop aes_round rounds s c.0 false ≡ (input, c.1))
  unfolding xcrypt_loop
  xcrypt_loop_inverse zero s input hs lo hi =
      let z = keystream aes_round s in
      let hz = length-keystream s hs in
      let padding : List ℕ → List ℕ = λ xs. replicate (16 - length xs) 0 in
      let c : take (length input) (xor_block z (zero_padded input)) ≡ xor_block z input =
        take-xor_block (length input) z input (padding input) refl (omega arith) in
      let size : length (xor_block z input) ≡ length input =
        omega (arith, length-xor_block z input) in
      let back : take (length (xor_block z input)) (xor_block z (zero_padded (xor_block z input)))
          ≡ input =
        take-xor_block (length (xor_block z input)) z (xor_block z input)
          (padding (xor_block z input)) refl (omega arith)
        ∙ xor_block_mask z input (omega arith) in
      rw (c, back) (size, refl)
  xcrypt_loop_inverse (suc rounds) s input hs lo hi =
      let z = keystream aes_round s in
      let hz = length-keystream s hs in
      let block = take 16 input in
      let full : length block ≡ 16 = omega (arith, length-take 16 input) in
      let out = xor_block z block in
      let out_full : 16 ≡ length out = omega (arith, length-xor_block z block) in
      let ih =
        xcrypt_loop_inverse rounds (state_update_128 aes_round s block) (drop 16 input)
          (state_update_128-IsState s block full) (omega (arith, length-drop 16 input))
          (omega (arith, length-drop 16 input)) in
      let rest =
        xcrypt_loop aes_round rounds (state_update_128 aes_round s block) (drop 16 input) true in
      (
        omega (arith, length-append out rest.0, ih.0, length-drop 16 input),
        rw
            (
              take-append 16 out rest.0 out_full,
              drop-append 16 out rest.0 out_full,
              xor_block_mask z block (omega arith),
              ih.1,
              take-append-drop 16 input,
            )
            refl,
      )
