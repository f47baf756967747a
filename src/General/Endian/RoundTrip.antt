-- ===== src/General/Endian/RoundTrip.antt =====
-- src/general/endian_convert.c: reading inverts writing, and both agree with the base-256 value.
use Prim.Native.Nat.{bit_or}
use native.Mathlib.Nat.{mod-eq_of_lt}
use remote_drone.Base.{
  ℕ, zero, suc, ◌+◌, ◌*◌, ◌%◌, ◌/◌, ◌^◌, ◌≤◌, ◌<◌, List, [], ◌∷◌, ◌++◌, ◌≡◌, refl, ap₂, ◌∙◌, arith,
  length, take, All,
}
use remote_drone.Base.Bits.{bit_or_above}
use remote_drone.General.Endian.{
  le_bytes, le_num_loop, num_to_little_endian, little_endian_to_num, to_little_endian,
  to_word_array,
}

abbrev pub IsByte : ℕ → Type 0
IsByte b = b < 256

abbrev pub IsWord : ℕ → Type 0
IsWord w = w < 2 ^ 32

-- The number that a list of base-256 digits stands for, lowest first.
unfoldable pub le_value : List ℕ → ℕ
le_value [] = 0
le_value (b ∷ bs) = b + 256 * le_value bs

-- One round of the loop adds the byte at its place, when no bit leaves the 32 bits.
put_byte :
    (k res b : ℕ)
    → res < 2 ^ k
    → b * 2 ^ k < 2 ^ 32
    → bit_or res (b * 2 ^ k % 2 ^ 32) ≡ res + b * 2 ^ k
put_byte k res b h fits = rw (mod-eq_of_lt fits) (bit_or_above k res b h)

module _ (b0 b1 b2 b3 : ℕ) (rest : List ℕ) (h0 : IsByte b0) where
  read_one : le_num_loop 1 0 (b0 ∷ rest) 0 ≡ b0
  unfolding le_num_loop
  read_one = put_byte 0 0 b0 (omega arith) (omega arith) ∙ omega arith

  read_two : IsByte b1 → le_num_loop 2 0 (b0 ∷ b1 ∷ rest) 0 ≡ b0 + 256 * b1
  unfolding le_num_loop
  read_two h1 =
      rw (put_byte 0 0 b0 (omega arith) (omega arith))
        (put_byte 8 (0 + b0 * 1) b1 (omega arith) (omega arith) ∙ omega arith)

  read_three :
      IsByte b1 → IsByte b2 → le_num_loop 3 0 (b0 ∷ b1 ∷ b2 ∷ rest) 0 ≡ b0 + 256 * b1 + 65536 * b2
  unfolding le_num_loop
  read_three h1 h2 =
      rw
        (
          put_byte 0 0 b0 (omega arith) (omega arith),
          put_byte 8 (0 + b0 * 1) b1 (omega arith) (omega arith),
        )
        (put_byte 16 (0 + b0 * 1 + b1 * 256) b2 (omega arith) (omega arith) ∙ omega arith)

  pub read_four :
      IsByte b1
      → IsByte b2
      → IsByte b3
      → le_num_loop 4 0 (b0 ∷ b1 ∷ b2 ∷ b3 ∷ rest) 0 ≡ b0 + 256 * b1 + 65536 * b2 + 16777216 * b3
  unfolding le_num_loop
  read_four h1 h2 h3 =
      rw
        (
          put_byte 0 0 b0 (omega arith) (omega arith),
          put_byte 8 (0 + b0 * 1) b1 (omega arith) (omega arith),
          put_byte 16 (0 + b0 * 1 + b1 * 256) b2 (omega arith) (omega arith),
        )
        (put_byte 24 (0 + b0 * 1 + b1 * 256 + b2 * 65536) b3 (omega arith) (omega arith)
          ∙ omega arith)

-- The number read from the first `n` bytes, at most four, is their base-256 value.
pub little_endian_to_num-eq-le_value :
    (n : ℕ) (bs : List ℕ)
    → n ≤ 4
    → n ≤ length bs
    → All IsByte bs
    → little_endian_to_num bs n ≡ le_value (take n bs)
unfolding little_endian_to_num le_value
little_endian_to_num-eq-le_value zero bs h l a = refl
little_endian_to_num-eq-le_value (suc zero) (b0 ∷ r) h l a = read_one b0 0 0 0 r a.0 ∙ omega arith
little_endian_to_num-eq-le_value (suc (suc zero)) (b0 ∷ b1 ∷ r) h l a =
    read_two b0 b1 0 0 r a.0 a.1.0 ∙ omega arith
little_endian_to_num-eq-le_value (suc (suc (suc zero))) (b0 ∷ b1 ∷ b2 ∷ r) h l a =
    read_three b0 b1 b2 0 r a.0 a.1.0 a.1.1.0 ∙ omega arith
little_endian_to_num-eq-le_value (suc (suc (suc (suc zero)))) (b0 ∷ b1 ∷ b2 ∷ b3 ∷ r) h l a =
    read_four b0 b1 b2 b3 r a.0 a.1.0 a.1.1.0 a.1.1.1.0 ∙ omega arith
little_endian_to_num-eq-le_value _ _ h l a = absurd (omega arith)

-- Any array that begins with the four bytes of a word reads back as that word.
pub read-le_bytes :
    (w : ℕ) (rest : List ℕ) → IsWord w → le_num_loop 4 0 (le_bytes 4 0 w ++ rest) 0 ≡ w
unfolding le_bytes
read-le_bytes w rest h =
    read_four (w / 1 % 256) (w / 256 % 256) (w / 65536 % 256) (w / 16777216 % 256) rest
      (omega arith) (omega arith) (omega arith) (omega arith)
    ∙ omega arith

-- `littleEndianToNum` inverts `numToLittleEndian`, whatever follows the four bytes.
pub little_endian_to_num-num_to_little_endian :
    (w : ℕ) (rest : List ℕ)
    → w < 2 ^ 32
    → little_endian_to_num (num_to_little_endian w ++ rest) 4 ≡ w
unfolding little_endian_to_num num_to_little_endian
little_endian_to_num-num_to_little_endian w rest h = read-le_bytes w rest h

-- `toWordArray` inverts `toLittleEndian` on an array of words.
pub to_word_array-to_little_endian :
    (ws : List ℕ) → All IsWord ws → to_word_array (to_little_endian ws) (length ws) ≡ ws
unfolding to_word_array to_little_endian
to_word_array-to_little_endian [] a = refl
to_word_array-to_little_endian (w ∷ ws) a =
    ap₂ ◌∷◌ (read-le_bytes w (to_little_endian ws) a.0) (to_word_array-to_little_endian ws a.1)

-- `toWordArray` of `4 * n` bytes gives `n` words.
pub to_word_array-All :
    (n : ℕ) (bs : List ℕ)
    → length bs ≡ 4 * n
    → All IsByte bs
    → (length (to_word_array bs n) ≡ n) × All IsWord (to_word_array bs n)
unfolding to_word_array
to_word_array-All zero bs l a = (refl, tt)
to_word_array-All (suc n) (b0 ∷ b1 ∷ b2 ∷ b3 ∷ r) l a =
    let (len, rest) = to_word_array-All n r (omega arith) a.1.1.1.1 in
    let first : IsWord (le_num_loop 4 0 (b0 ∷ b1 ∷ b2 ∷ b3 ∷ r) 0) =
      rw (read_four b0 b1 b2 b3 r a.0 a.1.0 a.1.1.0 a.1.1.1.0)
        (omega (arith, a.0, a.1.0, a.1.1.0, a.1.1.1.0)) in
    (omega (arith, len), (first, rest))
to_word_array-All (suc n) _ l a = absurd (omega arith)

-- The four bytes of the number read from four bytes are those bytes.
le_bytes-read :
    (b0 b1 b2 b3 : ℕ) (rest : List ℕ)
    → IsByte b0
    → IsByte b1
    → IsByte b2
    → IsByte b3
    → le_bytes 4 0 (le_num_loop 4 0 (b0 ∷ b1 ∷ b2 ∷ b3 ∷ rest) 0) ≡ b0 ∷ b1 ∷ b2 ∷ b3 ∷ []
unfolding le_bytes
le_bytes-read b0 b1 b2 b3 rest h0 h1 h2 h3 =
    rw (read_four b0 b1 b2 b3 rest h0 h1 h2 h3) (ground arith)

-- `toLittleEndian` inverts `toWordArray` on `4 * n` bytes.
pub to_little_endian-to_word_array :
    (n : ℕ) (bs : List ℕ)
    → length bs ≡ 4 * n
    → All IsByte bs
    → to_little_endian (to_word_array bs n) ≡ bs
unfolding to_word_array to_little_endian
to_little_endian-to_word_array zero [] l a = refl
to_little_endian-to_word_array zero (b ∷ bs) l a = absurd (omega arith)
to_little_endian-to_word_array (suc n) (b0 ∷ b1 ∷ b2 ∷ b3 ∷ r) l a =
    ap₂ ◌++◌ (le_bytes-read b0 b1 b2 b3 r a.0 a.1.0 a.1.1.0 a.1.1.1.0)
      (to_little_endian-to_word_array n r (omega arith) a.1.1.1.1)
to_little_endian-to_word_array (suc n) _ l a = absurd (omega arith)
