-- ===== src/Crypto/Aes/Blocks.antt =====
-- The functions of src/crypto/aes.c take blocks of 16 bytes to blocks of 16 bytes.
use Prim.Native.Nat.{bit_xor}
use native.Mathlib.Nat.{mod-lt}
use remote_drone.Base.{ℕ, ◌≤◌, List, [], ◌∷◌, ◌≡◌, refl, ◌∙◌, arith, length, All}
use remote_drone.Base.Bits.{bit_xor-lt}
use remote_drone.General.Endian.RoundTrip.{IsByte}
use remote_drone.Crypto.Aegis.{xor_block}
use remote_drone.Crypto.Aes.{
  aes_round, sub_bytes, shift_rows, rotate_first, rotate_second, rotate_third, mix_columns, xtime,
}
use remote_drone.Crypto.Aes.Columns.{s_box_value-lt}
use remote_drone.Crypto.Aes.Round.{IsBlock, aes_round_lem}

pub xor-IsByte : (a b : ℕ) → IsByte a → IsByte b → IsByte (bit_xor a b)
xor-IsByte a b h k = bit_xor-lt 8 a b h k

xtime-IsByte : (a : ℕ) → IsByte (xtime a)
unfolding xtime
xtime-IsByte a = mod-lt _ (omega arith)

pub xor_block-All :
    (xs ys : List ℕ)
    → length xs ≤ length ys
    → All IsByte xs
    → All IsByte ys
    → (length (xor_block xs ys) ≡ length xs) × All IsByte (xor_block xs ys)
unfolding xor_block
xor_block-All [] ys h a b = (refl, tt)
xor_block-All (x ∷ xs) [] h a b = absurd (omega arith)
xor_block-All (x ∷ xs) (y ∷ ys) h a b =
    let (len, rest) = xor_block-All xs ys (omega arith) a.1 b.1 in
    (omega (arith, len), (xor-IsByte x y a.0 b.0, rest))

pub xor_block-IsBlock : (xs ys : List ℕ) → IsBlock xs → IsBlock ys → IsBlock (xor_block xs ys)
xor_block-IsBlock xs ys h k =
    let (len, bytes) = xor_block-All xs ys (omega (arith, h.0, k.0)) h.1 k.1 in (len ∙ h.0, bytes)

sub_bytes-All :
    (bs : List ℕ) → All IsByte bs → (length (sub_bytes bs) ≡ length bs) × All IsByte (sub_bytes bs)
unfolding sub_bytes
sub_bytes-All [] a = (refl, tt)
sub_bytes-All (b ∷ bs) a =
    let (len, rest) = sub_bytes-All bs a.1 in (omega (arith, len), (s_box_value-lt b a.0, rest))

shift_rows-IsBlock : (bs : List ℕ) → IsBlock bs → IsBlock (shift_rows bs)
unfolding shift_rows rotate_first rotate_second rotate_third
shift_rows-IsBlock
      (a0 ∷ a1 ∷ a2 ∷ a3 ∷ a4 ∷ a5 ∷ a6 ∷ a7 ∷ a8 ∷ a9 ∷ a10 ∷ a11 ∷ a12 ∷ a13 ∷ a14 ∷ a15 ∷ []) h =
    omega (arith, h)
shift_rows-IsBlock _ h = absurd (omega (arith, h.0))

mix_columns-All :
    (bs : List ℕ)
    → All IsByte bs
    → (length (mix_columns bs) ≡ length bs) × All IsByte (mix_columns bs)
unfolding mix_columns
mix_columns-All (a ∷ b ∷ c ∷ d ∷ rest) h =
    let (len, bytes) = mix_columns-All rest h.1.1.1.1 in
    let tmp = bit_xor (bit_xor (bit_xor a b) c) d in
    let (ha, hb, hc, hd) : IsByte a × IsByte b × IsByte c × IsByte d =
      (h.0, h.1.0, h.1.1.0, h.1.1.1.0) in
    let tmp-IsByte : IsByte tmp = xor-IsByte _ d (xor-IsByte _ c (xor-IsByte a b ha hb) hc) hd in
    let mixed : (x y : ℕ) → IsByte x → IsByte (bit_xor x (bit_xor (xtime (bit_xor x y)) tmp)) =
      λ x y hx. xor-IsByte x _ hx (xor-IsByte _ tmp (xtime-IsByte _) tmp-IsByte) in
    (omega (arith, len), (mixed a b ha, (mixed b c hb, (mixed c d hc, (mixed d a hd, bytes)))))
mix_columns-All (a ∷ b ∷ c ∷ []) h = (refl, h)
mix_columns-All (a ∷ b ∷ []) h = (refl, h)
mix_columns-All (a ∷ []) h = (refl, h)
mix_columns-All [] h = (refl, h)

pub shifted-IsBlock : (bs : List ℕ) → IsBlock bs → IsBlock (shift_rows (sub_bytes bs))
shifted-IsBlock bs h =
    let (len, bytes) = sub_bytes-All bs h.1 in shift_rows-IsBlock (sub_bytes bs) (len ∙ h.0, bytes)

-- The steps of a round but the last.
pub mixed-IsBlock : (bs : List ℕ) → IsBlock bs → IsBlock (mix_columns (shift_rows (sub_bytes bs)))
mixed-IsBlock bs h =
    let shifted = shifted-IsBlock bs h in
    let (len', bytes') = mix_columns-All (shift_rows (sub_bytes bs)) shifted.1 in
    (len' ∙ shifted.0, bytes')

-- `AESRound` of blocks is a block.
pub aes_round-IsBlock :
    (input rk : List ℕ) → IsBlock input → IsBlock rk → IsBlock (aes_round input rk)
aes_round-IsBlock input rk h k =
    rw (aes_round_lem input rk h k.0)
      (xor_block-IsBlock (mix_columns (shift_rows (sub_bytes input))) rk (mixed-IsBlock input h) k)
