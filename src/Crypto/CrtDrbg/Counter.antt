-- ===== src/Crypto/CrtDrbg/Counter.antt =====
-- The counter `V` of src/crypto/crt_drbg.c.
use native.Mathlib.Nat.{mod-lt}
use remote_drone.Base.{
  ℕ, zero, suc, ◌+◌, ◌*◌, ◌%◌, ◌^◌, ◌<◌, List, [], ◌∷◌, ◌≡◌, refl, ap, ◌∙◌, arith, length, take,
}
use remote_drone.General.Endian.{le_bytes, byte_at, to_little_endian, to_word_array}
use remote_drone.General.Endian.RoundTrip.{
  IsByte, to_word_array-to_little_endian, to_word_array-All,
}
use remote_drone.Crypto.ModArithmetic.{word_mod, add_loop, add_overflow}
use remote_drone.Crypto.ModArithmetic.Value.{value, value-lt, take_all}
use remote_drone.Crypto.ModArithmetic.AddSub.{add_loop_exact}
use remote_drone.Crypto.CurveParams.{one_words}
use remote_drone.Crypto.Aes.Round.{IsBlock}
use remote_drone.Crypto.Aes.Cipher.{IsBytes}
use remote_drone.Crypto.CrtDrbg.{next_v}

-- The number that `V` is as an array of four words.
abbrev pub counter : List ℕ → ℕ
counter v = value (to_word_array v 4)

to_little_endian-IsBytes : (ws : List ℕ) → IsBytes (4 * length ws) (to_little_endian ws)
unfolding to_little_endian le_bytes
to_little_endian-IsBytes [] = (refl, tt)
to_little_endian-IsBytes (w ∷ ws) =
    let (len, bytes) = to_little_endian-IsBytes ws in
    let b : (k : ℕ) → IsByte (byte_at w k) = λ k. mod-lt _ (omega arith) in
    (omega (arith, len), (b 0, (b 1, (b 2, (b 3, bytes)))))

one_low : value (take 4 one_words) ≡ 1
unfolding value
one_low = refl

counter-lt : (v : List ℕ) → IsBlock v → counter v < 2 ^ 128
counter-lt v h =
    let (len, words) = to_word_array-All 4 v h.0 h.1 in
    rw len at (value-lt (to_word_array v 4) words)

-- `V` goes up by one modulo 2 ^ 128, and stays 16 bytes.
pub next_v_lem :
    (v : List ℕ) → IsBlock v → IsBlock (next_v v) × (counter (next_v v) ≡ (counter v + 1) % 2 ^ 128)
unfolding next_v add_overflow
next_v_lem v h =
    let ws = to_word_array v 4 in
    let (len, words) = to_word_array-All 4 v h.0 h.1 in
    let (sum, array, bit) =
      add_loop_exact 4 0 ws one_words (omega arith) (omega (arith, len)) (omega arith) words
        (omega arith) in
    let r = (add_loop 4 0 ws one_words).0 in
    let whole : take 4 ws ≡ ws = take_all 4 ws len in
    let below : value r < word_mod ^ 4 = rw array.0 at (value-lt r array.1) in
    let (len', bytes) = to_little_endian-IsBytes r in
    let back : to_word_array (to_little_endian r) 4 ≡ r =
      rw array.0 at (to_word_array-to_little_endian r array.1) in
    let exact : value r + word_mod ^ 4 * (add_loop 4 0 ws one_words).1 ≡ value ws + 1 =
      omega (arith, one_low, rw whole at sum) in
    ((omega (arith, len', array.0), bytes), ap value back ∙ omega (arith, exact, below))

-- `V` after `k` steps.
unfoldable pub nth_v : ℕ → List ℕ → List ℕ
nth_v zero v = v
nth_v (suc k) v = nth_v k (next_v v)

mod_shift : (c k : ℕ) → ((c + 1) % 2 ^ 128 + k) % 2 ^ 128 ≡ (c + suc k) % 2 ^ 128
mod_shift c k = omega arith

pub nth_v_lem :
    (k : ℕ) (v : List ℕ)
    → IsBlock v
    → IsBlock (nth_v k v) × (counter (nth_v k v) ≡ (counter v + k) % 2 ^ 128)
unfolding nth_v
nth_v_lem zero v h = (h, omega (arith, counter-lt v h))
nth_v_lem (suc k) v h =
    let (block, up) = next_v_lem v h in
    let (block', up') = nth_v_lem k (next_v v) block in
    (block', up' ∙ rw up (mod_shift (counter v) k))
