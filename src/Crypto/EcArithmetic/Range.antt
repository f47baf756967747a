-- ===== src/Crypto/EcArithmetic/Range.antt =====
-- What `ECInValidRange` of src/crypto/ec_arithmetic.c accepts.
use remote_drone.Base.{ℕ, ◌+◌, ◌*◌, ◌^◌, ◌<◌, true, List, ◌≡◌, refl, arith, ◌↔◌, get_or, ltb, take}
use remote_drone.Crypto.ModArithmetic.{word_mod, array_size}
use remote_drone.Crypto.ModArithmetic.Value.{
  IsArray, value, value-injective, value-take-suc, value-take-lt, take_all, get_or-IsWord,
}
use remote_drone.Crypto.Montgomery.Domain.{equal_words_iff}
use remote_drone.Crypto.CurveParams.{zero_words}
use remote_drone.Crypto.EcArithmetic.{range_loop, ec_in_valid_range, is_zero_words}
use remote_drone.Crypto.EcArithmetic.Field.{zero_words-Residue}

-- The numbers whose highest word is below that of the order.
abbrev pub range_end : ℕ
range_end = 0xFFFFFFFF * 2 ^ 224

range_loop_lem :
    (ws : List ℕ) → IsArray array_size ws → range_loop array_size ws ≡ ltb (value ws) range_end
unfolding range_loop
range_loop_lem ws h =
    let low : value (take 7 ws) < word_mod ^ 7 = value-take-lt 7 ws (omega arith) h.1 in
    let top = get_or-IsWord 7 ws h.1 in
    let whole : value ws ≡ value (take 7 ws) + word_mod ^ 7 * get_or ws 7 0 =
      rw (take_all 8 ws h.0) at (value-take-suc 7 ws (omega arith)) in
    ground (arith, whole)

-- The first test of `ECInValidRange`.
pub zero_value : (ws : List ℕ) → IsArray array_size ws → (is_zero_words ws ≡ true) ↔ (value ws ≡ 0)
unfolding value
zero_value ws h =
    let iff = equal_words_iff ws zero_words h zero_words-Residue.array in
    (
      λ e. rw (iff.0 e) refl,
      λ e. iff.1 (value-injective ws zero_words h.0 h.1 zero_words-Residue.array.1 e),
    )

-- `ECInValidRange` accepts exactly the numbers from 1 whose highest word is below that of the order.
pub ec_in_valid_range_iff :
    (ws : List ℕ)
    → IsArray array_size ws
    → (ec_in_valid_range ws ≡ true) ↔ (0 < value ws) × (value ws < range_end)
unfolding ec_in_valid_range
ec_in_valid_range_iff ws h = ground (arith, range_loop_lem ws h, zero_value ws h)
