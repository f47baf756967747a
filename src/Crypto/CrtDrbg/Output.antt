-- ===== src/Crypto/CrtDrbg/Output.antt =====
-- The bytes of `CTR_DRBG_Generate` in src/crypto/crt_drbg.c.
use native.Mathlib.Nat.{mod-lt}
use remote_drone.Base.{
  ℕ, zero, suc, ◌+◌, ◌-◌, ◌*◌, ◌/◌, ◌%◌, ◌^◌, ◌<◌, ◌≤◌, min, true, false, List, [], ◌∷◌, ◌++◌, some,
  ◌≡◌, refl, sym, ap, ◌∙◌, arith, length, take, drop, ltb, if◌then◌else◌, length-append,
  length-take, take-append, drop-append, take_whole, inl, inr, Bool-cases, drop-drop, append-nil,
}
use remote_drone.Crypto.Aes.{key_expansion, aes_ecb_encrypt}
use remote_drone.Crypto.Aes.Round.{IsBlock}
use remote_drone.Crypto.Aes.Cipher.{IsBytes, All-take, All-append, aes_ecb_encrypt-tables}
use remote_drone.Crypto.CrtDrbg.{
  WorkingState, next_v, generate_loop, ctr_drbg_generate, ctr_drbg_update, reseed_interval,
}
use remote_drone.Crypto.CrtDrbg.Seeding.{IsWorking, ctr_drbg_update-IsWorking}
use remote_drone.Crypto.CrtDrbg.Counter.{counter, nth_v, next_v_lem, nth_v_lem}

-- The encryption of the counter after `k` steps.
abbrev pub output_block : List ℕ → List ℕ → ℕ → List ℕ
output_block key v k = aes_ecb_encrypt (key_expansion key) (nth_v k v)

empty_of : (xs : List ℕ) → length xs ≡ 0 → xs ≡ []
empty_of [] e = refl
empty_of (x ∷ xs) e = absurd (omega arith)

module _ (key : List ℕ) (hkey : IsBlock key) where
  pub encrypted-IsBlock : (v : List ℕ) → IsBlock v → IsBlock (aes_ecb_encrypt (key_expansion key) v)
  encrypted-IsBlock v h = (aes_ecb_encrypt-tables key v hkey h).1

  -- All bytes asked for come, and `V` has moved on once for each block.
  pub generate_loop-IsBytes :
      (rounds nb : ℕ) (v : List ℕ)
      → IsBlock v
      → nb ≤ 16 * rounds
      → let (bytes, v') = generate_loop rounds nb (key_expansion key) v in
        IsBytes nb bytes × (v' ≡ nth_v rounds v)
  unfolding generate_loop nth_v
  generate_loop-IsBytes zero nb v h le = ((omega arith, tt), refl)
  generate_loop-IsBytes (suc rounds) nb v h le =
      let v' = next_v v in
      let next = (next_v_lem v h).0 in
      let (rest, same) = generate_loop-IsBytes rounds (nb - 16) v' next (omega arith) in
      let block = aes_ecb_encrypt (key_expansion key) v' in
      let n = if ltb 16 nb then 16 else nb in
      let one = encrypted-IsBlock v' next in
      let tail = (generate_loop rounds (nb - 16) (key_expansion key) v').0 in
      (
        (
          ground (arith, length-append (take n block) tail, length-take n block, one.0, rest.0),
          All-append (take n block) tail (All-take n block one.1) rest.1,
        ),
        same,
      )

  -- The block with number `k` of the bytes is the encryption of the counter after `k + 1` steps, cut
  -- off at the end.
  pub generate_loop-block :
      (rounds nb k : ℕ) (v : List ℕ)
      → IsBlock v
      → nb ≤ 16 * rounds
      → 16 * k < nb
      → take 16 (drop (16 * k) (generate_loop rounds nb (key_expansion key) v).0)
        ≡ take (min 16 (nb - 16 * k)) (output_block key v (suc k))
  unfolding generate_loop nth_v
  generate_loop-block zero nb k v h le lt = absurd (omega arith)
  generate_loop-block (suc rounds) nb zero v h le lt =
      let v' = next_v v in
      let next = (next_v_lem v h).0 in
      let block = aes_ecb_encrypt (key_expansion key) v' in
      let one = encrypted-IsBlock v' next in
      let (rest, _) = generate_loop-IsBytes rounds (nb - 16) v' next (omega arith) in
      let tail = (generate_loop rounds (nb - 16) (key_expansion key) v').0 in
      let whole : take 16 block ≡ block = take_whole 16 block (omega (arith, one.0)) in
      elim (Bool-cases (ltb 16 nb)) [
        | inl e ↦
            let size : min 16 (nb - 0) ≡ 16 = ground arith in
            rw (e, size, whole) (take-append 16 block tail (sym one.0))
        | inr e ↦
            let size : min 16 (nb - 0) ≡ nb = ground arith in
            let none_left : length tail ≡ 0 = ground (arith, rest.0) in
            let empty : tail ≡ [] = empty_of tail none_left in
            rw (e, size, empty)
              (ap (take 16) (append-nil (take nb block))
                ∙ take_whole 16 (take nb block) (ground (arith, length-take nb block)))
      ]
  generate_loop-block (suc rounds) nb (suc k) v h le lt =
      let v' = next_v v in
      let next = (next_v_lem v h).0 in
      let block = aes_ecb_encrypt (key_expansion key) v' in
      let one = encrypted-IsBlock v' next in
      let tail = (generate_loop rounds (nb - 16) (key_expansion key) v').0 in
      let whole : take 16 block ≡ block = take_whole 16 block (omega (arith, one.0)) in
      let more : ltb 16 nb ≡ true = ground arith in
      let ih = generate_loop-block rounds (nb - 16) k v' next (omega arith) (omega arith) in
      let size : min 16 (nb - 16 - 16 * k) ≡ min 16 (nb - 16 * suc k) = ap (min 16) (omega arith) in
      let moved : drop (16 * suc k) (block ++ tail) ≡ drop (16 * k) tail =
        sym (drop-drop (16 * k) 16 (16 * suc k) (block ++ tail) (omega arith))
        ∙ ap (drop (16 * k)) (drop-append 16 block tail (sym one.0)) in
      rw (more, whole)
        (ap (take 16) moved ∙ ih ∙ ap (λ (n : ℕ). take n (output_block key v' (suc k))) size)

-- `CTR_DRBG_Generate` never asks for a reseed: the counter of 64 bits does not reach 2e48. It gives
-- as many bytes as it is asked for and keeps the state in shape, and the block with number k of the
-- bytes is the encryption of a block whose number is that of `V` and k + 1 more, modulo 2 ^ 128.
pub ctr_drbg_generate_lem :
    (additional_input : List ℕ) (nb : ℕ) (state : WorkingState)
    → IsBytes 32 additional_input
    → IsWorking state
    → (bytes : List ℕ) × (next : WorkingState) × (ctr_drbg_generate additional_input nb state
        ≡ some (bytes, next))
      × (length bytes ≡ nb)
      × IsWorking next
      × ((k : ℕ)
          → 16 * k < nb
          → (v : List ℕ) × (counter v ≡ (counter state.v + suc k) % 2 ^ 128)
            × (take 16 (drop (16 * k) bytes)
                ≡ take (min 16 (nb - 16 * k)) (aes_ecb_encrypt (key_expansion state.key) v)))
unfolding ctr_drbg_generate
ctr_drbg_generate_lem extra nb state hx w =
    let hkey = w.key_block in
    let hv = w.v_block in
    let small = w.ctr_lt in
    let rounds = (nb + 15) / 16 in
    let enough : nb ≤ 16 * rounds = omega arith in
    let keys = key_expansion state.key in
    let bytes = (generate_loop rounds nb keys state.v).0 in
    let v' = (generate_loop rounds nb keys state.v).1 in
    let never : ltb reseed_interval state.reseed_ctr ≡ false = ground arith in
    let moved : WorkingState = record state { v = v' } in
    let updated = ctr_drbg_update extra moved in
    let (all, last) = generate_loop-IsBytes state.key hkey rounds nb state.v hv enough in
    let moved-IsWorking : IsWorking moved = record {
      key_block = hkey;
      v_block = rw last ((nth_v_lem rounds state.v hv).0);
      ctr_lt = small;
    } in
    let next = ctr_drbg_update-IsWorking extra moved hx moved-IsWorking in
    (
      bytes,
      record updated { reseed_ctr = (state.reseed_ctr + 1) % 2 ^ 64 },
      (rw never refl),
      all.0,
      record {
        key_block = next.key_block;
        v_block = next.v_block;
        ctr_lt = mod-lt _ (omega arith);
      },
      λ k lt. (
        nth_v (suc k) state.v,
        (nth_v_lem (suc k) state.v hv).1,
        generate_loop-block state.key hkey rounds nb k state.v hv enough lt,
      ),
    )
