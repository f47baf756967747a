-- ===== src/Crypto/CrtDrbg/Seeding.antt =====
-- Seeds and updates in src/crypto/crt_drbg.c keep the working state and the entropy source in shape.
use native.Mathlib.Nat.{mod-lt}
use remote_drone.Base.{
  ℕ, zero, suc, ◌+◌, ◌-◌, ◌*◌, ◌/◌, ◌^◌, ◌<◌, ◌≤◌, true, List, [], ◌∷◌, Option, none, some, ◌≡◌,
  refl, ◌∙◌, arith, length, take, drop, set, replicate, All, ltb, length-set, inl, inr, Bool-cases,
  memcpy, length-memcpy,
}
use remote_drone.General.Endian.{le_bytes}
use remote_drone.General.Endian.RoundTrip.{IsByte}
use remote_drone.Crypto.Aegis.{xor_block}
use remote_drone.Crypto.Aes.{key_expansion, aes_ecb_encrypt}
use remote_drone.Crypto.Aes.Round.{IsBlock}
use remote_drone.Crypto.Aes.Blocks.{xor_block-IsBlock}
use remote_drone.Crypto.Aes.Cipher.{
  IsBytes, All-take, All-drop, All-append, part-IsBytes, aes_ecb_encrypt-tables,
}
use remote_drone.Crypto.CrtDrbg.{
  WorkingState, EntropySource, has_entropy_left, copy_seed, refill, get_seed, df_input, bcc_loop,
  df_output, df_key, block_cipher_df, ctr_drbg_update, ctr_drbg_instantiate, ctr_drbg_reseed,
  next_v,
}
use remote_drone.Crypto.CrtDrbg.Counter.{next_v_lem}

pub All-memcpy :
    (dst : List ℕ) (i : ℕ) (src : List ℕ)
    → All IsByte dst
    → All IsByte src
    → All IsByte (memcpy dst i src)
unfolding memcpy
All-memcpy [] i src a b = tt
All-memcpy (d ∷ dst) zero [] a b = a
All-memcpy (d ∷ dst) zero (s ∷ src) a b = (b.0, All-memcpy dst zero src a.1 b.1)
All-memcpy (d ∷ dst) (suc i) src a b = (a.0, All-memcpy dst i src a.1 b)

All-set : (xs : List ℕ) (i v : ℕ) → All IsByte xs → IsByte v → All IsByte (set xs i v)
All-set [] i v a h = tt
All-set (x ∷ xs) zero v a h = (h, a.1)
All-set (x ∷ xs) (suc i) v a h = (a.0, All-set xs i v a.1 h)

pub zeros-IsBytes : (n : ℕ) → IsBytes n (replicate n 0)
zeros-IsBytes zero = (refl, tt)
zeros-IsBytes (suc n) =
    let (len, bytes) = zeros-IsBytes n in (omega (arith, len), (omega arith, bytes))

le_bytes-All : (n k w : ℕ) → All IsByte (le_bytes n k w)
unfolding le_bytes
le_bytes-All zero k w = tt
le_bytes-All (suc n) k w = (mod-lt _ (omega arith), le_bytes-All n (k + 1) w)

df_input-IsBytes :
    (input : List ℕ) (len nb : ℕ) → All IsByte input → IsBytes 160 (df_input input len nb)
unfolding df_input
df_input-IsBytes input len nb a =
    let (zeros_len, zeros) = zeros-IsBytes 160 in
    let s0 : List ℕ = replicate 160 0 in
    let s1 = memcpy s0 16 (le_bytes 8 0 len) in
    let s2 = memcpy s1 20 (le_bytes 4 0 nb) in
    let s3 = memcpy s2 24 (take len input) in
    (
      length-set s3 (16 + len + 8) 0x80
          ∙ length-memcpy s2 24 (take len input)
          ∙ length-memcpy s1 20 (le_bytes 4 0 nb)
          ∙ length-memcpy s0 16 (le_bytes 8 0 len)
          ∙ zeros_len,
      All-set s3 (16 + len + 8) 0x80
          (All-memcpy s2 24 (take len input)
            (All-memcpy s1 20 (le_bytes 4 0 nb)
              (All-memcpy s0 16 (le_bytes 8 0 len) zeros (le_bytes-All 8 0 len))
              (le_bytes-All 4 0 nb))
            (All-take len input a))
          (omega arith),
    )

bcc_loop-IsBlock :
    (rounds i : ℕ) (key s temp : List ℕ)
    → IsBlock key
    → IsBytes 160 s
    → i + 16 * rounds ≤ 160
    → IsBlock temp
    → IsBlock (bcc_loop rounds i (key_expansion key) s temp)
unfolding bcc_loop
bcc_loop-IsBlock zero i key s temp hk hs le h = h
bcc_loop-IsBlock (suc rounds) i key s temp hk hs le h =
    let part = part-IsBytes i 16 160 s hs (omega arith) in
    let mixed = xor_block-IsBlock temp (take 16 (drop i s)) h part in
    bcc_loop-IsBlock rounds (i + 16) key s _ hk hs (omega arith)
      (aes_ecb_encrypt-tables key (xor_block temp (take 16 (drop i s))) hk mixed).1

df_output-All :
    (rounds : ℕ) (key temp : List ℕ)
    → IsBlock key
    → IsBlock temp
    → All IsByte (df_output rounds (key_expansion key) temp)
unfolding df_output
df_output-All zero key temp hk h = tt
df_output-All (suc rounds) key temp hk h =
    let block = aes_ecb_encrypt (key_expansion key) temp in
    let one = (aes_ecb_encrypt-tables key temp hk h).1 in
    All-append block (df_output rounds (key_expansion key) block) one.1
      (df_output-All rounds key block hk one)

df_key-IsBlock : IsBlock df_key
df_key-IsBlock = (refl, omega arith)

-- `Block_Cipher_df` leaves as many bytes as there were, and bytes.
block_cipher_df-IsBytes :
    (input : List ℕ) (len nb n : ℕ) (before : List ℕ)
    → All IsByte input
    → IsBytes n before
    → IsBytes n (block_cipher_df input len nb before)
unfolding block_cipher_df
block_cipher_df-IsBytes input len nb n before a h = elim (Bool-cases (ltb 128 len)) [
  | inl e ↦ rw e h
  | inr e ↦ elim (Bool-cases (ltb 64 nb)) [
    | inl e' ↦ rw (e, e') h
    | inr e' ↦
        let s = df_input input len nb in
        let hs = df_input-IsBytes input len nb a in
        let hs' : IsBytes 160 (set s 0 1) =
          (length-set s 0 1 ∙ hs.0, All-set s 0 1 hs.1 (omega arith)) in
        let rounds = (len + 16 + 9 + 15) / 16 in
        let fits : 0 + 16 * rounds ≤ 160 = ground arith in
        let zeros = zeros-IsBytes 16 in
        let first = bcc_loop rounds 0 (key_expansion df_key) s (replicate 16 0) in
        let second = bcc_loop rounds 0 (key_expansion df_key) (set s 0 1) (replicate 16 0) in
        let hf = bcc_loop-IsBlock rounds 0 df_key s (replicate 16 0) df_key-IsBlock hs fits zeros in
        let hg =
          bcc_loop-IsBlock rounds 0 df_key (set s 0 1) (replicate 16 0) df_key-IsBlock hs' fits
            zeros in
        let out = df_output ((nb + 15) / 16) (key_expansion first) second in
        let written : IsBytes n (memcpy before 0 (take nb out)) = (
          length-memcpy before 0 (take nb out) ∙ h.0,
          All-memcpy before 0 (take nb out) h.1
              (All-take nb out (df_output-All ((nb + 15) / 16) first second hf hg)),
        ) in
        rw (e, e') written
  ]
]

-- A key and a counter of 16 bytes, and a counter of 64 bits.
pub record IsWorking (s : WorkingState) : Type 0 where
  pub key_block : IsBlock s.key
  pub v_block : IsBlock s.v
  pub ctr_lt : s.reseed_ctr < 2 ^ 64

pub ctr_drbg_update-IsWorking :
    (provided : List ℕ) (s : WorkingState)
    → IsBytes 32 provided
    → IsWorking s
    → IsWorking (ctr_drbg_update provided s)
unfolding ctr_drbg_update
ctr_drbg_update-IsWorking provided s h w =
    let v_1 = (next_v_lem s.v w.v_block).0 in
    let v_2 = (next_v_lem (next_v s.v) v_1).0 in
    let e_1 = (aes_ecb_encrypt-tables s.key (next_v s.v) w.key_block v_1).1 in
    let e_2 = (aes_ecb_encrypt-tables s.key (next_v (next_v s.v)) w.key_block v_2).1 in
    record {
      key_block =
          xor_block-IsBlock _ (take 16 provided) e_1
            (part-IsBytes 0 16 32 provided h (omega arith));
      v_block =
          xor_block-IsBlock _ (take 16 (drop 16 provided)) e_2
            (part-IsBytes 16 16 32 provided h (omega arith));
      ctr_lt = w.ctr_lt;
    }

pub ctr_drbg_reseed-IsWorking :
    (unset input : List ℕ) (len : ℕ) (s : WorkingState)
    → IsBytes 32 unset
    → All IsByte input
    → IsWorking s
    → IsWorking (ctr_drbg_reseed unset input len s)
unfolding ctr_drbg_reseed
ctr_drbg_reseed-IsWorking unset input len s h a w =
    let seed = block_cipher_df-IsBytes input len 32 32 unset a h in
    let next = ctr_drbg_update-IsWorking (block_cipher_df input len 32 unset) s seed w in
    record { key_block = next.key_block; v_block = next.v_block; ctr_lt = omega arith }

pub ctr_drbg_instantiate-IsWorking :
    (unset input : List ℕ) (len : ℕ) (s : WorkingState)
    → IsBytes 32 unset
    → All IsByte input
    → IsWorking (ctr_drbg_instantiate unset input len s)
unfolding ctr_drbg_instantiate ctr_drbg_update
ctr_drbg_instantiate-IsWorking unset input len s h a =
    let seed = block_cipher_df-IsBytes input len 32 32 unset a h in
    let start : WorkingState = record {
      key = replicate 16 0;
      v = replicate 16 0;
      reseed_ctr = 1;
    } in
    let zeros = zeros-IsBytes 16 in
    let start-IsWorking : IsWorking start = record {
      key_block = zeros;
      v_block = zeros;
      ctr_lt = omega arith;
    } in
    let next =
      ctr_drbg_update-IsWorking (block_cipher_df input len 32 unset) start seed start-IsWorking in
    record { key_block = next.key_block; v_block = next.v_block; ctr_lt = omega arith }

-- A buffer of bytes with at most 256 of them filled.
pub record IsSource (src : EntropySource) : Type 0 where
  pub buffer_bytes : All IsByte src.entropy_buffer
  pub size_le : src.buffer_size ≤ 256

-- The device gives at most the 256 bytes that are read.
abbrev pub IsDevice : (ℕ → Option (List ℕ)) → Type 0
IsDevice urandom =
    (call : ℕ) (bytes : List ℕ)
    → urandom call ≡ some bytes
    → (length bytes ≤ 256) × All IsByte bytes

copy_seed-IsSource :
    (size : ℕ) (src : EntropySource)
    → IsSource src
    → let (bytes, src') = copy_seed size src in All IsByte bytes × IsSource src'
unfolding copy_seed
copy_seed-IsSource size src i = (
  All-take _ (drop src.ind src.entropy_buffer) (All-drop src.ind src.entropy_buffer i.buffer_bytes),
  record { buffer_bytes = i.buffer_bytes; size_le = i.size_le },
)

refill-IsSource :
    (read : Option (List ℕ)) (size : ℕ) (src : EntropySource)
    → IsSource src
    → ((bytes : List ℕ) → read ≡ some bytes → (length bytes ≤ 256) × All IsByte bytes)
    → let (bytes, src') = refill read size src in All IsByte bytes × IsSource src'
unfolding refill
refill-IsSource none size src i d =
    (tt, record { buffer_bytes = i.buffer_bytes; size_le = i.size_le })
refill-IsSource (some []) size src i d =
    (tt, record { buffer_bytes = i.buffer_bytes; size_le = omega arith })
refill-IsSource (some (b ∷ bs)) size src i d =
    let (len, bytes) = d (b ∷ bs) refl in
    copy_seed-IsSource size _ (record {
      buffer_bytes = All-memcpy src.entropy_buffer 0 (b ∷ bs) i.buffer_bytes bytes;
      size_le = len;
    })

pub get_seed-IsSource :
    (urandom : ℕ → Option (List ℕ)) (size : ℕ) (src : EntropySource)
    → IsDevice urandom
    → IsSource src
    → let (bytes, src') = get_seed urandom size src in All IsByte bytes × IsSource src'
unfolding get_seed
get_seed-IsSource urandom size src d i = elim (Bool-cases (has_entropy_left src)) [
  | inl e ↦ rw e (copy_seed-IsSource size src i)
  | inr e ↦ rw e (refill-IsSource (urandom src.reads) size src i (d src.reads))
]

-- Where there is entropy left, what is left gets less.
pub get_seed-less :
    (urandom : ℕ → Option (List ℕ)) (size : ℕ) (src : EntropySource)
    → 0 < size
    → has_entropy_left src ≡ true
    → let src' = (get_seed urandom size src).1 in
      src'.buffer_size - src'.ind < src.buffer_size - src.ind
unfolding get_seed has_entropy_left copy_seed
get_seed-less urandom size src pos e = rw e (ground arith)
