-- ===== src/Crypto/CrtDrbg.antt =====
-- The random generator of src/crypto/crt_drbg.c on UNIX: CTR_DRBG over AES-128. `urandom` gives for the
-- number of a call what `open` and `read` give: `none` where the device cannot be opened, else the
-- bytes read, none of them where `read` fails. `unset` is what the array `additionalInput` of
-- `CTR_DRBG_Generate`, which the code never sets, holds in the first and in the second call of
-- `getRandomBytes`. The static variables are the fields of `Generator`; `size_t` has 8 bytes.
pub mod Counter
pub mod Output
pub mod Seeding
pub mod Answer
use remote_drone.Base.{
  ℕ, zero, suc, ◌+◌, ◌-◌, ◌*◌, ◌/◌, ◌%◌, ◌^◌, min, Bool, true, false, List, [], ◌∷◌, ◌++◌, Option,
  none, some, length, take, drop, set, replicate, ltb, ◌==◌, if◌then◌else◌, ◌||◌, memcpy,
}
use remote_drone.General.Endian.{le_bytes, to_little_endian, to_word_array}
use remote_drone.Crypto.ModArithmetic.{add_overflow}
use remote_drone.Crypto.CurveParams.{one_words}
use remote_drone.Crypto.Aegis.{xor_block}
use remote_drone.Crypto.Aes.{key_expansion, aes_ecb_encrypt}

-- BLOCKLEN and KEYLEN, SEEDLEN, DF_MAX_NB_IN_BYTES and DF_MAX_NB_OUT_BYTES.
abbrev pub block_len : ℕ
block_len = 16

abbrev pub seed_len : ℕ
seed_len = 32

abbrev pub df_max_nb_in_bytes : ℕ
df_max_nb_in_bytes = 128

abbrev pub df_max_nb_out_bytes : ℕ
df_max_nb_out_bytes = 64

-- RESEED_INTERVAL, `2e48`, a number of type `double`.
abbrev pub reseed_interval : ℕ
reseed_interval = 2 * 10 ^ 48

-- `workingState`.
pub record WorkingState : Type 0 where
  pub key : List ℕ
  pub v : List ℕ
  pub reseed_ctr : ℕ

-- The variables of the entropy source.
pub record EntropySource : Type 0 where
  pub entropy_buffer : List ℕ
  pub buffer_size : ℕ
  pub ind : ℕ
  pub reads : ℕ

-- All static variables.
pub record Generator : Type 0 where
  pub working_state : WorkingState
  pub instantiated : Bool
  pub source : EntropySource

-- `hasEntropyLeft`.
unfoldable pub has_entropy_left : EntropySource → Bool
has_entropy_left src = ltb src.ind src.buffer_size

-- The end of `getSeed`: what is copied, at most `size` bytes.
unfoldable pub copy_seed : ℕ → EntropySource → List ℕ × EntropySource
copy_seed size src =
    let nb_bytes_left = src.buffer_size - src.ind in
    let generated_length = if ltb nb_bytes_left size then nb_bytes_left else size in
    (
      take generated_length (drop src.ind src.entropy_buffer),
      record src { ind = src.ind + generated_length },
    )

-- `getSeed` where no entropy is left and the device gives this.
unfoldable pub refill : Option (List ℕ) → ℕ → EntropySource → List ℕ × EntropySource
refill none size src = ([], record src { ind = 0; reads = src.reads + 1 })
refill (some []) size src = ([], record src { ind = 0; buffer_size = 0; reads = src.reads + 1 })
refill (some (b ∷ bs)) size src = copy_seed size (record src {
  entropy_buffer = memcpy src.entropy_buffer 0 (b ∷ bs);
  buffer_size = length (b ∷ bs);
  ind = 0;
  reads = src.reads + 1;
})

-- `getSeed`: the bytes generated.
unfoldable pub get_seed : (ℕ → Option (List ℕ)) → ℕ → EntropySource → List ℕ × EntropySource
get_seed urandom size src =
    if has_entropy_left src then copy_seed size src else refill (urandom src.reads) size src

-- `S` of `Block_Cipher_df`, whose two lengths are written as they lie in memory.
unfoldable pub df_input : List ℕ → ℕ → ℕ → List ℕ
df_input input_string input_length nb_bytes_to_return =
    let s0 = replicate (block_len + df_max_nb_in_bytes + block_len) 0 in
    let s1 = memcpy s0 block_len (le_bytes 8 0 input_length) in
    let s2 = memcpy s1 (block_len + 4) (le_bytes 4 0 nb_bytes_to_return) in
    let s3 = memcpy s2 (block_len + 8) (take input_length input_string) in
    set s3 (block_len + input_length + 8) 0x80

-- A loop of `Block_Cipher_df` marked BCC, from index `i` on.
unfoldable pub bcc_loop : ℕ → ℕ → List ℕ → List ℕ → List ℕ → List ℕ
bcc_loop zero i keys s temp = temp
bcc_loop (suc rounds) i keys s temp =
    bcc_loop rounds (i + block_len) keys s
      (aes_ecb_encrypt keys (xor_block temp (take block_len (drop i s))))

-- The last loop: each block is the encryption of the one before.
unfoldable pub df_output : ℕ → List ℕ → List ℕ → List ℕ
df_output zero keys temp = []
df_output (suc rounds) keys temp =
    let block = aes_ecb_encrypt keys temp in block ++ df_output rounds keys block

abbrev pub df_key : List ℕ
df_key = 0 ∷ 1 ∷ 2 ∷ 3 ∷ 4 ∷ 5 ∷ 6 ∷ 7 ∷ 8 ∷ 9 ∷ 10 ∷ 11 ∷ 12 ∷ 13 ∷ 14 ∷ 15 ∷ []

-- `Block_Cipher_df`; `requested_bytes` is what the array held before.
unfoldable pub block_cipher_df : List ℕ → ℕ → ℕ → List ℕ → List ℕ
block_cipher_df input_string input_length nb_bytes_to_return requested_bytes =
    let s = df_input input_string input_length nb_bytes_to_return in
    let keys = key_expansion df_key in
    let rounds = (input_length + block_len + 9 + 15) / block_len in
    let first = bcc_loop rounds 0 keys s (replicate block_len 0) in
    let second = bcc_loop rounds 0 keys (set s 0 1) (replicate block_len 0) in
    if ltb df_max_nb_in_bytes input_length || ltb df_max_nb_out_bytes nb_bytes_to_return
    then requested_bytes
    else memcpy requested_bytes 0 (
        take nb_bytes_to_return
          (df_output ((nb_bytes_to_return + 15) / block_len) (key_expansion first) second))

-- `add_overflow` of `V` and `one`, in place.
unfoldable pub next_v : List ℕ → List ℕ
next_v v = to_little_endian (add_overflow (to_word_array v 4) one_words 4).0

-- `CTR_DRBG_Update`.
unfoldable pub ctr_drbg_update : List ℕ → WorkingState → WorkingState
ctr_drbg_update provided_data state =
    let keys = key_expansion state.key in
    let v_1 = next_v state.v in
    let v_2 = next_v v_1 in
    record state {
      key = xor_block (aes_ecb_encrypt keys v_1) (take block_len provided_data);
      v = xor_block (aes_ecb_encrypt keys v_2) (take block_len (drop block_len provided_data));
    }

-- `CTR_DRBG_Instantiate` and `CTR_DRBG_Reseed`; `unset` is what `seed_material` held before.
unfoldable pub ctr_drbg_instantiate : List ℕ → List ℕ → ℕ → WorkingState → WorkingState
ctr_drbg_instantiate unset input input_length state =
    let seed_material = block_cipher_df input input_length seed_len unset in
    let start : WorkingState = record state {
      key = replicate block_len 0;
      v = replicate block_len 0;
    } in
    record (ctr_drbg_update seed_material start) { reseed_ctr = 1 }

unfoldable pub ctr_drbg_reseed : List ℕ → List ℕ → ℕ → WorkingState → WorkingState
ctr_drbg_reseed unset input input_length state =
    let seed_material = block_cipher_df input input_length seed_len unset in
    record (ctr_drbg_update seed_material state) { reseed_ctr = 1 }

-- The loop of `CTR_DRBG_Generate` for the bytes from `i` on: the bytes, and `V` behind it.
unfoldable pub generate_loop : ℕ → ℕ → List ℕ → List ℕ → List ℕ × List ℕ
generate_loop zero nb_left keys v = ([], v)
generate_loop (suc rounds) nb_left keys v =
    let v' = next_v v in
    let (rest, v'') = generate_loop rounds (nb_left - block_len) keys v' in
    let nb = if ltb block_len nb_left then block_len else nb_left in
    (take nb (aes_ecb_encrypt keys v') ++ rest, v'')

-- `CTR_DRBG_Generate`: `none` where a reseed is required, else the bytes and the state.
unfoldable pub ctr_drbg_generate : List ℕ → ℕ → WorkingState → Option (List ℕ × WorkingState)
ctr_drbg_generate additional_input requested_nb_bytes state =
    let keys = key_expansion state.key in
    let (bytes, v) =
      generate_loop ((requested_nb_bytes + 15) / block_len) requested_nb_bytes keys state.v in
    let updated = ctr_drbg_update additional_input (record state { v = v }) in
    if ltb reseed_interval state.reseed_ctr
    then none
    else some (bytes, record updated { reseed_ctr = (state.reseed_ctr + 1) % 2 ^ 64 })

abbrev pub personalization_len : ℕ
personalization_len = 82

-- The bytes of the string that `seed` of `getRandomBytes` is set to.
abbrev pub personalization_string : List ℕ
personalization_string =
    84 ∷ 104 ∷ 105 ∷ 115 ∷ 32 ∷ 105 ∷ 115 ∷ 32 ∷ 97 ∷ 32 ∷ 108 ∷ 97 ∷ 114 ∷ 103 ∷ 101 ∷ 32 ∷ 112
    ∷ 101 ∷ 114 ∷ 115 ∷ 111 ∷ 110 ∷ 97 ∷ 108 ∷ 105 ∷ 122 ∷ 97 ∷ 116 ∷ 105 ∷ 111 ∷ 110 ∷ 32 ∷ 115
    ∷ 116 ∷ 114 ∷ 105 ∷ 110 ∷ 103 ∷ 32 ∷ 116 ∷ 104 ∷ 97 ∷ 116 ∷ 32 ∷ 119 ∷ 105 ∷ 108 ∷ 108 ∷ 32
    ∷ 112 ∷ 97 ∷ 114 ∷ 116 ∷ 105 ∷ 97 ∷ 108 ∷ 108 ∷ 121 ∷ 32 ∷ 98 ∷ 101 ∷ 32 ∷ 111 ∷ 118 ∷ 101 ∷ 114
    ∷ 119 ∷ 114 ∷ 105 ∷ 116 ∷ 116 ∷ 101 ∷ 110 ∷ 32 ∷ 110 ∷ 111 ∷ 114 ∷ 109 ∷ 97 ∷ 108 ∷ 108 ∷ 121
    ∷ []

-- The entropy buffer has 256 bytes, and each round takes one or more.
abbrev pub entropy_fuel : ℕ
entropy_fuel = 256

-- The bytes of `CTR_DRBG_Generate`, or what follows where it asks for a reseed.
unfoldable pub answered :
    Option (List ℕ × WorkingState)
    → Generator
    → Option (List ℕ) × Generator
    → Option (List ℕ) × Generator
answered none g other = other
answered (some (bytes, state)) g other = (some bytes, record g { working_state = state })

module _ (urandom : ℕ → Option (List ℕ)) (unset : ℕ → List ℕ) where
  -- One `getSeed` and one `CTR_DRBG_Reseed` with the bytes it gives; `seed` holds them in front.
  unfoldable pub reseed_once : List ℕ → Generator → List ℕ × Generator
  reseed_once seed g =
      let (bytes, src) = get_seed urandom personalization_len g.source in
      let seed' = memcpy seed 0 bytes in
      (
        seed',
        record g {
          working_state = ctr_drbg_reseed (unset 2) seed' (length bytes) g.working_state;
          source = src;
        },
      )

  -- `while (hasEntropyLeft())` around it.
  unfoldable pub reseed_loop : ℕ → List ℕ → Generator → List ℕ × Generator
  reseed_loop zero seed g = (seed, g)
  reseed_loop (suc fuel) seed g =
      let next = reseed_once seed g in
      let rest = reseed_loop fuel next.0 next.1 in
      if has_entropy_left g.source then rest else (seed, g)

  -- The first part of `getRandomBytes`.
  unfoldable pub ensure_instantiated : List ℕ → Generator → List ℕ × Generator
  ensure_instantiated seed g =
      let (bytes, src) = get_seed urandom personalization_len g.source in
      let seed' = memcpy seed 0 bytes in
      let fresh = record g {
        working_state = ctr_drbg_instantiate (unset 2) seed' personalization_len g.working_state;
        instantiated = true;
        source = src;
      } in
      let filled = reseed_loop entropy_fuel seed' fresh in
      if g.instantiated then (seed, g) else filled

  -- `getRandomBytes`: the bytes, unless `randomBytes` is left as it was.
  unfoldable pub get_random_bytes : ℕ → Generator → Option (List ℕ) × Generator
  get_random_bytes nb_random_bytes g =
      let (seed, ready) = ensure_instantiated personalization_string g in
      let reseeded = reseed_once seed ready in
      let again = reseed_loop entropy_fuel reseeded.0 reseeded.1 in
      answered (ctr_drbg_generate (unset 0) nb_random_bytes ready.working_state) ready (
        answered (ctr_drbg_generate (unset 1) nb_random_bytes again.1.working_state) again.1
          (none, again.1))
