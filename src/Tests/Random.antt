-- ===== src/Tests/Random.antt =====
-- Tests of src/crypto/aes.c, with the example of FIPS 197, and of src/crypto/crt_drbg.c.
use remote_drone.Base.{
  ℕ, zero, suc, ◌+◌, ◌-◌, ◌*◌, ◌%◌, ◌^◌, ◌<◌, min, true, false, List, [], ◌∷◌, Option, none, some,
  ◌≡◌, refl, sym, arith, replicate, length, take, drop,
}
use remote_drone.Crypto.Aegis.{xor_block}
use remote_drone.Crypto.Aes.{
  aes_round, sub_bytes, shift_rows, rotate_first, rotate_second, rotate_third, mix_columns, xtime,
  key_word, key_loop, key_expansion, add_round_key, cipher_loop, aes_ecb_encrypt,
}
use remote_drone.Crypto.Aes.Round.{IsBlock, aes_round_lem}
use remote_drone.Crypto.CrtDrbg.{
  WorkingState, Generator, has_entropy_left, ctr_drbg_generate, reseed_loop, entropy_fuel,
  get_random_bytes,
}
use remote_drone.Crypto.CrtDrbg.Counter.{counter}
use remote_drone.Crypto.CrtDrbg.Output.{ctr_drbg_generate_lem}
use remote_drone.Crypto.CrtDrbg.Seeding.{IsWorking, IsSource, IsDevice, zeros-IsBytes}
use remote_drone.Crypto.CrtDrbg.Answer.{IsGenerator, reseed_loop-ends, get_random_bytes_lem}

abbrev key : List ℕ
key =
    0x00 ∷ 0x01 ∷ 0x02 ∷ 0x03 ∷ 0x04 ∷ 0x05 ∷ 0x06 ∷ 0x07 ∷ 0x08 ∷ 0x09 ∷ 0x0a ∷ 0x0b ∷ 0x0c ∷ 0x0d
    ∷ 0x0e ∷ 0x0f ∷ []

abbrev plain : List ℕ
plain =
    0x00 ∷ 0x11 ∷ 0x22 ∷ 0x33 ∷ 0x44 ∷ 0x55 ∷ 0x66 ∷ 0x77 ∷ 0x88 ∷ 0x99 ∷ 0xaa ∷ 0xbb ∷ 0xcc ∷ 0xdd
    ∷ 0xee ∷ 0xff ∷ []

-- The ciphertext of appendix C.1 of FIPS 197.
fips_197 :
    aes_ecb_encrypt (key_expansion key) plain
    ≡ 0x69 ∷ 0xc4 ∷ 0xe0 ∷ 0xd8 ∷ 0x6a ∷ 0x7b ∷ 0x04 ∷ 0x30 ∷ 0xd8 ∷ 0xcd ∷ 0xb7 ∷ 0x80 ∷ 0x70
      ∷ 0xb4 ∷ 0xc5 ∷ 0x5a ∷ []
unfolding aes_ecb_encrypt key_expansion key_loop key_word add_round_key cipher_loop sub_bytes
    shift_rows rotate_first rotate_second rotate_third mix_columns xtime xor_block
fips_197 = refl

key-IsBlock : IsBlock key
key-IsBlock = (refl, omega arith)

plain-IsBlock : IsBlock plain
plain-IsBlock = (refl, omega arith)

aes_round_lem_example :
    aes_round plain key ≡ xor_block (mix_columns (shift_rows (sub_bytes plain))) key
aes_round_lem_example = aes_round_lem plain key plain-IsBlock refl

abbrev seeded : WorkingState
seeded = record { key = key; v = replicate 16 0; reseed_ctr = 1 }

seeded-IsWorking : IsWorking seeded
seeded-IsWorking = record {
  key_block = key-IsBlock;
  v_block = zeros-IsBytes 16;
  ctr_lt = omega arith;
}

ctr_drbg_generate_lem_example :
    (bytes : List ℕ) × (next : WorkingState) × (ctr_drbg_generate (replicate 32 0) 20 seeded
      ≡ some (bytes, next))
    × (length bytes ≡ 20)
    × IsWorking next
    × ((k : ℕ)
        → 16 * k < 20
        → (v : List ℕ) × (counter v ≡ (counter seeded.v + suc k) % 2 ^ 128)
          × (take 16 (drop (16 * k) bytes)
              ≡ take (min 16 (20 - 16 * k)) (aes_ecb_encrypt (key_expansion seeded.key) v)))
ctr_drbg_generate_lem_example =
    ctr_drbg_generate_lem (replicate 32 0) 20 seeded (zeros-IsBytes 32) seeded-IsWorking

-- A device that gives three bytes in the first call and cannot be opened afterwards.
abbrev urandom : ℕ → Option (List ℕ)
urandom zero = some (7 ∷ 8 ∷ 9 ∷ [])
urandom (suc call) = none

urandom-IsDevice : IsDevice urandom
urandom-IsDevice zero bytes e =
    let same : 7 ∷ 8 ∷ 9 ∷ [] ≡ bytes = cc e in rw (sym same) (omega arith, omega arith)
urandom-IsDevice (suc call) bytes e = absurd (cc e)

abbrev unset : ℕ → List ℕ
unset k = replicate 32 0

abbrev fresh : Generator
fresh = record {
  working_state = record { key = []; v = []; reseed_ctr = 0 };
  instantiated = false;
  source = record { entropy_buffer = replicate 256 0; buffer_size = 256; ind = 256; reads = 0 };
}

fresh-IsSource : IsSource fresh.source
fresh-IsSource = record { buffer_bytes = (zeros-IsBytes 256).1; size_le = omega arith }

fresh-IsGenerator : IsGenerator fresh
fresh-IsGenerator = record { source_shape = fresh-IsSource; working_shape = λ e. absurd (cc e) }

reseed_loop-ends_example :
    has_entropy_left (reseed_loop urandom unset entropy_fuel (replicate 82 0) fresh).1.source
    ≡ false
reseed_loop-ends_example =
    reseed_loop-ends urandom unset urandom-IsDevice (λ k. zeros-IsBytes 32) (replicate 82 0) fresh
      fresh-IsSource

get_random_bytes_lem_example :
    let (answer, g') = get_random_bytes urandom unset 20 fresh in
    ((bytes : List ℕ) × (answer ≡ some bytes) × (length bytes ≡ 20))
    × IsGenerator g'
    × (g'.instantiated ≡ true)
get_random_bytes_lem_example =
    get_random_bytes_lem urandom unset urandom-IsDevice (λ k. zeros-IsBytes 32) 20 fresh
      fresh-IsGenerator
