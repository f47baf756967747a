-- ===== src/Crypto/Aegis.antt =====
-- AEGIS-128, src/crypto/aegis.c, over the AES round of the AES code it calls: `aes_round` is
-- `AESRound(out, in, rk)` as a function of `in` and `rk`. A byte array is a list of bytes. The key
-- and the IV, which the context points to, are arguments.
pub mod Inverse
pub mod Header
pub mod Message
use Prim.Native.Nat.{bit_and, bit_xor}
use remote_drone.Base.{
  memcpy, ℕ, zero, suc, ◌+◌, ◌-◌, ◌*◌, ◌/◌, ◌%◌, ◌^◌, Bool, true, false, List, [], ◌∷◌, ◌++◌,
  length, take, drop, replicate, ◌==◌, if◌then◌else◌,
}
use remote_drone.General.Compare.{equal_arrays}
use remote_drone.General.Endian.{le_bytes}

-- `XOR128`.
unfoldable pub xor_block : List ℕ → List ℕ → List ℕ
xor_block [] ys = []
xor_block (x ∷ xs) [] = []
xor_block (x ∷ xs) (y ∷ ys) = bit_xor x y ∷ xor_block xs ys

-- `AND128`.
unfoldable pub and_block : List ℕ → List ℕ → List ℕ
and_block [] ys = []
and_block (x ∷ xs) [] = []
and_block (x ∷ xs) (y ∷ ys) = bit_and x y ∷ and_block xs ys

-- The five blocks of `state`.
pub record AegisState : Type 0 where
  pub block_0 : List ℕ
  pub block_1 : List ℕ
  pub block_2 : List ℕ
  pub block_3 : List ℕ
  pub block_4 : List ℕ

-- The first and the second half of `constant`.
abbrev pub constant_low : List ℕ
constant_low =
    0x00 ∷ 0x01 ∷ 0x01 ∷ 0x02 ∷ 0x03 ∷ 0x05 ∷ 0x08 ∷ 0x0d ∷ 0x15 ∷ 0x22 ∷ 0x37 ∷ 0x59 ∷ 0x90 ∷ 0xe9
    ∷ 0x79 ∷ 0x62 ∷ []

abbrev pub constant_high : List ℕ
constant_high =
    0xdb ∷ 0x3d ∷ 0x18 ∷ 0x55 ∷ 0x6d ∷ 0xc2 ∷ 0x2f ∷ 0xf1 ∷ 0x20 ∷ 0x11 ∷ 0x31 ∷ 0x42 ∷ 0x73 ∷ 0xb5
    ∷ 0x28 ∷ 0xdd ∷ []

-- A block that starts with the bytes given and is zero behind them.
abbrev pub zero_padded : List ℕ → List ℕ
zero_padded bytes = bytes ++ replicate (16 - length bytes) 0

-- How often a loop `for (i = 0; i + 16 < length; i += 16)` runs.
abbrev pub full_rounds : ℕ → ℕ
full_rounds length = (length - 1) / 16

module _ (aes_round : List ℕ → List ℕ → List ℕ) where
  -- `stateUpdate128`.
  unfoldable pub state_update_128 : AegisState → List ℕ → AegisState
  state_update_128 s message = record {
    block_0 = xor_block (aes_round s.block_4 s.block_0) message;
    block_1 = aes_round s.block_0 s.block_1;
    block_2 = aes_round s.block_1 s.block_2;
    block_3 = aes_round s.block_2 s.block_3;
    block_4 = aes_round s.block_3 s.block_4;
  }

  -- The loop of `initialization`, with the block `m` that it keeps.
  unfoldable pub initialization_loop : ℕ → List ℕ → List ℕ → AegisState → AegisState
  initialization_loop zero iv m s = s
  initialization_loop (suc rounds) iv m s =
      initialization_loop rounds iv (xor_block m iv) (state_update_128 s m)

  -- `initialization`.
  unfoldable pub initialization : List ℕ → List ℕ → AegisState
  initialization key iv = initialization_loop 10 iv key (record {
    block_0 = xor_block key iv;
    block_1 = constant_high;
    block_2 = constant_low;
    block_3 = xor_block key constant_low;
    block_4 = xor_block key constant_high;
  })

  -- The loop of `associatedData`; the list is what lies from `ad + i` on.
  unfoldable pub associated_loop : ℕ → List ℕ → AegisState → AegisState
  associated_loop zero ad s = s
  associated_loop (suc rounds) ad s =
      associated_loop rounds (drop 16 ad) (state_update_128 s (take 16 ad))

  -- `associatedData`. The last block is copied from `ad`, not from `ad + i`.
  unfoldable pub associated_data : AegisState → List ℕ → ℕ → AegisState
  associated_data s ad adlen =
      let rounds = full_rounds adlen in
      let last = zero_padded (take (adlen - 16 * rounds) ad) in
      if adlen == 0 then s else state_update_128 (associated_loop rounds ad s) last

  -- The block that `xcrypt` adds to its input.
  unfoldable pub keystream : AegisState → List ℕ
  keystream s = xor_block (xor_block (and_block s.block_2 s.block_3) s.block_4) s.block_1

  -- `xcrypt`: `rounds` rounds of the loop, then the last block. The output, and the state.
  unfoldable pub xcrypt_loop : ℕ → AegisState → List ℕ → Bool → List ℕ × AegisState
  xcrypt_loop zero s input encrypt =
      let padded = zero_padded input in
      let outp = xor_block (keystream s) padded in
      let masked = zero_padded (take (length input) outp) in
      (take (length input) outp, state_update_128 s (if encrypt then padded else masked))
  xcrypt_loop (suc rounds) s input encrypt =
      let input_block = take 16 input in
      let output = xor_block (keystream s) input_block in
      let rest =
        xcrypt_loop rounds (state_update_128 s (if encrypt then input_block else output))
          (drop 16 input) encrypt in
      (output ++ rest.0, rest.1)

  unfoldable pub xcrypt : AegisState → List ℕ → Bool → List ℕ × AegisState
  xcrypt s input encrypt = xcrypt_loop (full_rounds (length input)) s input encrypt

  -- The loop of `finalization`.
  unfoldable pub finalization_loop : ℕ → List ℕ → AegisState → AegisState
  finalization_loop zero tmp s = s
  finalization_loop (suc rounds) tmp s = finalization_loop rounds tmp (state_update_128 s tmp)

  -- `finalization`: the tag.
  unfoldable pub finalization : AegisState → ℕ → ℕ → List ℕ
  finalization s adlen msglen =
      let lengths = le_bytes 8 0 (adlen * 8 % 2 ^ 32) ++ le_bytes 8 0 (msglen * 8 % 2 ^ 32) in
      let f = finalization_loop 7 (xor_block lengths s.block_3) s in
      xor_block (xor_block (xor_block (xor_block f.block_0 f.block_1) f.block_2) f.block_3)
        f.block_4

  -- `aegisEncrypt` (for `encrypt`) and `aegisDecrypt`: the output and the tag.
  unfoldable pub aegis_crypt : List ℕ → List ℕ → List ℕ → ℕ → List ℕ → Bool → List ℕ × List ℕ
  aegis_crypt key iv ad adlen input encrypt =
      let started = associated_data (initialization key iv) ad adlen in
      let crypted = xcrypt started input encrypt in
      (crypted.0, finalization crypted.1 adlen (length input))

  -- `aegisEncryptMessage`: the message array.
  unfoldable pub aegis_encrypt_message : List ℕ → List ℕ → List ℕ → ℕ → ℕ → List ℕ
  aegis_encrypt_message key iv message ad_len plain_len =
      let crypted = aegis_crypt key iv message ad_len (take plain_len (drop ad_len message)) true in
      memcpy (memcpy message ad_len crypted.0) (ad_len + plain_len) crypted.1

  -- `aegisDecryptMessage`: the message array, and whether the MAC was right.
  unfoldable pub aegis_decrypt_message : List ℕ → List ℕ → List ℕ → ℕ → ℕ → List ℕ × Bool
  aegis_decrypt_message key iv message ad_len cipher_len =
      let crypted =
        aegis_crypt key iv message ad_len (take cipher_len (drop ad_len message)) false in
      let plain = memcpy message ad_len crypted.0 in
      (plain, equal_arrays crypted.1 (drop (ad_len + cipher_len) plain) 16)
