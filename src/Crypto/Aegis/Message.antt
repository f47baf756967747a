-- ===== src/Crypto/Aegis/Message.antt =====
-- `aegisDecryptMessage` opens what `aegisEncryptMessage` sealed (src/crypto/aegis.c).
use remote_drone.Base.{
  take-append, drop-append, memcpy-behind, ℕ, zero, suc, ◌+◌, ◌-◌, ◌*◌, ◌%◌, ◌^◌, ◌≤◌, true, false,
  List, ◌++◌, length, take, drop, ◌==◌, ◌≡◌, refl, sym, ◌∙◌, arith, length-append, length-take,
  length-drop, append_assoc, Bool-cases, inl, inr,
}
use remote_drone.General.Endian.{le_bytes}
use remote_drone.General.Compare.{equal_arrays}
use remote_drone.General.Compare.Laws.{equal_arrays-prefix}
use remote_drone.Crypto.Aegis.{
  AegisState, full_rounds, xor_block, zero_padded, state_update_128, initialization_loop,
  initialization, associated_data, xcrypt_loop, xcrypt, finalization_loop, finalization,
  aegis_crypt, aegis_encrypt_message, aegis_decrypt_message,
}
use remote_drone.Crypto.Aegis.Header.{associated_data-agree}
use remote_drone.Crypto.Aegis.Inverse.{
  IsBlock, IsState, length-xor_block, length-zero_padded, state_update_128-IsState,
  xcrypt_loop_inverse,
}

module _ (aes_round : List ℕ → List ℕ → List ℕ)
    (aes_round-IsBlock : (a b : List ℕ) → length (aes_round a b) ≡ 16) where
  initialization_loop-IsState :
      (rounds : ℕ) (iv m : List ℕ) (s : AegisState)
      → IsBlock iv
      → IsBlock m
      → IsState (initialization_loop aes_round (suc rounds) iv m s)
  unfolding initialization_loop
  initialization_loop-IsState zero iv m s hi hm =
      state_update_128-IsState aes_round aes_round-IsBlock s m hm
  initialization_loop-IsState (suc rounds) iv m s hi hm =
      initialization_loop-IsState rounds iv (xor_block m iv) (state_update_128 aes_round s m) hi
        (omega (arith, length-xor_block m iv))

  started-IsState :
      (key iv ad : List ℕ) (adlen : ℕ)
      → IsBlock key
      → IsBlock iv
      → IsState (associated_data aes_round (initialization aes_round key iv) ad adlen)
  unfolding associated_data initialization
  started-IsState key iv ad adlen hk hi =
      let k = full_rounds adlen in
      elim (Bool-cases (adlen == 0)) [
        | inl z ↦ rw z (initialization_loop-IsState 9 iv key _ hi hk)
        | inr z ↦ rw z (
            state_update_128-IsState aes_round aes_round-IsBlock _ _ (
              length-zero_padded (take (adlen - 16 * k) ad)
                (omega (arith, length-take (adlen - 16 * k) ad))))
      ]

  -- The two directions of AEGIS, on separate arrays: the plaintext comes back, with the same tag.
  pub aegis_crypt_inverse :
      (key iv ad ad' : List ℕ) (adlen : ℕ) (input : List ℕ)
      → IsBlock key
      → IsBlock iv
      → take adlen ad ≡ take adlen ad'
      → let c = aegis_crypt aes_round key iv ad adlen input true in
        (length c.0 ≡ length input)
        × (aegis_crypt aes_round key iv ad' adlen c.0 false ≡ (input, c.1))
  unfolding aegis_crypt xcrypt
  aegis_crypt_inverse key iv ad ad' adlen input hk hi same =
      let s = initialization aes_round key iv in
      let started = associated_data aes_round s ad adlen in
      let x =
        xcrypt_loop_inverse aes_round aes_round-IsBlock (full_rounds (length input)) started input
          (started-IsState key iv ad adlen hk hi) (omega arith) (omega arith) in
      (x.0, rw (sym (associated_data-agree aes_round s ad ad' adlen same), x.0, x.1) refl)

  finalization_loop-IsState :
      (rounds : ℕ) (tmp : List ℕ) (s : AegisState)
      → IsBlock tmp
      → IsState (finalization_loop aes_round (suc rounds) tmp s)
  unfolding finalization_loop
  finalization_loop-IsState zero tmp s h =
      state_update_128-IsState aes_round aes_round-IsBlock s tmp h
  finalization_loop-IsState (suc rounds) tmp s h =
      finalization_loop-IsState rounds tmp (state_update_128 aes_round s tmp) h

  length-xor_full : (xs ys : List ℕ) → IsBlock xs → IsBlock ys → IsBlock (xor_block xs ys)
  length-xor_full xs ys hx hy = omega (arith, length-xor_block xs ys)

  length-finalization :
      (s : AegisState) (adlen msglen : ℕ)
      → IsBlock s.block_3
      → IsBlock (finalization aes_round s adlen msglen)
  unfolding finalization le_bytes
  length-finalization s adlen msglen h =
      let lengths : List ℕ =
        le_bytes 8 0 (adlen * 8 % 2 ^ 32) ++ le_bytes 8 0 (msglen * 8 % 2 ^ 32) in
      let tmp = xor_block lengths s.block_3 in
      let f = finalization_loop aes_round 7 tmp s in
      let hf : IsState f =
        finalization_loop-IsState 6 tmp s (length-xor_full lengths s.block_3 refl h) in
      let a = length-xor_full f.block_0 f.block_1 hf.0 hf.1 in
      let b = length-xor_full (xor_block f.block_0 f.block_1) f.block_2 a hf.2 in
      let c =
        length-xor_full (xor_block (xor_block f.block_0 f.block_1) f.block_2) f.block_3 b hf.3 in
      length-xor_full _ f.block_4 c hf.4

  xcrypt_loop-IsState :
      (rounds : ℕ) (s : AegisState) (input : List ℕ)
      → 16 * rounds ≤ length input
      → length input ≤ 16 * rounds + 16
      → IsState (xcrypt_loop aes_round rounds s input true).1
  unfolding xcrypt_loop
  xcrypt_loop-IsState zero s input lo hi =
      state_update_128-IsState aes_round aes_round-IsBlock s (zero_padded input)
        (length-zero_padded input (omega arith))
  xcrypt_loop-IsState (suc rounds) s input lo hi =
      xcrypt_loop-IsState rounds (state_update_128 aes_round s (take 16 input)) (drop 16 input)
        (omega (arith, length-drop 16 input)) (omega (arith, length-drop 16 input))

  pub length-tag :
      (key iv ad : List ℕ) (adlen : ℕ) (input : List ℕ)
      → IsBlock (aegis_crypt aes_round key iv ad adlen input true).1
  unfolding aegis_crypt xcrypt
  length-tag key iv ad adlen input =
      length-finalization _ adlen (length input)
        (xcrypt_loop-IsState (full_rounds (length input)) _ input (omega arith) (omega arith)).3

  -- A message array in its parts: a sealed one is the header, the ciphertext, the MAC, and the rest.
  pub aegis_encrypt_message_parts :
      (key iv front plain tail : List ℕ)
      → IsBlock key
      → IsBlock iv
      → 16 ≤ length tail
      → let message = front ++ (plain ++ tail) in
        let c = aegis_crypt aes_round key iv message (length front) plain true in
        aegis_encrypt_message aes_round key iv message (length front) (length plain)
        ≡ ((front ++ c.0) ++ c.1) ++ drop 16 tail
  unfolding aegis_encrypt_message
  aegis_encrypt_message_parts key iv front plain tail hk hi room =
      let message = front ++ (plain ++ tail) in
      let c = aegis_crypt aes_round key iv message (length front) plain true in
      let n = length front in
      let size = (aegis_crypt_inverse key iv message message n plain hk hi refl).0 in
      let tag = length-tag key iv message n plain in
      rw
        (
          drop-append n front (plain ++ tail) refl,
          take-append (length plain) plain tail refl,
          memcpy-behind front (plain ++ tail) c.0 n refl
              (omega (arith, length-append plain tail, size)),
          drop-append (length c.0) plain tail size,
          memcpy-behind (front ++ c.0) tail c.1 (n + length plain)
              (omega (arith, length-append front c.0, size)) (omega (arith, tag)),
          tag,
        )
        refl

  -- Opening the header, the ciphertext and the MAC, whatever lies behind them in the array.
  pub aegis_decrypt_message_parts :
      (key iv front plain ad junk : List ℕ)
      → IsBlock key
      → IsBlock iv
      → take (length front) ad ≡ front
      → let c = aegis_crypt aes_round key iv ad (length front) plain true in
        aegis_decrypt_message aes_round key iv
          (((front ++ c.0) ++ c.1) ++ junk)
          (length front)
          (length plain)
        ≡ ((front ++ plain) ++ (c.1 ++ junk), true)
  unfolding aegis_decrypt_message
  aegis_decrypt_message_parts key iv front plain ad junk hk hi header =
      let n = length front in
      let c = aegis_crypt aes_round key iv ad n plain true in
      let rest = c.1 ++ junk in
      let sealed = front ++ (c.0 ++ rest) in
      let regrouped : ((front ++ c.0) ++ c.1) ++ junk ≡ sealed =
        append_assoc (front ++ c.0) c.1 junk ∙ append_assoc front c.0 rest in
      let same : take n ad ≡ take n sealed =
        header ∙ sym (take-append n front (c.0 ++ rest) refl) in
      let inverse = aegis_crypt_inverse key iv ad sealed n plain hk hi same in
      let tag = length-tag key iv ad n plain in
      let right : equal_arrays c.1 (c.1 ++ junk) 16 ≡ true =
        rw tag at (equal_arrays-prefix c.1 junk) in
      rw
        (
          regrouped,
          drop-append n front (c.0 ++ rest) refl,
          take-append (length plain) c.0 rest (sym inverse.0),
          inverse.1,
          memcpy-behind front (c.0 ++ rest) plain n refl
              (omega (arith, length-append c.0 rest, inverse.0)),
          drop-append (length plain) c.0 rest (sym inverse.0),
          drop-append (n + length plain) (front ++ plain) rest (sym (length-append front plain)),
          right,
        )
        refl

  -- Whoever has the key and the IV opens what was sealed: `aegisDecryptMessage` accepts the MAC and
  -- restores header and plaintext, for an array with a header of any length, a plaintext of any
  -- length, and room for the MAC behind them, if an AES round writes a block of 16 bytes.
  pub aegis_decrypt_message-encrypt :
      (key iv front plain tail : List ℕ)
      → IsBlock key
      → IsBlock iv
      → 16 ≤ length tail
      → let sealed =
          aegis_encrypt_message aes_round key iv
            (front ++ (plain ++ tail))
            (length front)
            (length plain) in
        let opened = aegis_decrypt_message aes_round key iv sealed (length front) (length plain) in
        (opened.1 ≡ true) × (take (length front + length plain) opened.0 ≡ front ++ plain)
  aegis_decrypt_message-encrypt key iv front plain tail hk hi room =
      let message = front ++ (plain ++ tail) in
      let n = length front in
      let c = aegis_crypt aes_round key iv message n plain true in
      let opened =
        aegis_decrypt_message_parts key iv front plain message (drop 16 tail) hk hi
          (take-append n front (plain ++ tail) refl) in
      rw (aegis_encrypt_message_parts key iv front plain tail hk hi room, opened)
        (
          refl,
          take-append (n + length plain) (front ++ plain) (c.1 ++ drop 16 tail)
              (sym (length-append front plain)),
        )
