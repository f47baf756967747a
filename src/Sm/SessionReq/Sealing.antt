-- ===== src/Sm/SessionReq/Sealing.antt =====
-- What `MESS_encrypt_handlerReq` of src/sm/session_req_sm.c makes of the cached message.
use remote_drone.Base.{
  ℕ, ◌+◌, ◌-◌, ◌≤◌, true, List, ◌++◌, length, take, drop, take-append, drop-append, length-append,
  ◌≡◌, refl, sym, arith,
}
use remote_drone.Crypto.Aegis.{aegis_crypt}
use remote_drone.Crypto.Aegis.Inverse.{IsBlock}
use remote_drone.Crypto.Aegis.Message.{aegis_encrypt_message_parts, aegis_crypt_inverse, length-tag}
use remote_drone.Sm.Encode.Layout.{header, length-header, encode_message-header}
use remote_drone.Sm.SeqNb.{add_one_seq_nb}
use remote_drone.Sm.SessionInfo.{MessCtx}
use remote_drone.Sm.SessionReq.{mess_encrypt_handler_req}
use remote_drone.Sm.World.{Environment, World}

module _ (env : Environment)
    (aes_round-IsBlock : (a b : List ℕ) → length (env.aes_round a b) ≡ 16) where
  -- What `MESS_encrypt_handlerReq` leaves in the cached message.
  encrypt-parts :
      (u : World) (cu : MessCtx) (space payload tail : List ℕ)
      → IsBlock u.session.session_key
      → IsBlock (env.random_bytes u.randoms_read 16)
      → length u.session.target_id ≡ 8
      → length space ≡ 32
      → 16 ≤ length tail
      → cu.cached_message ≡ space ++ (payload ++ tail)
      → cu.send_length ≡ 32 + length payload + 16
      → let iv = env.random_bytes u.randoms_read 16 in
        let front =
          header cu.send_type cu.send_length u.session.target_id
            (add_one_seq_nb cu.sequence_nb)
            iv in
        let c =
          aegis_crypt env.aes_round u.session.session_key iv
            (front ++ (payload ++ tail))
            32
            payload
            true in
        (mess_encrypt_handler_req env u cu).ctx.cached_message
        ≡ ((front ++ c.0) ++ c.1) ++ drop 16 tail
  unfolding mess_encrypt_handler_req
  encrypt-parts u cu space payload tail hk hi ht hs room ec el =
      let iv = env.random_bytes u.randoms_read 16 in
      let seq_nb = add_one_seq_nb cu.sequence_nb in
      let target_id = u.session.target_id in
      let front = header cu.send_type cu.send_length target_id seq_nb iv in
      let hf : length front ≡ 32 =
        length-header cu.send_type cu.send_length target_id seq_nb iv ht hi in
      let encoded =
        encode_message-header (space ++ (payload ++ tail)) cu.send_type cu.send_length target_id
          seq_nb iv (omega (arith, length-append space (payload ++ tail))) ht hi in
      let behind : drop 32 (space ++ (payload ++ tail)) ≡ payload ++ tail =
        drop-append 32 space (payload ++ tail) (sym hs) in
      let plain_length : cu.send_length - 32 - 16 ≡ length payload = omega arith in
      let sealed = rw hf at (
        aegis_encrypt_message_parts env.aes_round aes_round-IsBlock u.session.session_key iv front
          payload tail hk hi room) in
      rw (ec, encoded, behind, plain_length) sealed

  -- What is sent of it: the header, the ciphertext and the MAC.
  pub encrypt-sent :
      (u : World) (cu : MessCtx) (space payload tail : List ℕ)
      → IsBlock u.session.session_key
      → IsBlock (env.random_bytes u.randoms_read 16)
      → length u.session.target_id ≡ 8
      → length space ≡ 32
      → 16 ≤ length tail
      → cu.cached_message ≡ space ++ (payload ++ tail)
      → cu.send_length ≡ 32 + length payload + 16
      → let iv = env.random_bytes u.randoms_read 16 in
        let front =
          header cu.send_type cu.send_length u.session.target_id
            (add_one_seq_nb cu.sequence_nb)
            iv in
        let c =
          aegis_crypt env.aes_round u.session.session_key iv
            (front ++ (payload ++ tail))
            32
            payload
            true in
        let cached = (mess_encrypt_handler_req env u cu).ctx.cached_message in
        (take cu.send_length cached ≡ (front ++ c.0) ++ c.1) × (cu.send_length ≤ length cached)
  encrypt-sent u cu space payload tail hk hi ht hs room ec el =
      let iv = env.random_bytes u.randoms_read 16 in
      let key = u.session.session_key in
      let seq_nb = add_one_seq_nb cu.sequence_nb in
      let target_id = u.session.target_id in
      let front = header cu.send_type cu.send_length target_id seq_nb iv in
      let ad = front ++ (payload ++ tail) in
      let c = aegis_crypt env.aes_round key iv ad 32 payload true in
      let size : cu.send_length ≡ length ((front ++ c.0) ++ c.1) = omega (
        arith,
        length-header cu.send_type cu.send_length target_id seq_nb iv ht hi,
        length-append front c.0,
        length-append (front ++ c.0) c.1,
        (aegis_crypt_inverse env.aes_round aes_round-IsBlock key iv ad ad 32 payload hk hi refl).0,
        length-tag env.aes_round aes_round-IsBlock key iv ad 32 payload,
      ) in
      rw (encrypt-parts u cu space payload tail hk hi ht hs room ec el) (
        take-append cu.send_length ((front ++ c.0) ++ c.1) (drop 16 tail) size,
        omega (arith, size, length-append ((front ++ c.0) ++ c.1) (drop 16 tail)),
      )
