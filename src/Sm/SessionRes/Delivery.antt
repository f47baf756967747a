-- ===== src/Sm/SessionRes/Delivery.antt =====
-- A request that src/sm/session_req_sm.c encrypts is taken by src/sm/session_res_sm.c.
use remote_drone.Base.{
  ℕ, ◌+◌, ◌-◌, ◌≤◌, true, List, [], ◌∷◌, ◌++◌, some, length, take, drop, take-append, drop-append,
  take-append-le, drop-append-le, Bool-cases, inl, inr, length-drop, append_assoc, ◌≡◌, refl, sym,
  ◌∙◌, ap, arith,
}
use remote_drone.Crypto.Aegis.{aegis_crypt, aegis_decrypt_message}
use remote_drone.Crypto.Aegis.Inverse.{IsBlock}
use remote_drone.Crypto.Aegis.Message.{aegis_decrypt_message_parts}
use remote_drone.Sm.Decode.{bytes_at}
use remote_drone.Sm.Encode.Layout.{header, length-header, header-iv}
use remote_drone.Sm.SeqNb.{add_one_seq_nb}
use remote_drone.Sm.SessionInfo.{MessCtx, DecodedMessage, message_valid}
use remote_drone.Sm.SessionReq.Sealing.{encrypt-sent}
use remote_drone.Sm.SessionReq.{decrypt_received, mess_encrypt_handler_req}
use remote_drone.Sm.SessionRes.{mess_verify_handler_res, mess_react_handler_res}
use remote_drone.Sm.World.{Environment, World, received, code_3}

module _ (env : Environment)
    (aes_round-IsBlock : (a b : List ℕ) → length (env.aes_round a b) ≡ 16) where
  iv_bytes :
      (m : DecodedMessage) (iv : List ℕ)
      → m.iv ≡ some 4
      → take 16 (drop 4 m.message) ≡ iv
      → take 16 (bytes_at m m.iv) ≡ iv
  iv_bytes m iv e h = rw e h

  react-writes :
      (w : World) (ctx : MessCtx)
      → (received w).data_field ≡ some 32
      → (mess_react_handler_res env w ctx).world.written
        ≡ w.written
          ++ ((ctx.send_type, take ((received w).length_num - 48) (drop 32 (received w).message))
              ∷ [])
  unfolding mess_react_handler_res
  react-writes w ctx ed = elim (Bool-cases ctx.needs_acknowledge) [
    | inl a ↦ rw (a, ed) refl
    | inr a ↦ rw (a, ed) refl
  ]

  opened-verify :
      (w : World) (ctx : MessCtx) (opened : List ℕ)
      → let m = received w in
        aegis_decrypt_message env.aes_round w.session.session_key
            (take 16 (bytes_at m m.iv))
            m.message
            32
            (m.length_num - 32 - 16)
          ≡ (opened, true)
        → m.message_status ≡ message_valid
        → let v = mess_verify_handler_res env w ctx in
          (v.code ≡ code_3)
          × (v.world.written ≡ w.written)
          × ((received v.world).message ≡ opened)
          × ((received v.world).data_field ≡ m.data_field)
          × ((received v.world).length_num ≡ m.length_num)
          × (v.ctx.send_type ≡ ctx.send_type)
  unfolding mess_verify_handler_res decrypt_received
  opened-verify w ctx opened e ev = rw (e, ev) (refl, refl, refl, refl, refl, refl)

  -- What the two handlers do once the message is open.
  opened-react :
      (w : World) (ctx : MessCtx) (opened payload : List ℕ)
      → let m = received w in
        aegis_decrypt_message env.aes_round w.session.session_key
            (take 16 (bytes_at m m.iv))
            m.message
            32
            (m.length_num - 32 - 16)
          ≡ (opened, true)
        → m.data_field ≡ some 32
        → m.message_status ≡ message_valid
        → take (m.length_num - 48) (drop 32 opened) ≡ payload
        → let v = mess_verify_handler_res env w ctx in
          (v.code ≡ code_3)
          × ((mess_react_handler_res env v.world v.ctx).world.written
              ≡ w.written ++ ((ctx.send_type, payload) ∷ []))
  opened-react w ctx opened payload e ed ev ep =
      let v = mess_verify_handler_res env w ctx in
      let f = opened-verify w ctx opened e ev in
      (f.0, react-writes v.world v.ctx (f.3 ∙ ed) ∙ (rw (f.1, f.2, f.4, f.5, ep) refl))

  -- The responder accepts a sealed message whose fields the decoder found, and writes its payload.
  verify-react :
      (w : World) (ctx : MessCtx) (front iv payload ad junk : List ℕ)
      → IsBlock w.session.session_key
      → IsBlock iv
      → length front ≡ 32
      → take 32 ad ≡ front
      → take 16 (drop 4 front) ≡ iv
      → let c = aegis_crypt env.aes_round w.session.session_key iv ad 32 payload true in
        (received w).message ≡ ((front ++ c.0) ++ c.1) ++ junk
        → (received w).iv ≡ some 4
        → (received w).data_field ≡ some 32
        → (received w).length_num ≡ 48 + length payload
        → (received w).message_status ≡ message_valid
        → let v = mess_verify_handler_res env w ctx in
          (v.code ≡ code_3)
          × ((mess_react_handler_res env v.world v.ctx).world.written
              ≡ w.written ++ ((ctx.send_type, payload) ∷ []))
  verify-react w ctx front iv payload ad junk hk hi hf had hiv em eiv ed el ev =
      let key = w.session.session_key in
      let c = aegis_crypt env.aes_round key iv ad 32 payload true in
      let behind = (c.0 ++ c.1) ++ junk in
      let regrouped : ((front ++ c.0) ++ c.1) ++ junk ≡ front ++ behind =
        ap (λ (xs : List ℕ). xs ++ junk) (append_assoc front c.0 c.1)
        ∙ append_assoc front (c.0 ++ c.1) junk in
      let found_iv : take 16 (drop 4 (((front ++ c.0) ++ c.1) ++ junk)) ≡ iv =
        rw
          (
            regrouped,
            drop-append-le 4 front behind (omega arith),
            take-append-le 16 (drop 4 front) behind (omega (arith, length-drop 4 front)),
            hiv,
          )
          refl in
      let plain_length : 48 + length payload - 32 - 16 ≡ length payload = omega arith in
      let text_length : 48 + length payload - 48 ≡ length payload = omega arith in
      let opened = rw hf at (
        aegis_decrypt_message_parts env.aes_round aes_round-IsBlock key iv front payload ad junk hk
          hi (rw hf had)) in
      let parts : (front ++ payload) ++ (c.1 ++ junk) ≡ front ++ (payload ++ (c.1 ++ junk)) =
        append_assoc front payload (c.1 ++ junk) in
      opened-react w ctx ((front ++ payload) ++ (c.1 ++ junk)) payload
        (rw (iv_bytes (received w) iv eiv (rw em found_iv), em, el, plain_length) opened) ed ev
        (rw
          (
            el,
            text_length,
            parts,
            drop-append 32 front (payload ++ (c.1 ++ junk)) (sym hf),
            take-append (length payload) payload (c.1 ++ junk) refl,
          )
          refl)

  -- A request arrives as it was sent. The requester `u` has `payload` in the cached message of the
  -- context behind the space of the header, and runs `MESS_encrypt_handlerReq`. If the responder `w`
  -- has the same session key, its decoder has found the fields of the first `sendLength` bytes of
  -- that cached message, whatever lies behind them, and the status is valid, then
  -- `MESS_verify_handlerRes` accepts it and `MESS_react_handlerRes` writes the payload. The lengths
  -- are those of the arrays of the C code, and an AES round writes blocks of 16 bytes.
  pub verify-encrypt :
      (u w : World) (cu cw : MessCtx) (space payload tail junk : List ℕ)
      → IsBlock u.session.session_key
      → IsBlock (env.random_bytes u.randoms_read 16)
      → length u.session.target_id ≡ 8
      → length space ≡ 32
      → 16 ≤ length tail
      → cu.cached_message ≡ space ++ (payload ++ tail)
      → cu.send_length ≡ 32 + length payload + 16
      → w.session.session_key ≡ u.session.session_key
      → (received w).message
        ≡ take cu.send_length (mess_encrypt_handler_req env u cu).ctx.cached_message ++ junk
      → (received w).iv ≡ some 4
      → (received w).data_field ≡ some 32
      → (received w).length_num ≡ cu.send_length
      → (received w).message_status ≡ message_valid
      → let v = mess_verify_handler_res env w cw in
        (v.code ≡ code_3)
        × ((mess_react_handler_res env v.world v.ctx).world.written
            ≡ w.written ++ ((cw.send_type, payload) ∷ []))
  verify-encrypt u w cu cw space payload tail junk hk hi ht hs room ec el ek em eiv ed en ev =
      let iv = env.random_bytes u.randoms_read 16 in
      let key = u.session.session_key in
      let seq_nb = add_one_seq_nb cu.sequence_nb in
      let target_id = u.session.target_id in
      let front = header cu.send_type cu.send_length target_id seq_nb iv in
      let ad = front ++ (payload ++ tail) in
      let hf : length front ≡ 32 =
        length-header cu.send_type cu.send_length target_id seq_nb iv ht hi in
      let found_iv : take 16 (drop 4 front) ≡ iv =
        header-iv cu.send_type cu.send_length target_id seq_nb iv hi in
      let sent =
        rw (encrypt-sent env aes_round-IsBlock u cu space payload tail hk hi ht hs room ec el).0 at
          em in
      verify-react w cw front iv payload ad junk (rw ek hk) hi hf
        (take-append 32 front (payload ++ tail) (sym hf)) found_iv (rw ek sent) eiv ed
        (rw (en, el) (omega arith)) ev
