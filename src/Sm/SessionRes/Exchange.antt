-- ===== src/Sm/SessionRes/Exchange.antt =====
-- A request from the requester's array to the responder's output: src/sm/session_req_sm.c,
-- src/sm/udp_io.c, src/sm/enc_dec.c and src/sm/session_res_sm.c one behind the other.
use remote_drone.Base.{
  ℕ, ◌+◌, ◌≤◌, ◌<◌, ◌^◌, Bool, true, false, List, [], ◌∷◌, ◌++◌, some, length, take, drop,
  take_whole, take-append-drop, append_assoc, length-take, ◌≡◌, refl, sym, ◌∙◌, ap, arith,
}
use remote_drone.Sm.Params.{max_message_nb, message_max_payload_size}
use remote_drone.Sm.SessionInfo.{MessCtx, is_inconsistent}
use remote_drone.Crypto.Aegis.{aegis_crypt}
use remote_drone.Crypto.Aegis.Inverse.{IsBlock}
use remote_drone.Sm.Decode.{expected_seq_nb, poll_and_decode}
use remote_drone.Sm.Decode.Arrival.{IsRequest, Arrived, poll_and_decode-header}
use remote_drone.Sm.Encode.Layout.{header}
use remote_drone.Sm.SeqNb.{add_one_seq_nb}
use remote_drone.Sm.SessionRes.{mess_verify_handler_res, mess_react_handler_res}
use remote_drone.Sm.SessionReq.Sealing.{encrypt-sent}
use remote_drone.Sm.SessionRes.Delivery.{verify-encrypt}
use remote_drone.Sm.SessionReq.{mess_encrypt_handler_req, mess_send_handler_req}
use remote_drone.Sm.Udp.{Socket, Outcome, done, error, fuel_out}
use remote_drone.Sm.UdpIo.{transmit, receive, init_io_ctx, reset_cont_io_ctx}
use remote_drone.Sm.UdpIo.Transmit.{Delivers, transmit_lem}
use remote_drone.Sm.UdpIo.Receive.{receive-transmit}
use remote_drone.Sm.World.{Environment, World, received, transmit_message, code_3}

-- A socket that has sent nothing yet.
abbrev pub idle : ℕ → Socket
idle calls = record { buf = []; calls = calls; sent = [] }

accepted :
    (accepts : ℕ → Bool) (bytes : List ℕ) (s : Socket) (o : Outcome)
    → ((k : ℕ) → accepts k ≡ true)
    → Delivers accepts bytes s o
    → (s' : Socket) × (o ≡ done s')
accepted accepts bytes s (done s') all d = (s', refl)
accepted accepts bytes s (error s') all d =
    let refused = d.1 in let taken = all d.0 in absurd (ground arith)
accepted accepts bytes s fuel_out all d = absurd d

-- Sending a part of an array is sending the array that is that part.
transmit-part :
    (accepts : ℕ → Bool) (cached : List ℕ) (nb : ℕ) (s : Socket)
    → nb ≤ length cached
    → transmit accepts (take nb cached) (length (take nb cached)) true s
      ≡ transmit accepts cached nb true s
unfolding transmit
transmit-part accepts cached nb s h =
    let n : length (take nb cached) ≡ nb = omega (arith, length-take nb cached) in
    rw (n, take_whole nb (take nb cached) (omega arith)) refl

-- The receiver's array starts with what was transmitted, and the message has ended.
received-done :
    (accepts : ℕ → Bool) (cached result : List ℕ) (nb size calls : ℕ) (s : Socket)
    → nb ≤ length cached
    → size ≤ length result
    → nb < size
    → transmit accepts cached nb true (idle calls) ≡ done s
    → let r = receive init_io_ctx result size true s.sent in
      (r.result ≡ take nb cached ++ drop nb r.result) × (r.io.end_of_message ≡ true)
received-done accepts cached result nb size calls s fits room small e =
    let m = take nb cached in
    let n : length m ≡ nb = omega (arith, length-take nb cached) in
    let d =
      receive-transmit accepts m result size calls s room (omega arith)
        (transmit-part accepts cached nb (idle calls) fits ∙ e) in
    let r = receive init_io_ctx result size true s.sent in
    let starts : take nb r.result ≡ m = rw n at d.1 in
    (rw starts at (sym (take-append-drop nb r.result)), d.2)

received-transmit :
    (env : Environment) (u : World) (cached result : List ℕ) (nb size calls : ℕ)
    → ((k : ℕ) → env.accepts k ≡ true)
    → u.socket ≡ idle calls
    → nb ≤ length cached
    → size ≤ length result
    → nb < size
    → let r = receive init_io_ctx result size true (transmit_message env cached nb u).socket.sent in
      (r.result ≡ take nb cached ++ drop nb r.result) × (r.io.end_of_message ≡ true)
unfolding transmit_message
received-transmit env u cached result nb size calls all es fits room small =
    let sent =
      accepted env.accepts _ (idle calls) (transmit env.accepts cached nb true (idle calls)) all
        (transmit_lem env.accepts cached nb true (idle calls) (omega arith, tt)) in
    rw (es, sent.1)
      (received-done env.accepts cached result nb size calls sent.0 fits room small sent.1)

-- How `MESS_encrypt_handlerReq` and `MESS_send_handlerReq` put a request on the wire.
send-encrypt :
    (env : Environment) (u : World) (cu : MessCtx)
    → let sealed = mess_encrypt_handler_req env u cu in
      (mess_send_handler_req env sealed.world sealed.ctx).world.socket
      ≡ (transmit_message env sealed.ctx.cached_message cu.send_length u).socket
unfolding mess_encrypt_handler_req mess_send_handler_req transmit_message
send-encrypt env u cu = refl

regroup : (xs ys zs us : List ℕ) → ((xs ++ ys) ++ zs) ++ us ≡ xs ++ ((ys ++ zs) ++ us)
regroup xs ys zs us =
    ap (λ (v : List ℕ). v ++ us) (append_assoc xs ys zs) ∙ append_assoc xs (ys ++ zs) us

next_number : (s : ℕ) → s < 2 ^ 32 → (0 < add_one_seq_nb s) × (add_one_seq_nb s < 2 ^ 32)
unfolding add_one_seq_nb
next_number s h = ground arith

module _ (env : Environment)
    (aes_round-IsBlock : (a b : List ℕ) → length (env.aes_round a b) ≡ 16) where
  -- What `pollAndDecode` of `w` makes of a request that `u` sent.
  poll_and_decode-send :
      (u w : World) (cu : MessCtx) (space payload tail : List ℕ) (calls : ℕ)
      → ((k : ℕ) → env.accepts k ≡ true)
      → u.socket ≡ idle calls
      → IsBlock u.session.session_key
      → IsBlock (env.random_bytes u.randoms_read 16)
      → length u.session.target_id ≡ 8
      → length space ≡ 32
      → 16 ≤ length tail
      → length payload ≤ message_max_payload_size
      → cu.cached_message ≡ space ++ (payload ++ tail)
      → cu.send_length ≡ 32 + length payload + 16
      → cu.sequence_nb < 2 ^ 32
      → IsRequest cu.send_type
      → w.session.own_id ≡ u.session.target_id
      → expected_seq_nb cu.send_type w.session ≡ some (add_one_seq_nb cu.sequence_nb)
      → w.session.io ≡ init_io_ctx
      → is_inconsistent (received w).message_status ≡ false
      → length (received w).message ≡ max_message_nb + 1
      → let sealed = mess_encrypt_handler_req env u cu in
        w.packets ≡ (mess_send_handler_req env sealed.world sealed.ctx).world.socket.sent
        → (junk : List ℕ) × Arrived w
            (poll_and_decode w)
            cu.send_length
            (add_one_seq_nb cu.sequence_nb)
            (take cu.send_length sealed.ctx.cached_message ++ junk)
  poll_and_decode-send u w cu space payload tail calls all es hk hi ht hs room small ec el hn t own
        e eio fine size_w ep =
      let iv = env.random_bytes u.randoms_read 16 in
      let target_id = u.session.target_id in
      let nb = cu.send_length in
      let number = add_one_seq_nb cu.sequence_nb in
      let front = header cu.send_type nb target_id number iv in
      let c =
        aegis_crypt env.aes_round u.session.session_key iv (front ++ (payload ++ tail)) 32 payload
          true in
      let cached = (mess_encrypt_handler_req env u cu).ctx.cached_message in
      let sent =
        encrypt-sent env aes_round-IsBlock u cu space payload tail hk hi ht hs room ec el in
      let packets : w.packets ≡ (transmit_message env cached nb u).socket.sent =
        ep ∙ ap (λ (s : Socket). s.sent) (send-encrypt env u cu) in
      let r = receive w.session.io (received w).message (max_message_nb + 1) true w.packets in
      let junk = drop nb r.result in
      let got : (r.result ≡ take nb cached ++ junk) × (r.io.end_of_message ≡ true) =
        rw (eio, packets)
          (received-transmit env u cached (received w).message nb (max_message_nb + 1) calls all es
            sent.1 (omega arith) (omega arith)) in
      let regrouped : take nb cached ++ junk ≡ front ++ ((c.0 ++ c.1) ++ junk) =
        ap (λ (xs : List ℕ). xs ++ junk) sent.0 ∙ regroup front c.0 c.1 junk in
      let pos = next_number cu.sequence_nb hn in
      let untouched : reset_cont_io_ctx w.session.io ≡ w.session.io =
        rw eio (unfold reset_cont_io_ctx init_io_ctx in refl) in
      let a =
        poll_and_decode-header w cu.send_type nb number target_id iv ((c.0 ++ c.1) ++ junk)
          untouched got.1 fine (got.0 ∙ regrouped) t ht hi (omega arith) (omega arith) pos.0 pos.1
          own e in
      (junk, rw (sym regrouped) at a)

  -- A request gets through. The requester `u` has at most MESSAGE_MAX_PAYLOAD_SIZE bytes in the cached
  -- message of a context for commands, status or alive messages and runs `MESS_encrypt_handlerReq`
  -- and `MESS_send_handlerReq` on an idle socket whose packets the kernel accepts. The responder `w`
  -- has the same session key, the peer's target ID as its own, no unread bytes, a message array of
  -- full size, and expects the next number of the requester. If the packets sent are those that
  -- arrive, then behind `pollAndDecode` its `MESS_verify_handlerRes` accepts the message, and
  -- `MESS_react_handlerRes` writes the payload.
  pub react-send :
      (u w : World) (cu cw : MessCtx) (space payload tail : List ℕ) (calls : ℕ)
      → ((k : ℕ) → env.accepts k ≡ true)
      → u.socket ≡ idle calls
      → IsBlock u.session.session_key
      → IsBlock (env.random_bytes u.randoms_read 16)
      → length u.session.target_id ≡ 8
      → length space ≡ 32
      → 16 ≤ length tail
      → length payload ≤ message_max_payload_size
      → cu.cached_message ≡ space ++ (payload ++ tail)
      → cu.send_length ≡ 32 + length payload + 16
      → cu.sequence_nb < 2 ^ 32
      → IsRequest cu.send_type
      → w.session.session_key ≡ u.session.session_key
      → w.session.own_id ≡ u.session.target_id
      → expected_seq_nb cu.send_type w.session ≡ some (add_one_seq_nb cu.sequence_nb)
      → w.session.io ≡ init_io_ctx
      → is_inconsistent (received w).message_status ≡ false
      → length (received w).message ≡ max_message_nb + 1
      → let sealed = mess_encrypt_handler_req env u cu in
        w.packets ≡ (mess_send_handler_req env sealed.world sealed.ctx).world.socket.sent
        → let v = mess_verify_handler_res env (poll_and_decode w) cw in
          (v.code ≡ code_3)
          × ((mess_react_handler_res env v.world v.ctx).world.written
              ≡ w.written ++ ((cw.send_type, payload) ∷ []))
  react-send u w cu cw space payload tail calls all es hk hi ht hs room small ec el hn t ek own e
        eio fine size_w ep =
      let p =
        poll_and_decode-send u w cu space payload tail calls all es hk hi ht hs room small ec el hn
          t own e eio fine size_w ep in
      let a = p.1 in
      let d =
        verify-encrypt env aes_round-IsBlock u (poll_and_decode w) cu cw space payload tail p.0 hk
          hi ht hs room ec el (a.6 ∙ ek) a.0 a.1 a.2 a.3 a.5 in
      (d.0, d.1 ∙ ap (λ (xs : List (ℕ × List ℕ)). xs ++ ((cw.send_type, payload) ∷ [])) a.7)
