-- ===== src/Sm/SessionRes.antt =====
-- The responding side of a session, src/sm/session_res_sm.c, in the manner of `SessionReq`.
pub mod Delivery
pub mod Exchange
pub mod Replay
use Prim.Native.Nat.{bit_and}
use remote_drone.Base.{
  ℕ, ◌+◌, ◌-◌, Bool, true, false, ◌&&◌, ◌||◌, not, List, [], ◌∷◌, ◌++◌, take, get_or, leb, ◌==◌,
  if◌then◌else◌, memcpy,
}
use remote_drone.Crypto.Aegis.{aegis_encrypt_message}
use remote_drone.Sm.Decode.{type_of, bytes_at}
use remote_drone.Sm.Encode.{encode_message}
use remote_drone.Sm.Params.{
  aegis_iv_nb, aegis_mac_nb, field_header_nb, field_seq_nb_nb, min_message_bytes,
  session_max_retransmissions,
}
use remote_drone.Sm.SeqNb.{add_one_seq_nb, add_mult_seq_nb}
use remote_drone.Sm.SessionInfo.{
  MessCtx, MessState, clear_session, mess_idle, mess_encrypt, mess_send, mess_wait, mess_verify,
  mess_react, mess_ack, mess_nack, message_used, is_valid, is_repeated,
}
use remote_drone.Sm.SessionReq.{Step, step, with_system_state, is_new, is_for, decrypt_received}
use remote_drone.Sm.World.{
  Environment, World, mark, received, Code, code_minus_1, code_0, code_1, code_2, code_3, choose,
  time_taken, random_taken, transmit_message,
}

module _ (env : Environment) where
  -- `MESS_idle_handlerRes`.
  unfoldable pub mess_idle_handler_res : World → MessCtx → Step
  mess_idle_handler_res w ctx =
      if is_new w
      then if type_of (received w) == ctx.send_type
        then step w ctx code_1
        else if is_for ctx w
        then step (mark message_used w) ctx code_0
        else step w ctx code_0
      else step w ctx code_0

  -- `MESS_verify_handlerRes`.
  unfoldable pub mess_verify_handler_res : World → MessCtx → Step
  mess_verify_handler_res w ctx =
      let m = received w in
      let d =
        decrypt_received env field_header_nb (m.length_num - field_header_nb - aegis_mac_nb) w in
      let checked : World = record (time_taken d.0) {
        last_check = env.micro_time d.0.times_read;
      } in
      if not d.1
      then if not ctx.needs_acknowledge || is_repeated m.message_status
        then step (mark message_used d.0) ctx code_0
        else step d.0 ctx code_2
      else if is_valid m.message_status
      then step checked
          (record ctx {
            num_transmissions = 0;
            expected_sequence_nb = add_mult_seq_nb m.seq_nb_num 1;
          })
          code_3
      else if ctx.needs_acknowledge
      then step d.0 ctx code_1
      else step (mark message_used d.0) ctx code_0

  -- `MESS_react_handlerRes`.
  unfoldable pub mess_react_handler_res : World → MessCtx → Step
  mess_react_handler_res w ctx =
      let used = if ctx.needs_acknowledge then w else mark message_used w in
      let m = received used in
      let output = take (m.length_num - min_message_bytes) (bytes_at m m.data_field) in
      let reacted : World = record used {
        written = used.written ++ ((ctx.send_type, output) ∷ []);
      } in
      step reacted ctx (if ctx.needs_acknowledge then code_1 else code_2)

  -- What `MESS_ack_handlerRes` and `MESS_nack_handler` do alike: a message of the type and length
  -- given, with the sequence number of the message received.
  unfoldable pub answer : ℕ → ℕ → World → MessCtx → Step
  answer type length w ctx =
      let used = mark message_used w in
      let m = received used in
      let iv = env.random_bytes used.randoms_read aegis_iv_nb in
      let sequence_nb = add_one_seq_nb ctx.sequence_nb in
      let encoded =
        encode_message ctx.cached_message type length used.session.target_id sequence_nb iv in
      let filled = memcpy encoded.0 encoded.1 (take field_seq_nb_nb (bytes_at m m.seq_nb)) in
      let encrypted =
        aegis_encrypt_message env.aes_round used.session.session_key iv filled
          (field_header_nb + field_seq_nb_nb) 0 in
      step (record (random_taken used) { session = record used.session { aegis_iv = iv } })
        (record ctx { sequence_nb = sequence_nb; cached_message = encrypted }) code_1

  -- `MESS_ack_handlerRes`.
  unfoldable pub mess_ack_handler_res : World → MessCtx → Step
  mess_ack_handler_res w ctx = answer ctx.ack_type ctx.ack_length w ctx

  -- `MESS_send_handlerRes`.
  unfoldable pub mess_send_handler_res : World → MessCtx → Step
  mess_send_handler_res w ctx =
      let length =
        if get_or ctx.cached_message 0 0 == ctx.ack_type then ctx.ack_length else ctx.nack_length in
      let sent = transmit_message env ctx.cached_message length w in
      if leb session_max_retransmissions ctx.num_transmissions
      then step (with_system_state clear_session w) ctx code_1
      else step (time_taken sent)
          (record ctx {
            num_transmissions = ctx.num_transmissions + 1;
            time_of_transmission = env.micro_time sent.times_read;
          })
          code_1

  -- `MESS_nack_handler`.
  unfoldable pub mess_nack_handler : World → MessCtx → Step
  mess_nack_handler w ctx = answer ctx.nack_type ctx.nack_length w ctx

  -- The `switch` on the answer of `MESS_verify_handlerRes`.
  abbrev pub after_verify_res : Code → MessState
  after_verify_res code_0 = mess_idle
  after_verify_res code_1 = mess_ack
  after_verify_res code_2 = mess_nack
  after_verify_res code_3 = mess_react
  after_verify_res code_minus_1 = mess_idle

  -- The `switch` on the answer of `MESS_react_handlerRes`.
  abbrev pub after_react_res : Code → MessState
  after_react_res code_0 = mess_react
  after_react_res code_1 = mess_ack
  after_react_res _ = mess_idle

  -- `messResContinue`: what the handler left, and the next state.
  unfoldable pub mess_res_continue : World → MessCtx → MessState → Step × MessState
  mess_res_continue w ctx mess_idle =
      let s = mess_idle_handler_res w ctx in (s, choose s.code mess_verify mess_idle)
  mess_res_continue w ctx mess_verify =
      let s = mess_verify_handler_res w ctx in (s, after_verify_res s.code)
  mess_res_continue w ctx mess_react =
      let s = mess_react_handler_res w ctx in (s, after_react_res s.code)
  mess_res_continue w ctx mess_ack =
      let s = mess_ack_handler_res w ctx in (s, choose s.code mess_send mess_ack)
  mess_res_continue w ctx mess_send =
      let s = mess_send_handler_res w ctx in (s, choose s.code mess_idle mess_send)
  mess_res_continue w ctx mess_nack =
      let s = mess_nack_handler w ctx in (s, choose s.code mess_send mess_nack)
  mess_res_continue w ctx mess_encrypt = (step w ctx code_0, mess_idle)
  mess_res_continue w ctx mess_wait = (step w ctx code_0, mess_idle)
