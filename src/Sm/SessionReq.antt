-- ===== src/Sm/SessionReq.antt =====
-- The requesting side of a session, src/sm/session_req_sm.c. A handler takes the context that the C
-- code points to, and returns it with the world; no handler touches that context in any other way.
pub mod Retransmission
pub mod Sealing
use Prim.Native.Nat.{bit_and}
use remote_drone.Base.{
  ℕ, ◌+◌, ◌-◌, ◌/◌, Bool, true, false, ◌&&◌, ◌||◌, not, List, Option, none, some, length, take, ltb,
  leb, ◌==◌, if◌then◌else◌, memcpy,
}
use remote_drone.Crypto.Aegis.{aegis_encrypt_message, aegis_decrypt_message}
use remote_drone.Sm.Decode.{type_of, bytes_at}
use remote_drone.Sm.Encode.{encode_message}
use remote_drone.Sm.Params.{
  aegis_iv_nb, aegis_mac_nb, field_header_nb, message_max_payload_size, mic_per_mil,
  packet_interval, session_max_retransmissions, session_retransmission_timeout,
}
use remote_drone.Sm.SeqNb.{add_one_seq_nb}
use remote_drone.Sm.SessionInfo.{
  SessionInfo, MessCtx, MessState, SystemState, clear_session, mess_idle, mess_encrypt, mess_send,
  mess_wait, mess_verify, mess_react, mess_ack, mess_nack, message_used, is_valid, is_repeated,
}
use remote_drone.Sm.World.{
  Environment, World, mark, received, Code, code_minus_1, code_0, code_1, code_2, code_3, code_of,
  choose, time_taken, random_taken, elapsed, transmit_message,
}

-- What a handler leaves.
pub record Step : Type 0 where
  pub world : World
  pub ctx : MessCtx
  pub code : Code

abbrev pub step : World → MessCtx → Code → Step
step world ctx code = record { world = world; ctx = ctx; code = code }

-- `session->state.systemState = state`.
abbrev pub with_system_state : SystemState → World → World
with_system_state state w = record w {
  session = record w.session { state = record w.session.state { system_state = state } };
}

-- The message has the status valid or repeated.
abbrev pub is_new : World → Bool
is_new w = let status = (received w).message_status in is_valid status || is_repeated status

-- The message belongs to the machine of the context.
abbrev pub is_for : MessCtx → World → Bool
is_for ctx w = bit_and (type_of (received w)) 0xE0 == bit_and ctx.send_type 0xE0

-- `aegisDecryptMessage` on the received message, its IV put into the context before.
unfoldable pub decrypt_received : Environment → ℕ → ℕ → World → World × Bool
decrypt_received env ad_len cipher_len w =
    let m = received w in
    let iv = take aegis_iv_nb (bytes_at m m.iv) in
    let d =
      aegis_decrypt_message env.aes_round w.session.session_key iv m.message ad_len cipher_len in
    (
      record w {
        session = record w.session { aegis_iv = iv; received_message = record m { message = d.0 } };
      },
      d.1,
    )

module _ (env : Environment) where
  -- `MESS_idle_handlerReq`.
  unfoldable pub mess_idle_handler_req : World → MessCtx → Step
  mess_idle_handler_req w ctx =
      let ignored = if is_new w && is_for ctx w then mark message_used w else w in
      let current_time = env.micro_time ignored.times_read in
      let timed = time_taken ignored in
      let input =
        take message_max_payload_size
          (env.check_input ctx.send_type timed.inputs_read message_max_payload_size) in
      let asked : World = record timed { inputs_read = timed.inputs_read + 1 } in
      let filled : MessCtx = record ctx {
        cached_message = memcpy ctx.cached_message field_header_nb input;
      } in
      if not ctx.needs_acknowledge
        && leb (elapsed current_time ctx.time_of_transmission) packet_interval
      then step timed ctx code_0
      else if ltb 0 (length input)
      then step asked
          (record filled { send_length = field_header_nb + length input + aegis_mac_nb }) code_1
      else step asked filled code_0

  -- `MESS_encrypt_handlerReq`.
  unfoldable pub mess_encrypt_handler_req : World → MessCtx → Step
  mess_encrypt_handler_req w ctx =
      let iv = env.random_bytes w.randoms_read aegis_iv_nb in
      let sequence_nb = add_one_seq_nb ctx.sequence_nb in
      let encoded =
        encode_message ctx.cached_message ctx.send_type ctx.send_length w.session.target_id
          sequence_nb iv in
      let encrypted =
        aegis_encrypt_message env.aes_round w.session.session_key iv encoded.0 field_header_nb
          (ctx.send_length - field_header_nb - aegis_mac_nb) in
      step (record (random_taken w) { session = record w.session { aegis_iv = iv } })
        (record ctx {
          sequence_nb = sequence_nb;
          cached_message = encrypted;
          num_transmissions = 0;
        })
        code_1

  -- `MESS_send_handlerReq`.
  unfoldable pub mess_send_handler_req : World → MessCtx → Step
  mess_send_handler_req w ctx =
      let sent = transmit_message env ctx.cached_message ctx.send_length w in
      if leb session_max_retransmissions ctx.num_transmissions
      then step (with_system_state clear_session w) ctx code_0
      else step (time_taken sent)
          (record ctx {
            num_transmissions = ctx.num_transmissions + 1;
            time_of_transmission = env.micro_time sent.times_read;
          })
          (code_of ctx.needs_acknowledge)

  -- `MESS_wait_handlerReq`.
  unfoldable pub mess_wait_handler_req : World → MessCtx → Step
  mess_wait_handler_req w ctx =
      let current_time = env.micro_time w.times_read in
      let timed = time_taken w in
      let m = received w in
      let used = mark message_used timed in
      let d = decrypt_received env (m.length_num - aegis_mac_nb) 0 used in
      if ltb session_retransmission_timeout
        (elapsed current_time ctx.time_of_transmission / mic_per_mil)
      then step timed ctx code_minus_1
      else if is_valid m.message_status && type_of m == ctx.ack_type
      then step timed ctx code_1
      else if is_valid m.message_status && type_of m == ctx.nack_type
      then if not (ctx.sequence_nb == m.ack_seq_nb_num)
        then step used ctx code_0
        else step d.0 ctx (if d.1 then code_minus_1 else code_0)
      else if is_new w && is_for ctx w
      then step used ctx code_0
      else step timed ctx code_0

  -- `MESS_verify_handlerReq`.
  unfoldable pub mess_verify_handler_req : World → MessCtx → Step
  mess_verify_handler_req w ctx =
      let m = received w in
      let used = mark message_used w in
      let d = decrypt_received env (m.length_num - aegis_mac_nb) 0 used in
      if not (ctx.sequence_nb == m.ack_seq_nb_num)
      then step used ctx code_0
      else step d.0 ctx (code_of d.1)

  -- The `switch` on the answer of `MESS_wait_handlerReq`.
  abbrev pub after_wait_req : Code → MessState
  after_wait_req code_minus_1 = mess_send
  after_wait_req code_0 = mess_wait
  after_wait_req code_1 = mess_verify
  after_wait_req _ = mess_idle

  -- `messReqContinue`: what the handler left, and the next state.
  unfoldable pub mess_req_continue : World → MessCtx → MessState → Step × MessState
  mess_req_continue w ctx mess_idle =
      let s = mess_idle_handler_req w ctx in (s, choose s.code mess_encrypt mess_idle)
  mess_req_continue w ctx mess_encrypt =
      let s = mess_encrypt_handler_req w ctx in (s, choose s.code mess_send mess_idle)
  mess_req_continue w ctx mess_send =
      let s = mess_send_handler_req w ctx in (s, choose s.code mess_wait mess_idle)
  mess_req_continue w ctx mess_wait =
      let s = mess_wait_handler_req w ctx in (s, after_wait_req s.code)
  mess_req_continue w ctx mess_verify =
      let s = mess_verify_handler_req w ctx in (s, choose s.code mess_idle mess_wait)
  mess_req_continue w ctx mess_react = (step w ctx code_0, mess_idle)
  mess_req_continue w ctx mess_ack = (step w ctx code_0, mess_idle)
  mess_req_continue w ctx mess_nack = (step w ctx code_0, mess_idle)
