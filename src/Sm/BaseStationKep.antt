-- ===== src/Sm/BaseStationKep.antt =====
-- The key exchange on the base station, src/sm/bs_kep_sm.c.
pub mod Waiting
pub mod Authentication
use remote_drone.Base.{
  ℕ, ◌+◌, ◌/◌, Bool, true, false, not, List, ◌++◌, take, ltb, ◌==◌, if◌then◌else◌, memcpy,
}
use remote_drone.General.Endian.{to_word_array, to_little_endian}
use remote_drone.Sm.Decode.{type_of, bytes_at}
use remote_drone.Sm.Encode.{encode_message, encode_message_no_encryption}
use remote_drone.Sm.KeyExchange.{
  KeyAgreement, with_kep, kep_of, offset, curve_point_of, init_kep_ctx, kep_send_handler, seal,
}
use remote_drone.Sm.Params.{
  type_kep1_send, type_kep2_send, type_kep3_send, type_kep4_send, kep1_message_bytes,
  kep3_message_bytes, aegis_iv_nb, field_sign_nb, field_curvepoint_nb, mic_per_mil,
  kep_retransmission_timeout,
}
use remote_drone.Sm.SeqNb.{add_one_seq_nb, add_mult_seq_nb}
use remote_drone.Sm.SessionInfo.{
  KepState, kep_idle, kep1_compute, kep1_send, kep1_wait, kep3_verify, kep3_compute, kep3_send,
  kep3_wait, kep5_verify, done_state, message_used, is_valid, is_repeated,
}
use remote_drone.Sm.SessionReq.{decrypt_received}
use remote_drone.Sm.World.{
  Environment, World, mark, received, Code, code_minus_1, code_0, code_1, code_2, code_3, choose,
  time_taken, random_taken, elapsed,
}

module _ (env : Environment) (keys : KeyAgreement) where
  -- `KEP1_idle_handlerBaseStation`.
  unfoldable pub kep1_idle_handler_base_station : World → World × Code
  kep1_idle_handler_base_station w = (init_kep_ctx env w, code_1)

  -- `KEP1_compute_handlerBaseStation`.
  unfoldable pub kep1_compute_handler_base_station : World → World × Code
  kep1_compute_handler_base_station w =
      let sample = keys.generate_random_sample w.randoms_read in
      let kep = kep_of w in
      let sequence_nb = add_one_seq_nb kep.sequence_nb in
      let encoded =
        encode_message_no_encryption kep.cached_message type_kep1_send kep1_message_bytes
          w.session.target_id sequence_nb in
      (
        with_kep
            (record kep {
              scalar = sample.0;
              generated_point_xy = sample.1;
              sequence_nb = sequence_nb;
              cached_message = memcpy encoded.0 encoded.1 (to_little_endian sample.1);
            })
            (random_taken w),
        code_1,
      )

  -- `KEP_wait_handlerBaseStation`.
  unfoldable pub kep_wait_handler_base_station : ℕ → World → World × Code
  kep_wait_handler_base_station expected_type w =
      let status = (received w).message_status in
      let current_time = env.micro_time w.times_read in
      let elapsed_time = elapsed current_time (kep_of w).time_of_transmission / mic_per_mil in
      if is_repeated status
      then (mark message_used w, code_minus_1)
      else if is_valid status
      then if type_of (received w) == expected_type
        then (w, code_1)
        else (mark message_used w, code_minus_1)
      else if ltb kep_retransmission_timeout elapsed_time
      then (time_taken w, code_minus_1)
      else (time_taken w, code_0)

  -- `KEP3_verify_handlerBaseStation`.
  unfoldable pub kep3_verify_handler_base_station : World → World × Code
  kep3_verify_handler_base_station w =
      let used = mark message_used w in
      let received_point = curve_point_of (received used) in
      let shared = keys.point_multiply (kep_of used).scalar received_point in
      let keyed : World =
        with_kep (record (kep_of used) { received_point_xy = received_point })
          (record used {
            session = record used.session {
              session_key = keys.hash_buffer (to_little_endian shared);
            };
          }) in
      let d = decrypt_received env (offset (received keyed).data_field) field_sign_nb keyed in
      let m = received d.0 in
      let kep = kep_of d.0 in
      let signed_message =
        take field_curvepoint_nb (bytes_at m m.curve_point)
        ++ to_little_endian kep.generated_point_xy in
      let correct =
        keys.check signed_message keys.peer_public (to_word_array (bytes_at m m.data_field) 16) in
      if not d.1
      then (d.0, code_0)
      else if correct
      then (
        with_kep
            (record kep {
              kep_active = true;
              num_transmissions = 0;
              time_of_transmission = 0;
              expected_sequence_nb = add_mult_seq_nb m.seq_nb_num 1;
            })
            d.0,
        code_1,
      )
      else (d.0, code_0)

  -- `KEP3_compute_handlerBaseStation`.
  unfoldable pub kep3_compute_handler_base_station : World → World × Code
  kep3_compute_handler_base_station w =
      let kep = kep_of w in
      let signature =
        keys.sign w.randoms_read
          (to_little_endian (kep.generated_point_xy ++ kep.received_point_xy)) keys.own_private in
      let signed = random_taken w in
      let iv = env.random_bytes signed.randoms_read aegis_iv_nb in
      let sequence_nb = add_one_seq_nb kep.sequence_nb in
      let encoded =
        encode_message kep.cached_message type_kep3_send kep3_message_bytes w.session.target_id
          sequence_nb iv in
      let filled = memcpy encoded.0 encoded.1 (to_little_endian signature) in
      let drawn = random_taken signed in
      (
        with_kep
            (record kep {
              signature = signature;
              sequence_nb = sequence_nb;
              cached_message = seal env signed iv filled encoded.1 field_sign_nb;
            })
            (record drawn { session = record drawn.session { aegis_iv = iv } }),
        code_1,
      )

  -- `KEP5_verify_handlerBaseStation`.
  unfoldable pub kep5_verify_handler_base_station : World → World × Code
  kep5_verify_handler_base_station w =
      let used = mark message_used w in
      let d = decrypt_received env (offset (received used).mac) 0 used in
      let m = received d.0 in
      let kep = kep_of d.0 in
      if not d.1
      then (d.0, code_0)
      else if kep.sequence_nb == m.ack_seq_nb_num
      then (
        with_kep (record kep { expected_sequence_nb = add_mult_seq_nb m.seq_nb_num 1 }) d.0,
        code_1,
      )
      else (d.0, code_0)

  -- The `switch` on the answer of `KEP_wait_handlerBaseStation`: the states for -1, 0 and 1.
  abbrev pub after_wait : KepState → KepState → KepState → Code → KepState
  after_wait send wait verify code_minus_1 = send
  after_wait send wait verify code_0 = wait
  after_wait send wait verify code_1 = verify
  after_wait send wait verify code_2 = kep_idle
  after_wait send wait verify code_3 = kep_idle

  -- `kepContinueBaseStation`: what the handler left, and the next state.
  unfoldable pub kep_continue_base_station : World → KepState → World × KepState
  kep_continue_base_station w kep_idle =
      let r = kep1_idle_handler_base_station w in (r.0, choose r.1 kep1_compute kep_idle)
  kep_continue_base_station w kep1_compute =
      let r = kep1_compute_handler_base_station w in (r.0, choose r.1 kep1_send kep1_compute)
  kep_continue_base_station w kep1_send =
      let r = kep_send_handler env kep1_message_bytes w in (r.0, choose r.1 kep1_wait kep_idle)
  kep_continue_base_station w kep1_wait =
      let r = kep_wait_handler_base_station type_kep2_send w in
      (r.0, after_wait kep1_send kep1_wait kep3_verify r.1)
  kep_continue_base_station w kep3_verify =
      let r = kep3_verify_handler_base_station w in (r.0, choose r.1 kep3_compute kep1_send)
  kep_continue_base_station w kep3_compute =
      let r = kep3_compute_handler_base_station w in (r.0, choose r.1 kep3_send kep3_compute)
  kep_continue_base_station w kep3_send =
      let r = kep_send_handler env kep3_message_bytes w in (r.0, choose r.1 kep3_wait kep_idle)
  kep_continue_base_station w kep3_wait =
      let r = kep_wait_handler_base_station type_kep4_send w in
      (r.0, after_wait kep3_send kep3_wait kep5_verify r.1)
  kep_continue_base_station w kep5_verify =
      let r = kep5_verify_handler_base_station w in (r.0, choose r.1 done_state kep3_send)
  kep_continue_base_station w _ = (w, kep_idle)
