-- ===== src/Sm/DroneKep.antt =====
-- The key exchange on the drone, src/sm/drone_kep_sm.c.
pub mod Waiting
pub mod Authentication
use remote_drone.Base.{
  ℕ, ◌+◌, ◌/◌, Bool, true, false, ◌||◌, not, List, ◌++◌, take, ltb, ◌==◌, if◌then◌else◌, memcpy,
}
use remote_drone.General.Endian.{to_word_array, to_little_endian}
use remote_drone.Sm.Decode.{type_of, bytes_at}
use remote_drone.Sm.Encode.{encode_message}
use remote_drone.Sm.KeyExchange.{
  KeyAgreement, with_kep, kep_of, offset, curve_point_of, init_kep_ctx, kep_send_handler, seal,
}
use remote_drone.Sm.Params.{
  type_kep1_send, type_kep2_send, type_kep3_send, type_kep4_send, kep2_message_bytes,
  kep4_message_bytes, aegis_iv_nb, field_curvepoint_nb, field_sign_nb, field_seq_nb_nb, mic_per_mil,
  kep_retransmission_timeout,
}
use remote_drone.Sm.SeqNb.{add_one_seq_nb, add_mult_seq_nb}
use remote_drone.Sm.SessionInfo.{
  KepState, kep_idle, kep1_compute, kep1_send, kep1_wait, kep2_precompute, kep2_wait_request,
  kep2_compute, kep2_send, kep2_wait, kep3_verify, kep3_compute, kep3_send, kep3_wait, kep4_verify,
  kep4_compute, kep4_send, kep5_verify, done_state, message_used,
}
use remote_drone.Sm.SessionReq.{is_new, decrypt_received}
use remote_drone.Sm.World.{
  Environment, World, mark, received, Code, code_minus_1, code_0, code_1, code_2, code_3, choose,
  time_taken, random_taken, elapsed,
}

module _ (env : Environment) (keys : KeyAgreement) where
  -- `KEP_idle_handlerDrone`.
  unfoldable pub kep_idle_handler_drone : World → World × Code
  kep_idle_handler_drone w = (init_kep_ctx env w, code_1)

  -- `KEP2_precompute_handlerDrone`.
  unfoldable pub kep2_precompute_handler_drone : World → World × Code
  kep2_precompute_handler_drone w =
      let sample = keys.generate_random_sample w.randoms_read in
      (
        with_kep (record (kep_of w) { scalar = sample.0; generated_point_xy = sample.1 })
            (random_taken w),
        code_1,
      )

  -- `KEP2_wait_request_handlerDrone`.
  unfoldable pub kep2_wait_request_handler_drone : World → World × Code
  kep2_wait_request_handler_drone w =
      if is_new w
      then if type_of (received w) == type_kep1_send
        then (w, code_1)
        else (mark message_used w, code_0)
      else (w, code_0)

  -- `KEP2_compute_handlerDrone`.
  unfoldable pub kep2_compute_handler_drone : World → World × Code
  kep2_compute_handler_drone w =
      let used = mark message_used w in
      let m = received used in
      let kep = kep_of used in
      let received_point = curve_point_of m in
      let shared = keys.point_multiply kep.scalar received_point in
      let keyed : World = record used {
        session = record used.session { session_key = keys.hash_buffer (to_little_endian shared) };
      } in
      let signature =
        keys.sign keyed.randoms_read (to_little_endian (kep.generated_point_xy ++ received_point))
          keys.own_private in
      let signed = random_taken keyed in
      let iv = env.random_bytes signed.randoms_read aegis_iv_nb in
      let sequence_nb =
        if kep.kep_active then kep.sequence_nb else add_one_seq_nb kep.sequence_nb in
      let encoded =
        encode_message kep.cached_message type_kep2_send kep2_message_bytes signed.session.target_id
          sequence_nb iv in
      let with_point = memcpy encoded.0 encoded.1 (to_little_endian kep.generated_point_xy) in
      let with_signature =
        memcpy with_point (encoded.1 + field_curvepoint_nb) (to_little_endian signature) in
      let drawn = random_taken signed in
      (
        with_kep
            (record kep {
              expected_sequence_nb = add_mult_seq_nb m.seq_nb_num 1;
              received_point_xy = received_point;
              signature = signature;
              sequence_nb = sequence_nb;
              cached_message =
                  seal env signed iv with_signature (encoded.1 + field_curvepoint_nb) field_sign_nb;
              kep_active = true;
            })
            (record drawn { session = record drawn.session { aegis_iv = iv } }),
        code_1,
      )

  -- `KEP2_wait_handlerDrone`.
  unfoldable pub kep2_wait_handler_drone : World → World × Code
  kep2_wait_handler_drone w =
      let current_time = env.micro_time w.times_read in
      let elapsed_time = elapsed current_time (kep_of w).time_of_transmission / mic_per_mil in
      if is_new w
      then if type_of (received w) == type_kep3_send
        then (w, code_1)
        else if type_of (received w) == type_kep1_send
        then (mark message_used w, code_2)
        else (mark message_used w, code_minus_1)
      else if ltb kep_retransmission_timeout elapsed_time
      then (time_taken w, code_minus_1)
      else (time_taken w, code_0)

  -- `KEP4_verify_handlerDrone`.
  unfoldable pub kep4_verify_handler_drone : World → World × Code
  kep4_verify_handler_drone w =
      let used = mark message_used w in
      let d = decrypt_received env (offset (received used).data_field) field_sign_nb used in
      let m = received d.0 in
      let kep = kep_of d.0 in
      let message_to_sign =
        to_little_endian kep.received_point_xy ++ to_little_endian kep.generated_point_xy in
      let correct =
        keys.check message_to_sign keys.peer_public (to_word_array (bytes_at m m.data_field) 16) in
      if not d.1
      then (d.0, code_0)
      else if correct
      then (
        with_kep
            (record kep {
              num_transmissions = 0;
              time_of_transmission = 0;
              expected_sequence_nb = add_mult_seq_nb m.seq_nb_num 1;
            })
            d.0,
        code_1,
      )
      else (d.0, code_0)

  -- `KEP4_compute_handlerDrone`.
  unfoldable pub kep4_compute_handler_drone : World → World × Code
  kep4_compute_handler_drone w =
      let m = received w in
      let kep = kep_of w in
      let iv = env.random_bytes w.randoms_read aegis_iv_nb in
      let sequence_nb = add_one_seq_nb kep.sequence_nb in
      let encoded =
        encode_message kep.cached_message type_kep4_send kep4_message_bytes w.session.target_id
          sequence_nb iv in
      let filled = memcpy encoded.0 encoded.1 (take field_seq_nb_nb (bytes_at m m.seq_nb)) in
      let drawn = random_taken w in
      (
        with_kep
            (record kep {
              sequence_nb = sequence_nb;
              cached_message = seal env w iv filled (encoded.1 + field_seq_nb_nb) 0;
            })
            (record drawn { session = record drawn.session { aegis_iv = iv } }),
        code_1,
      )

  -- `Done_handler`.
  unfoldable pub done_handler : World → World × Code
  done_handler w =
      let used = mark message_used w in
      let d = decrypt_received env (offset (received used).data_field) field_sign_nb used in
      if not (type_of (received used) == type_kep3_send)
      then (used, code_1)
      else if not d.1
      then (d.0, code_1)
      else kep_send_handler env kep4_message_bytes d.0

  -- The `switch` on the answer of `KEP2_wait_handlerDrone`.
  abbrev pub after_kep2_wait : Code → KepState
  after_kep2_wait code_minus_1 = kep2_send
  after_kep2_wait code_0 = kep2_wait
  after_kep2_wait code_1 = kep4_verify
  after_kep2_wait code_2 = kep2_compute
  after_kep2_wait code_3 = kep_idle

  -- `kepContinueDrone`: what the handler left, and the next state.
  unfoldable pub kep_continue_drone : World → KepState → World × KepState
  kep_continue_drone w kep_idle =
      let r = kep_idle_handler_drone w in (r.0, choose r.1 kep2_precompute kep_idle)
  kep_continue_drone w kep2_precompute =
      let r = kep2_precompute_handler_drone w in (r.0, choose r.1 kep2_wait_request kep2_precompute)
  kep_continue_drone w kep2_wait_request =
      let r = kep2_wait_request_handler_drone w in (r.0, choose r.1 kep2_compute kep2_wait_request)
  kep_continue_drone w kep2_compute =
      let r = kep2_compute_handler_drone w in (r.0, choose r.1 kep2_send kep2_compute)
  kep_continue_drone w kep2_send =
      let r = kep_send_handler env kep2_message_bytes w in (r.0, choose r.1 kep2_wait kep_idle)
  kep_continue_drone w kep2_wait = let r = kep2_wait_handler_drone w in (r.0, after_kep2_wait r.1)
  kep_continue_drone w kep4_verify =
      let r = kep4_verify_handler_drone w in (r.0, choose r.1 kep4_compute kep2_send)
  kep_continue_drone w kep4_compute =
      let r = kep4_compute_handler_drone w in (r.0, choose r.1 kep4_send kep4_compute)
  kep_continue_drone w kep4_send =
      let r = kep_send_handler env kep4_message_bytes w in (r.0, choose r.1 done_state kep_idle)
  kep_continue_drone w done_state = let r = done_handler w in (r.0, choose r.1 done_state kep_idle)
  kep_continue_drone w _ = (w, kep_idle)
