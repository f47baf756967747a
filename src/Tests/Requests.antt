-- ===== src/Tests/Requests.antt =====
-- Tests of the requester of a session, and of a request on its way, with toy cryptography.
use remote_drone.Base.{
  some, ap, sym, ◌∙◌, memcpy, ◌&&◌, ◌≤◌, ◌<◌, ℕ, ◌+◌, ◌%◌, true, List, [], ◌∷◌, ◌++◌, ◌≡◌, ◌⊎◌, inl,
  refl, arith, take, get_or, replicate, if◌then◌else◌,
}
use remote_drone.Crypto.Aegis.{aegis_encrypt_message}
use remote_drone.General.Compare.{equal_arrays}
use remote_drone.General.Endian.{num_to_little_endian, le_bytes}
use remote_drone.Sm.Encode.{encode_message}
use remote_drone.Sm.Params.{field_target_nb, type_comm_send, session_max_retransmissions}
use remote_drone.Sm.SeqNb.{add_one_seq_nb, add_mult_seq_nb}
use remote_drone.Sm.SessionInfo.{
  mess_idle, mess_verify, mess_react, mess_ack, mess_wait, mess_send, clear_session, MessCtx,
}
use remote_drone.Sm.UdpIo.{init_io_ctx}
use remote_drone.Sm.World.{Environment, World, received, transmit_message, code_3}
use remote_drone.Sm.Decode.{
  type_of, bytes_at, expected_seq_nb, check_received_message, poll_and_decode,
}
use remote_drone.Sm.SessionReq.{mess_encrypt_handler_req, mess_req_continue}
use remote_drone.Sm.SessionReq.Retransmission.{mess_req_continue-send}
use remote_drone.Sm.SessionRes.{mess_verify_handler_res, mess_react_handler_res, mess_res_continue}
use remote_drone.Sm.SessionRes.Delivery.{verify-encrypt}
use remote_drone.Sm.SessionRes.Replay.{verify-expects, opens, mess_res_continue-replay}
use remote_drone.Sm.SessionReq.{mess_send_handler_req}
use remote_drone.Sm.SessionRes.Exchange.{react-send}
use remote_drone.Tests.Protocol.{command, command_session, command_world, blank_ctx}

abbrev toy_round : List ℕ → List ℕ → List ℕ
toy_round input key = replicate 16 ((get_or input 0 0 + get_or key 1 0 + 1) % 256)

abbrev toy_environment : Environment
toy_environment = record {
  aes_round = toy_round;
  accepts = λ k. true;
  micro_time = λ k. 1000 + k;
  random_bytes = λ k nb. replicate nb 42;
  check_input = λ type k size. 7 ∷ 8 ∷ [];
}

abbrev tired_ctx : MessCtx
tired_ctx = record blank_ctx { num_transmissions = 10 }

mess_req_continue-send_example :
    let r = mess_req_continue toy_environment command_world tired_ctx mess_send in
    let sent =
      transmit_message toy_environment tired_ctx.cached_message tired_ctx.send_length
        command_world in
    ((session_max_retransmissions ≤ tired_ctx.num_transmissions)
      × (r.0.world.socket ≡ command_world.socket)
      × (r.0.ctx ≡ tired_ctx)
      × (r.0.world.session.state.system_state ≡ clear_session)
      × (r.1 ≡ mess_idle))
    ⊎ ((tired_ctx.num_transmissions < session_max_retransmissions)
        × (r.0.world.socket ≡ sent.socket)
        × (r.0.ctx.num_transmissions ≡ tired_ctx.num_transmissions + 1)
        × (r.0.ctx.time_of_transmission ≡ toy_environment.micro_time sent.times_read)
        × (r.0.world.session.state.system_state ≡ command_world.session.state.system_state)
        × (r.1 ≡ (if tired_ctx.needs_acknowledge then mess_wait else mess_idle)))
mess_req_continue-send_example = mess_req_continue-send toy_environment command_world tired_ctx

-- A context with an input of two bytes behind the space of the header, and a world that got it.
abbrev full_ctx : MessCtx
full_ctx = record blank_ctx {
  send_length = 50;
  cached_message = replicate 32 0 ++ ((7 ∷ 8 ∷ []) ++ replicate 20 0);
}

abbrev arrived_world : World
arrived_world = record command_world {
  session = record command_session {
    received_message = record command {
      message =
          take 50
            (mess_encrypt_handler_req toy_environment command_world full_ctx).ctx.cached_message
          ++ 1 ∷ [];
      length_num = 50;
    };
  };
}

arrived_taken :
    (mess_res_continue toy_environment arrived_world blank_ctx mess_verify).1 ≡ mess_react
unfolding mess_res_continue add_one_seq_nb
arrived_taken =
    let accepted =
      verify-encrypt toy_environment (λ a b. refl) command_world arrived_world full_ctx blank_ctx
        (replicate 32 0) (7 ∷ 8 ∷ []) (replicate 20 0) (1 ∷ []) refl refl refl refl (omega arith)
        refl refl refl refl refl refl refl refl in
    rw accepted.0 refl

arrived_type : type_of (received arrived_world) ≡ type_comm_send
unfolding mess_encrypt_handler_req aegis_encrypt_message memcpy encode_message num_to_little_endian
arrived_type = refl

-- The same message again, once the number behind it is expected.
abbrev moved_ctx : MessCtx
moved_ctx = record blank_ctx { expected_sequence_nb = 10 }

abbrev again_world : World
again_world = record arrived_world { session = record arrived_world.session { comm = moved_ctx } }

again_target :
    equal_arrays
      (bytes_at (received again_world) (received again_world).target_id)
      again_world.session.own_id
      field_target_nb
    ≡ true
unfolding mess_encrypt_handler_req aegis_encrypt_message memcpy encode_message num_to_little_endian
    le_bytes equal_arrays
again_target = refl

again_expected :
    expected_seq_nb (type_of (received again_world)) again_world.session
    ≡ some
        (mess_res_continue toy_environment arrived_world blank_ctx
          mess_verify).0.ctx.expected_sequence_nb
again_expected =
    let moved = verify-expects toy_environment arrived_world blank_ctx arrived_taken in
    let next : expected_seq_nb type_comm_send again_world.session ≡ some (add_mult_seq_nb 9 1) =
      unfold expected_seq_nb add_mult_seq_nb in refl in
    ap (λ (type : ℕ). expected_seq_nb type again_world.session) arrived_type
    ∙ next
    ∙ ap (λ (n : ℕ). some n) (sym moved)

mess_res_continue-replay_example :
    let first =
      mess_res_continue toy_environment (check_received_message again_world) moved_ctx mess_idle in
    let second = mess_res_continue toy_environment first.0.world first.0.ctx first.1 in
    (second.0.world.written ≡ again_world.written)
    × (second.0.ctx ≡ moved_ctx)
    × (second.1 ≡ (
        if opens toy_environment again_world && moved_ctx.needs_acknowledge
        then mess_ack
        else mess_idle))
mess_res_continue-replay_example =
    mess_res_continue-replay toy_environment arrived_world again_world blank_ctx moved_ctx
      arrived_taken (omega arith) refl (inl arrived_type) arrived_type again_target again_expected

-- A peer that expects the number 9, and to which the packets come that the requester sends.
abbrev peer_world : World
peer_world = record command_world {
  session = record command_session {
    received_message = record command { message = replicate 10049 0 };
  };
  packets =
      let sealed = mess_encrypt_handler_req toy_environment command_world full_ctx in
      (mess_send_handler_req toy_environment sealed.world sealed.ctx).world.socket.sent;
}

react-send_example :
    let v = mess_verify_handler_res toy_environment (poll_and_decode peer_world) blank_ctx in
    (v.code ≡ code_3)
    × ((mess_react_handler_res toy_environment v.world v.ctx).world.written
        ≡ [] ++ ((type_comm_send, 7 ∷ 8 ∷ []) ∷ []))
unfolding add_one_seq_nb expected_seq_nb init_io_ctx
react-send_example =
    react-send toy_environment (λ a b. refl) command_world peer_world full_ctx blank_ctx
      (replicate 32 0) (7 ∷ 8 ∷ []) (replicate 20 0) 0 (λ k. refl) refl refl refl refl refl
      (omega arith) (omega arith) refl refl (omega arith) (inl refl) refl refl refl refl refl refl
      refl
