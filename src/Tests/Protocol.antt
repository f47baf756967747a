-- ===== src/Tests/Protocol.antt =====
-- Tests of the protocol layer on a session between two checks, with toy cryptography.
use remote_drone.Base.{
  ℕ, zero, suc, All, ◌≢◌, ◌<◌, true, false, not, ◌==◌, List, [], ◌∷◌, ◌++◌, ◌≡◌, ◌↔◌, refl, arith,
  none, some, replicate,
}
use remote_drone.Sm.Params.{type_comm_send, max_missed_seq_nbs}
use remote_drone.Sm.SeqNb.{diff_seq_nb}
use remote_drone.Sm.Encode.Layout.{header}
use remote_drone.Sm.SessionInfo.{
  done_state, mess_idle, session_ready, message_valid, is_valid, KepCtx, MessCtx, DecodedMessage,
  SessionInfo,
}
use remote_drone.Sm.UdpIo.{init_io_ctx}
use remote_drone.Sm.VideoBuffer.{
  Slot, VideoBuffer, best, search_loop, flush_video_buffer, copy_video_buffer, remove_bad_messages,
}
use remote_drone.Sm.VideoBuffer.Count.{count_unused, IsConsistent, copy_video_buffer-IsConsistent}
use remote_drone.Sm.VideoBuffer.Order.{Copied, flush_video_buffer-in_order}
use remote_drone.Sm.VideoBuffer.Forced.{search_loop-last}
use remote_drone.Sm.World.{World, received}
use remote_drone.Sm.Decode.{outside_window, check_received_message, poll_and_decode}
use remote_drone.Sm.Decode.Window.{outside_window_iff}
use remote_drone.Sm.Decode.Checks.{IsAcceptable, check_received_message_iff}
use remote_drone.Sm.Decode.Slots.{poll_and_decode-IsConsistent}

outside_window_iff_example :
    (outside_window 0xFFFFFFF0 20 ≡ false) ↔ (diff_seq_nb 0xFFFFFFF0 20 < max_missed_seq_nbs)
outside_window_iff_example = outside_window_iff 0xFFFFFFF0 20 (omega arith) (omega arith)

abbrev pub target_bytes : List ℕ
target_bytes = 1 ∷ 2 ∷ 3 ∷ 4 ∷ 5 ∷ 6 ∷ 7 ∷ 8 ∷ []

abbrev pub iv_bytes : List ℕ
iv_bytes = replicate 16 42

-- A command message numbered 9, as the decoder leaves it.
abbrev pub command : DecodedMessage
command = record {
  message = header type_comm_send 52 target_bytes 9 iv_bytes ++ replicate 20 0;
  iv = some 4;
  target_id = some 20;
  seq_nb = some 28;
  ack_seq_nb = none;
  curve_point = none;
  data_field = some 32;
  mac = some 36;
  length_num = 52;
  seq_nb_num = 9;
  ack_seq_nb_num = 0;
  message_status = message_valid;
}

abbrev pub blank_ctx : MessCtx
blank_ctx = record {
  send_type = type_comm_send;
  ack_type = 0x42;
  nack_type = 0x41;
  send_length = 52;
  nack_length = 52;
  ack_length = 52;
  needs_acknowledge = true;
  time_of_transmission = 0;
  num_transmissions = 0;
  sequence_nb = 8;
  expected_sequence_nb = 9;
  cached_message = replicate 60 0;
}

abbrev pub blank_kep : KepCtx
blank_kep = record {
  scalar = replicate 8 0;
  generated_point_xy = replicate 16 0;
  received_point_xy = replicate 16 0;
  signature = replicate 16 0;
  kep_active = false;
  time_of_transmission = 0;
  num_transmissions = 0;
  sequence_nb = 5;
  expected_sequence_nb = 6;
  cached_message = replicate 176 0;
}

abbrev pub command_session : SessionInfo
command_session = record {
  aegis_iv = iv_bytes;
  session_key = replicate 16 3;
  io = init_io_ctx;
  state = record {
    system_state = session_ready;
    kep_state = done_state;
    comm_state = mess_idle;
    stat_state = mess_idle;
    feed_state = mess_idle;
    req_alive_state = mess_idle;
    res_alive_state = mess_idle;
  };
  received_message = command;
  kep = blank_kep;
  comm = blank_ctx;
  stat = blank_ctx;
  feed = blank_ctx;
  alive_req = blank_ctx;
  alive_res = blank_ctx;
  target_id = target_bytes;
  own_id = target_bytes;
}

-- Nine free places, and a message with the number 11.
abbrev pub one_waiting : VideoBuffer
one_waiting = record {
  slots =
      record { is_used = true; kept = record command { seq_nb_num = 11 } }
      ∷ replicate 9 (record { is_used = false; kept = command });
  nb_free_places = 9;
}

one_waiting-IsConsistent : IsConsistent one_waiting
unfolding count_unused
one_waiting-IsConsistent = (refl, refl)

abbrev pub command_world : World
command_world = record {
  session = command_session;
  video = one_waiting;
  socket = record { buf = []; calls = 0; sent = [] };
  packets = (1 ∷ 2 ∷ 0xAA ∷ []) ∷ [];
  times_read = 0;
  randoms_read = 0;
  inputs_read = 0;
  written = [];
  last_check = 0;
}

check_received_message_iff_example :
    (is_valid (received (check_received_message command_world)).message_status ≡ true)
    ↔ IsAcceptable command_world
check_received_message_iff_example = check_received_message_iff command_world (omega arith) refl

poll_and_decode-IsConsistent_example : IsConsistent (poll_and_decode command_world).video
poll_and_decode-IsConsistent_example =
    poll_and_decode-IsConsistent command_world one_waiting-IsConsistent

flush_video_buffer-in_order_example :
    Copied (λ m. m.seq_nb_num ≡ 11) (flush_video_buffer 11 false one_waiting).0
flush_video_buffer-in_order_example = flush_video_buffer-in_order 11 one_waiting

copy_video_buffer-IsConsistent_example :
    let cleaned = remove_bad_messages 9 one_waiting in
    let r = copy_video_buffer 9 command one_waiting in
    IsConsistent r.1 × (r.0 ≡ not (cleaned.nb_free_places == 0))
copy_video_buffer-IsConsistent_example =
    copy_video_buffer-IsConsistent 9 command one_waiting one_waiting-IsConsistent

-- A stand-in for the AES round, and an environment with a clock and an input of two bytes.
none_used :
    (n : ℕ)
    → All
        (λ (slot : Slot). slot.is_used ≡ true → slot.kept.seq_nb_num ≢ 9)
        (replicate n (record { is_used = false; kept = command }))
none_used zero = tt
none_used (suc n) = ((λ u. ground arith), none_used n)

-- The last slot holds the number 12, which comes after the 11 of the first.
search_loop-last_example :
    search_loop 9 true
      (one_waiting.slots
        ++ record { is_used = true; kept = record command { seq_nb_num = 12 } } ∷ [])
      0
      none
    ≡ best (some 10)
search_loop-last_example =
    search_loop-last 9 0 one_waiting.slots
      (record { is_used = true; kept = record command { seq_nb_num = 12 } }) none
      ((λ _. omega arith), none_used 9) refl (omega arith)
