-- ===== src/Sm/Decode.antt =====
-- `pollAndDecode` and `checkReceivedMessage` of src/sm/enc_dec.c (RELIABLE_FEED is 0).
pub mod Window
pub mod Checks
pub mod Slots
pub mod Arrival
use Prim.Native.Nat.{bit_and}
use remote_drone.Base.{
  ℕ, ◌+◌, ◌-◌, Bool, true, false, ◌&&◌, ◌||◌, not, List, Option, none, some, get_or, drop, ltb, leb,
  ◌==◌, if◌then◌else◌,
}
use remote_drone.General.Compare.{equal_arrays}
use remote_drone.General.Endian.{little_endian_to_num}
use remote_drone.Sm.Params.{
  type_kep1_send, type_kep2_send, type_kep3_send, type_kep4_send, type_comm_send, type_comm_ack,
  type_comm_nack, type_stat_send, type_stat_ack, type_stat_nack, type_feed_send, type_feed_ack,
  type_feed_nack, type_alive_send, type_alive_ack, type_alive_nack, kep1_message_bytes,
  kep2_message_bytes, kep3_message_bytes, kep4_message_bytes, min_message_bytes,
  session_ack_message_bytes, session_nack_message_bytes, max_message_nb, max_missed_seq_nbs,
  field_type_nb, field_length_nb, field_target_nb, field_seq_nb_nb, field_curvepoint_nb,
  aegis_iv_nb, aegis_mac_nb,
}
use remote_drone.Sm.SeqNb.{add_mult_seq_nb}
use remote_drone.Sm.SessionInfo.{
  SessionInfo, DecodedMessage, message_valid, message_repeated, message_invalid,
  message_checks_failed, message_incomplete, channel_empty, channel_inconsistent, is_incomplete,
  is_inconsistent,
}
use remote_drone.Sm.UdpIo.{reset_cont_io_ctx, receive}
use remote_drone.Sm.VideoBuffer.{copy_video_buffer, clear_video_buffer, flush_video_buffer}
use remote_drone.Sm.World.{World, mark, received}

-- The type byte of a message.
abbrev pub type_of : DecodedMessage → ℕ
type_of m = get_or m.message 0 0

-- The bytes that a field points to; NULL is read as no bytes.
abbrev pub bytes_at : DecodedMessage → Option ℕ → List ℕ
bytes_at m (some i) = drop i m.message
bytes_at m none = drop (max_message_nb + 1) m.message

-- `message->messageStatus` of a copy forced or not, where a message was copied.
abbrev pub load : Option DecodedMessage → World → World
load none w = w
load (some m) w = record w { session = record w.session { received_message = m } }

-- The `switch` of `checkReceivedMessage` for the expected sequence number.
unfoldable pub expected_seq_nb : ℕ → SessionInfo → Option ℕ
expected_seq_nb type session =
    let machine = bit_and type 0xE0 in
    if machine == bit_and type_kep1_send 0xE0
    then some session.kep.expected_sequence_nb
    else if machine == bit_and type_comm_send 0xE0
    then some session.comm.expected_sequence_nb
    else if machine == bit_and type_stat_send 0xE0
    then some session.stat.expected_sequence_nb
    else if machine == bit_and type_feed_send 0xE0
    then some session.feed.expected_sequence_nb
    else if machine == bit_and type_alive_send 0xE0
    then some session.alive_res.expected_sequence_nb
    else none

-- The sequence numbers that the branch for video feed refuses.
unfoldable pub outside_window : ℕ → ℕ → Bool
outside_window expected seq_nb =
    let max_seq_nb = add_mult_seq_nb expected max_missed_seq_nbs in
    (ltb max_seq_nb expected && (ltb seq_nb expected && leb max_seq_nb seq_nb))
    || (ltb expected max_seq_nb && not (leb expected seq_nb && ltb seq_nb max_seq_nb))

-- `if (... && flushVideoBuffer(session, 1)) return;`, else the message is set invalid.
abbrev pub forced : Option DecodedMessage → World → World
forced none w = mark message_invalid w
forced (some m) w = load (some m) w

-- The end of that branch: the message goes to the buffer.
unfoldable pub reorder : World → World
reorder w =
    let expected = w.session.feed.expected_sequence_nb in
    let copied = copy_video_buffer expected (received w) w.video in
    let flushed = flush_video_buffer expected true copied.1 in
    if not copied.0
    then record w { video = clear_video_buffer copied.1 }
    else if copied.1.nb_free_places == 0
    then forced flushed.0 (record w { video = flushed.1 })
    else mark message_invalid (record w { video = copied.1 })

-- The branch for video feed.
unfoldable pub check_feed : ℕ → World → World
check_feed expected w =
    if outside_window expected (received w).seq_nb_num
    then reorder (mark message_checks_failed w)
    else if (received w).seq_nb_num == expected
    then w
    else reorder w

-- The branches behind the `switch`.
unfoldable pub check_expected : Option ℕ → World → World
check_expected none w = mark message_checks_failed w
check_expected (some expected) w =
    let m = received w in
    if type_of m == type_feed_send
    then check_feed expected w
    else if not (bit_and (type_of m) 0x03 == 0)
    then w
    else if m.seq_nb_num == expected
    then w
    else if add_mult_seq_nb m.seq_nb_num 1 == expected
    then mark message_repeated w
    else mark message_checks_failed w

-- `checkReceivedMessage`.
unfoldable pub check_received_message : World → World
check_received_message w =
    let m = received w in
    if not (equal_arrays (bytes_at m m.target_id) w.session.own_id field_target_nb)
      || m.seq_nb_num == 0
    then mark message_checks_failed w
    else if type_of m == type_kep1_send || type_of m == type_kep2_send
    then w
    else check_expected (expected_seq_nb (type_of m) w.session) w

-- The fields that the `switch` of `pollAndDecode` sets.
pub record Fields : Type 0 where
  pub iv : Option ℕ
  pub target_id : Option ℕ
  pub seq_nb : Option ℕ
  pub ack_seq_nb : Option ℕ
  pub curve_point : Option ℕ
  pub data_field : Option ℕ
  pub mac : Option ℕ

abbrev after_length : ℕ
after_length = field_type_nb + field_length_nb

abbrev after_iv : ℕ
after_iv = after_length + aegis_iv_nb

abbrev after_seq_nb : ℕ
after_seq_nb = after_iv + field_target_nb + field_seq_nb_nb

-- A message with an IV: the fields behind the sequence number differ.
abbrev pub with_iv : Option ℕ → Option ℕ → Option ℕ → ℕ → Fields
with_iv ack_seq_nb curve_point data_field length_num = record {
  iv = some after_length;
  target_id = some after_iv;
  seq_nb = some (after_iv + field_target_nb);
  ack_seq_nb = ack_seq_nb;
  curve_point = curve_point;
  data_field = data_field;
  mac = some (length_num - aegis_mac_nb);
}

-- KEP1 has no IV and no MAC.
abbrev kep1_fields : Fields
kep1_fields = record {
  iv = none;
  target_id = some after_length;
  seq_nb = some (after_length + field_target_nb);
  ack_seq_nb = none;
  curve_point = some (after_length + field_target_nb + field_seq_nb_nb);
  data_field = none;
  mac = none;
}

abbrev is_one_of : ℕ → ℕ → ℕ → ℕ → ℕ → Bool
is_one_of type a b c d = type == a || type == b || type == c || type == d

-- That `switch`; `none` stands for a return with the status invalid.
unfoldable pub fields_of : ℕ → ℕ → Option Fields
fields_of type length_num =
    if type == type_kep1_send
    then if length_num == kep1_message_bytes then some kep1_fields else none
    else if type == type_kep2_send
    then if length_num == kep2_message_bytes
      then some
          (with_iv none (some after_seq_nb) (some (after_seq_nb + field_curvepoint_nb)) length_num)
      else none
    else if type == type_kep3_send
    then if length_num == kep3_message_bytes
      then some (with_iv none none (some after_seq_nb) length_num)
      else none
    else if type == type_kep4_send
    then if length_num == kep4_message_bytes
      then some (with_iv (some after_seq_nb) none none length_num)
      else none
    else if is_one_of type type_comm_send type_stat_send type_feed_send type_alive_send
    then if ltb length_num min_message_bytes
      then none
      else some (with_iv none none (some after_seq_nb) length_num)
    else if is_one_of type type_comm_ack type_stat_ack type_feed_ack type_alive_ack
    then if length_num == session_ack_message_bytes
      then some (with_iv (some after_seq_nb) none none length_num)
      else none
    else if is_one_of type type_comm_nack type_stat_nack type_feed_nack type_alive_nack
    then if length_num == session_nack_message_bytes
      then some (with_iv (some after_seq_nb) none none length_num)
      else none
    else none

-- The numbers read from the fields; one that points nowhere keeps its old number.
unfoldable pub assign_fields : Fields → DecodedMessage → DecodedMessage
assign_fields f m = record m {
  iv = f.iv;
  target_id = f.target_id;
  seq_nb = f.seq_nb;
  ack_seq_nb = f.ack_seq_nb;
  curve_point = f.curve_point;
  data_field = f.data_field;
  mac = f.mac;
  seq_nb_num = read f.seq_nb m.seq_nb_num;
  ack_seq_nb_num = read f.ack_seq_nb m.ack_seq_nb_num;
}
  where
    read : Option ℕ → ℕ → ℕ
    read (some i) old = little_endian_to_num (drop i m.message) field_seq_nb_nb
    read none old = old

abbrev pub decoded : Option Fields → DecodedMessage → World → World
decoded none m w = mark message_invalid (load (some m) w)
decoded (some f) m w = check_received_message (load (some (assign_fields f m)) w)

-- `pollAndDecode` from "Message is valid until stated otherwise" on.
unfoldable pub decode : World → World
decode w =
    let m : DecodedMessage = record (received w) {
      message_status = message_valid;
      length_num = little_endian_to_num (drop field_type_nb (received w).message) field_length_nb;
    } in
    decoded (fields_of (type_of m) m.length_num) m w

-- `pollAndDecode`.
unfoldable pub poll_and_decode : World → World
poll_and_decode w =
    let session = w.session in
    let status = (received w).message_status in
    let io = if is_incomplete status then session.io else reset_cont_io_ctx session.io in
    let r = receive io (received w).message (max_message_nb + 1) true w.packets in
    let arrived : World = record w {
      session = record session {
        io = r.io;
        received_message = record session.received_message { message = r.result };
      };
      packets = r.packets;
    } in
    let flushed = flush_video_buffer session.feed.expected_sequence_nb false w.video in
    if r.io.end_of_message
    then if is_inconsistent status then mark message_invalid arrived else decode arrived
    else if r.nb_received == 0
    then if is_inconsistent status
      then arrived
      else load flushed.0 (record (mark channel_empty arrived) { video = flushed.1 })
    else if r.nb_received == max_message_nb + 1
    then mark channel_inconsistent arrived
    else mark message_incomplete arrived
