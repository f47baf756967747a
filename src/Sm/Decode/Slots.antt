-- ===== src/Sm/Decode/Slots.antt =====
-- The reordering buffer stays well formed under `pollAndDecode` of src/sm/enc_dec.c.
use Prim.Native.Nat.{bit_and}
use remote_drone.General.Compare.{equal_arrays}
use remote_drone.Sm.Params.{
  type_kep1_send, type_kep2_send, type_feed_send, field_target_nb, max_message_nb,
}
use remote_drone.Sm.SeqNb.{add_mult_seq_nb}
use remote_drone.Sm.UdpIo.{reset_cont_io_ctx, receive}
use remote_drone.Base.{
  ℕ, ◌+◌, true, false, ◌||◌, not, Option, none, some, ◌==◌, if-keeps, if◌then◌else◌,
}
use remote_drone.Sm.SessionInfo.{
  DecodedMessage, MessageStatus, message_checks_failed, message_invalid, message_repeated,
  message_incomplete, channel_empty, channel_inconsistent, is_incomplete, is_inconsistent,
}
use remote_drone.Sm.World.{World, mark, received}
use remote_drone.Sm.VideoBuffer.{
  VideoBuffer, copy_video_buffer, flush_video_buffer, clear_video_buffer,
}
use remote_drone.Sm.VideoBuffer.Count.{
  IsConsistent, flush_video_buffer-IsConsistent, copy_video_buffer-IsConsistent,
  clear_video_buffer-IsConsistent,
}
use remote_drone.Sm.Decode.{
  Fields, assign_fields, expected_seq_nb, outside_window, type_of, bytes_at, load, forced, decoded,
  reorder, check_feed, check_expected, check_received_message, decode, poll_and_decode,
}

IsOrdered : World → Type 0
IsOrdered w = IsConsistent w.video

mark-IsOrdered : (s : MessageStatus) (w : World) → IsOrdered w → IsOrdered (mark s w)
unfolding IsOrdered
mark-IsOrdered s w h = h

load-IsOrdered : (o : Option DecodedMessage) (w : World) → IsOrdered w → IsOrdered (load o w)
unfolding IsOrdered
load-IsOrdered none w h = h
load-IsOrdered (some m) w h = h

forced-IsOrdered : (o : Option DecodedMessage) (w : World) → IsOrdered w → IsOrdered (forced o w)
unfolding IsOrdered
forced-IsOrdered none w h = h
forced-IsOrdered (some m) w h = h

replaced : (v : VideoBuffer) (w : World) → IsConsistent v → IsOrdered (record w { video = v })
unfolding IsOrdered
replaced v w h = h

consistent : (w : World) → IsOrdered w → IsConsistent w.video
unfolding IsOrdered
consistent w h = h

reorder-IsOrdered : (w : World) → IsOrdered w → IsOrdered (reorder w)
unfolding reorder
reorder-IsOrdered w h =
    let expected = w.session.feed.expected_sequence_nb in
    let copied = copy_video_buffer expected (received w) w.video in
    let flushed = flush_video_buffer expected true copied.1 in
    let c : IsConsistent copied.1 =
      (copy_video_buffer-IsConsistent expected (received w) w.video (consistent w h)).0 in
    let f : IsConsistent flushed.1 = flush_video_buffer-IsConsistent expected true copied.1 c in
    if-keeps IsOrdered (not copied.0)
      (replaced (clear_video_buffer copied.1) w (clear_video_buffer-IsConsistent copied.1 c))
      (if-keeps IsOrdered (copied.1.nb_free_places == 0)
        (forced-IsOrdered flushed.0 _ (replaced flushed.1 w f))
        (mark-IsOrdered message_invalid _ (replaced copied.1 w c)))

check_feed-IsOrdered : (e : ℕ) (w : World) → IsOrdered w → IsOrdered (check_feed e w)
unfolding check_feed
check_feed-IsOrdered e w h =
    if-keeps IsOrdered (outside_window e (received w).seq_nb_num)
      (reorder-IsOrdered _ (mark-IsOrdered message_checks_failed w h))
      (if-keeps IsOrdered ((received w).seq_nb_num == e) h (reorder-IsOrdered w h))

check_expected-IsOrdered : (o : Option ℕ) (w : World) → IsOrdered w → IsOrdered (check_expected o w)
unfolding check_expected
check_expected-IsOrdered none w h = mark-IsOrdered message_checks_failed w h
check_expected-IsOrdered (some e) w h =
    let m = received w in
    if-keeps IsOrdered (type_of m == type_feed_send) (check_feed-IsOrdered e w h) (
      if-keeps IsOrdered (not (bit_and (type_of m) 0x03 == 0)) h (
        if-keeps IsOrdered (m.seq_nb_num == e) h (
          if-keeps IsOrdered (add_mult_seq_nb m.seq_nb_num 1 == e)
            (mark-IsOrdered message_repeated w h) (mark-IsOrdered message_checks_failed w h))))

check_received_message-IsOrdered : (w : World) → IsOrdered w → IsOrdered (check_received_message w)
unfolding check_received_message
check_received_message-IsOrdered w h =
    let m = received w in
    if-keeps IsOrdered
      (not (equal_arrays (bytes_at m m.target_id) w.session.own_id field_target_nb)
        || m.seq_nb_num == 0)
      (mark-IsOrdered message_checks_failed w h)
      (if-keeps IsOrdered (type_of m == type_kep1_send || type_of m == type_kep2_send) h
        (check_expected-IsOrdered (expected_seq_nb (type_of m) w.session) w h))

decoded-IsOrdered :
    (o : Option Fields) (m : DecodedMessage) (w : World) → IsOrdered w → IsOrdered (decoded o m w)
decoded-IsOrdered none m w h = mark-IsOrdered message_invalid _ (load-IsOrdered (some m) w h)
decoded-IsOrdered (some f) m w h =
    check_received_message-IsOrdered _ (load-IsOrdered (some (assign_fields f m)) w h)

decode-IsOrdered : (w : World) → IsOrdered w → IsOrdered (decode w)
unfolding decode
decode-IsOrdered w h = decoded-IsOrdered _ _ w h

flushed-IsOrdered :
    (w w' : World)
    → IsOrdered w
    → let f = flush_video_buffer w.session.feed.expected_sequence_nb false w.video in
      IsOrdered (load f.0 (record (mark channel_empty w') { video = f.1 }))
flushed-IsOrdered w w' h =
    let expected = w.session.feed.expected_sequence_nb in
    let f = flush_video_buffer expected false w.video in
    load-IsOrdered f.0 _ (
      replaced f.1 (mark channel_empty w')
        (flush_video_buffer-IsConsistent expected false w.video (consistent w h)))

poll_and_decode-IsOrdered : (w : World) → IsOrdered w → IsOrdered (poll_and_decode w)
unfolding poll_and_decode
poll_and_decode-IsOrdered w h =
    let session = w.session in
    let status = (received w).message_status in
    let io = if is_incomplete status then session.io else reset_cont_io_ctx session.io in
    let r = receive io (received w).message (max_message_nb + 1) true w.packets in
    let arrived : World = record w {
      session = record session {
        io = r.io;
        received_message = record session.received_message { message = r.result };
      };
      packets = r.packets;
    } in
    let ordered : IsOrdered arrived = replaced w.video arrived (consistent w h) in
    if-keeps IsOrdered r.io.end_of_message
      (if-keeps IsOrdered (is_inconsistent status) (mark-IsOrdered message_invalid arrived ordered)
        (decode-IsOrdered arrived ordered))
      (if-keeps IsOrdered (r.nb_received == 0)
        (if-keeps IsOrdered (is_inconsistent status) ordered (flushed-IsOrdered w arrived h))
        (if-keeps IsOrdered (r.nb_received == max_message_nb + 1)
          (mark-IsOrdered channel_inconsistent arrived ordered)
          (mark-IsOrdered message_incomplete arrived ordered)))

-- Whatever arrives, `pollAndDecode` leaves the number of free places in the reordering buffer right.
pub poll_and_decode-IsConsistent :
    (w : World) → IsConsistent w.video → IsConsistent (poll_and_decode w).video
poll_and_decode-IsConsistent w h =
    consistent (poll_and_decode w) (poll_and_decode-IsOrdered w (replaced w.video w h))
