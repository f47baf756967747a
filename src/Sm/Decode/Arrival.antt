-- ===== src/Sm/Decode/Arrival.antt =====
-- `pollAndDecode` of src/sm/enc_dec.c on a message that `encodeMessage` wrote for us.
use remote_drone.Base.{
  ℕ, ◌+◌, ◌-◌, ◌^◌, ◌≤◌, ◌<◌, true, false, List, ◌++◌, none, some, ◌==◌, ◌≡◌, refl, sym, ◌∙◌, arith,
  ◌⊎◌, inl, inr, length, take, take_whole, drop, ltb, length-drop, length-append, Bool-cases,
}
use remote_drone.General.Compare.{equal_arrays}
use remote_drone.General.Compare.Laws.{equal_arrays_iff}
use remote_drone.General.Endian.{little_endian_to_num}
use remote_drone.Sm.Encode.Layout.{header, header-fields, length-header}
use remote_drone.Sm.Params.{
  type_comm_send, type_stat_send, type_alive_send, field_target_nb, aegis_iv_nb, min_message_bytes,
  max_message_nb,
}
use remote_drone.Sm.SessionInfo.{DecodedMessage, message_valid, is_inconsistent, is_incomplete}
use remote_drone.Sm.UdpIo.{receive, reset_cont_io_ctx}
use remote_drone.Sm.World.{World, received}
use remote_drone.Sm.Decode.{
  type_of, bytes_at, load, with_iv, expected_seq_nb, check_expected, check_received_message,
  fields_of, assign_fields, decode, poll_and_decode,
}

-- The requests whose machine takes them in order.
abbrev pub IsRequest : ℕ → Type 0
IsRequest type = (type ≡ type_comm_send) ⊎ ((type ≡ type_stat_send) ⊎ (type ≡ type_alive_send))

fields_of-request :
    (type nb : ℕ)
    → IsRequest type
    → min_message_bytes ≤ nb
    → fields_of type nb ≡ some (with_iv none none (some 32) nb)
unfolding fields_of
fields_of-request type nb t h =
    let long : ltb nb 48 ≡ false = ground arith in
    elim t [
      | inl a ↦ rw (a, long) refl
      | inr u ↦ elim u [ inl b ↦ rw (b, long) refl | inr c ↦ rw (c, long) refl ]
    ]

-- A request for us with the expected number stays as it is.
check-request :
    (w : World)
    → let m = received w in
      IsRequest (type_of m)
      → equal_arrays (bytes_at m m.target_id) w.session.own_id field_target_nb ≡ true
      → 0 < m.seq_nb_num
      → expected_seq_nb (type_of m) w.session ≡ some m.seq_nb_num
      → check_received_message w ≡ w
unfolding check_received_message check_expected
check-request w t own pos e =
    let numbered : ((received w).seq_nb_num == 0) ≡ false = ground arith in
    let same : ((received w).seq_nb_num == (received w).seq_nb_num) ≡ true = ground arith in
    elim t [
      | inl a ↦ rw (own, numbered, e, a) (rw same refl)
      | inr u ↦ elim u [
        | inl b ↦ rw (own, numbered, e, b) (rw same refl)
        | inr c ↦ rw (own, numbered, e, c) (rw same refl)
      ]
    ]

-- What the decoder leaves of such a message.
abbrev pub request : DecodedMessage → ℕ → ℕ → DecodedMessage
request m nb number = record m {
  iv = some 4;
  target_id = some 20;
  seq_nb = some 28;
  ack_seq_nb = none;
  curve_point = none;
  data_field = some 32;
  mac = some (nb - 16);
  length_num = nb;
  seq_nb_num = number;
  message_status = message_valid;
}

own_bytes :
    (xs own : List ℕ)
    → 8 ≤ length xs
    → length own ≡ 8
    → take 8 xs ≡ own
    → equal_arrays xs own 8 ≡ true
own_bytes xs own h k e =
    (equal_arrays_iff 8 xs own h (omega arith)).1 (e ∙ sym (take_whole 8 own (omega arith)))

decode-header :
    (w : World) (type nb number : ℕ) (target_id iv rest : List ℕ)
    → (received w).message ≡ header type nb target_id number iv ++ rest
    → IsRequest type
    → length target_id ≡ field_target_nb
    → length iv ≡ aegis_iv_nb
    → min_message_bytes ≤ nb
    → nb < 2 ^ 24
    → 0 < number
    → number < 2 ^ 32
    → w.session.own_id ≡ target_id
    → expected_seq_nb type w.session ≡ some number
    → decode w ≡ load (some (request (received w) nb number)) w
unfolding decode assign_fields expected_seq_nb
decode-header w type nb number target_id iv rest em t ht hi lo hi_nb pos hs own e =
    let m = received w in
    let f = header-fields type nb target_id number iv rest ht hi hi_nb hs in
    let found : (length m.message ≡ 32 + length rest) = rw em (
      omega (
        arith,
        length-append (header type nb target_id number iv) rest,
        length-header type nb target_id number iv ht hi,
      )) in
    let type_found : type_of m ≡ type = rw em f.0 in
    let length_found : little_endian_to_num (drop 1 m.message) 3 ≡ nb = rw em f.1 in
    let target_found : take 8 (drop 20 m.message) ≡ w.session.own_id = rw (em, own) f.3 in
    let number_found : little_endian_to_num (drop 28 m.message) 4 ≡ number = rw em f.4 in
    let loaded = load (some (request m nb number)) w in
    rw (type_found, length_found, fields_of-request type nb t lo, number_found)
      (check-request loaded (rw type_found t)
        (own_bytes (drop 20 m.message) w.session.own_id
          (omega (arith, found, length-drop 20 m.message)) (rw own ht) target_found)
        pos (rw type_found e))

-- The message ended, and no inconsistent one came before it.
poll-ended :
    (w : World)
    → let session = w.session in
      let r = receive session.io (received w).message (max_message_nb + 1) true w.packets in
      reset_cont_io_ctx session.io ≡ session.io
      → r.io.end_of_message ≡ true
      → is_inconsistent (received w).message_status ≡ false
      → poll_and_decode w
        ≡ decode (record w {
          session = record session {
            io = r.io;
            received_message = record session.received_message { message = r.result };
          };
          packets = r.packets;
        })
unfolding poll_and_decode
poll-ended w same ended fine = elim (Bool-cases (is_incomplete (received w).message_status)) [
  | inl a ↦ rw (a, ended, fine) refl
  | inr a ↦ rw (a, same, ended, fine) refl
]

-- The array, the key, the output and the decoder's fields behind `pollAndDecode`.
abbrev pub Arrived : World → World → ℕ → ℕ → List ℕ → Type 0
Arrived before after nb number message =
    ((received after).message ≡ message)
    × ((received after).iv ≡ some 4)
    × ((received after).data_field ≡ some 32)
    × ((received after).length_num ≡ nb)
    × ((received after).seq_nb_num ≡ number)
    × ((received after).message_status ≡ message_valid)
    × (after.session.session_key ≡ before.session.session_key)
    × (after.written ≡ before.written)

-- A request that ends and is for us with the expected number is decoded, whatever lies behind it.
pub poll_and_decode-header :
    (w : World) (type nb number : ℕ) (target_id iv rest : List ℕ)
    → let r = receive w.session.io (received w).message (max_message_nb + 1) true w.packets in
      reset_cont_io_ctx w.session.io ≡ w.session.io
      → r.io.end_of_message ≡ true
      → is_inconsistent (received w).message_status ≡ false
      → r.result ≡ header type nb target_id number iv ++ rest
      → IsRequest type
      → length target_id ≡ field_target_nb
      → length iv ≡ aegis_iv_nb
      → min_message_bytes ≤ nb
      → nb < 2 ^ 24
      → 0 < number
      → number < 2 ^ 32
      → w.session.own_id ≡ target_id
      → expected_seq_nb type w.session ≡ some number
      → Arrived w (poll_and_decode w) nb number (header type nb target_id number iv ++ rest)
unfolding expected_seq_nb
poll_and_decode-header w type nb number target_id iv rest same ended fine er t ht hi lo hi_nb pos hs
      own e =
    let session = w.session in
    let r = receive session.io (received w).message (max_message_nb + 1) true w.packets in
    let read : World = record w {
      session = record session {
        io = r.io;
        received_message = record session.received_message { message = r.result };
      };
      packets = r.packets;
    } in
    rw
      (
        poll-ended w same ended fine,
        decode-header read type nb number target_id iv rest er t ht hi lo hi_nb pos hs own e,
      )
      (er, refl, refl, refl, refl, refl, refl, refl)
