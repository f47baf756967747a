-- ===== src/Sm/Decode/Checks.antt =====
-- What `checkReceivedMessage` of src/sm/enc_dec.c accepts and refuses.
use Prim.Native.Nat.{bit_and}
use remote_drone.Base.{
  ℕ, true, false, ◌||◌, Option, none, some, ◌==◌, ◌≡◌, ◌≢◌, ◌↔◌, ◌⊎◌, inl, inr, refl, arith,
  Bool-cases,
}
use remote_drone.General.Compare.{equal_arrays}
use remote_drone.Sm.Params.{type_kep1_send, type_kep2_send, type_feed_send, field_target_nb}
use remote_drone.Sm.SeqNb.{add_mult_seq_nb}
use remote_drone.Sm.SeqNb.Ring.{IsSeqNb}
use remote_drone.Sm.SessionInfo.{is_valid, message_valid, message_repeated}
use remote_drone.Sm.World.{World, mark, received}
use remote_drone.Sm.Decode.{
  type_of, bytes_at, expected_seq_nb, check_expected, check_received_message,
}

-- The number is the one its machine expects, or the message is an ACK or a NACK of that machine.
abbrev pub IsInOrder : Option ℕ → ℕ → ℕ → Type 0
IsInOrder none type seq_nb = ⊥
IsInOrder (some expected) type seq_nb = (bit_and type 0x03 ≢ 0) ⊎ (seq_nb ≡ expected)

-- The message is for us, it is numbered, and it opens a key exchange or comes in order.
abbrev pub IsAcceptable : World → Type 0
IsAcceptable w =
    let m = received w in
    (equal_arrays (bytes_at m m.target_id) w.session.own_id field_target_nb ≡ true)
    × (m.seq_nb_num ≢ 0)
    × (((type_of m ≡ type_kep1_send) ⊎ (type_of m ≡ type_kep2_send))
        ⊎ IsInOrder (expected_seq_nb (type_of m) w.session) (type_of m) m.seq_nb_num)

check_expected_iff :
    (o : Option ℕ) (w : World)
    → type_of (received w) ≢ type_feed_send
    → (received w).message_status ≡ message_valid
    → (is_valid (received (check_expected o w)).message_status ≡ true)
      ↔ IsInOrder o (type_of (received w)) (received w).seq_nb_num
unfolding check_expected
check_expected_iff none w nf v = ground arith
check_expected_iff (some e) w nf v =
    let not_feed : (type_of (received w) == type_feed_send) ≡ false = ground arith in
    elim (Bool-cases (bit_and (type_of (received w)) 0x03 == 0)) [
      | inl a ↦ elim (Bool-cases ((received w).seq_nb_num == e)) [
        | inl b ↦ rw (not_feed, a, b, v) (λ x. inr (ground arith), λ x. refl)
        | inr b ↦ elim (Bool-cases (add_mult_seq_nb (received w).seq_nb_num 1 == e)) [
          | inl c ↦ rw (not_feed, a, b, c) (λ x. absurd (ground arith), λ x. absurd (ground arith))
          | inr c ↦ rw (not_feed, a, b, c) (λ x. absurd (ground arith), λ x. absurd (ground arith))
        ]
      ]
      | inr a ↦ rw (not_feed, a, v) (λ x. inl (ground arith), λ x. refl)
    ]

-- For any type but that of a video feed message: a message with the status valid keeps that status
-- exactly if it is acceptable.
pub check_received_message_iff :
    (w : World)
    → type_of (received w) ≢ type_feed_send
    → (received w).message_status ≡ message_valid
    → (is_valid (received (check_received_message w)).message_status ≡ true) ↔ IsAcceptable w
unfolding check_received_message
check_received_message_iff w nf v =
    let m = received w in
    elim (Bool-cases (equal_arrays (bytes_at m m.target_id) w.session.own_id field_target_nb)) [
      | inl t ↦ elim (Bool-cases (m.seq_nb_num == 0)) [
        | inl z ↦ rw (t, z) (λ x. absurd (ground arith), λ x. absurd (ground (arith, x.1)))
        | inr z ↦ elim (Bool-cases (type_of m == type_kep1_send || type_of m == type_kep2_send)) [
          | inl k ↦ rw (t, z, k, v) (λ x. (refl, ground arith, inl (ground arith)), λ x. refl)
          | inr k ↦
              let later = check_expected_iff (expected_seq_nb (type_of m) w.session) w nf v in
              rw (t, z, k)
                (
                  λ x. (refl, ground arith, inr (later.0 x)),
                  λ x. elim x.2 [ inl o ↦ absurd (ground arith) | inr o ↦ later.1 o ],
                )
        ]
      ]
      | inr t ↦ rw t (λ x. absurd (ground arith), λ x. absurd (ground (arith, x.0)))
    ]

-- A message whose machine has moved on to the number behind it (`addMultSeqNb(seqNb, 1)`), as it
-- does when it takes the message, is reported as repeated when it arrives again, never as valid. The
-- message is one for us, of a type other than KEP1, KEP2, video feed, ACK and NACK.
pub check_received_message-repeated :
    (w : World)
    → let m = received w in
      equal_arrays (bytes_at m m.target_id) w.session.own_id field_target_nb ≡ true
      → IsSeqNb m.seq_nb_num
      → type_of m ≢ type_kep1_send
      → type_of m ≢ type_kep2_send
      → type_of m ≢ type_feed_send
      → bit_and (type_of m) 0x03 ≡ 0
      → expected_seq_nb (type_of m) w.session ≡ some (add_mult_seq_nb m.seq_nb_num 1)
      → check_received_message w ≡ mark message_repeated w
unfolding check_received_message check_expected
check_received_message-repeated w t h n1 n2 nf plain e =
    let m = received w in
    let numbered : (m.seq_nb_num == 0) ≡ false = ground (arith, h.0) in
    let no_kep : (type_of m == type_kep1_send || type_of m == type_kep2_send) ≡ false =
      ground arith in
    let no_feed : (type_of m == type_feed_send) ≡ false = ground arith in
    let no_ack : (bit_and (type_of m) 0x03 == 0) ≡ true = ground arith in
    let moved : (m.seq_nb_num == add_mult_seq_nb m.seq_nb_num 1) ≡ false =
      unfold add_mult_seq_nb in (ground (arith, h.0, h.1)) in
    let same : (add_mult_seq_nb m.seq_nb_num 1 == add_mult_seq_nb m.seq_nb_num 1) ≡ true =
      ground arith in
    rw (t, numbered, no_kep, e) (rw (no_feed, no_ack, moved, same) refl)
