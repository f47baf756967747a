-- ===== src/Sm/SessionRes/Replay.antt =====
-- What src/sm/enc_dec.c and src/sm/session_res_sm.c make together of a message that arrives again.
use Prim.Native.Nat.{bit_and}
use remote_drone.Base.{
  ◌≢◌, Bool, ◌||◌, not, ℕ, ◌-◌, ◌==◌, true, ◌&&◌, ◌⊎◌, inl, inr, some, ◌≡◌, refl, sym, ◌∙◌, ap,
  arith, Bool-cases, if◌then◌else◌,
}
use remote_drone.General.Compare.{equal_arrays}
use remote_drone.Sm.Decode.{type_of, bytes_at, expected_seq_nb, check_received_message}
use remote_drone.Sm.Decode.Checks.{check_received_message-repeated}
use remote_drone.Sm.Params.{
  type_kep1_send, type_kep2_send, type_feed_send, type_comm_send, type_stat_send, type_alive_send,
  field_target_nb, field_header_nb, aegis_mac_nb,
}
use remote_drone.Sm.SeqNb.{add_mult_seq_nb}
use remote_drone.Sm.SeqNb.Ring.{IsSeqNb}
use remote_drone.Sm.SessionInfo.{
  MessCtx, is_valid, is_repeated, message_repeated, mess_idle, mess_react, mess_ack, mess_verify,
}
use remote_drone.Sm.SessionReq.{decrypt_received}
use remote_drone.Sm.SessionRes.{mess_idle_handler_res, mess_verify_handler_res, mess_res_continue}
use remote_drone.Sm.World.{Environment, World, mark, received}

-- The types whose machines number their messages one by one.
abbrev pub IsInSequence : ℕ → Type 0
IsInSequence type = (type ≡ type_comm_send) ⊎ ((type ≡ type_stat_send) ⊎ (type ≡ type_alive_send))

-- Whether the received message has a right MAC under the session key.
unfoldable pub opens : Environment → World → Bool
opens env w =
    (decrypt_received env field_header_nb ((received w).length_num - field_header_nb - aegis_mac_nb)
      w).1

module _ (env : Environment) where
  -- The machine expects the number behind that of a message that it took.
  pub verify-expects :
      (w : World) (ctx : MessCtx)
      → (mess_res_continue env w ctx mess_verify).1 ≡ mess_react
      → (mess_res_continue env w ctx mess_verify).0.ctx.expected_sequence_nb
        ≡ add_mult_seq_nb (received w).seq_nb_num 1
  unfolding mess_res_continue mess_verify_handler_res opens
  verify-expects w ctx =
      let status = (received w).message_status in
      elim (Bool-cases (opens env w)) [
        | inl o ↦ elim (Bool-cases (is_valid status)) [
          | inl v ↦ rw (o, v) (λ h. refl)
          | inr v ↦ elim (Bool-cases ctx.needs_acknowledge) [
            | inl a ↦ rw (o, v, a) (λ h. cc)
            | inr a ↦ rw (o, v, a) (λ h. cc)
          ]
        ]
        | inr o ↦ elim (Bool-cases (not ctx.needs_acknowledge || is_repeated status)) [
          | inl a ↦ rw (o, a) (λ h. cc)
          | inr a ↦ rw (o, a) (λ h. cc)
        ]
      ]

  -- The two steps of the machine at a repeated message.
  repeated-steps :
      (u : World) (ctx : MessCtx)
      → type_of (received u) ≡ ctx.send_type
      → let first = mess_res_continue env (mark message_repeated u) ctx mess_idle in
        let second = mess_res_continue env first.0.world first.0.ctx first.1 in
        (second.0.world.written ≡ u.written)
        × (second.0.ctx ≡ ctx)
        × (second.1 ≡ (if opens env u && ctx.needs_acknowledge then mess_ack else mess_idle))
  unfolding mess_res_continue mess_idle_handler_res mess_verify_handler_res opens decrypt_received
  repeated-steps u ctx t =
      let same : (type_of (received u) == ctx.send_type) ≡ true = ground arith in
      elim (Bool-cases (opens env u)) [
        | inl o ↦ elim (Bool-cases ctx.needs_acknowledge) [
          | inl a ↦ rw (same, o, a) (refl, refl, refl)
          | inr a ↦ rw (same, o, a) (refl, refl, refl)
        ]
        | inr o ↦ elim (Bool-cases ctx.needs_acknowledge) [
          | inl a ↦ rw (same, o, a) (refl, refl, refl)
          | inr a ↦ rw (same, o, a) (refl, refl, refl)
        ]
      ]

  -- A message that the responding machine took is not taken again. `w` is the world and `ctx` the
  -- context in which the machine took it, that is, went from MESS_verify to MESS_react. A message
  -- with the same sequence number, for us and of the type of a command, a status or an alive request,
  -- arrives again in the world `u`, whose session has the number expected that was left then, and
  -- `checkReceivedMessage` and two steps of the machine from MESS_idle, with a context for that type,
  -- follow. Nothing is written and the context stays as it is. If the message has a right MAC and the
  -- machine acknowledges, it is acknowledged again; else the machine is idle.
  pub mess_res_continue-replay :
      (w u : World) (ctx again : MessCtx)
      → (mess_res_continue env w ctx mess_verify).1 ≡ mess_react
      → IsSeqNb (received w).seq_nb_num
      → (received u).seq_nb_num ≡ (received w).seq_nb_num
      → IsInSequence (type_of (received u))
      → type_of (received u) ≡ again.send_type
      → equal_arrays (bytes_at (received u) (received u).target_id) u.session.own_id field_target_nb
        ≡ true
      → expected_seq_nb (type_of (received u)) u.session
        ≡ some (mess_res_continue env w ctx mess_verify).0.ctx.expected_sequence_nb
      → let checked = check_received_message u in
        let first = mess_res_continue env checked again mess_idle in
        let second = mess_res_continue env first.0.world first.0.ctx first.1 in
        (second.0.world.written ≡ u.written)
        × (second.0.ctx ≡ again)
        × (second.1 ≡ (if opens env u && again.needs_acknowledge then mess_ack else mess_idle))
  mess_res_continue-replay w u ctx again taken numbered same_nb kind type ours expected =
      let next : expected_seq_nb (type_of (received u)) u.session
          ≡ some (add_mult_seq_nb (received u).seq_nb_num 1) =
        expected
        ∙ ap (λ (n : ℕ). some n)
            (verify-expects w ctx taken ∙ ap (λ (n : ℕ). add_mult_seq_nb n 1) (sym same_nb)) in
      let plain = ordinary (type_of (received u)) kind in
      rw
        (check_received_message-repeated u ours (rw same_nb numbered) plain.0 plain.1 plain.2
          plain.3 next)
        (repeated-steps u again type)
    where
      ordinary :
          (type : ℕ)
          → IsInSequence type
          → (type ≢ type_kep1_send)
            × (type ≢ type_kep2_send)
            × (type ≢ type_feed_send)
            × (bit_and type 0x03 ≡ 0)
      ordinary type (inl e) = rw e (omega arith, omega arith, omega arith, refl)
      ordinary type (inr (inl e)) = rw e (omega arith, omega arith, omega arith, refl)
      ordinary type (inr (inr e)) = rw e (omega arith, omega arith, omega arith, refl)
