-- ===== src/Sm/SessionReq/Retransmission.antt =====
-- The bound on retransmissions in src/sm/session_req_sm.c.
use remote_drone.Base.{
  ◌+◌, ◌≤◌, ◌<◌, Bool, true, false, leb, ◌≡◌, ◌⊎◌, refl, arith, if◌then◌else◌, Bool-cases, inl, inr,
}
use remote_drone.Sm.Params.{session_max_retransmissions}
use remote_drone.Sm.SessionInfo.{
  MessCtx, MessState, clear_session, mess_idle, mess_encrypt, mess_send, mess_wait, mess_verify,
  mess_react, mess_ack, mess_nack,
}
use remote_drone.Sm.SessionReq.{
  mess_idle_handler_req, mess_encrypt_handler_req, mess_send_handler_req, mess_wait_handler_req,
  mess_verify_handler_req, mess_req_continue,
}
use remote_drone.Sm.World.{Environment, World, transmit_message, choose, code_of}

module _ (env : Environment) where
  send-bounded :
      (w : World) (ctx : MessCtx)
      → ctx.num_transmissions ≤ session_max_retransmissions
      → (mess_send_handler_req env w ctx).ctx.num_transmissions ≤ session_max_retransmissions
  unfolding mess_send_handler_req
  send-bounded w ctx h = ground arith

  idle-bounded :
      (w : World) (ctx : MessCtx)
      → ctx.num_transmissions ≤ session_max_retransmissions
      → (mess_idle_handler_req env w ctx).ctx.num_transmissions ≤ session_max_retransmissions
  unfolding mess_idle_handler_req
  idle-bounded w ctx h = ground arith

  wait-bounded :
      (w : World) (ctx : MessCtx)
      → ctx.num_transmissions ≤ session_max_retransmissions
      → (mess_wait_handler_req env w ctx).ctx.num_transmissions ≤ session_max_retransmissions
  unfolding mess_wait_handler_req
  wait-bounded w ctx h = ground arith

  encrypt-bounded :
      (w : World) (ctx : MessCtx)
      → (mess_encrypt_handler_req env w ctx).ctx.num_transmissions ≤ session_max_retransmissions
  unfolding mess_encrypt_handler_req
  encrypt-bounded w ctx = omega arith

  verify-bounded :
      (w : World) (ctx : MessCtx)
      → ctx.num_transmissions ≤ session_max_retransmissions
      → (mess_verify_handler_req env w ctx).ctx.num_transmissions ≤ session_max_retransmissions
  unfolding mess_verify_handler_req
  verify-bounded w ctx h = ground arith

  -- Whatever the world and the state, a step of the requesting machine keeps the number of
  -- transmissions of the message within SESSION_MAX_RETRANSMISSIONS.
  pub mess_req_continue-bounded :
      (w : World) (ctx : MessCtx) (s : MessState)
      → ctx.num_transmissions ≤ session_max_retransmissions
      → (mess_req_continue env w ctx s).0.ctx.num_transmissions ≤ session_max_retransmissions
  unfolding mess_req_continue
  mess_req_continue-bounded w ctx mess_idle h = idle-bounded w ctx h
  mess_req_continue-bounded w ctx mess_encrypt h = encrypt-bounded w ctx
  mess_req_continue-bounded w ctx mess_send h = send-bounded w ctx h
  mess_req_continue-bounded w ctx mess_wait h = wait-bounded w ctx h
  mess_req_continue-bounded w ctx mess_verify h = verify-bounded w ctx h
  mess_req_continue-bounded w ctx mess_react h = h
  mess_req_continue-bounded w ctx mess_ack h = h
  mess_req_continue-bounded w ctx mess_nack h = h

  -- In the state MESS_send the machine does one of two things, by the number of transmissions. At
  -- SESSION_MAX_RETRANSMISSIONS or more it sends nothing, leaves the context as it is, asks for the
  -- session to be cleared, and is idle. Below, it transmits the cached message once, counts that and
  -- notes the time, and goes on to wait if it needs an acknowledgement.
  pub mess_req_continue-send :
      (w : World) (ctx : MessCtx)
      → let r = mess_req_continue env w ctx mess_send in
        let sent = transmit_message env ctx.cached_message ctx.send_length w in
        ((session_max_retransmissions ≤ ctx.num_transmissions)
          × (r.0.world.socket ≡ w.socket)
          × (r.0.ctx ≡ ctx)
          × (r.0.world.session.state.system_state ≡ clear_session)
          × (r.1 ≡ mess_idle))
        ⊎ ((ctx.num_transmissions < session_max_retransmissions)
            × (r.0.world.socket ≡ sent.socket)
            × (r.0.ctx.num_transmissions ≡ ctx.num_transmissions + 1)
            × (r.0.ctx.time_of_transmission ≡ env.micro_time sent.times_read)
            × (r.0.world.session.state.system_state ≡ w.session.state.system_state)
            × (r.1 ≡ (if ctx.needs_acknowledge then mess_wait else mess_idle)))
  unfolding mess_req_continue mess_send_handler_req
  mess_req_continue-send w ctx =
      elim (Bool-cases (leb session_max_retransmissions ctx.num_transmissions)) [
        | inl x ↦ inl (ground arith, rw x refl, rw x refl, rw x refl, rw x refl)
        | inr x ↦ inr (
          ground arith,
          rw x refl,
          rw x refl,
          rw x refl,
          rw x (unfold transmit_message in refl),
          rw x (waits ctx.needs_acknowledge),
        )
      ]
    where
      waits :
          (b : Bool) → choose (code_of b) mess_wait mess_idle ≡ (if b then mess_wait else mess_idle)
      waits true = refl
      waits false = refl
