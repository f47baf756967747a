-- ===== src/Sm/DroneKep/Authentication.antt =====
-- The drone's key exchange (src/sm/drone_kep_sm.c) ends only behind an authenticated KEP3 message.
use remote_drone.Base.{Bool, true, false, ◌&&◌, ◌++◌, take, ◌⊎◌, inl, inr, ◌≡◌, refl, sym, ◌∙◌}
use remote_drone.Crypto.Aegis.{aegis_decrypt_message}
use remote_drone.General.Endian.{to_word_array, to_little_endian}
use remote_drone.Sm.Decode.{type_of, bytes_at}
use remote_drone.Sm.KeyExchange.Verdict.{Keeps, IsAwaited, awaited-type, branches, neither, passed}
use remote_drone.Sm.KeyExchange.{KeyAgreement, kep_of, offset, kep_send_handler}
use remote_drone.Sm.Params.{aegis_iv_nb, field_sign_nb, kep2_message_bytes, type_kep3_send}
use remote_drone.Sm.SessionInfo.{
  DecodedMessage, KepState, kep_idle, kep1_compute, kep1_send, kep1_wait, kep2_precompute,
  kep2_wait_request, kep2_compute, kep2_send, kep2_wait, kep3_verify, kep3_compute, kep3_send,
  kep3_wait, kep4_verify, kep4_compute, kep4_send, kep5_verify, done_state, message_used,
}
use remote_drone.Sm.SessionReq.{decrypt_received}
use remote_drone.Sm.World.{
  Environment, World, mark, received, Code, code_minus_1, code_0, code_1, code_2, code_3, choose,
}
use remote_drone.Sm.DroneKep.{
  after_kep2_wait, kep_idle_handler_drone, kep2_precompute_handler_drone,
  kep2_compute_handler_drone, kep2_wait_handler_drone, kep4_verify_handler_drone,
  kep_continue_drone, kep2_wait_request_handler_drone,
}
use remote_drone.Sm.DroneKep.Waiting.{IsVerifying, step-IsAwaited}

module _ (env : Environment) (keys : KeyAgreement) where
  -- The received message has a right MAC under the session key, and the signature that it hides is
  -- the peer's, on the point received in this exchange followed by the one generated.
  unfoldable pub is_authentic : World → Bool
  is_authentic w =
      let m = received w in
      let opened =
        aegis_decrypt_message env.aes_round w.session.session_key
          (take aegis_iv_nb (bytes_at m m.iv)) m.message (offset m.data_field) field_sign_nb in
      let plain : DecodedMessage = record m { message = opened.0 } in
      let points =
        to_little_endian (kep_of w).received_point_xy
        ++ to_little_endian (kep_of w).generated_point_xy in
      opened.1
      && keys.check points keys.peer_public (to_word_array (bytes_at plain plain.data_field) 16)

  verify-authentic :
      (w : World) → choose (kep4_verify_handler_drone env keys w).1 true false ≡ is_authentic w
  unfolding kep4_verify_handler_drone is_authentic decrypt_received
  verify-authentic w =
      let used = mark message_used w in
      let d = decrypt_received env (offset (received used).data_field) field_sign_nb used in
      let m = received d.0 in
      let kep = kep_of d.0 in
      let correct =
        keys.check
          (to_little_endian kep.received_point_xy ++ to_little_endian kep.generated_point_xy)
          keys.peer_public (to_word_array (bytes_at m m.data_field) 16) in
      branches d.1 correct d.0 _ d.0

  -- The states behind the verification of KEP3.
  abbrev pub IsVerified : KepState → Type 0
  IsVerified kep4_compute = Unit
  IsVerified kep4_send = Unit
  IsVerified done_state = Unit
  IsVerified _ = ⊥

  not_after_wait : (c : Code) → IsVerified (after_kep2_wait env keys c) → ⊥
  not_after_wait code_minus_1 h = h
  not_after_wait code_0 h = h
  not_after_wait code_1 h = h
  not_after_wait code_2 h = h
  not_after_wait code_3 h = h

  -- One step into a verified state starts from one, or it is an authentic message in KEP4_verify.
  step-IsVerified :
      (w : World) (s : KepState)
      → IsVerified (kep_continue_drone env keys w s).1
      → IsVerified s ⊎ ((s ≡ kep4_verify) × (is_authentic w ≡ true))
  unfolding kep_continue_drone
  step-IsVerified w kep_idle h = absurd (
      neither IsVerified (kep_idle_handler_drone env keys w).1 kep2_precompute kep_idle (λ x. x)
        (λ x. x) h)
  step-IsVerified w kep1_compute h = absurd h
  step-IsVerified w kep1_send h = absurd h
  step-IsVerified w kep1_wait h = absurd h
  step-IsVerified w kep2_precompute h = absurd (
      neither IsVerified (kep2_precompute_handler_drone env keys w).1 kep2_wait_request
        kep2_precompute (λ x. x) (λ x. x) h)
  step-IsVerified w kep2_wait_request h = absurd (
      neither IsVerified (kep2_wait_request_handler_drone env keys w).1 kep2_compute
        kep2_wait_request (λ x. x) (λ x. x) h)
  step-IsVerified w kep2_compute h = absurd (
      neither IsVerified (kep2_compute_handler_drone env keys w).1 kep2_send kep2_compute (λ x. x)
        (λ x. x) h)
  step-IsVerified w kep2_send h = absurd (
      neither IsVerified (kep_send_handler env kep2_message_bytes w).1 kep2_wait kep_idle (λ x. x)
        (λ x. x) h)
  step-IsVerified w kep2_wait h = absurd (not_after_wait (kep2_wait_handler_drone env keys w).1 h)
  step-IsVerified w kep3_verify h = absurd h
  step-IsVerified w kep3_compute h = absurd h
  step-IsVerified w kep3_send h = absurd h
  step-IsVerified w kep3_wait h = absurd h
  step-IsVerified w kep4_verify h = inr (
    refl,
    sym (verify-authentic w)
        ∙ passed IsVerified (kep4_verify_handler_drone env keys w).1 kep4_compute kep2_send (λ x. x)
            h,
  )
  step-IsVerified w kep4_compute h = inl tt
  step-IsVerified w kep4_send h = inl tt
  step-IsVerified w kep5_verify h = absurd h
  step-IsVerified w done_state h = inl tt

  -- A run of the machine from its first state to the one given, with the world that its last step
  -- left. Between the steps the main program and the peer may change the world, but a message that
  -- waits stays.
  pub data Run : World → KepState → Type 0 where
    start : (v : World) → Run v kep_idle
    next :
        (v w : World) (s s' : KepState)
        → Run v s
        → Keeps v w
        → (kep_continue_drone env keys w s).1 ≡ s'
        → Run (kep_continue_drone env keys w s).0 s'

  -- Some step of the run found an authentic KEP3 message in the state KEP4_verify.
  pub WasAuthenticated : {v : World} {s : KepState} → Run v s → Type 0
  WasAuthenticated (start v) = ⊥
  WasAuthenticated (next v w s s' r k e) =
      ((s ≡ kep4_verify) × (type_of (received w) ≡ type_kep3_send) × (is_authentic w ≡ true))
      ⊎ WasAuthenticated r

  run-IsAwaited :
      {v : World} {s : KepState} → Run v s → IsVerifying env keys s → IsAwaited type_kep3_send v
  run-IsAwaited (start v) h = absurd h
  run-IsAwaited (next v w s s' r k e) h = step-IsAwaited env keys w s (rw e h)

  -- However the world changes between the steps, as long as a message that waits stays, a run of the
  -- drone's key exchange that has come to the states KEP4_compute, KEP4_send or Done has verified an
  -- authentic KEP3 message: one of that type, with the right MAC under the session key, and with the
  -- peer's signature on the two points of the exchange.
  pub drone_run-WasAuthenticated :
      (v : World) (s : KepState) (r : Run v s) → IsVerified s → WasAuthenticated r
  unfolding WasAuthenticated
  drone_run-WasAuthenticated _ _ (start v) h = absurd h
  drone_run-WasAuthenticated _ _ (next v w s s' r k e) h = elim (step-IsVerified w s (rw e h)) [
    | inl x ↦ inr (drone_run-WasAuthenticated v s r x)
    | inr x ↦ inl (x.0, awaited-type type_kep3_send v w (run-IsAwaited r (rw x.0 tt)) k, x.1)
  ]
