-- ===== src/Sm/BaseStationKep/Authentication.antt =====
-- The base station's key exchange (src/sm/bs_kep_sm.c) goes on only behind an authenticated KEP2
-- message.
use remote_drone.Base.{Bool, true, false, ◌&&◌, ◌++◌, take, ◌⊎◌, inl, inr, ◌≡◌, refl, sym, ◌∙◌}
use remote_drone.Crypto.Aegis.{aegis_decrypt_message}
use remote_drone.General.Endian.{to_word_array, to_little_endian}
use remote_drone.Sm.Decode.{type_of, bytes_at}
use remote_drone.Sm.KeyExchange.Verdict.{Keeps, IsAwaited, awaited-type, branches, neither, passed}
use remote_drone.Sm.KeyExchange.{
  KeyAgreement, with_kep, kep_of, offset, curve_point_of, kep_send_handler,
}
use remote_drone.Sm.Params.{
  aegis_iv_nb, field_sign_nb, field_curvepoint_nb, kep1_message_bytes, type_kep2_send,
}
use remote_drone.Sm.SessionInfo.{
  DecodedMessage, KepState, kep_idle, kep1_compute, kep1_send, kep1_wait, kep2_precompute,
  kep2_wait_request, kep2_compute, kep2_send, kep2_wait, kep3_verify, kep3_compute, kep3_send,
  kep3_wait, kep4_verify, kep4_compute, kep4_send, kep5_verify, done_state, message_used,
}
use remote_drone.Sm.SessionReq.{decrypt_received}
use remote_drone.Sm.World.{
  Environment, World, mark, received, Code, code_minus_1, code_0, code_1, code_2, code_3, choose,
}
use remote_drone.Sm.BaseStationKep.{
  after_wait, kep1_idle_handler_base_station, kep1_compute_handler_base_station,
  kep_wait_handler_base_station, kep3_verify_handler_base_station, kep_continue_base_station,
}
use remote_drone.Sm.BaseStationKep.Waiting.{IsVerifying, step-IsAwaited}

module _ (env : Environment) (keys : KeyAgreement) where
  -- The received message has a right MAC under the key that its point and our scalar give, and the
  -- signature that it hides is the peer's, on that point followed by the one generated.
  unfoldable pub is_authentic : World → Bool
  is_authentic w =
      let m = received w in
      let shared = keys.point_multiply (kep_of w).scalar (curve_point_of m) in
      let opened =
        aegis_decrypt_message env.aes_round (keys.hash_buffer (to_little_endian shared))
          (take aegis_iv_nb (bytes_at m m.iv)) m.message (offset m.data_field) field_sign_nb in
      let plain : DecodedMessage = record m { message = opened.0 } in
      let points =
        take field_curvepoint_nb (bytes_at plain plain.curve_point)
        ++ to_little_endian (kep_of w).generated_point_xy in
      opened.1
      && keys.check points keys.peer_public (to_word_array (bytes_at plain plain.data_field) 16)

  verify-authentic :
      (w : World)
      → choose (kep3_verify_handler_base_station env keys w).1 true false ≡ is_authentic w
  unfolding kep3_verify_handler_base_station is_authentic decrypt_received
  verify-authentic w =
      let used = mark message_used w in
      let received_point = curve_point_of (received used) in
      let shared = keys.point_multiply (kep_of used).scalar received_point in
      let keyed : World =
        with_kep (record (kep_of used) { received_point_xy = received_point })
          (record used {
            session = record used.session {
              session_key = keys.hash_buffer (to_little_endian shared);
            };
          }) in
      let d = decrypt_received env (offset (received keyed).data_field) field_sign_nb keyed in
      let m = received d.0 in
      let correct =
        keys.check
          (take field_curvepoint_nb (bytes_at m m.curve_point)
            ++ to_little_endian (kep_of d.0).generated_point_xy)
          keys.peer_public (to_word_array (bytes_at m m.data_field) 16) in
      branches d.1 correct d.0 _ d.0

  -- The states behind the verification of KEP2.
  abbrev pub IsVerified : KepState → Type 0
  IsVerified kep3_compute = Unit
  IsVerified kep3_send = Unit
  IsVerified kep3_wait = Unit
  IsVerified kep5_verify = Unit
  IsVerified done_state = Unit
  IsVerified _ = ⊥

  not_after_wait :
      (c : Code) → IsVerified (after_wait env keys kep1_send kep1_wait kep3_verify c) → ⊥
  not_after_wait code_minus_1 h = h
  not_after_wait code_0 h = h
  not_after_wait code_1 h = h
  not_after_wait code_2 h = h
  not_after_wait code_3 h = h

  -- One step into a verified state starts from one, or it is an authentic message in KEP3_verify.
  step-IsVerified :
      (w : World) (s : KepState)
      → IsVerified (kep_continue_base_station env keys w s).1
      → IsVerified s ⊎ ((s ≡ kep3_verify) × (is_authentic w ≡ true))
  unfolding kep_continue_base_station
  step-IsVerified w kep_idle h = absurd (
      neither IsVerified (kep1_idle_handler_base_station env keys w).1 kep1_compute kep_idle
        (λ x. x) (λ x. x) h)
  step-IsVerified w kep1_compute h = absurd (
      neither IsVerified (kep1_compute_handler_base_station env keys w).1 kep1_send kep1_compute
        (λ x. x) (λ x. x) h)
  step-IsVerified w kep1_send h = absurd (
      neither IsVerified (kep_send_handler env kep1_message_bytes w).1 kep1_wait kep_idle (λ x. x)
        (λ x. x) h)
  step-IsVerified w kep1_wait h =
      absurd (not_after_wait (kep_wait_handler_base_station env keys type_kep2_send w).1 h)
  step-IsVerified w kep2_precompute h = absurd h
  step-IsVerified w kep2_wait_request h = absurd h
  step-IsVerified w kep2_compute h = absurd h
  step-IsVerified w kep2_send h = absurd h
  step-IsVerified w kep2_wait h = absurd h
  step-IsVerified w kep3_verify h = inr (
    refl,
    sym (verify-authentic w)
        ∙ passed IsVerified (kep3_verify_handler_base_station env keys w).1 kep3_compute kep1_send
            (λ x. x) h,
  )
  step-IsVerified w kep3_compute h = inl tt
  step-IsVerified w kep3_send h = inl tt
  step-IsVerified w kep3_wait h = inl tt
  step-IsVerified w kep4_verify h = absurd h
  step-IsVerified w kep4_compute h = absurd h
  step-IsVerified w kep4_send h = absurd h
  step-IsVerified w kep5_verify h = inl tt
  step-IsVerified w done_state h = absurd h

  -- A run of the machine from its first state to the one given, with the world that its last step
  -- left. Between the steps the main program and the peer may change the world, but a message that
  -- waits stays.
  pub data Run : World → KepState → Type 0 where
    start : (v : World) → Run v kep_idle
    next :
        (v w : World) (s s' : KepState)
        → Run v s
        → Keeps v w
        → (kep_continue_base_station env keys w s).1 ≡ s'
        → Run (kep_continue_base_station env keys w s).0 s'

  -- Some step of the run found an authentic KEP2 message in the state KEP3_verify.
  pub WasAuthenticated : {v : World} {s : KepState} → Run v s → Type 0
  WasAuthenticated (start v) = ⊥
  WasAuthenticated (next v w s s' r k e) =
      ((s ≡ kep3_verify) × (type_of (received w) ≡ type_kep2_send) × (is_authentic w ≡ true))
      ⊎ WasAuthenticated r

  run-IsAwaited :
      {v : World} {s : KepState} → Run v s → IsVerifying env keys s → IsAwaited type_kep2_send v
  run-IsAwaited (start v) h = absurd h
  run-IsAwaited (next v w s s' r k e) h = step-IsAwaited env keys w s (rw e h)

  -- However the world changes between the steps, as long as a message that waits stays, a run of the
  -- base station's key exchange that has come to a state behind KEP3_verify, Done among them, has
  -- verified an authentic KEP2 message: one of that type, with the right MAC under the key agreed,
  -- and with the peer's signature on the two points.
  pub base_station_run-WasAuthenticated :
      (v : World) (s : KepState) (r : Run v s) → IsVerified s → WasAuthenticated r
  unfolding WasAuthenticated
  base_station_run-WasAuthenticated _ _ (start v) h = absurd h
  base_station_run-WasAuthenticated _ _ (next v w s s' r k e) h =
      elim (step-IsVerified w s (rw e h)) [
        | inl x ↦ inr (base_station_run-WasAuthenticated v s r x)
        | inr x ↦ inl (x.0, awaited-type type_kep2_send v w (run-IsAwaited r (rw x.0 tt)) k, x.1)
      ]
