-- ===== src/Sm/BaseStationKep/Waiting.antt =====
-- The steps of src/sm/bs_kep_sm.c that lead to the verification of KEP2 leave such a message.
use remote_drone.Base.{◌/◌, ltb, ◌==◌, arith, Bool-cases, inl, inr, refl}
use remote_drone.Sm.Decode.{type_of}
use remote_drone.Sm.KeyExchange.Verdict.{IsAwaited, neither}
use remote_drone.Sm.KeyExchange.{KeyAgreement, kep_of, kep_send_handler}
use remote_drone.Sm.Params.{
  kep1_message_bytes, kep3_message_bytes, type_kep2_send, type_kep4_send, mic_per_mil,
  kep_retransmission_timeout,
}
use remote_drone.Sm.SessionInfo.{
  KepState, kep_idle, kep1_compute, kep1_send, kep1_wait, kep2_precompute, kep2_wait_request,
  kep2_compute, kep2_send, kep2_wait, kep3_verify, kep3_compute, kep3_send, kep3_wait, kep4_verify,
  kep4_compute, kep4_send, kep5_verify, done_state, is_valid, is_repeated,
}
use remote_drone.Sm.World.{
  Environment, World, received, elapsed, Code, code_minus_1, code_0, code_1, code_2, code_3,
}
use remote_drone.Sm.BaseStationKep.{
  after_wait, kep1_idle_handler_base_station, kep1_compute_handler_base_station,
  kep_wait_handler_base_station, kep3_verify_handler_base_station,
  kep3_compute_handler_base_station, kep5_verify_handler_base_station, kep_continue_base_station,
}

module _ (env : Environment) (keys : KeyAgreement) where
  -- The state of the verification.
  abbrev pub IsVerifying : KepState → Type 0
  IsVerifying kep3_verify = Unit
  IsVerifying _ = ⊥

  wait-IsAwaited :
      (w : World)
      → let r = kep_wait_handler_base_station env keys type_kep2_send w in
        IsVerifying (after_wait env keys kep1_send kep1_wait kep3_verify r.1)
        → IsAwaited type_kep2_send r.0
  unfolding kep_wait_handler_base_station
  wait-IsAwaited w =
      let status = (received w).message_status in
      let late =
        ltb kep_retransmission_timeout
          (elapsed (env.micro_time w.times_read) (kep_of w).time_of_transmission / mic_per_mil) in
      elim (Bool-cases (is_repeated status)) [
        | inl n ↦ rw n (λ h. absurd h)
        | inr n ↦ elim (Bool-cases (is_valid status)) [
          | inl y ↦ elim (Bool-cases (type_of (received w) == type_kep2_send)) [
            | inl t ↦ rw (n, y, t) (λ h. (rw y refl, ground arith))
            | inr t ↦ rw (n, y, t) (λ h. absurd h)
          ]
          | inr y ↦ elim (Bool-cases late) [
            | inl l ↦ rw (n, y, l) (λ h. absurd h)
            | inr l ↦ rw (n, y, l) (λ h. absurd h)
          ]
        ]
      ]

  not_after_wait_kep4 :
      (c : Code) → IsVerifying (after_wait env keys kep3_send kep3_wait kep5_verify c) → ⊥
  not_after_wait_kep4 code_minus_1 h = h
  not_after_wait_kep4 code_0 h = h
  not_after_wait_kep4 code_1 h = h
  not_after_wait_kep4 code_2 h = h
  not_after_wait_kep4 code_3 h = h

  -- A step that leads to the verification leaves a KEP2 message that waits.
  pub step-IsAwaited :
      (w : World) (s : KepState)
      → IsVerifying (kep_continue_base_station env keys w s).1
      → IsAwaited type_kep2_send (kep_continue_base_station env keys w s).0
  unfolding kep_continue_base_station
  step-IsAwaited w kep_idle h = absurd (
      neither IsVerifying (kep1_idle_handler_base_station env keys w).1 kep1_compute kep_idle
        (λ x. x) (λ x. x) h)
  step-IsAwaited w kep1_compute h = absurd (
      neither IsVerifying (kep1_compute_handler_base_station env keys w).1 kep1_send kep1_compute
        (λ x. x) (λ x. x) h)
  step-IsAwaited w kep1_send h = absurd (
      neither IsVerifying (kep_send_handler env kep1_message_bytes w).1 kep1_wait kep_idle (λ x. x)
        (λ x. x) h)
  step-IsAwaited w kep1_wait h = wait-IsAwaited w h
  step-IsAwaited w kep2_precompute h = absurd h
  step-IsAwaited w kep2_wait_request h = absurd h
  step-IsAwaited w kep2_compute h = absurd h
  step-IsAwaited w kep2_send h = absurd h
  step-IsAwaited w kep2_wait h = absurd h
  step-IsAwaited w kep3_verify h = absurd (
      neither IsVerifying (kep3_verify_handler_base_station env keys w).1 kep3_compute kep1_send
        (λ x. x) (λ x. x) h)
  step-IsAwaited w kep3_compute h = absurd (
      neither IsVerifying (kep3_compute_handler_base_station env keys w).1 kep3_send kep3_compute
        (λ x. x) (λ x. x) h)
  step-IsAwaited w kep3_send h = absurd (
      neither IsVerifying (kep_send_handler env kep3_message_bytes w).1 kep3_wait kep_idle (λ x. x)
        (λ x. x) h)
  step-IsAwaited w kep3_wait h =
      absurd (not_after_wait_kep4 (kep_wait_handler_base_station env keys type_kep4_send w).1 h)
  step-IsAwaited w kep4_verify h = absurd h
  step-IsAwaited w kep4_compute h = absurd h
  step-IsAwaited w kep4_send h = absurd h
  step-IsAwaited w kep5_verify h = absurd (
      neither IsVerifying (kep5_verify_handler_base_station env keys w).1 done_state kep3_send
        (λ x. x) (λ x. x) h)
  step-IsAwaited w done_state h = absurd h
