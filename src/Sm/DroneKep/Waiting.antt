-- ===== src/Sm/DroneKep/Waiting.antt =====
-- The steps of src/sm/drone_kep_sm.c that lead to the verification of KEP3 leave such a message.
use remote_drone.Base.{◌/◌, ltb, ◌==◌, arith, Bool-cases, inl, inr}
use remote_drone.Sm.Decode.{type_of}
use remote_drone.Sm.KeyExchange.Verdict.{IsAwaited, neither}
use remote_drone.Sm.KeyExchange.{KeyAgreement, kep_of, kep_send_handler}
use remote_drone.Sm.Params.{
  kep2_message_bytes, kep4_message_bytes, type_kep1_send, type_kep3_send, mic_per_mil,
  kep_retransmission_timeout,
}
use remote_drone.Sm.SessionInfo.{
  KepState, kep_idle, kep1_compute, kep1_send, kep1_wait, kep2_precompute, kep2_wait_request,
  kep2_compute, kep2_send, kep2_wait, kep3_verify, kep3_compute, kep3_send, kep3_wait, kep4_verify,
  kep4_compute, kep4_send, kep5_verify, done_state,
}
use remote_drone.Sm.SessionReq.{is_new}
use remote_drone.Sm.World.{Environment, World, received, elapsed}
use remote_drone.Sm.DroneKep.{
  after_kep2_wait, kep_idle_handler_drone, kep2_precompute_handler_drone,
  kep2_compute_handler_drone, kep2_wait_handler_drone, kep4_verify_handler_drone,
  kep_continue_drone, kep2_wait_request_handler_drone, kep4_compute_handler_drone, done_handler,
}

module _ (env : Environment) (keys : KeyAgreement) where
  -- The state of the verification.
  abbrev pub IsVerifying : KepState → Type 0
  IsVerifying kep4_verify = Unit
  IsVerifying _ = ⊥

  wait-IsAwaited :
      (w : World)
      → let r = kep2_wait_handler_drone env keys w in
        IsVerifying (after_kep2_wait env keys r.1) → IsAwaited type_kep3_send r.0
  unfolding kep2_wait_handler_drone
  wait-IsAwaited w =
      let m = received w in
      elim (Bool-cases (is_new w)) [
        | inl n ↦ elim (Bool-cases (type_of m == type_kep3_send)) [
          | inl t ↦ rw (n, t) (λ h. (n, ground arith))
          | inr t ↦ elim (Bool-cases (type_of m == type_kep1_send)) [
            | inl u ↦ rw (n, t, u) (λ h. absurd h)
            | inr u ↦ rw (n, t, u) (λ h. absurd h)
          ]
        ]
        | inr n ↦
            let late = ltb kep_retransmission_timeout (
              elapsed (env.micro_time w.times_read) (kep_of w).time_of_transmission
              / mic_per_mil) in
            elim (Bool-cases late) [
              | inl l ↦ rw (n, l) (λ h. absurd h)
              | inr l ↦ rw (n, l) (λ h. absurd h)
            ]
      ]

  -- A step that leads to the verification leaves a KEP3 message that waits.
  pub step-IsAwaited :
      (w : World) (s : KepState)
      → IsVerifying (kep_continue_drone env keys w s).1
      → IsAwaited type_kep3_send (kep_continue_drone env keys w s).0
  unfolding kep_continue_drone
  step-IsAwaited w kep_idle h = absurd (
      neither IsVerifying (kep_idle_handler_drone env keys w).1 kep2_precompute kep_idle (λ x. x)
        (λ x. x) h)
  step-IsAwaited w kep1_compute h = absurd h
  step-IsAwaited w kep1_send h = absurd h
  step-IsAwaited w kep1_wait h = absurd h
  step-IsAwaited w kep2_precompute h = absurd (
      neither IsVerifying (kep2_precompute_handler_drone env keys w).1 kep2_wait_request
        kep2_precompute (λ x. x) (λ x. x) h)
  step-IsAwaited w kep2_wait_request h = absurd (
      neither IsVerifying (kep2_wait_request_handler_drone env keys w).1 kep2_compute
        kep2_wait_request (λ x. x) (λ x. x) h)
  step-IsAwaited w kep2_compute h = absurd (
      neither IsVerifying (kep2_compute_handler_drone env keys w).1 kep2_send kep2_compute (λ x. x)
        (λ x. x) h)
  step-IsAwaited w kep2_send h = absurd (
      neither IsVerifying (kep_send_handler env kep2_message_bytes w).1 kep2_wait kep_idle (λ x. x)
        (λ x. x) h)
  step-IsAwaited w kep2_wait h = wait-IsAwaited w h
  step-IsAwaited w kep3_verify h = absurd h
  step-IsAwaited w kep3_compute h = absurd h
  step-IsAwaited w kep3_send h = absurd h
  step-IsAwaited w kep3_wait h = absurd h
  step-IsAwaited w kep4_verify h = absurd (
      neither IsVerifying (kep4_verify_handler_drone env keys w).1 kep4_compute kep2_send (λ x. x)
        (λ x. x) h)
  step-IsAwaited w kep4_compute h = absurd (
      neither IsVerifying (kep4_compute_handler_drone env keys w).1 kep4_send kep4_compute (λ x. x)
        (λ x. x) h)
  step-IsAwaited w kep4_send h = absurd (
      neither IsVerifying (kep_send_handler env kep4_message_bytes w).1 done_state kep_idle (λ x. x)
        (λ x. x) h)
  step-IsAwaited w kep5_verify h = absurd h
  step-IsAwaited w done_state h =
      absurd
        (neither IsVerifying (done_handler env keys w).1 done_state kep_idle (λ x. x) (λ x. x) h)
