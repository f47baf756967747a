-- ===== src/Tests/Exchange.antt =====
-- Runs of the two key exchange machines, with toy cryptography.
use remote_drone.Base.{inl, inr, ℕ, true, List, [], ◌∷◌, ◌++◌, ◌≡◌, refl, some, replicate, memcpy}
use remote_drone.General.Compare.{equal_arrays}
use remote_drone.General.Endian.{le_bytes, num_to_little_endian}
use remote_drone.Crypto.Aegis.{
  xor_block, and_block, state_update_128, initialization_loop, initialization, associated_loop,
  associated_data, keystream, xcrypt_loop, xcrypt, finalization_loop, finalization, aegis_crypt,
  aegis_encrypt_message, aegis_decrypt_message,
}
use remote_drone.Sm.Encode.Layout.{header}
use remote_drone.Sm.KeyExchange.{KeyAgreement, init_kep_ctx, kep_send_handler}
use remote_drone.Sm.Params.{type_kep1_send, type_kep2_send, type_kep3_send}
use remote_drone.Sm.SessionInfo.{
  kep_idle, kep1_compute, kep1_send, kep1_wait, kep2_precompute, kep2_wait_request, kep2_compute,
  kep2_send, kep2_wait, kep3_verify, kep3_compute, kep4_verify, kep4_compute, message_used,
}
use remote_drone.Sm.SessionReq.{decrypt_received}
use remote_drone.Sm.World.{Environment, World, mark, transmit_message}
use remote_drone.Sm.DroneKep.{
  kep_idle_handler_drone, kep2_precompute_handler_drone, kep2_wait_request_handler_drone,
  kep2_compute_handler_drone, kep2_wait_handler_drone, kep4_verify_handler_drone,
  kep_continue_drone,
}
use remote_drone.Sm.DroneKep.Authentication as Drone
use remote_drone.Sm.BaseStationKep.{
  kep1_idle_handler_base_station, kep1_compute_handler_base_station, kep_wait_handler_base_station,
  kep3_verify_handler_base_station, kep_continue_base_station,
}
use remote_drone.Sm.BaseStationKep.Authentication as Base
use remote_drone.Tests.Protocol.{target_bytes, iv_bytes, command, command_session, command_world}

abbrev pub still_environment : Environment
still_environment = record {
  aes_round = λ a b. replicate 16 0;
  accepts = λ k. true;
  micro_time = λ k. 1000;
  random_bytes = λ k nb. replicate nb 42;
  check_input = λ type k size. [];
}

abbrev pub trusting_keys : KeyAgreement
trusting_keys = record {
  generate_random_sample = λ k. (replicate 8 2, replicate 16 3);
  point_multiply = λ s p. p;
  hash_buffer = λ bytes. replicate 16 1;
  sign = λ k m d. replicate 16 5;
  check = λ m p s. true;
  own_private = replicate 8 2;
  peer_public = replicate 16 3;
}

-- A world whose received message has the bytes given, with the data from `place` on.
abbrev with_message : List ℕ → ℕ → World
with_message bytes place = record command_world {
  session = record command_session {
    session_key = replicate 16 1;
    received_message = record command {
      message = bytes;
      curve_point = some 32;
      data_field = some place;
    };
  };
}

abbrev request_world : World
request_world = with_message (type_kep1_send ∷ replicate 79 0) 32

abbrev used_request_world : World
used_request_world = mark message_used request_world

abbrev kep3_world : World
kep3_world =
    with_message
      (aegis_encrypt_message (λ a b. replicate 16 0) (replicate 16 1) iv_bytes
        (header type_kep3_send 112 target_bytes 9 iv_bytes ++ replicate 80 0) 32 64)
      32

idle_step :
    (kep_continue_drone still_environment trusting_keys request_world kep_idle).1 ≡ kep2_precompute
unfolding kep_continue_drone kep_idle_handler_drone
idle_step = refl

precompute_step :
    (kep_continue_drone still_environment trusting_keys request_world kep2_precompute).1
    ≡ kep2_wait_request
unfolding kep_continue_drone kep2_precompute_handler_drone
precompute_step = refl

request_step :
    (kep_continue_drone still_environment trusting_keys request_world kep2_wait_request).1
    ≡ kep2_compute
unfolding kep_continue_drone kep2_wait_request_handler_drone
request_step = refl

compute_step :
    (kep_continue_drone still_environment trusting_keys request_world kep2_compute).1 ≡ kep2_send
unfolding kep_continue_drone kep2_compute_handler_drone
compute_step = refl

send_step :
    (kep_continue_drone still_environment trusting_keys used_request_world kep2_send).1 ≡ kep2_wait
unfolding kep_continue_drone kep_send_handler
send_step = refl

wait_step :
    (kep_continue_drone still_environment trusting_keys kep3_world kep2_wait).1 ≡ kep4_verify
unfolding kep_continue_drone kep2_wait_handler_drone aegis_decrypt_message aegis_encrypt_message
    aegis_crypt xcrypt xcrypt_loop associated_data associated_loop initialization
    initialization_loop finalization finalization_loop state_update_128 keystream xor_block
    and_block memcpy equal_arrays le_bytes num_to_little_endian
wait_step = refl

verify_step :
    (kep_continue_drone still_environment trusting_keys kep3_world kep4_verify).1 ≡ kep4_compute
unfolding kep_continue_drone kep4_verify_handler_drone decrypt_received aegis_decrypt_message
    aegis_encrypt_message aegis_crypt xcrypt xcrypt_loop associated_data associated_loop
    initialization initialization_loop finalization finalization_loop state_update_128 keystream
    xor_block and_block memcpy equal_arrays le_bytes num_to_little_endian
verify_step = refl

-- The first four steps, at the request of the peer, which the fourth uses.
drone_request :
    Drone.Run still_environment trusting_keys
      (kep_continue_drone still_environment trusting_keys request_world kep2_compute).0
      kep2_send
unfolding kep_continue_drone kep_idle_handler_drone kep2_precompute_handler_drone
    kep2_wait_request_handler_drone init_kep_ctx
drone_request =
    Drone.next _ request_world kep2_compute kep2_send
      (Drone.next _ request_world kep2_wait_request kep2_compute
        (Drone.next _ request_world kep2_precompute kep2_wait_request
          (Drone.next request_world request_world kep_idle kep2_precompute
            (Drone.start request_world) (inr refl) idle_step)
          (inr refl) precompute_step)
        (inr refl) request_step)
      (inr refl) compute_step

drone_run :
    Drone.Run still_environment trusting_keys
      (kep_continue_drone still_environment trusting_keys kep3_world kep4_verify).0
      kep4_compute
unfolding kep_continue_drone kep2_compute_handler_drone kep_send_handler kep2_wait_handler_drone
    transmit_message aegis_encrypt_message memcpy
drone_run =
    Drone.next _ kep3_world kep4_verify kep4_compute
      (Drone.next _ kep3_world kep2_wait kep4_verify
        (Drone.next _ used_request_world kep2_send kep2_wait drone_request (inl refl) send_step)
        (inl refl) wait_step)
      (inr refl) verify_step

drone_run-WasAuthenticated_example :
    Drone.WasAuthenticated still_environment trusting_keys drone_run
drone_run-WasAuthenticated_example =
    Drone.drone_run-WasAuthenticated still_environment trusting_keys _ kep4_compute drone_run tt

abbrev kep2_world : World
kep2_world =
    with_message
      (aegis_encrypt_message (λ a b. replicate 16 0) (replicate 16 1) iv_bytes
        (header type_kep2_send 176 target_bytes 9 iv_bytes ++ replicate 144 0) 96 64)
      96

abbrev quiet_world : World
quiet_world = mark message_used command_world

base_idle_step :
    (kep_continue_base_station still_environment trusting_keys quiet_world kep_idle).1
    ≡ kep1_compute
unfolding kep_continue_base_station kep1_idle_handler_base_station
base_idle_step = refl

base_compute_step :
    (kep_continue_base_station still_environment trusting_keys quiet_world kep1_compute).1
    ≡ kep1_send
unfolding kep_continue_base_station kep1_compute_handler_base_station
base_compute_step = refl

base_send_step :
    (kep_continue_base_station still_environment trusting_keys quiet_world kep1_send).1 ≡ kep1_wait
unfolding kep_continue_base_station kep_send_handler
base_send_step = refl

base_wait_step :
    (kep_continue_base_station still_environment trusting_keys kep2_world kep1_wait).1 ≡ kep3_verify
unfolding kep_continue_base_station kep_wait_handler_base_station aegis_decrypt_message
    aegis_encrypt_message aegis_crypt xcrypt xcrypt_loop associated_data associated_loop
    initialization initialization_loop finalization finalization_loop state_update_128 keystream
    xor_block and_block memcpy equal_arrays le_bytes num_to_little_endian
base_wait_step = refl

base_verify_step :
    (kep_continue_base_station still_environment trusting_keys kep2_world kep3_verify).1
    ≡ kep3_compute
unfolding kep_continue_base_station kep3_verify_handler_base_station decrypt_received
    aegis_decrypt_message aegis_encrypt_message aegis_crypt xcrypt xcrypt_loop associated_data
    associated_loop initialization initialization_loop finalization finalization_loop
    state_update_128 keystream xor_block and_block memcpy equal_arrays le_bytes num_to_little_endian
base_verify_step = refl

base_station_run :
    Base.Run still_environment trusting_keys
      (kep_continue_base_station still_environment trusting_keys kep2_world kep3_verify).0
      kep3_compute
unfolding kep_continue_base_station kep1_idle_handler_base_station kep1_compute_handler_base_station
    kep_send_handler kep_wait_handler_base_station init_kep_ctx transmit_message
    aegis_encrypt_message memcpy
base_station_run =
    Base.next _ kep2_world kep3_verify kep3_compute
      (Base.next _ kep2_world kep1_wait kep3_verify
        (Base.next _ quiet_world kep1_send kep1_wait
          (Base.next _ quiet_world kep1_compute kep1_send
            (Base.next quiet_world quiet_world kep_idle kep1_compute (Base.start quiet_world)
              (inl refl) base_idle_step)
            (inl refl) base_compute_step)
          (inl refl) base_send_step)
        (inl refl) base_wait_step)
      (inr refl) base_verify_step

base_station_run-WasAuthenticated_example :
    Base.WasAuthenticated still_environment trusting_keys base_station_run
base_station_run-WasAuthenticated_example =
    Base.base_station_run-WasAuthenticated still_environment trusting_keys _ kep3_compute
      base_station_run tt
