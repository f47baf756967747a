-- ===== src/Main/Drone.antt =====
-- The state machine of src/main/main_drone.c.
use Prim.Native.Nat.{bit_and}
use remote_drone.Base.{ℕ, Bool, List, [], ◌∷◌, replicate, ◌==◌, if◌then◌else◌}
use remote_drone.Sm.Decode.{type_of}
use remote_drone.Sm.DroneKep.{kep_continue_drone}
use remote_drone.Sm.KeyExchange.{KeyAgreement, init_kep_ctx}
use remote_drone.Sm.Params.{
  type_kep1_send, type_comm_send, type_stat_send, type_feed_send, type_alive_send,
}
use remote_drone.Sm.SessionInfo.{
  SystemState, idle, clear_session, kep, session_ready, message_invalid, channel_empty, kep_idle,
  mess_idle,
}
use remote_drone.Sm.SessionReq.{is_new, with_system_state}
use remote_drone.Sm.UdpIo.{init_io_ctx}
use remote_drone.Sm.World.{Environment, World, with_session, mark, received}
use remote_drone.Main.Session.{
  all_from, Channel, comm_channel, stat_channel, feed_channel, req_alive_channel, res_alive_channel,
  continue_req, continue_res, continue_all, with_kep_state, poll, clear_session_info, after_kep,
  init_contexts, set_external_commands,
}

-- `initializeDroneSession` on what the session holds before; the states of the two alive machines stay as they are. Its
-- writes of `MICRO_INTERVAL` and `FEED_ACTIVE` are those of src/sm/check_input.c.
unfoldable pub initialize_drone_session : Environment → World → World
initialize_drone_session env w =
    let started = init_kep_ctx env w in
    let session = init_contexts started.session in
    with_session
      (record session {
        state = record session.state {
          system_state = idle;
          kep_state = kep_idle;
          comm_state = mess_idle;
          stat_state = mess_idle;
          feed_state = mess_idle;
        };
        io = init_io_ctx;
        target_id = replicate 8 0;
        own_id = 1 ∷ replicate 7 0;
        received_message = record session.received_message { message_status = channel_empty };
      })
      started

module _ (env : Environment) (keys : KeyAgreement) where
  -- Which side of each channel the drone is.
  unfoldable pub continue_drone : Channel → World → World
  continue_drone comm_channel = continue_res env comm_channel
  continue_drone stat_channel = continue_req env stat_channel
  continue_drone feed_channel = continue_req env feed_channel
  continue_drone req_alive_channel = continue_req env req_alive_channel
  continue_drone res_alive_channel = continue_res env res_alive_channel

  -- The branches on the type of a message that is valid or repeated.
  unfoldable pub dispatch_drone : World → World
  dispatch_drone w =
      let type = type_of (received w) in
      let machine = bit_and type 0xE0 in
      let continued = kep_continue_drone env keys w w.session.state.kep_state in
      if machine == bit_and type_kep1_send 0xE0
      then with_kep_state continued.1 continued.0
      else if machine == bit_and type_comm_send 0xE0
      then continue_all continue_drone (all_from comm_channel) w
      else if machine == bit_and type_stat_send 0xE0
      then continue_all continue_drone (all_from stat_channel) w
      else if machine == bit_and type_feed_send 0xE0
      then continue_all continue_drone (all_from feed_channel) w
      else if machine == bit_and type_alive_send 0xE0
      then continue_all continue_drone
          (if type == type_alive_send
            then all_from res_alive_channel
            else all_from req_alive_channel)
          w
      else mark message_invalid w

  -- The cases of `stateMachineDrone`.
  unfoldable pub in_state_drone : SystemState → Bool → Bool → World → World
  in_state_drone idle start quit w = if start then with_system_state kep w else w
  in_state_drone kep start quit w =
      let polled = poll w in
      if quit
      then with_system_state clear_session w
      else after_kep env (kep_continue_drone env keys polled polled.session.state.kep_state)
  in_state_drone session_ready start quit w =
      let polled = poll w in
      if quit
      then with_system_state clear_session w
      else if is_new polled
      then dispatch_drone polled
      else continue_all continue_drone (all_from comm_channel) polled
  in_state_drone clear_session start quit w = clear_session_info env w

  -- `stateMachineDrone` with `external->start` and `external->quit`.
  unfoldable pub state_machine_drone : Bool → Bool → World → World
  state_machine_drone start quit w = in_state_drone w.session.state.system_state start quit w

  -- The rounds of `loopDrone`, each with the key that was hit, or 0.
  unfoldable pub loop_drone : List ℕ → World → World
  loop_drone [] w = w
  loop_drone (key ∷ keys_hit) w =
      let external = set_external_commands key in
      loop_drone keys_hit (state_machine_drone external.0 external.1 w)
