-- ===== src/Main/BaseStation.antt =====
-- The state machine of src/main/main_base_station.c.
use Prim.Native.Nat.{bit_and}
use remote_drone.Base.{ℕ, Bool, List, [], ◌∷◌, replicate, ◌==◌, if◌then◌else◌}
use remote_drone.Sm.Decode.{type_of}
use remote_drone.Sm.BaseStationKep.{kep_continue_base_station}
use remote_drone.Sm.KeyExchange.{KeyAgreement, init_kep_ctx}
use remote_drone.Sm.Params.{type_comm_send, type_stat_send, type_feed_send, type_alive_send}
use remote_drone.Sm.SessionInfo.{
  SystemState, idle, clear_session, kep, session_ready, message_invalid, channel_empty, kep_idle,
  mess_idle,
}
use remote_drone.Sm.SessionReq.{is_new, with_system_state}
use remote_drone.Sm.UdpIo.{init_io_ctx}
use remote_drone.Sm.World.{Environment, World, with_session, mark, received}
use remote_drone.Main.Session.{
  all_from, Channel, comm_channel, stat_channel, feed_channel, req_alive_channel, res_alive_channel,
  continue_req, continue_res, continue_all, poll, clear_session_info, after_kep, init_contexts,
  set_external_commands,
}

-- `initializeBaseSession` on what the session holds before; the states of the two alive machines stay as they are. Its
-- writes of `MICRO_INTERVAL` and `FEED_ACTIVE` are those of src/sm/check_input.c.
unfoldable pub initialize_base_session : Environment → World → World
initialize_base_session env w =
    let started = init_kep_ctx env w in
    let session = init_contexts started.session in
    with_session
      (record session {
        state = record session.state {
          system_state = idle;
          kep_state = kep_idle;
          comm_state = mess_idle;
          stat_state = mess_idle;
          feed_state = mess_idle;
        };
        io = init_io_ctx;
        target_id = 1 ∷ replicate 7 0;
        own_id = replicate 8 0;
        received_message = record session.received_message { message_status = channel_empty };
      })
      started

module _ (env : Environment) (keys : KeyAgreement) where
  -- Which side of each channel the base station is.
  unfoldable pub continue_base_station : Channel → World → World
  continue_base_station comm_channel = continue_req env comm_channel
  continue_base_station stat_channel = continue_res env stat_channel
  continue_base_station feed_channel = continue_res env feed_channel
  continue_base_station req_alive_channel = continue_req env req_alive_channel
  continue_base_station res_alive_channel = continue_res env res_alive_channel

  -- The branches on the type of a message that is valid or repeated.
  unfoldable pub dispatch_base_station : World → World
  dispatch_base_station w =
      let type = type_of (received w) in
      let machine = bit_and type 0xE0 in
      if machine == bit_and type_comm_send 0xE0
      then continue_all continue_base_station (all_from comm_channel) w
      else if machine == bit_and type_stat_send 0xE0
      then continue_all continue_base_station (all_from stat_channel) w
      else if machine == bit_and type_feed_send 0xE0
      then continue_all continue_base_station (all_from feed_channel) w
      else if machine == bit_and type_alive_send 0xE0
      then continue_all continue_base_station
          (if type == type_alive_send
            then all_from res_alive_channel
            else all_from req_alive_channel)
          w
      else mark message_invalid w

  -- The cases of `stateMachineBaseStation`.
  unfoldable pub in_state_base_station : SystemState → Bool → Bool → World → World
  in_state_base_station idle start quit w = if start then with_system_state kep w else w
  in_state_base_station kep start quit w =
      let polled = poll w in
      if quit
      then with_system_state clear_session w
      else after_kep env (kep_continue_base_station env keys polled polled.session.state.kep_state)
  in_state_base_station session_ready start quit w =
      let polled = poll w in
      if quit
      then with_system_state clear_session w
      else if is_new polled
      then dispatch_base_station polled
      else continue_all continue_base_station (all_from comm_channel) polled
  in_state_base_station clear_session start quit w = clear_session_info env w

  -- `stateMachineBaseStation` with `external->start` and `external->quit`.
  unfoldable pub state_machine_base_station : Bool → Bool → World → World
  state_machine_base_station start quit w =
      in_state_base_station w.session.state.system_state start quit w

  -- The rounds of `loopBaseStation`, each with the key that was hit, or 0.
  unfoldable pub loop_base_station : List ℕ → World → World
  loop_base_station [] w = w
  loop_base_station (key ∷ keys_hit) w =
      let external = set_external_commands key in
      loop_base_station keys_hit (state_machine_base_station external.0 external.1 w)
