-- ===== src/Main/Quit.antt =====
-- The `q` key in src/main/main_drone.c and src/main/main_base_station.c: the session is cleared.
use remote_drone.Base.{ℕ, [], ◌∷◌, ◌≡◌, ◌⊎◌, inl, inr, refl}
use remote_drone.Sm.KeyExchange.{KeyAgreement, init_kep_ctx}
use remote_drone.Sm.SessionInfo.{State, idle, kep, session_ready, kep_idle, mess_idle}
use remote_drone.Sm.SessionInit.{init_comm_ctx, init_stat_ctx, init_feed_ctx, init_alive_ctx}
use remote_drone.Sm.World.{Environment, World}
use remote_drone.Main.Session.{
  Channel, comm_channel, stat_channel, feed_channel, req_alive_channel, res_alive_channel, ctx_of,
  clear_session_info, set_external_commands,
}
use remote_drone.Main.Drone.{loop_drone, state_machine_drone, in_state_drone}
use remote_drone.Main.BaseStation.{
  loop_base_station, state_machine_base_station, in_state_base_station,
}

-- All machines in their first state.
abbrev pub at_rest : State
at_rest = record {
  system_state = idle;
  kep_state = kep_idle;
  comm_state = mess_idle;
  stat_state = mess_idle;
  feed_state = mess_idle;
  req_alive_state = mess_idle;
  res_alive_state = mess_idle;
}

-- The machines are at rest with no transmission counted, nothing was sent, written or read from the
-- network, and the identities are those of before.
abbrev pub IsCleared : World → World → Type 0
IsCleared before after =
    (after.session.state ≡ at_rest)
    × (after.session.kep.num_transmissions ≡ 0)
    × ((channel : Channel) → (ctx_of channel after.session).num_transmissions ≡ 0)
    × (after.socket ≡ before.socket)
    × (after.written ≡ before.written)
    × (after.packets ≡ before.packets)
    × (after.session.own_id ≡ before.session.own_id)
    × (after.session.target_id ≡ before.session.target_id)

clear_session_info_lem : (env : Environment) (w : World) → IsCleared w (clear_session_info env w)
unfolding clear_session_info init_kep_ctx init_comm_ctx init_stat_ctx init_feed_ctx init_alive_ctx
clear_session_info_lem env w = (refl, refl, counted, refl, refl, refl, refl, refl)
  where
    counted :
        (channel : Channel)
        → (ctx_of channel (clear_session_info env w).session).num_transmissions ≡ 0
    counted comm_channel = refl
    counted stat_channel = refl
    counted feed_channel = refl
    counted req_alive_channel = refl
    counted res_alive_channel = refl

-- If the key `q` is hit in a key exchange or a session of the drone, the session is cleared after the
-- round of that key and the next one, whatever key is hit then.
pub drone-quit :
    (env : Environment) (keys : KeyAgreement) (w : World) (key : ℕ)
    → (w.session.state.system_state ≡ kep) ⊎ (w.session.state.system_state ≡ session_ready)
    → IsCleared w (loop_drone env keys (113 ∷ key ∷ []) w)
unfolding loop_drone set_external_commands state_machine_drone in_state_drone
drone-quit env keys w key (inl e) = rw e (clear_session_info_lem env _)
drone-quit env keys w key (inr e) = rw e (clear_session_info_lem env _)

-- If the key `q` is hit in a key exchange or a session of the base station, the session is cleared
-- after the round of that key and the next one, whatever key is hit then.
pub base_station-quit :
    (env : Environment) (keys : KeyAgreement) (w : World) (key : ℕ)
    → (w.session.state.system_state ≡ kep) ⊎ (w.session.state.system_state ≡ session_ready)
    → IsCleared w (loop_base_station env keys (113 ∷ key ∷ []) w)
unfolding loop_base_station set_external_commands state_machine_base_station in_state_base_station
base_station-quit env keys w key (inl e) = rw e (clear_session_info_lem env _)
base_station-quit env keys w key (inr e) = rw e (clear_session_info_lem env _)
