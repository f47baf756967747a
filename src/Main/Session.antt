-- ===== src/Main/Session.antt =====
-- What src/main/main_drone.c and src/main/main_base_station.c share: their functions that have one
-- text, and the calls of the machines of a session. Messages to the terminal are left out.
use remote_drone.Base.{
  ◌≡◌, refl, inl, inr, Bool-cases, ℕ, Bool, true, false, List, [], ◌∷◌, ◌==◌, if◌then◌else◌,
}
use remote_drone.Sm.Decode.{poll_and_decode}
use remote_drone.Sm.KeyExchange.{init_kep_ctx}
use remote_drone.Sm.KeyExchange.Verdict.{Keeps}
use remote_drone.Sm.SessionInfo.{
  State, idle, session_ready, KepState, kep_idle, done_state, MessState, mess_idle, MessCtx,
  SessionInfo,
}
use remote_drone.Sm.SessionInit.{init_comm_ctx, init_stat_ctx, init_feed_ctx, init_alive_ctx}
use remote_drone.Sm.SessionReq.{Step, is_new, with_system_state, mess_req_continue}
use remote_drone.Sm.SessionRes.{mess_res_continue}
use remote_drone.Sm.World.{Environment, World, received, with_session, time_taken}

-- The contexts of a session, each with its state.
pub data Channel : Type 0 where
  comm_channel stat_channel feed_channel req_alive_channel res_alive_channel : Channel

abbrev pub ctx_of : Channel → SessionInfo → MessCtx
ctx_of comm_channel s = s.comm
ctx_of stat_channel s = s.stat
ctx_of feed_channel s = s.feed
ctx_of req_alive_channel s = s.alive_req
ctx_of res_alive_channel s = s.alive_res

abbrev pub state_of : Channel → State → MessState
state_of comm_channel s = s.comm_state
state_of stat_channel s = s.stat_state
state_of feed_channel s = s.feed_state
state_of req_alive_channel s = s.req_alive_state
state_of res_alive_channel s = s.res_alive_state

abbrev put_ctx : Channel → MessCtx → SessionInfo → SessionInfo
put_ctx comm_channel ctx s = record s { comm = ctx }
put_ctx stat_channel ctx s = record s { stat = ctx }
put_ctx feed_channel ctx s = record s { feed = ctx }
put_ctx req_alive_channel ctx s = record s { alive_req = ctx }
put_ctx res_alive_channel ctx s = record s { alive_res = ctx }

abbrev put_state : Channel → MessState → State → State
put_state comm_channel new s = record s { comm_state = new }
put_state stat_channel new s = record s { stat_state = new }
put_state feed_channel new s = record s { feed_state = new }
put_state req_alive_channel new s = record s { req_alive_state = new }
put_state res_alive_channel new s = record s { res_alive_state = new }

-- What a machine left goes back into the session.
abbrev put : Channel → Step × MessState → World
put channel (s, new) =
    let session = put_ctx channel s.ctx s.world.session in
    with_session (record session { state = put_state channel new session.state }) s.world

-- `session->state.commState = messReqContinue(session, &session->comm, session->state.commState);`,
-- and the same for the other contexts.
unfoldable pub continue_req : Environment → Channel → World → World
continue_req env channel w =
    put channel
      (mess_req_continue env w (ctx_of channel w.session) (state_of channel w.session.state))

-- The same with `messResContinue`.
unfoldable pub continue_res : Environment → Channel → World → World
continue_res env channel w =
    put channel
      (mess_res_continue env w (ctx_of channel w.session) (state_of channel w.session.state))

-- One machine behind the other.
unfoldable pub continue_all : (Channel → World → World) → List Channel → World → World
continue_all machine [] w = w
continue_all machine (channel ∷ channels) w = continue_all machine channels (machine channel w)

-- The machines in the order in which the branches call them.
abbrev pub all_from : Channel → List Channel
all_from comm_channel =
    comm_channel ∷ stat_channel ∷ feed_channel ∷ req_alive_channel ∷ res_alive_channel ∷ []
all_from stat_channel =
    stat_channel ∷ comm_channel ∷ feed_channel ∷ req_alive_channel ∷ res_alive_channel ∷ []
all_from feed_channel =
    feed_channel ∷ comm_channel ∷ stat_channel ∷ req_alive_channel ∷ res_alive_channel ∷ []
all_from req_alive_channel = req_alive_channel ∷ comm_channel ∷ stat_channel ∷ feed_channel ∷ []
all_from res_alive_channel = res_alive_channel ∷ comm_channel ∷ stat_channel ∷ feed_channel ∷ []

-- The call of `pollAndDecode`, made unless a message is waiting to be handled.
unfoldable pub poll : World → World
poll w = if is_new w then w else poll_and_decode w

-- `initializeSessionSequenceNbsDrone` and `initializeSessionSequenceNbsBasestation`.
unfoldable pub initialize_session_sequence_nbs : SessionInfo → SessionInfo
initialize_session_sequence_nbs s = record s {
  comm = numbered s.comm;
  stat = numbered s.stat;
  feed = numbered s.feed;
  alive_req = numbered s.alive_req;
  alive_res = numbered s.alive_res;
}
  where
    numbered : MessCtx → MessCtx
    numbered ctx = record ctx {
      sequence_nb = s.kep.sequence_nb;
      expected_sequence_nb = s.kep.expected_sequence_nb;
    }

-- The four init functions of the contexts, on all five.
abbrev pub init_contexts : SessionInfo → SessionInfo
init_contexts s = record s {
  comm = init_comm_ctx s.comm;
  stat = init_stat_ctx s.stat;
  feed = init_feed_ctx s.feed;
  alive_req = init_alive_ctx s.alive_req;
  alive_res = init_alive_ctx s.alive_res;
}

-- `clearSessionDrone` and `clearSessionBasestation`.
unfoldable pub clear_session_info : Environment → World → World
clear_session_info env w =
    let kep_initialized = init_kep_ctx env w in
    with_session
      (record (init_contexts kep_initialized.session) {
        state = record {
          system_state = idle;
          kep_state = kep_idle;
          comm_state = mess_idle;
          stat_state = mess_idle;
          feed_state = mess_idle;
          req_alive_state = mess_idle;
          res_alive_state = mess_idle;
        };
      })
      kep_initialized

-- `session->state.kepState = new`.
abbrev pub with_kep_state : KepState → World → World
with_kep_state new w = record w {
  session = record w.session { state = record w.session.state { kep_state = new } };
}

abbrev is_done : KepState → Bool
is_done done_state = true
is_done _ = false

-- The rest of the case `KEP` behind the call of the key exchange, which left a world and a state.
unfoldable pub after_kep : Environment → World × KepState → World
after_kep env (w, new) =
    let continued = with_kep_state new w in
    let ready = with_system_state session_ready continued in
    if is_done new
    then record (time_taken ready) {
      session = initialize_session_sequence_nbs ready.session;
      last_check = env.micro_time w.times_read;
    }
    else continued

-- What `after_kep` and the next poll make of the world that the key exchange left: a message that
-- waits is still there.
after_kep-received :
    (env : Environment) (r : World × KepState) → received (after_kep env r) ≡ received r.0
unfolding after_kep initialize_session_sequence_nbs
after_kep-received env (w, new) = elim (Bool-cases (is_done new)) [
  | inl d ↦ rw d refl
  | inr d ↦ rw d refl
]

poll-Keeps : (env : Environment) (r : World × KepState) → Keeps r.0 (poll (after_kep env r))
unfolding poll after_kep
poll-Keeps env r = elim (Bool-cases (is_new r.0)) [
  | inl n ↦ inr (rw (after_kep-received env r, n) (after_kep-received env r))
  | inr n ↦ inl n
]

-- `setExternalDroneCommands` and `setExternalBaseStationCommands`: `start` and `quit` for a key.
unfoldable pub set_external_commands : ℕ → Bool × Bool
set_external_commands key =
    if key == 115 then (true, false) else if key == 113 then (false, true) else (false, false)
