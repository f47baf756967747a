-- ===== src/Sm/World.antt =====
-- What a step of the protocol works on: the session, the reordering buffer, the socket, and the
-- environment. The answers of the system calls are functions of the number of the call.
use remote_drone.Base.{◌+◌, true, false, ◌-◌, ◌%◌, ◌^◌, ℕ, Bool, List}
use remote_drone.Sm.SessionInfo.{SessionInfo, DecodedMessage, MessageStatus, set_status}
use remote_drone.Sm.Udp.{Socket, Outcome, done, error, fuel_out}
use remote_drone.Sm.UdpIo.{transmit}
use remote_drone.Sm.VideoBuffer.{VideoBuffer}

-- The AES round of the AES code, and the answers of the environment: `sendto`, `getMicrotime`, `getRandomBytes`, and the
-- `checkInputFunction` of the context with the send type given, called with a size.
pub record Environment : Type 0 where
  pub aes_round : List ℕ → List ℕ → List ℕ
  pub accepts : ℕ → Bool
  pub micro_time : ℕ → ℕ
  pub random_bytes : ℕ → ℕ → List ℕ
  pub check_input : ℕ → ℕ → ℕ → List ℕ

-- `packets` are those still to arrive, `written` what the `writeOutputFunction`s were given, with
-- the send type of their context, and `last_check` is `LAST_CHECK` of the main programs.
pub record World : Type 0 where
  pub session : SessionInfo
  pub video : VideoBuffer
  pub socket : Socket
  pub packets : List (List ℕ)
  pub times_read : ℕ
  pub randoms_read : ℕ
  pub inputs_read : ℕ
  pub written : List (ℕ × List ℕ)
  pub last_check : ℕ

abbrev pub with_session : SessionInfo → World → World
with_session session w = record w { session = session }

-- `session->receivedMessage.messageStatus = status`.
abbrev pub mark : MessageStatus → World → World
mark status w = record w { session = set_status status w.session }

abbrev pub received : World → DecodedMessage
received w = w.session.received_message

-- What the handlers return.
pub data Code : Type 0 where
  code_minus_1 code_0 code_1 code_2 code_3 : Code

-- `result ? 1 : 0`.
abbrev pub code_of : Bool → Code
code_of true = code_1
code_of false = code_0

-- `handler(...) ? then : else`.
abbrev pub choose {ℓ} : {A : Type ℓ} → Code → A → A → A
choose code_0 x y = y
choose _ x y = x

-- `getMicrotime`: the answer is `env.micro_time w.times_read`.
abbrev pub time_taken : World → World
time_taken w = record w { times_read = w.times_read + 1 }

-- `getRandomBytes`: the answer is `env.random_bytes w.randoms_read nb_bytes`.
abbrev pub random_taken : World → World
random_taken w = record w { randoms_read = w.randoms_read + 1 }

-- The difference of two times, in uint64_t.
abbrev pub elapsed : ℕ → ℕ → ℕ
elapsed now before = (now + 2 ^ 64 - before) % 2 ^ 64

-- The socket that a call leaves, whatever it returned.
abbrev pub left_by : Outcome → Socket → Socket
left_by (done s) old = s
left_by (error s) old = s
left_by fuel_out old = old

-- `transmit(&session->IO, buffer, nbBytes, 1)`, of which the callers drop the return value.
unfoldable pub transmit_message : Environment → List ℕ → ℕ → World → World
transmit_message env buffer nb_bytes w = record w {
  socket = left_by (transmit env.accepts buffer nb_bytes true w.socket) w.socket;
}
