-- ===== src/Sm/Udp.antt =====
-- The send side of src/sm/udp.c (UNIX): the packet buffer, `flush_buffer`, `send_message`. The part
-- `buf[0 .. buf_index)` is the list `buf`. Whether the kernel takes a packet is the environment's:
-- `accepts k` is the answer to the `sendto` call number `k`. `sent` records the packets it took.
pub mod Stream
use remote_drone.Base.{
  ℕ, zero, suc, ◌+◌, ◌-◌, Bool, true, false, List, [], ◌∷◌, ◌++◌, length, take, drop, ltb, ◌==◌,
  if◌then◌else◌,
}
use remote_drone.Sm.Params.{max_packet_size}

pub record Socket : Type 0 where
  pub buf : List ℕ
  pub calls : ℕ
  pub sent : List (List ℕ)

-- What a call returned: 0 (or a count), or -1. `fuel_out` stands for a loop that was cut off.
pub data Outcome : Type 0 where
  done : Socket → Outcome
  error : Socket → Outcome
  fuel_out : Outcome

-- `if (call == -1) return -1;` and what follows.
infixl 5 ◌>>=◌
abbrev pub ◌>>=◌ : Outcome → (Socket → Outcome) → Outcome
done s >>= f = f s
error s >>= f = error s
fuel_out >>= f = fuel_out

module _ (accepts : ℕ → Bool) where
  unfoldable pub flush_buffer : Socket → Outcome
  flush_buffer s =
      if length s.buf == 0
      then done s
      else if accepts s.calls
      then done (record s { buf = []; calls = s.calls + 1; sent = s.sent ++ (s.buf ∷ []) })
      else error (record s { buf = []; calls = s.calls + 1 })

  -- The loop of `send_message`; `data` and `length` are the bytes left.
  unfoldable pub send_loop : ℕ → List ℕ → Socket → Outcome
  send_loop zero bytes s = fuel_out
  send_loop (suc fuel) bytes s =
      let room = max_packet_size - length s.buf in
      let full = flush_buffer (record s { buf = s.buf ++ take room bytes }) in
      let next = full >>= λ s'. send_loop fuel (drop room bytes) s' in
      if length bytes == 0
      then done s
      else if ltb max_packet_size (length s.buf + length bytes)
      then next
      else done (record s { buf = s.buf ++ bytes })

  -- Each round but one takes a byte, so this fuel is enough.
  unfoldable pub send_message : List ℕ → Socket → Outcome
  send_message bytes s = send_loop (length bytes + 2) bytes s
