-- ===== src/Sm/UdpIo.antt =====
-- src/sm/udp_io.c with UDP set and MAKE_BER not: `transmit` over the socket of `Udp`, and `receive`.
-- A range of a C array between two of its indices is the list of its elements.
pub mod Framing
pub mod Transmit
pub mod Receive
use remote_drone.Base.{
  ℕ, zero, suc, ◌+◌, ◌-◌, Bool, true, false, ◌||◌, List, [], ◌∷◌, ◌++◌, length, take, drop, ltb,
  ◌==◌, if◌then◌else◌, memcpy,
}
use remote_drone.Sm.Params.{max_packet_size}
use remote_drone.Sm.Udp.{Socket, Outcome, done, ◌>>=◌, send_message, flush_buffer}

abbrev pub flag : ℕ
flag = 0xAA

abbrev pub esc : ℕ
esc = 0xBB

module _ (accepts : ℕ → Bool) where
  -- `writeOut`.
  unfoldable pub write_out : List ℕ → Socket → Outcome
  write_out = send_message accepts

  -- The loop of `transmit` with its last write. `segment` is the range from `nextSendIndex` to
  -- `currentIndex`, and the list is what lies from `currentIndex` on.
  unfoldable pub transmit_loop : List ℕ → List ℕ → Socket → Outcome
  transmit_loop segment [] s = write_out segment s
  transmit_loop segment (b ∷ bs) s =
      let stuffed = write_out segment s >>= write_out (esc ∷ []) >>= transmit_loop (b ∷ []) bs in
      let plain = transmit_loop (segment ++ b ∷ []) bs s in
      if b == flag || b == esc then stuffed else plain

  -- `transmit`.
  unfoldable pub transmit : List ℕ → ℕ → Bool → Socket → Outcome
  transmit buffer nb_bytes end_of_message s =
      transmit_loop [] (take nb_bytes buffer) s
      >>= (λ s'. if end_of_message then write_out (flag ∷ []) s' else done s')
      >>= flush_buffer accepts

-- `struct IO_ctx` without its pipes. `unread` is the range from `bufferIndex` to `bufferSize`.
pub record IoCtx : Type 0 where
  pub unread : List ℕ
  pub end_of_message : Bool
  pub esc_read : Bool
  pub res_index : ℕ

-- `init_IO_ctx`.
unfoldable pub init_io_ctx : IoCtx
init_io_ctx = record { unread = []; end_of_message = true; esc_read = false; res_index = 0 }

-- `resetCont_IO_ctx`.
unfoldable pub reset_cont_io_ctx : IoCtx → IoCtx
reset_cont_io_ctx io = record io { res_index = 0 }

-- What the `for` loop of `receive` leaves: the context and the result; for a message that ended,
-- `flagged` and the bytes written, else the range from `startCopyIndex` to `bufferIndex`.
pub record Scan : Type 0 where
  pub io : IoCtx
  pub result : List ℕ
  pub flagged : Bool
  pub nb_bytes_written : ℕ
  pub chunk : List ℕ

-- The `for` loop of `receive` over the unread bytes; `chunk` is the range from `startCopyIndex`.
unfoldable pub scan : ℕ → List ℕ → List ℕ → IoCtx → List ℕ → Scan
scan size [] chunk io result = record {
  io = record io { unread = [] };
  result = result;
  flagged = false;
  nb_bytes_written = 0;
  chunk = chunk;
}
scan size (b ∷ bs) chunk io result =
    let stop : Scan = record {
      io = record io { unread = b ∷ bs };
      result = result;
      flagged = false;
      nb_bytes_written = 0;
      chunk = chunk;
    } in
    let skipped = scan size bs (chunk ++ b ∷ []) (record io { esc_read = false }) result in
    let escaped =
      scan size bs [] (record io { esc_read = true; res_index = io.res_index + length chunk })
        (memcpy result io.res_index chunk) in
    let ended : Scan = record {
      io = record io { unread = bs; end_of_message = true; res_index = 0 };
      result = memcpy result io.res_index chunk;
      flagged = true;
      nb_bytes_written = io.res_index + length chunk;
      chunk = [];
    } in
    let plain = scan size bs (chunk ++ b ∷ []) io result in
    if ltb (io.res_index + length chunk) size
    then if io.esc_read
      then skipped
      else if b == esc
      then escaped
      else if b == flag
      then ended
      else plain
    else stop

-- What `receive` leaves: the context, the result, its return value, and the packets not yet read.
pub record Received : Type 0 where
  pub io : IoCtx
  pub result : List ℕ
  pub nb_received : ℕ
  pub packets : List (List ℕ)

-- The `while` loop of `receive`. `packets` are the answers of the `readIn` calls to come; an empty
-- packet, like none, stands for the returns 0 and -1. `recvfrom` cuts a packet to the buffer.
unfoldable pub receive_loop : ℕ → IoCtx → List ℕ → List (List ℕ) → Received
receive_loop size io result [] =
    let s = scan size io.unread [] io result in
    let copied = memcpy s.result s.io.res_index s.chunk in
    let res_index = s.io.res_index + length s.chunk in
    if s.flagged
    then record { io = s.io; result = s.result; nb_received = s.nb_bytes_written; packets = [] }
    else if res_index == size
    then record {
      io = record s.io { res_index = 0; end_of_message = false };
      result = copied;
      nb_received = size;
      packets = [];
    }
    else record {
      io = record s.io { unread = []; res_index = res_index; end_of_message = false };
      result = copied;
      nb_received = res_index;
      packets = [];
    }
receive_loop size io result (p ∷ ps) =
    let s = scan size io.unread [] io result in
    let copied = memcpy s.result s.io.res_index s.chunk in
    let res_index = s.io.res_index + length s.chunk in
    let packet = take max_packet_size p in
    let again =
      receive_loop size (record s.io { unread = packet; res_index = res_index }) copied ps in
    if s.flagged
    then record { io = s.io; result = s.result; nb_received = s.nb_bytes_written; packets = p ∷ ps }
    else if res_index == size
    then record {
      io = record s.io { res_index = 0; end_of_message = false };
      result = copied;
      nb_received = size;
      packets = p ∷ ps;
    }
    else if length packet == 0
    then record {
      io = record s.io { unread = []; res_index = res_index; end_of_message = false };
      result = copied;
      nb_received = res_index;
      packets = ps;
    }
    else again

-- `receive`.
unfoldable pub receive : IoCtx → List ℕ → ℕ → Bool → List (List ℕ) → Received
receive io result size cont packets =
    receive_loop size (if cont then io else record io { res_index = 0 }) result packets
