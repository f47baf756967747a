-- ===== src/Sm/CheckInput.antt =====
-- What is sent, src/sm/check_input.c with LIVE_FEED_PORT_IN set. A `checkInputFunction` returns the bytes
-- that it writes to the buffer. `kbhit` and `readChar` are the key hit, if any; the clock is an
-- argument; what `receive_feed` gives is an argument of the body of the endless loop of
-- `monitorFeedInput`. The offsets are never negative, and are numbers here.
pub mod Ring
use remote_drone.Base.{
  ℕ, zero, suc, ◌+◌, ◌-◌, ◌*◌, ◌%◌, ◌^◌, Bool, true, false, List, [], ◌∷◌, ◌++◌, Option, none, some,
  length, take, drop, replicate, memcpy, ltb, leb, ◌==◌, not, if◌then◌else◌,
}

-- COMMAND_STAT, COMMAND_START_FEED and COMMAND_STOP_FEED, with the 0 at their end, and COMMAND_LN.
abbrev pub command_stat : List ℕ
command_stat = 83 ∷ 84 ∷ 65 ∷ 84 ∷ 85 ∷ 83 ∷ 32 ∷ 85 ∷ 80 ∷ 68 ∷ 65 ∷ 84 ∷ 69 ∷ 0 ∷ []

abbrev pub command_start_feed : List ℕ
command_start_feed = 83 ∷ 84 ∷ 65 ∷ 82 ∷ 84 ∷ 32 ∷ 70 ∷ 69 ∷ 69 ∷ 68 ∷ 0 ∷ []

abbrev pub command_stop_feed : List ℕ
command_stop_feed = 83 ∷ 84 ∷ 79 ∷ 80 ∷ 32 ∷ 70 ∷ 69 ∷ 69 ∷ 68 ∷ 0 ∷ []

abbrev pub command_ln : ℕ
command_ln = 128

-- The global flags.
pub record Flags : Type 0 where
  pub feed_active : Bool
  pub stat_active : Bool
  pub last_check : ℕ
  pub micro_interval : ℕ

-- A command with the zeros behind it.
abbrev pub padded : List ℕ → List ℕ
padded command = command ++ replicate (command_ln - length command) 0

-- `checkCommInput`.
unfoldable pub check_comm_input : Option ℕ → ℕ → List ℕ
check_comm_input none size = []
check_comm_input (some key) size =
    if ltb size command_ln
    then []
    else if key == 99
    then padded command_stat
    else if key == 102
    then padded command_start_feed
    else if key == 103
    then padded command_stop_feed
    else []

-- "Everything OK!" with the 0 at its end.
abbrev pub stat_text : List ℕ
stat_text = 69 ∷ 118 ∷ 101 ∷ 114 ∷ 121 ∷ 116 ∷ 104 ∷ 105 ∷ 110 ∷ 103 ∷ 32 ∷ 79 ∷ 75 ∷ 33 ∷ 0 ∷ []

-- `checkStatInput`.
unfoldable pub check_stat_input : ℕ → Flags → List ℕ × Flags
check_stat_input size flags =
    if ltb size 15
    then ([], flags)
    else if not flags.stat_active
    then ([], flags)
    else (stat_text, record flags { stat_active = false })

-- `checkAliveInput`, at the time `current_time` of the clock; the difference is one of 64 bits.
unfoldable pub check_alive_input : ℕ → ℕ → Flags → List ℕ × Flags
check_alive_input size current_time flags =
    if size == 0
    then ([], flags)
    else if ltb flags.micro_interval ((current_time + 2 ^ 64 - flags.last_check) % 2 ^ 64)
    then (0 ∷ [], record flags { last_check = current_time })
    else ([], flags)

-- FEED_BUFFER_SIZE and MP4_UDP_SIZE.
abbrev pub feed_buffer_size : ℕ
feed_buffer_size = 5000000

abbrev pub mp4_udp_size : ℕ
mp4_udp_size = 1500

-- `feedBuffer`, `readOffset`, `writeOffset` and `FEED_THREAD_STARTED`.
pub record FeedRing : Type 0 where
  pub feed_buffer : List ℕ
  pub read_offset : ℕ
  pub write_offset : ℕ
  pub feed_thread_started : Bool

-- The distance from `readOffset` to `writeOffset` around the buffer, in `monitorFeedInput`. Below 0 it
-- leaves more space than there is, and 0 leaves enough as well.
abbrev pub filled : FeedRing → ℕ
filled ring =
    if leb ring.read_offset ring.write_offset
    then ring.write_offset - ring.read_offset
    else ring.write_offset + feed_buffer_size - ring.read_offset

-- Where the body of the loop of `monitorFeedInput` receives to.
unfoldable pub place_to_write : FeedRing → ℕ
place_to_write ring =
    let overrun = ltb (feed_buffer_size - filled ring) mp4_udp_size in
    let write_offset = if overrun then 5 * mp4_udp_size + ring.read_offset else ring.write_offset in
    if leb feed_buffer_size (write_offset + mp4_udp_size) then 0 else write_offset

-- The body of the loop of `monitorFeedInput` while FEED_ACTIVE; `received` is `none` for -1.
unfoldable pub monitor_feed_input : Option (List ℕ) → FeedRing → FeedRing
monitor_feed_input none ring = record ring { write_offset = place_to_write ring }
monitor_feed_input (some bytes) ring = record ring {
  feed_buffer = memcpy ring.feed_buffer (place_to_write ring) bytes;
  write_offset = place_to_write ring + length bytes;
}

-- `available`, of 32 bits without a sign.
unfoldable pub available : FeedRing → ℕ
available ring =
    if leb ring.read_offset ring.write_offset
    then ring.write_offset - ring.read_offset
    else (ring.write_offset + feed_buffer_size + 2 ^ 32 - ring.read_offset) % 2 ^ 32

-- `checkFeedInput`.
unfoldable pub check_feed_input : ℕ → Flags → FeedRing → List ℕ × FeedRing
check_feed_input size flags ring =
    let started = record ring { feed_thread_started = true } in
    let read_offset =
      if leb feed_buffer_size (ring.read_offset + mp4_udp_size) then 0 else ring.read_offset in
    let to_read = if leb (available ring) size then available ring else size in
    if not flags.feed_active then ([], ring) else if available ring == 0 then ([], started) else (
      take to_read (drop read_offset ring.feed_buffer),
      record started { read_offset = read_offset + to_read },
    )
