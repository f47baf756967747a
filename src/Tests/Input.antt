-- ===== src/Tests/Input.antt =====
-- Tests of src/sm/check_input.c and src/sm/write_output.c.
use remote_drone.Base.{
  ℕ, ◌+◌, ◌<◌, ◌≤◌, true, false, List, [], ◌∷◌, some, ◌≡◌, refl, sym, arith, length, replicate,
  length-replicate,
}
use remote_drone.Sm.CheckInput.{
  Flags, FeedRing, check_comm_input, check_stat_input, stat_text, place_to_write,
  monitor_feed_input, check_feed_input, feed_buffer_size, mp4_udp_size,
}
use remote_drone.Sm.CheckInput.Ring.{
  IsRing, monitor_feed_input-IsRing, check_feed_input-monitor_feed_input,
}
use remote_drone.Sm.WriteOutput.{write_comm_output}
use remote_drone.Sm.WriteOutput.Commands.{write_comm_output-check_comm_input}

abbrev flags : Flags
flags = record { feed_active = true; stat_active = false; last_check = 0; micro_interval = 5 }

write_comm_output-check_comm_input_example :
    (write_comm_output (check_comm_input (some 99) 10000) flags
      ≡ record flags { stat_active = true })
    × (write_comm_output (check_comm_input (some 102) 10000) flags
        ≡ record flags { feed_active = true })
    × (write_comm_output (check_comm_input (some 103) 10000) flags
        ≡ record flags { feed_active = false })
    × (let asked = write_comm_output (check_comm_input (some 99) 10000) flags in
        let (text, answered) = check_stat_input 10000 asked in
        (text ≡ stat_text) × (check_stat_input 10000 answered ≡ ([], answered)))
write_comm_output-check_comm_input_example =
    write_comm_output-check_comm_input 10000 flags (omega arith)

abbrev ring : FeedRing
ring = record {
  feed_buffer = replicate feed_buffer_size 0;
  read_offset = 4000;
  write_offset = 4000;
  feed_thread_started = true;
}

ring-IsRing : IsRing ring
ring-IsRing = record {
  size_exact = length-replicate {A = ℕ} feed_buffer_size 0;
  read_lt = omega arith;
  write_lt = omega arith;
}

abbrev packet : List ℕ
packet = 1 ∷ 2 ∷ 3 ∷ []

monitor_feed_input-IsRing_example :
    (place_to_write ring + mp4_udp_size < feed_buffer_size)
    × IsRing (monitor_feed_input (some packet) ring)
monitor_feed_input-IsRing_example = monitor_feed_input-IsRing (some packet) ring short ring-IsRing
  where
    short : (bytes : List ℕ) → some packet ≡ some bytes → length bytes ≤ mp4_udp_size
    short bytes e = let same : packet ≡ bytes = cc e in rw (sym same) (omega arith)

check_feed_input-monitor_feed_input_example :
    let (read, next) = check_feed_input 10000 flags (monitor_feed_input (some packet) ring) in
    (read ≡ packet) × (next.read_offset ≡ next.write_offset)
check_feed_input-monitor_feed_input_example =
    check_feed_input-monitor_feed_input 10000 flags ring packet refl refl (omega arith)
      (omega arith) (omega arith) (omega arith) ring-IsRing.size_exact
