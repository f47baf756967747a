-- ===== src/Sm/WriteOutput.antt =====
-- What is done with the payload of a message that arrives, src/sm/write_output.c: the flags that a
-- command sets. The functions for the other types print or send their bytes and change nothing.
pub mod Commands
use remote_drone.Base.{ℕ, Bool, true, false, List, length, if◌then◌else◌}
use remote_drone.General.Compare.{equal_arrays}
use remote_drone.Sm.CheckInput.{Flags, command_stat, command_start_feed, command_stop_feed}

-- `writeCommOutput`, without its printing.
unfoldable pub write_comm_output : List ℕ → Flags → Flags
write_comm_output buffer f0 =
    let f1 = if equal_arrays buffer command_stat 14 then record f0 { stat_active = true } else f0 in
    let f2 =
      if equal_arrays buffer command_start_feed 11 then record f1 { feed_active = true } else f1 in
    if equal_arrays buffer command_stop_feed 10 then record f2 { feed_active = false } else f2
