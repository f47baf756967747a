-- ===== src/Sm/WriteOutput/Commands.antt =====
-- The commands of src/sm/check_input.c and what src/sm/write_output.c makes of them.
use remote_drone.Base.{ℕ, ◌≤◌, true, false, [], some, ◌≡◌, refl, arith, ltb}
use remote_drone.General.Compare.{equal_arrays}
use remote_drone.Sm.CheckInput.{
  Flags, check_comm_input, check_stat_input, stat_text, command_stat, command_start_feed,
  command_stop_feed, padded,
}
use remote_drone.Sm.WriteOutput.{write_comm_output}

write_stat :
    (flags : Flags)
    → write_comm_output (padded command_stat) flags ≡ record flags { stat_active = true }
unfolding write_comm_output equal_arrays
write_stat flags = refl

write_start_feed :
    (flags : Flags)
    → write_comm_output (padded command_start_feed) flags ≡ record flags { feed_active = true }
unfolding write_comm_output equal_arrays
write_start_feed flags = refl

write_stop_feed :
    (flags : Flags)
    → write_comm_output (padded command_stop_feed) flags ≡ record flags { feed_active = false }
unfolding write_comm_output equal_arrays
write_stop_feed flags = refl

-- What `checkCommInput` writes for the keys c, f and g is a command of COMMAND_LN bytes; `writeCommOutput`
-- of it asks for the status, starts the feed and stops it, and changes no other flag. The status
-- asked for is then sent once: `checkStatInput` writes its text and clears the flag, and writes
-- nothing the next time.
pub write_comm_output-check_comm_input :
    (size : ℕ) (flags : Flags)
    → 128 ≤ size
    → (write_comm_output (check_comm_input (some 99) size) flags
        ≡ record flags { stat_active = true })
      × (write_comm_output (check_comm_input (some 102) size) flags
          ≡ record flags { feed_active = true })
      × (write_comm_output (check_comm_input (some 103) size) flags
          ≡ record flags { feed_active = false })
      × (let asked = write_comm_output (check_comm_input (some 99) size) flags in
          let (text, answered) = check_stat_input size asked in
          (text ≡ stat_text) × (check_stat_input size answered ≡ ([], answered)))
unfolding check_comm_input check_stat_input
write_comm_output-check_comm_input size flags h =
    let room : ltb size 128 ≡ false = ground arith in
    let room' : ltb size 15 ≡ false = ground arith in
    rw (room, room', write_stat flags, write_start_feed flags, write_stop_feed flags)
      (refl, refl, refl, (refl, refl))
