-- ===== src/Sm/Decode/Window.antt =====
-- The window of `checkReceivedMessage` (src/sm/enc_dec.c) for video feed, by distance.
use remote_drone.Base.{ℕ, ◌<◌, ◌≡◌, ◌↔◌, arith, false}
use remote_drone.Sm.Params.{max_missed_seq_nbs}
use remote_drone.Sm.SeqNb.{add_mult_seq_nb, diff_seq_nb}
use remote_drone.Sm.SeqNb.Ring.{IsSeqNb}
use remote_drone.Sm.Decode.{outside_window}

-- A sequence number passes the window test, wherever the numbers wrap around, exactly if it is less
-- than MAX_MISSED_SEQNBS behind the expected one by `diffSeqNb`: then `removeBadMessages` keeps it.
pub outside_window_iff :
    (expected seq_nb : ℕ)
    → IsSeqNb expected
    → IsSeqNb seq_nb
    → (outside_window expected seq_nb ≡ false) ↔ (diff_seq_nb expected seq_nb < max_missed_seq_nbs)
unfolding outside_window add_mult_seq_nb diff_seq_nb
outside_window_iff expected seq_nb he hs = ground arith
