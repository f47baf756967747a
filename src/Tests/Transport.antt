-- ===== src/Tests/Transport.antt =====
-- Tests of src/sm/udp.c, src/sm/udp_io.c and the numbering of src/sm/enc_dec.c.
use remote_drone.Base.{ℕ, Bool, true, false, List, [], ◌∷◌, ◌≡◌, refl, arith, replicate, ltb}
use remote_drone.Sm.SeqNb.{add_mult_seq_nb, diff_seq_nb}
use remote_drone.Sm.SeqNb.Ring.{diff_seq_nb-add_mult_seq_nb}
use remote_drone.Sm.Udp.{Socket, done, flush_buffer, send_loop, send_message}
use remote_drone.Sm.Udp.Stream.{Appends, send_message-Appends}
use remote_drone.Sm.UdpIo.{transmit, transmit_loop, write_out, init_io_ctx, receive}
use remote_drone.Sm.UdpIo.Framing.{stuff}
use remote_drone.Sm.UdpIo.Receive.{Delivered, receive_lem, receive-transmit}

diff_seq_nb-add_mult_seq_nb_example : diff_seq_nb 0xFFFFFFF0 (add_mult_seq_nb 0xFFFFFFF0 50) ≡ 50
diff_seq_nb-add_mult_seq_nb_example =
    diff_seq_nb-add_mult_seq_nb 0xFFFFFFF0 50 (omega arith) (omega arith)

-- A message with a FLAG and an ESC inside, and the packet that carries it.
abbrev message_bytes : List ℕ
message_bytes = 4 ∷ 0xAA ∷ 7 ∷ 0xBB ∷ []

abbrev packet_bytes : List ℕ
packet_bytes = 4 ∷ 0xBB ∷ 0xAA ∷ 7 ∷ 0xBB ∷ 0xBB ∷ 0xAA ∷ []

abbrev idle_socket : Socket
idle_socket = record { buf = []; calls = 0; sent = [] }

-- The kernel takes the packets 0, 1 and 2.
abbrev three_packets : ℕ → Bool
three_packets k = ltb k 3

transmit_test :
    transmit three_packets message_bytes 4 true idle_socket
    ≡ done (record { buf = []; calls = 1; sent = packet_bytes ∷ [] })
unfolding transmit transmit_loop write_out send_message send_loop flush_buffer
transmit_test = refl

send_message-Appends_example :
    Appends three_packets message_bytes idle_socket
      (send_message three_packets message_bytes idle_socket)
send_message-Appends_example =
    send_message-Appends three_packets message_bytes idle_socket (omega arith, tt)

-- The same bytes cut elsewhere, with the start of the next message behind them.
receive_lem_example : Delivered message_bytes (9 ∷ 9 ∷ []) (
    receive init_io_ctx
      (replicate 6 0)
      5
      false
      ((4 ∷ 0xBB ∷ []) ∷ (0xAA ∷ 7 ∷ 0xBB ∷ []) ∷ (0xBB ∷ 0xAA ∷ 9 ∷ 9 ∷ []) ∷ []))
unfolding init_io_ctx stuff
receive_lem_example =
    receive_lem init_io_ctx (replicate 6 0) 5 false
      ((4 ∷ 0xBB ∷ []) ∷ (0xAA ∷ 7 ∷ 0xBB ∷ []) ∷ (0xBB ∷ 0xAA ∷ 9 ∷ 9 ∷ []) ∷ []) message_bytes
      (9 ∷ 9 ∷ []) refl refl (omega arith) (omega arith) (omega arith) refl

receive-transmit_example :
    Delivered message_bytes [] (receive init_io_ctx (replicate 6 0) 5 true (packet_bytes ∷ []))
receive-transmit_example =
    receive-transmit three_packets message_bytes (replicate 6 0) 5 0
      (record { buf = []; calls = 1; sent = packet_bytes ∷ [] }) (omega arith) (omega arith)
      transmit_test
