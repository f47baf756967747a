-- ===== src/Sm/UdpIo/Receive.antt =====
-- `receive` of src/sm/udp_io.c reads the frame format, however the bytes are cut into packets.
use remote_drone.Base.{
  memcpy, length-memcpy, take-memcpy, ℕ, ◌+◌, ◌≤◌, ◌<◌, Bool, true, false, List, [], ◌∷◌, ◌++◌, ◌≡◌,
  refl, arith, length, take, take_whole, length-append, length-take, ltb, ◌==◌, append-nil,
  append_assoc, sym, ap, Bool-cases, inl, inr, ◌⊎◌, All,
}
use remote_drone.Sm.Params.{max_packet_size}
use remote_drone.Sm.Udp.Stream.{concat, stream, IsPacket}
use remote_drone.Sm.UdpIo.Transmit.{Delivers, transmit_lem}
use remote_drone.Sm.Udp.{Socket, done}
use remote_drone.Sm.UdpIo.{
  flag, esc, transmit, init_io_ctx, IoCtx, Scan, scan, Received, receive_loop, receive,
}
use remote_drone.Sm.UdpIo.Framing.{
  stuff, Frame, complete, partial, read_frame, read_frame-append, read_frame-frame, message_of,
  length-message-le,
}

-- The bytes of the message so far: those in the result, then those not yet copied.
abbrev contents : List ℕ → IoCtx → List ℕ → List ℕ
contents result io chunk = take io.res_index result ++ chunk

-- The loop of `receive` left what a reader of the format would.
abbrev Follows : ℕ → Scan → Frame → Type 0
Follows space s (complete m rest) =
    (s.flagged ≡ true)
    × (s.nb_bytes_written ≡ length m)
    × (take (length m) s.result ≡ m)
    × (s.io.unread ≡ rest)
    × (s.io.end_of_message ≡ true)
    × (s.io.esc_read ≡ false)
    × (length s.result ≡ space)
Follows space s (partial escaped m) =
    (s.flagged ≡ false)
    × (contents s.result s.io s.chunk ≡ m)
    × (s.io.res_index + length s.chunk ≡ length m)
    × (s.io.unread ≡ [])
    × (s.io.esc_read ≡ escaped)
    × (length s.result ≡ space)

length-contents :
    (io : IoCtx) (result chunk : List ℕ)
    → io.res_index + length chunk ≤ length result
    → length (contents result io chunk) ≡ io.res_index + length chunk
length-contents io result chunk fits =
    omega (arith, length-append (take io.res_index result) chunk, length-take io.res_index result)

scan-Follows :
    (size : ℕ) (bs chunk : List ℕ) (io : IoCtx) (result : List ℕ)
    → io.res_index + length chunk ≤ length result
    → size ≤ length result
    → length (message_of (read_frame io.esc_read (contents result io chunk) bs)) < size
    → Follows
        (length result)
        (scan size bs chunk io result)
        (read_frame io.esc_read (contents result io chunk) bs)
unfolding scan read_frame
scan-Follows size [] chunk io result fits room small =
    (refl, refl, sym (length-contents io result chunk fits), refl, refl, refl)
scan-Follows size (b ∷ bs) chunk io result fits room small =
    let longer = append_assoc (take io.res_index result) chunk (b ∷ []) in
    let copied = take-memcpy result io.res_index chunk fits in
    let size_kept = length-memcpy result io.res_index chunk in
    let read = length-contents io result chunk fits in
    elim (Bool-cases (ltb (io.res_index + length chunk) size)) [
      | inl more ↦ rw more (elim (Bool-cases io.esc_read) [
        | inl e ↦
            rw (e, longer)
              (scan-Follows size bs (chunk ++ b ∷ []) (record io { esc_read = false }) result
                (ground (arith, length-append chunk (b ∷ []))) room (rw (e, longer) at small))
        | inr e ↦ rw e (elim (Bool-cases (b == esc)) [
          | inl x ↦ rw x (
              rw (copied, append-nil (contents result io chunk), size_kept) at
                (scan-Follows size bs []
                  (record io { esc_read = true; res_index = io.res_index + length chunk })
                  (memcpy result io.res_index chunk) (rw size_kept (omega arith))
                  (rw size_kept room)
                  (rw (copied, append-nil (contents result io chunk)) (rw (e, x) at small))))
          | inr x ↦ rw x (elim (Bool-cases (b == flag)) [
            | inl f ↦ rw f (refl, sym read, rw read copied, refl, refl, refl, size_kept)
            | inr f ↦
                rw (f, longer)
                  (scan-Follows size bs (chunk ++ b ∷ []) (record io { esc_read = false }) result
                    (ground (arith, length-append chunk (b ∷ []))) room
                    (rw (e, x, f, longer) at small))
          ])
        ])
      ])
      | inr full ↦
          absurd (
            ground (arith, read, length-message-le io.esc_read (contents result io chunk) (b ∷ bs)))
    ]

-- The call returned the message and left the rest.
abbrev pub Delivered : List ℕ → List ℕ → Received → Type 0
Delivered m rest r =
    (r.nb_received ≡ length m)
    × (take (length m) r.result ≡ m)
    × (r.io.end_of_message ≡ true)
    × (r.io.unread ++ concat r.packets ≡ rest)

Frame-cases :
    (x : Frame)
    → ((m : List ℕ) × (rest : List ℕ) × (x ≡ complete m rest))
      ⊎ ((escaped : Bool) × (m : List ℕ) × (x ≡ partial escaped m))
Frame-cases (complete m rest) = inl (m, rest, refl)
Frame-cases (partial escaped m) = inr (escaped, m, refl)

abbrev rest_of : Frame → List ℕ
rest_of (complete m rest) = rest
rest_of (partial escaped m) = []

-- The loop as `receive` starts it, with nothing to copy yet.
scan-started :
    (size : ℕ) (io : IoCtx) (result : List ℕ) (x : Frame)
    → io.res_index ≤ length result
    → size ≤ length result
    → length (message_of x) < size
    → read_frame io.esc_read (take io.res_index result) io.unread ≡ x
    → Follows (length result) (scan size io.unread [] io result) x
scan-started size io result x fits room small e =
    rw (append-nil (take io.res_index result), e) at
      (scan-Follows size io.unread [] io result (omega arith) room
        (rw (append-nil (take io.res_index result), e) small))

receive_loop-Delivered :
    (size : ℕ) (packets : List (List ℕ)) (io : IoCtx) (result m rest : List ℕ)
    → All IsPacket packets
    → io.res_index ≤ length result
    → size ≤ length result
    → length m < size
    → read_frame io.esc_read (take io.res_index result) (io.unread ++ concat packets)
      ≡ complete m rest
    → Delivered m rest (receive_loop size io result packets)
unfolding receive_loop
receive_loop-Delivered size [] io result m rest hp fits room small e =
    let all_read = append-nil io.unread in
    let f = scan-started size io result (complete m rest) fits room small (rw all_read at e) in
    rw f.0 (f.1, f.2, f.4, rw (append-nil _) f.3)
receive_loop-Delivered size (p ∷ ps) io result m rest hp fits room small e =
    elim (Frame-cases (read_frame io.esc_read (take io.res_index result) io.unread)) [
      | inl (m', rest', e') ↦
          let whole : complete m' (rest' ++ concat (p ∷ ps)) ≡ complete m rest =
            rw
              (
                read_frame-append io.esc_read (take io.res_index result) io.unread
                    (concat (p ∷ ps)),
                e',
              )
              at e in
          let same_message : m' ≡ m = ap message_of whole in
          let same_rest : rest' ++ concat (p ∷ ps) ≡ rest = ap rest_of whole in
          let f =
            scan-started size io result (complete m' rest') fits room (rw same_message small) e' in
          rw f.0 (rw⁻¹ same_message (f.1, f.2, f.4, rw f.3 same_rest))
      | inr (escaped, m', e') ↦
          let left : read_frame escaped m' (p ++ concat ps) ≡ complete m rest =
            rw
              (
                read_frame-append io.esc_read (take io.res_index result) io.unread
                    (concat (p ∷ ps)),
                e',
              )
              at e in
          let small' : length m' < size = ground (
            arith,
            length-message-le escaped m' (p ++ concat ps),
            ap (λ x. length (message_of x)) left,
          ) in
          let f = scan-started size io result (partial escaped m') fits room small' e' in
          let s = scan size io.unread [] io result in
          let not_full : (s.io.res_index + length s.chunk == size) ≡ false = ground (arith, f.2) in
          let not_empty : (length p == 0) ≡ false = ground (arith, hp.0.0) in
          let whole_packet = take_whole max_packet_size p hp.0.1 in
          let kept = length-memcpy s.result s.io.res_index s.chunk in
          let in_bounds : s.io.res_index + length s.chunk ≤ length s.result =
            rw (f.2, f.5) (omega arith) in
          let copied = take-memcpy s.result s.io.res_index s.chunk in_bounds in
          rw (f.0, not_full, whole_packet, not_empty)
            (receive_loop-Delivered size ps
              (record s.io { unread = p; res_index = s.io.res_index + length s.chunk })
              (memcpy s.result s.io.res_index s.chunk) m rest hp.1 (rw kept in_bounds)
              (rw (kept, f.5) room) small (rw (f.4, copied, f.1) left))
    ]

receive_loop-framed :
    (size : ℕ) (packets : List (List ℕ)) (io : IoCtx) (result message rest : List ℕ)
    → io.res_index ≡ 0
    → io.esc_read ≡ false
    → size ≤ length result
    → length message < size
    → All IsPacket packets
    → io.unread ++ concat packets ≡ stuff message ++ flag ∷ rest
    → Delivered message rest (receive_loop size io result packets)
receive_loop-framed size packets io result message rest start plain room small hp bytes =
    receive_loop-Delivered size packets io result message rest hp (rw start (omega arith)) room
      small (rw (start, plain, bytes) (read_frame-frame message rest))

-- A receiver between two messages, `end_of_message`, is given a frame and what follows it, in any
-- non-empty packets of at most MAX_PACKET_SIZE bytes. If the result array has `size` places and the
-- message is shorter, `receive` returns the length of the message, the result starts with the
-- message, the end of the message is reported, and all bytes behind the frame are left for the next
-- calls, read or not.
pub receive_lem :
    (io : IoCtx) (result : List ℕ) (size : ℕ) (cont : Bool) (packets : List (List ℕ))
    (message rest : List ℕ)
    → io.res_index ≡ 0
    → io.esc_read ≡ false
    → size ≤ length result
    → length message < size
    → All IsPacket packets
    → io.unread ++ concat packets ≡ stuff message ++ flag ∷ rest
    → Delivered message rest (receive io result size cont packets)
unfolding receive
receive_lem io result size true packets message rest start plain room small hp bytes =
    receive_loop-framed size packets io result message rest start plain room small hp bytes
receive_lem io result size false packets message rest start plain room small hp bytes =
    receive_loop-framed size packets (record io { res_index = 0 }) result message rest refl plain
      room small hp bytes

-- What `transmit` sends over an idle socket, `receive` returns: if the call of `transmit` returns 0
-- and exactly the packets it sent arrive, in order, then a receiver in its initial state returns the
-- message, in a result array of more places, and has nothing left to read.
pub receive-transmit :
    (accepts : ℕ → Bool) (message result : List ℕ) (size calls : ℕ) (s : Socket)
    → size ≤ length result
    → length message < size
    → transmit accepts message (length message) true (record { buf = []; calls = calls; sent = [] })
      ≡ done s
    → Delivered message [] (receive init_io_ctx result size true s.sent)
unfolding stream
receive-transmit accepts message result size calls s room small e =
    let idle : Socket = record { buf = []; calls = calls; sent = [] } in
    let sent : Delivers accepts (stuff message ++ flag ∷ []) idle (done s) =
      rw (take_whole (length message) message (omega arith), e) at
        (transmit_lem accepts message (length message) true idle (omega arith, tt)) in
    let bytes : concat s.sent ≡ stuff message ++ flag ∷ [] =
      rw (sent.1, append-nil (concat s.sent)) at sent.0 in
    unfold init_io_ctx in
    (receive_lem init_io_ctx result size true s.sent message [] refl refl room small sent.2 bytes)
