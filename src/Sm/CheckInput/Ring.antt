-- ===== src/Sm/CheckInput/Ring.antt =====
-- The ring buffer of the video feed in src/sm/check_input.c.
use remote_drone.Base.{
  ℕ, zero, suc, ◌+◌, ◌-◌, ◌*◌, ◌<◌, ◌≤◌, true, false, List, [], ◌∷◌, Option, none, some, ◌≡◌, refl,
  ap, ◌∙◌, arith, length, take, drop, memcpy, length-memcpy, length-take, ltb, leb, ◌==◌,
  if◌then◌else◌, inl, inr, Bool-cases,
}
use remote_drone.Sm.CheckInput.{
  Flags, FeedRing, filled, place_to_write, monitor_feed_input, available, check_feed_input,
  feed_buffer_size, mp4_udp_size,
}

-- The buffer has its size, and both offsets lie in it.
pub record IsRing (ring : FeedRing) : Type 0 where
  pub size_exact : length ring.feed_buffer ≡ feed_buffer_size
  pub read_lt : ring.read_offset < feed_buffer_size
  pub write_lt : ring.write_offset < feed_buffer_size

-- An offset from which a packet would reach the end starts again at 0.
rewound :
    (w : ℕ)
    → (if leb feed_buffer_size (w + mp4_udp_size) then 0 else w) + mp4_udp_size < feed_buffer_size
rewound w = elim (Bool-cases (leb feed_buffer_size (w + mp4_udp_size))) [
  | inl e ↦ rw e (omega arith)
  | inr e ↦ rw e (ground arith)
]

-- There is always room for one more packet where the loop receives to.
pub place_to_write-fits : (ring : FeedRing) → place_to_write ring + mp4_udp_size < feed_buffer_size
unfolding place_to_write
place_to_write-fits ring = rewound (
    if ltb (feed_buffer_size - filled ring) mp4_udp_size
    then 5 * mp4_udp_size + ring.read_offset
    else ring.write_offset)

-- A packet of at most MP4_UDP_SIZE bytes is received inside the buffer, and the ring stays in shape.
pub monitor_feed_input-IsRing :
    (received : Option (List ℕ)) (ring : FeedRing)
    → ((bytes : List ℕ) → received ≡ some bytes → length bytes ≤ mp4_udp_size)
    → IsRing ring
    → (place_to_write ring + mp4_udp_size < feed_buffer_size)
      × IsRing (monitor_feed_input received ring)
unfolding monitor_feed_input
monitor_feed_input-IsRing none ring d i =
    let fits = place_to_write-fits ring in
    (fits, record { size_exact = i.size_exact; read_lt = i.read_lt; write_lt = omega arith })
monitor_feed_input-IsRing (some bytes) ring d i =
    let fits = place_to_write-fits ring in
    let short = d bytes refl in
    (
      fits,
      record {
        size_exact = length-memcpy ring.feed_buffer (place_to_write ring) bytes ∙ i.size_exact;
        read_lt = i.read_lt;
        write_lt = omega arith;
      },
    )

-- Where at most MP4_UDP_SIZE bytes are asked for, `checkFeedInput` reads inside the buffer and the ring
-- stays in shape; it never gives more than it is asked for.
pub check_feed_input-IsRing :
    (size : ℕ) (flags : Flags) (ring : FeedRing)
    → size ≤ mp4_udp_size
    → IsRing ring
    → let (bytes, next) = check_feed_input size flags ring in
      (length bytes ≤ size) × (next.read_offset ≤ feed_buffer_size) × IsRing next
unfolding check_feed_input
check_feed_input-IsRing size flags ring le i =
    let base =
      if leb feed_buffer_size (ring.read_offset + mp4_udp_size) then 0 else ring.read_offset in
    let to_read = if leb (available ring) size then available ring else size in
    let room = rewound ring.read_offset in
    let few : to_read ≤ size = at_most (available ring) size in
    let inside : base + to_read < feed_buffer_size = omega (arith, room, few) in
    elim (Bool-cases flags.feed_active) [
      | inr off ↦ rw off (omega arith, omega (arith, i.read_lt), i)
      | inl on ↦ elim (Bool-cases (available ring == 0)) [
        | inl e ↦
            rw (on, e)
              (
                omega arith,
                omega (arith, i.read_lt),
                record { size_exact = i.size_exact; read_lt = i.read_lt; write_lt = i.write_lt },
              )
        | inr e ↦
            rw (on, e)
              (
                omega (arith, length-take to_read (drop base ring.feed_buffer), few),
                omega (arith, inside),
                record { size_exact = i.size_exact; read_lt = inside; write_lt = i.write_lt },
              )
      ]
    ]
  where
    at_most : (a n : ℕ) → (if leb a n then a else n) ≤ n
    at_most a n = ground arith

take-drop-memcpy :
    (dst : List ℕ) (i : ℕ) (src : List ℕ)
    → i + length src ≤ length dst
    → take (length src) (drop i (memcpy dst i src)) ≡ src
unfolding memcpy
take-drop-memcpy dst zero [] h = refl
take-drop-memcpy [] zero (s ∷ src) h = absurd (omega arith)
take-drop-memcpy (d ∷ dst) zero (s ∷ src) h =
    ap (λ (xs : List ℕ). s ∷ xs) (take-drop-memcpy dst zero src (omega arith))
take-drop-memcpy [] (suc i) src h = absurd (omega arith)
take-drop-memcpy (d ∷ dst) (suc i) src h = take-drop-memcpy dst i src (omega arith)

place_to_write-empty :
    (ring : FeedRing)
    → ring.read_offset ≡ ring.write_offset
    → ring.write_offset + mp4_udp_size < feed_buffer_size
    → place_to_write ring ≡ ring.write_offset
unfolding place_to_write
place_to_write-empty ring empty low =
    let w = ring.write_offset in
    let level : leb ring.read_offset w ≡ true = ground arith in
    let none_filled : w - ring.read_offset ≡ 0 = omega arith in
    let no_wrap : leb feed_buffer_size (w + mp4_udp_size) ≡ false = ground arith in
    rw (level, none_filled, no_wrap) refl

-- A packet that arrives at an empty ring is what `checkFeedInput` gives next, where neither offset is at
-- the end of the buffer.
pub check_feed_input-monitor_feed_input :
    (size : ℕ) (flags : Flags) (ring : FeedRing) (bytes : List ℕ)
    → flags.feed_active ≡ true
    → ring.read_offset ≡ ring.write_offset
    → ring.write_offset + mp4_udp_size < feed_buffer_size
    → 0 < length bytes
    → length bytes ≤ mp4_udp_size
    → length bytes ≤ size
    → length ring.feed_buffer ≡ feed_buffer_size
    → let (read, next) = check_feed_input size flags (monitor_feed_input (some bytes) ring) in
      (read ≡ bytes) × (next.read_offset ≡ next.write_offset)
unfolding check_feed_input monitor_feed_input available
check_feed_input-monitor_feed_input size flags ring bytes on empty low pos short fits len =
    let w = ring.write_offset in
    let n = length bytes in
    let place = place_to_write-empty ring empty low in
    let no_wrap : leb feed_buffer_size (w + mp4_udp_size) ≡ false = ground arith in
    let ahead : leb w (w + n) ≡ true = ground arith in
    let difference : w + n - w ≡ n = omega arith in
    let some_there : (n == 0) ≡ false = ground arith in
    let all_fit : leb n size ≡ true = ground arith in
    rw (place, empty, ahead, difference, some_there, all_fit, on, no_wrap)
      (take-drop-memcpy ring.feed_buffer w bytes (omega arith), refl)
