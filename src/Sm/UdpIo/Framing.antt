-- ===== src/Sm/UdpIo/Framing.antt =====
-- The frame format of src/sm/udp_io.c, independent of segments, packets and buffers: FLAG ends a
-- message, and ESC stands before each FLAG or ESC inside one.
use remote_drone.Base.{
  ℕ, ◌≤◌, Bool, true, false, ◌||◌, List, [], ◌∷◌, ◌++◌, ◌≡◌, refl, arith, length, length-append,
  ◌==◌, if◌then◌else◌, append-nil, append_assoc, ◌∙◌,
}
use remote_drone.Sm.UdpIo.{flag, esc}

-- A message with its ESC bytes.
unfoldable pub stuff : List ℕ → List ℕ
stuff [] = []
stuff (b ∷ bs) = if b == flag || b == esc then esc ∷ b ∷ stuff bs else b ∷ stuff bs

-- How far a reader has come: at the end of a message, with the bytes behind it, or inside one.
pub data Frame : Type 0 where
  complete : List ℕ → List ℕ → Frame
  partial : Bool → List ℕ → Frame

-- A reader that takes one byte at a time; `escaped` says that the last one was ESC.
unfoldable pub read_frame : Bool → List ℕ → List ℕ → Frame
read_frame escaped message [] = partial escaped message
read_frame true message (b ∷ bs) = read_frame false (message ++ b ∷ []) bs
read_frame false message (b ∷ bs) =
    let after_esc = read_frame true message bs in
    let plain = read_frame false (message ++ b ∷ []) bs in
    if b == esc then after_esc else if b == flag then complete message bs else plain

-- More bytes for a reader.
abbrev pub feed : Frame → List ℕ → Frame
feed (complete m rest) ys = complete m (rest ++ ys)
feed (partial escaped m) ys = read_frame escaped m ys

pub read_frame-append :
    (escaped : Bool) (m xs ys : List ℕ)
    → read_frame escaped m (xs ++ ys) ≡ feed (read_frame escaped m xs) ys
unfolding read_frame
read_frame-append escaped m [] ys = refl
read_frame-append true m (b ∷ xs) ys = read_frame-append false (m ++ b ∷ []) xs ys
read_frame-append false m (b ∷ xs) ys =
    ground (arith, read_frame-append true m xs ys, read_frame-append false (m ++ b ∷ []) xs ys)

-- The reader takes a stuffed message for the message.
pub read_frame-stuff :
    (m xs ys : List ℕ) → read_frame false m (stuff xs ++ ys) ≡ read_frame false (m ++ xs) ys
unfolding read_frame stuff
read_frame-stuff m [] ys = rw (append-nil m)
read_frame-stuff m (b ∷ xs) ys =
    ground (arith, read_frame-stuff (m ++ b ∷ []) xs ys, append_assoc m (b ∷ []) xs)

-- A frame reads back as its message, and what follows it is left.
pub read_frame-frame :
    (xs ys : List ℕ) → read_frame false [] (stuff xs ++ flag ∷ ys) ≡ complete xs ys
read_frame-frame xs ys = read_frame-stuff [] xs (flag ∷ ys) ∙ (unfold read_frame in refl)

-- The bytes read so far.
abbrev pub message_of : Frame → List ℕ
message_of (complete m rest) = m
message_of (partial escaped m) = m

pub length-message-le :
    (escaped : Bool) (m xs : List ℕ) → length m ≤ length (message_of (read_frame escaped m xs))
unfolding read_frame
length-message-le escaped m [] = omega arith
length-message-le true m (b ∷ xs) =
    omega (arith, length-message-le false (m ++ b ∷ []) xs, length-append m (b ∷ []))
length-message-le false m (b ∷ xs) = ground (
  arith,
  length-message-le true m xs,
  length-message-le false (m ++ b ∷ []) xs,
  length-append m (b ∷ []),
)
