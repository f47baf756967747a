-- ===== src/Sm/VideoBuffer.antt =====
-- The reordering buffer of src/sm/enc_dec.c: `video_buffer`, `video_valid`, `nbFreePlaces` and the
-- functions on them. The two arrays are one list of slots.
pub mod Count
pub mod Order
pub mod Forced
use remote_drone.Base.{
  ℕ, zero, suc, ◌+◌, ◌-◌, Bool, true, false, ◌&&◌, not, List, [], ◌∷◌, Option, none, some,
  replicate, get_or, set, leb, ltb, ◌==◌, if◌then◌else◌,
}
use remote_drone.Sm.Params.{nb_cached_messages, max_missed_seq_nbs}
use remote_drone.Sm.SeqNb.{diff_seq_nb}
use remote_drone.Sm.SessionInfo.{DecodedMessage, SessionInfo}

pub record Slot : Type 0 where
  pub is_used : Bool
  pub kept : DecodedMessage

pub record VideoBuffer : Type 0 where
  pub slots : List Slot
  pub nb_free_places : ℕ

-- The test of `removeBadMessages` on one slot.
abbrev pub is_bad : ℕ → Slot → Bool
is_bad expected slot =
    slot.is_used && leb max_missed_seq_nbs (diff_seq_nb expected slot.kept.seq_nb_num)

-- The loop of `removeBadMessages`; `nbFreePlaces` is a uint8_t.
unfoldable pub remove_loop : ℕ → List Slot → ℕ → List Slot × ℕ
remove_loop expected [] free = ([], free)
remove_loop expected (slot ∷ slots) free =
    let bad = is_bad expected slot in
    let rest = remove_loop expected slots (if bad then free + 1 else free) in
    ((if bad then record slot { is_used = false } else slot) ∷ rest.0, rest.1)

-- `removeBadMessages`.
unfoldable pub remove_bad_messages : ℕ → VideoBuffer → VideoBuffer
remove_bad_messages expected video =
    let r = remove_loop expected video.slots video.nb_free_places in
    record { slots = r.0; nb_free_places = r.1 }

-- What the loop of `flushVideoBuffer` found: the slot with the expected number, where it returns, or
-- `currentBestFeedMessage` at its end.
pub data Search : Type 0 where
  found : ℕ → Search
  best : Option ℕ → Search

-- The loop of `flushVideoBuffer` from the slot number `current` on. `minDiffFound` keeps the value
-- 0xFFFFFFFF.
unfoldable pub search_loop : ℕ → Bool → List Slot → ℕ → Option ℕ → Search
search_loop expected force [] current best_slot = best best_slot
search_loop expected force (slot ∷ slots) current best_slot =
    let skip = search_loop expected force slots (current + 1) best_slot in
    let better = search_loop expected force slots (current + 1) (some current) in
    if slot.is_used
    then if slot.kept.seq_nb_num == expected
      then found current
      else if force && leb (diff_seq_nb expected slot.kept.seq_nb_num) 0xFFFFFFFF
      then better
      else skip
    else skip

-- The copy out of a slot that frees it.
unfoldable pub take_slot : ℕ → List Slot → ℕ → Option DecodedMessage × VideoBuffer
take_slot n [] free = (none, record { slots = []; nb_free_places = free })
take_slot zero (slot ∷ slots) free = (
  some slot.kept,
  record { slots = record slot { is_used = false } ∷ slots; nb_free_places = free + 1 },
)
take_slot (suc n) (slot ∷ slots) free =
    let rest = take_slot n slots free in
    (rest.0, record { slots = slot ∷ rest.1.slots; nb_free_places = rest.1.nb_free_places })

abbrev pub after_search : Search → Bool → VideoBuffer → Option DecodedMessage × VideoBuffer
after_search (found n) force video = take_slot n video.slots video.nb_free_places
after_search (best none) force video = (none, video)
after_search (best (some n)) true video = take_slot n video.slots video.nb_free_places
after_search (best (some n)) false video = (none, video)

-- `flushVideoBuffer`: `some` of the message that is copied to `receivedMessage` for the return 1.
unfoldable pub flush_video_buffer : ℕ → Bool → VideoBuffer → Option DecodedMessage × VideoBuffer
flush_video_buffer expected force video =
    let cleaned = remove_bad_messages expected video in
    after_search (search_loop expected force cleaned.slots 0 none) force cleaned

-- The loop of `copyVideoBuffer`: the first unused slot takes the message.
unfoldable pub copy_loop : DecodedMessage → List Slot → ℕ → Bool × List Slot × ℕ
copy_loop message [] free = (false, [], free)
copy_loop message (slot ∷ slots) free =
    let rest = copy_loop message slots free in
    if slot.is_used
    then (rest.0, slot ∷ rest.1, rest.2)
    else (true, record { is_used = true; kept = message } ∷ slots, free - 1)

-- `copyVideoBuffer`.
unfoldable pub copy_video_buffer : ℕ → DecodedMessage → VideoBuffer → Bool × VideoBuffer
copy_video_buffer expected message video =
    let cleaned = remove_bad_messages expected video in
    let r = copy_loop message cleaned.slots cleaned.nb_free_places in
    if cleaned.nb_free_places == 0
    then (false, cleaned)
    else (r.0, record { slots = r.1; nb_free_places = r.2 })

-- The loop of the reset in `checkReceivedMessage`.
unfoldable pub invalidate : List Slot → List Slot
invalidate [] = []
invalidate (slot ∷ slots) = record slot { is_used = false } ∷ invalidate slots

-- That reset: every slot is set unused.
unfoldable pub clear_video_buffer : VideoBuffer → VideoBuffer
clear_video_buffer video = record {
  slots = invalidate video.slots;
  nb_free_places = nb_cached_messages;
}
