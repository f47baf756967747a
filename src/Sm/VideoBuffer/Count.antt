-- ===== src/Sm/VideoBuffer/Count.antt =====
-- The counter `nbFreePlaces` of src/sm/enc_dec.c agrees with `video_valid`.
use remote_drone.Base.{
  ℕ, zero, suc, ◌+◌, ◌-◌, ◌<◌, Bool, true, false, ◌&&◌, not, List, [], ◌∷◌, Option, none, some,
  length, ◌==◌, ◌≡◌, refl, arith, if◌then◌else◌, All, Bool-cases, inl, inr, leb,
}
use remote_drone.Sm.Params.{nb_cached_messages, max_missed_seq_nbs}
use remote_drone.Sm.SeqNb.{diff_seq_nb}
use remote_drone.Sm.SessionInfo.{DecodedMessage}
use remote_drone.Sm.VideoBuffer.{
  Slot, VideoBuffer, is_bad, remove_loop, remove_bad_messages, Search, found, best, search_loop,
  take_slot, after_search, flush_video_buffer, copy_loop, copy_video_buffer, invalidate,
  clear_video_buffer,
}

unfoldable pub count_unused : List Slot → ℕ
count_unused [] = 0
count_unused (slot ∷ slots) = (if slot.is_used then 0 else 1) + count_unused slots

-- There are NB_CACHED_MESSAGES slots, and the counter is the number of those not in use.
abbrev pub IsConsistent : VideoBuffer → Type 0
IsConsistent video =
    (length video.slots ≡ nb_cached_messages) × (video.nb_free_places ≡ count_unused video.slots)

pub remove_loop-count :
    (expected : ℕ) (slots : List Slot) (free : ℕ)
    → let r = remove_loop expected slots free in
      (length r.0 ≡ length slots)
      × (r.1 + count_unused slots ≡ free + count_unused r.0)
      × All (λ slot. is_bad expected slot ≡ false) r.0
unfolding remove_loop count_unused
remove_loop-count expected [] free = (refl, refl, tt)
remove_loop-count expected (slot ∷ slots) free = elim (Bool-cases slot.is_used) [
  | inl u ↦ elim (Bool-cases (leb max_missed_seq_nbs (diff_seq_nb expected slot.kept.seq_nb_num))) [
    | inl b ↦
        let ih = remove_loop-count expected slots (free + 1) in
        rw (u, b) ((omega (arith, ih.0)), (omega (arith, ih.1)), (refl, ih.2))
    | inr b ↦
        let ih = remove_loop-count expected slots free in
        rw (u, b) ((omega (arith, ih.0)), (omega (arith, ih.1)), (b, ih.2))
  ]
  | inr u ↦
      let ih = remove_loop-count expected slots free in
      rw u ((omega (arith, ih.0)), (omega (arith, ih.1)), (refl, ih.2))
]

pub remove_bad_messages-IsConsistent :
    (expected : ℕ) (video : VideoBuffer)
    → IsConsistent video
    → IsConsistent (remove_bad_messages expected video)
unfolding remove_bad_messages
remove_bad_messages-IsConsistent expected video h =
    let c = remove_loop-count expected video.slots video.nb_free_places in
    (omega (arith, c.0, h.0), omega (arith, c.1, h.1))

-- The slot `n` is in use.
abbrev pub used_at : ℕ → List Slot → Bool
used_at n [] = false
used_at zero (slot ∷ slots) = slot.is_used
used_at (suc n) (slot ∷ slots) = used_at n slots

take_slot-count :
    (n : ℕ) (slots : List Slot) (free : ℕ)
    → used_at n slots ≡ true
    → let r = take_slot n slots free in
      (length r.1.slots ≡ length slots)
      × (r.1.nb_free_places ≡ free + 1)
      × (count_unused r.1.slots ≡ count_unused slots + 1)
unfolding take_slot count_unused
take_slot-count n [] free u = absurd (ground arith)
take_slot-count zero (slot ∷ slots) free u = rw u (refl, refl, omega arith)
take_slot-count (suc n) (slot ∷ slots) free u =
    let ih = take_slot-count n slots free u in (omega (arith, ih.0), ih.1, omega (arith, ih.2))

-- The slot that a search ended with, if there is one, has a property.
abbrev pub Chosen : (ℕ → Type 0) → Search → Type 0
Chosen P (found n) = P n
Chosen P (best none) = Unit
Chosen P (best (some n)) = P n

pub search_loop-Chosen :
    (P : ℕ → Type 0) (expected : ℕ) (force : Bool) (slots : List Slot) (current : ℕ) (b : Option ℕ)
    → ((k n : ℕ) → n ≡ current + k → used_at k slots ≡ true → P n)
    → Chosen P (best b)
    → Chosen P (search_loop expected force slots current b)
unfolding search_loop
search_loop-Chosen P expected force [] current b all start = start
search_loop-Chosen P expected force (slot ∷ slots) current b all start =
    let later : (k n : ℕ) → n ≡ current + 1 + k → used_at k slots ≡ true → P n =
      λ k n e u. all (suc k) n (omega arith) u in
    let skip = search_loop-Chosen P expected force slots (current + 1) b later start in
    elim (Bool-cases slot.is_used) [
      | inl u ↦ rw u (
          let here = all 0 current (omega arith) u in
          elim (Bool-cases (slot.kept.seq_nb_num == expected)) [
            | inl e ↦ rw e here
            | inr e ↦
                rw e
                  (elim (Bool-cases
                    (force && leb (diff_seq_nb expected slot.kept.seq_nb_num) 0xFFFFFFFF)) [
                      | inl g ↦ rw g (
                          search_loop-Chosen P expected force slots (current + 1) (some current)
                            later here)
                      | inr g ↦ rw g skip
                    ])
          ])
      | inr u ↦ rw u skip
    ]

take_slot-IsConsistent :
    (n : ℕ) (video : VideoBuffer)
    → IsConsistent video
    → used_at n video.slots ≡ true
    → IsConsistent (take_slot n video.slots video.nb_free_places).1
take_slot-IsConsistent n video h u =
    let c = take_slot-count n video.slots video.nb_free_places u in
    (omega (arith, c.0, h.0), omega (arith, c.1, c.2, h.1))

-- Whatever `flushVideoBuffer` copies, the counter still agrees with the slots afterwards.
pub flush_video_buffer-IsConsistent :
    (expected : ℕ) (force : Bool) (video : VideoBuffer)
    → IsConsistent video
    → IsConsistent (flush_video_buffer expected force video).1
unfolding flush_video_buffer
flush_video_buffer-IsConsistent expected force video h =
    let cleaned = remove_bad_messages expected video in
    finish cleaned force _ (remove_bad_messages-IsConsistent expected video h) (
      search_loop-Chosen (λ n. used_at n cleaned.slots ≡ true) expected force cleaned.slots 0 none
        (λ k n e u. rw (zero_plus k n e) u) tt)
  where
    zero_plus : (k n : ℕ) → n ≡ 0 + k → n ≡ k
    zero_plus k n e = omega arith

    finish :
        (cleaned : VideoBuffer) (force : Bool) (r : Search)
        → IsConsistent cleaned
        → Chosen (λ n. used_at n cleaned.slots ≡ true) r
        → IsConsistent (after_search r force cleaned).1
    finish cleaned force (found n) h u = take_slot-IsConsistent n cleaned h u
    finish cleaned force (best none) h u = h
    finish cleaned true (best (some n)) h u = take_slot-IsConsistent n cleaned h u
    finish cleaned false (best (some n)) h u = h

copy_loop-count :
    (message : DecodedMessage) (slots : List Slot) (free : ℕ)
    → 0 < count_unused slots
    → let r = copy_loop message slots free in
      (r.0 ≡ true)
      × (length r.1 ≡ length slots)
      × (r.2 ≡ free - 1)
      × (count_unused r.1 + 1 ≡ count_unused slots)
unfolding copy_loop count_unused
copy_loop-count message [] free h = absurd (omega arith)
copy_loop-count message (slot ∷ slots) free h = elim (Bool-cases slot.is_used) [
  | inl u ↦
      let ih = copy_loop-count message slots free (omega (arith, rw u at h)) in
      rw u (ih.0, omega (arith, ih.1), ih.2, omega (arith, ih.3))
  | inr u ↦ rw u (refl, refl, refl, omega arith)
]

-- `copyVideoBuffer` keeps the counter right, and it returns 1 exactly if a slot is free when the bad
-- messages are gone; its last `return 0` is never reached.
pub copy_video_buffer-IsConsistent :
    (expected : ℕ) (message : DecodedMessage) (video : VideoBuffer)
    → IsConsistent video
    → let cleaned = remove_bad_messages expected video in
      let r = copy_video_buffer expected message video in
      IsConsistent r.1 × (r.0 ≡ not (cleaned.nb_free_places == 0))
unfolding copy_video_buffer
copy_video_buffer-IsConsistent expected message video h =
    let cleaned = remove_bad_messages expected video in
    let kept = remove_bad_messages-IsConsistent expected video h in
    elim (Bool-cases (cleaned.nb_free_places == 0)) [
      | inl z ↦ rw z (kept, refl)
      | inr z ↦
          let c =
            copy_loop-count message cleaned.slots cleaned.nb_free_places (ground (arith, kept.1)) in
          rw z ((omega (arith, c.1, kept.0), omega (arith, c.2, c.3, kept.1)), c.0)
    ]

invalidate-count :
    (slots : List Slot)
    → (length (invalidate slots) ≡ length slots) × (count_unused (invalidate slots) ≡ length slots)
unfolding invalidate count_unused
invalidate-count [] = (refl, refl)
invalidate-count (slot ∷ slots) =
    let ih = invalidate-count slots in (omega (arith, ih.0), omega (arith, ih.1))

-- The reset in `checkReceivedMessage` sets the counter right.
pub clear_video_buffer-IsConsistent :
    (video : VideoBuffer) → IsConsistent video → IsConsistent (clear_video_buffer video)
unfolding clear_video_buffer
clear_video_buffer-IsConsistent video h =
    let c = invalidate-count video.slots in (omega (arith, c.0, h.0), omega (arith, c.1, h.0))
