-- ===== src/Sm/VideoBuffer/Order.antt =====
-- Which message `flushVideoBuffer` of src/sm/enc_dec.c copies.
use remote_drone.Base.{
  ℕ, zero, suc, ◌+◌, ◌<◌, Bool, true, false, ◌&&◌, List, [], ◌∷◌, Option, none, some, ◌==◌, ◌≡◌,
  arith, All, Bool-cases, inl, inr, leb,
}
use remote_drone.Sm.Params.{max_missed_seq_nbs}
use remote_drone.Sm.SeqNb.{diff_seq_nb}
use remote_drone.Sm.SessionInfo.{DecodedMessage}
use remote_drone.Sm.VideoBuffer.{
  Slot, VideoBuffer, is_bad, remove_bad_messages, Search, found, best, search_loop, take_slot,
  after_search, flush_video_buffer,
}
use remote_drone.Sm.VideoBuffer.Count.{remove_loop-count, used_at, search_loop-Chosen, Chosen}

-- The message copied, if there is one, has a property.
abbrev pub Copied : (DecodedMessage → Type 0) → Option DecodedMessage → Type 0
Copied P none = Unit
Copied P (some m) = P m

-- The message of the slot `n` has a property.
abbrev HoldsAt : (DecodedMessage → Type 0) → ℕ → List Slot → Type 0
HoldsAt P n [] = ⊥
HoldsAt P zero (slot ∷ slots) = P slot.kept
HoldsAt P (suc n) (slot ∷ slots) = HoldsAt P n slots

take_slot-Copied :
    (P : DecodedMessage → Type 0) (n : ℕ) (slots : List Slot) (free : ℕ)
    → HoldsAt P n slots
    → Copied P (take_slot n slots free).0
unfolding take_slot
take_slot-Copied P n [] free h = tt
take_slot-Copied P zero (slot ∷ slots) free h = h
take_slot-Copied P (suc n) (slot ∷ slots) free h = take_slot-Copied P n slots free h

abbrev InWindow : ℕ → DecodedMessage → Type 0
InWindow expected m = diff_seq_nb expected m.seq_nb_num < max_missed_seq_nbs

clean-InWindow :
    (expected n : ℕ) (slots : List Slot)
    → All (λ slot. is_bad expected slot ≡ false) slots
    → used_at n slots ≡ true
    → HoldsAt (InWindow expected) n slots
clean-InWindow expected n [] clean u = absurd (ground arith)
clean-InWindow expected zero (slot ∷ slots) clean u = ground (arith, clean.0)
clean-InWindow expected (suc n) (slot ∷ slots) clean u = clean-InWindow expected n slots clean.1 u

-- A message that `flushVideoBuffer` copies is less than MAX_MISSED_SEQNBS behind the expected
-- number, forced or not.
pub flush_video_buffer-InWindow :
    (expected : ℕ) (force : Bool) (video : VideoBuffer)
    → Copied
        (λ m. diff_seq_nb expected m.seq_nb_num < max_missed_seq_nbs)
        (flush_video_buffer expected force video).0
unfolding flush_video_buffer remove_bad_messages
flush_video_buffer-InWindow expected force video =
    let cleaned = remove_bad_messages expected video in
    let clean = (remove_loop-count expected video.slots video.nb_free_places).2 in
    finish cleaned force _ (
      search_loop-Chosen (λ n. HoldsAt (InWindow expected) n cleaned.slots) expected force
        cleaned.slots 0 none
        (λ k n e u. rw (zero_plus k n e) (clean-InWindow expected k cleaned.slots clean u)) tt)
  where
    zero_plus : (k n : ℕ) → n ≡ 0 + k → n ≡ k
    zero_plus k n e = omega arith

    finish :
        (cleaned : VideoBuffer) (force : Bool) (r : Search)
        → Chosen (λ n. HoldsAt (InWindow expected) n cleaned.slots) r
        → Copied (InWindow expected) (after_search r force cleaned).0
    finish cleaned force (found n) h = take_slot-Copied _ n cleaned.slots _ h
    finish cleaned force (best none) h = tt
    finish cleaned true (best (some n)) h = take_slot-Copied _ n cleaned.slots _ h
    finish cleaned false (best (some n)) h = tt

-- The slot that the loop returned from, counted from where it stands, has the expected number.
abbrev Picked : ℕ → List Slot → ℕ → Search → Type 0
Picked expected slots current (found n) =
    (k : ℕ) × (n ≡ current + k) × HoldsAt (λ m. m.seq_nb_num ≡ expected) k slots
Picked expected slots current (best o) = Unit

later_slot :
    (expected : ℕ) (slot : Slot) (slots : List Slot) (current : ℕ) (r : Search)
    → Picked expected slots (current + 1) r
    → Picked expected (slot ∷ slots) current r
later_slot expected slot slots current (found n) h = (suc h.0, omega (arith, h.1), h.2)
later_slot expected slot slots current (best o) h = tt

search_loop-Picked :
    (expected : ℕ) (force : Bool) (slots : List Slot) (current : ℕ) (b : Option ℕ)
    → Picked expected slots current (search_loop expected force slots current b)
unfolding search_loop
search_loop-Picked expected force [] current b = tt
search_loop-Picked expected force (slot ∷ slots) current b =
    let skip =
      later_slot expected slot slots current _
        (search_loop-Picked expected force slots (current + 1) b) in
    elim (Bool-cases slot.is_used) [
      | inl u ↦ rw u (elim (Bool-cases (slot.kept.seq_nb_num == expected)) [
        | inl e ↦ rw e (0, omega arith, ground arith)
        | inr e ↦
            rw e
              (elim (Bool-cases
                (force && leb (diff_seq_nb expected slot.kept.seq_nb_num) 0xFFFFFFFF)) [
                  | inl g ↦ rw g (
                      later_slot expected slot slots current _
                        (search_loop-Picked expected force slots (current + 1) (some current)))
                  | inr g ↦ rw g skip
                ])
      ])
      | inr u ↦ rw u skip
    ]

-- Not forced, `flushVideoBuffer` copies the message with the expected number or none.
pub flush_video_buffer-in_order :
    (expected : ℕ) (video : VideoBuffer)
    → Copied (λ m. m.seq_nb_num ≡ expected) (flush_video_buffer expected false video).0
unfolding flush_video_buffer
flush_video_buffer-in_order expected video =
    let cleaned = remove_bad_messages expected video in
    finish cleaned _ (search_loop-Picked expected false cleaned.slots 0 none)
  where
    finish :
        (cleaned : VideoBuffer) (r : Search)
        → Picked expected cleaned.slots 0 r
        → Copied (λ m. m.seq_nb_num ≡ expected) (after_search r false cleaned).0
    finish cleaned (found n) h =
        let same : n ≡ h.0 = omega (arith, h.1) in
        rw same (take_slot-Copied (λ m. m.seq_nb_num ≡ expected) h.0 cleaned.slots _ h.2)
    finish cleaned (best none) h = tt
    finish cleaned (best (some n)) h = tt
