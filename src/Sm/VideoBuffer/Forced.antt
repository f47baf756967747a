-- ===== src/Sm/VideoBuffer/Forced.antt =====
-- Which slot a forced `flushVideoBuffer` of src/sm/enc_dec.c chooses: `minDiffFound` stays at its
-- first value, so the last one in use.
use remote_drone.Base.{
  ℕ, suc, ◌+◌, true, false, List, [], ◌∷◌, ◌++◌, Option, some, ◌==◌, ◌≡◌, ◌≢◌, refl, arith, All,
  Bool-cases, inl, inr, leb, length,
}
use remote_drone.Sm.SeqNb.{diff_seq_nb}
use remote_drone.Sm.VideoBuffer.{Slot, best, search_loop}

in_range : (e s : ℕ) → leb (diff_seq_nb e s) 0xFFFFFFFF ≡ true
unfolding diff_seq_nb
in_range e s = ground arith

-- If no used slot has the expected number and the last slot is in use, a forced search that has
-- come to the slot number `current` ends with the last slot, whatever the numbers in the others are.
pub search_loop-last :
    (expected current : ℕ) (slots : List Slot) (last : Slot) (b : Option ℕ)
    → All (λ slot. slot.is_used ≡ true → slot.kept.seq_nb_num ≢ expected) slots
    → last.is_used ≡ true
    → last.kept.seq_nb_num ≢ expected
    → search_loop expected true (slots ++ last ∷ []) current b
      ≡ best (some (current + length slots))
unfolding search_loop
search_loop-last expected current [] last b others u n =
    let other : (last.kept.seq_nb_num == expected) ≡ false = ground arith in
    let here : current + 0 ≡ current = omega arith in
    rw (u, other, in_range expected last.kept.seq_nb_num, here) refl
search_loop-last expected current (slot ∷ slots) last b others u n =
    let further : current + 1 + length slots ≡ current + suc (length slots) = omega arith in
    let skip = rw further at (search_loop-last expected (current + 1) slots last b others.1 u n) in
    let better =
      rw further at
        (search_loop-last expected (current + 1) slots last (some current) others.1 u n) in
    elim (Bool-cases slot.is_used) [
      | inl v ↦
          let other : (slot.kept.seq_nb_num == expected) ≡ false = ground (arith, others.0 v) in
          rw (v, other, in_range expected slot.kept.seq_nb_num) better
      | inr v ↦ rw v skip
    ]
