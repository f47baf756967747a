-- ===== src/Sm/SeqNb/Ring.antt =====
-- The sequence numbers of src/sm/enc_dec.c are the numbers from 1 to 2 ^ 32 - 1 in a circle.
use remote_drone.Base.{ℕ, ◌+◌, ◌-◌, ◌%◌, ◌^◌, ◌≤◌, ◌<◌, ◌≡◌, arith}
use remote_drone.Sm.SeqNb.{add_one_seq_nb, add_mult_seq_nb, diff_seq_nb}

-- A number that a message may carry.
abbrev pub IsSeqNb : ℕ → Type 0
IsSeqNb s = (1 ≤ s) × (s < 2 ^ 32)

-- The length of the circle.
abbrev pub circle : ℕ
circle = 2 ^ 32 - 1

-- `addMultSeqNb` moves `nb` places on the circle, for `nb` less than its length, and never gives 0.
pub add_mult_seq_nb_lem :
    (s nb : ℕ)
    → IsSeqNb s
    → nb < circle
    → (add_mult_seq_nb s nb ≡ (s - 1 + nb) % circle + 1) × IsSeqNb (add_mult_seq_nb s nb)
unfolding add_mult_seq_nb
add_mult_seq_nb_lem s nb h k = ground arith

-- Moving by one is `addOneSeqNb`.
pub add_one-eq-add_mult : (s : ℕ) → IsSeqNb s → add_one_seq_nb s ≡ add_mult_seq_nb s 1
unfolding add_one_seq_nb add_mult_seq_nb
add_one-eq-add_mult s h = ground arith

-- `diffSeqNb` recovers the distance that `addMultSeqNb` moved.
pub diff_seq_nb-add_mult_seq_nb :
    (s nb : ℕ) → IsSeqNb s → nb < circle → diff_seq_nb s (add_mult_seq_nb s nb) ≡ nb
unfolding add_mult_seq_nb diff_seq_nb
diff_seq_nb-add_mult_seq_nb s nb h k = ground arith

-- And moving by the distance arrives at the second number.
pub add_mult_seq_nb-diff_seq_nb :
    (s u : ℕ)
    → IsSeqNb s
    → IsSeqNb u
    → (add_mult_seq_nb s (diff_seq_nb s u) ≡ u) × (diff_seq_nb s u < circle)
unfolding add_mult_seq_nb diff_seq_nb
add_mult_seq_nb-diff_seq_nb s u h k = ground arith
