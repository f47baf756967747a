-- ===== src/Sm/SeqNb.antt =====
-- Sequence numbers, src/sm/enc_dec.c: uint32_t values of which 0 is not used, so that they count
-- modulo 2 ^ 32 - 1.
pub mod Ring
use remote_drone.Base.{ℕ, ◌+◌, ◌-◌, ◌%◌, ◌^◌, ltb, ◌==◌, if◌then◌else◌}

-- `addOneSeqNb`, which writes its argument.
unfoldable pub add_one_seq_nb : ℕ → ℕ
add_one_seq_nb seq_nb = if seq_nb == 0xFFFFFFFF then 1 else (seq_nb + 1) % 2 ^ 32

-- `addMultSeqNb`.
unfoldable pub add_mult_seq_nb : ℕ → ℕ → ℕ
add_mult_seq_nb seq_nb nb =
    let res = (seq_nb + nb) % 2 ^ 32 in if ltb res seq_nb then (res + 1) % 2 ^ 32 else res

-- `diffSeqNb`.
unfoldable pub diff_seq_nb : ℕ → ℕ → ℕ
diff_seq_nb seq_num_1 seq_num_2 =
    let diff = (seq_num_2 + 2 ^ 32 - seq_num_1) % 2 ^ 32 in
    if ltb seq_num_2 diff then diff - 1 else diff
