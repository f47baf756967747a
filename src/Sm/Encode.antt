-- ===== src/Sm/Encode.antt =====
-- `encodeMessage` and `encodeMessageNoEncryption` of src/sm/enc_dec.c.
pub mod Layout
use remote_drone.Base.{memcpy, ℕ, ◌+◌, List, set, take}
use remote_drone.General.Endian.{num_to_little_endian}
use remote_drone.Sm.Params.{
  field_type_nb, field_length_nb, field_target_nb, field_seq_nb_nb, aegis_iv_nb,
}

-- `encodeMessage`: the array, and the offset of the data.
unfoldable pub encode_message : List ℕ → ℕ → ℕ → List ℕ → ℕ → List ℕ → List ℕ × ℕ
encode_message message type length target_id seq_nb iv =
    let typed = set message 0 type in
    let sized = memcpy typed field_type_nb (take field_length_nb (num_to_little_endian length)) in
    let with_iv = memcpy sized (field_type_nb + field_length_nb) (take aegis_iv_nb iv) in
    let targeted =
      memcpy with_iv (field_type_nb + field_length_nb + aegis_iv_nb)
        (take field_target_nb target_id) in
    let numbered =
      memcpy targeted (field_type_nb + field_length_nb + aegis_iv_nb + field_target_nb)
        (take field_seq_nb_nb (num_to_little_endian seq_nb)) in
    (numbered, field_type_nb + field_length_nb + field_target_nb + field_seq_nb_nb + aegis_iv_nb)

-- `encodeMessageNoEncryption`.
unfoldable pub encode_message_no_encryption : List ℕ → ℕ → ℕ → List ℕ → ℕ → List ℕ × ℕ
encode_message_no_encryption message type length target_id seq_nb =
    let typed = set message 0 type in
    let sized = memcpy typed field_type_nb (take field_length_nb (num_to_little_endian length)) in
    let targeted =
      memcpy sized (field_type_nb + field_length_nb) (take field_target_nb target_id) in
    let numbered =
      memcpy targeted (field_type_nb + field_length_nb + field_target_nb)
        (take field_seq_nb_nb (num_to_little_endian seq_nb)) in
    (numbered, field_type_nb + field_length_nb + field_target_nb + field_seq_nb_nb)
