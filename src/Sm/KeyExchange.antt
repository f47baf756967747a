-- ===== src/Sm/KeyExchange.antt =====
-- What the two key exchange machines, src/sm/drone_kep_sm.c and src/sm/bs_kep_sm.c, share: the
-- operations on the elliptic curve that they call, and updates of the session.
pub mod Verdict
use remote_drone.Base.{
  ℕ, ◌+◌, Bool, false, List, Option, none, some, take, replicate, leb, if◌then◌else◌,
}
use remote_drone.Crypto.Aegis.{aegis_encrypt_message}
use remote_drone.General.Endian.{little_endian_to_num, to_word_array}
use remote_drone.Sm.Decode.{bytes_at}
use remote_drone.Sm.Params.{
  field_seq_nb_nb, field_curvepoint_nb, kep2_message_bytes, kep_max_retransmissions,
}
use remote_drone.Sm.SessionInfo.{KepCtx, DecodedMessage, clear_session}
use remote_drone.Sm.SessionReq.{with_system_state}
use remote_drone.Sm.World.{
  Environment, World, Code, code_0, code_1, time_taken, random_taken, transmit_message,
}

-- `ECDHGenerateRandomSample`, `ECDHPointMultiply`, the first 16 bytes of the SHA3 digest,
-- `ecdsaSign` and `ecdsaCheck`, with the long-term keys of this side and of the other one. Those
-- that use random numbers are given the number of the call of the random source.
pub record KeyAgreement : Type 0 where
  pub generate_random_sample : ℕ → List ℕ × List ℕ
  pub point_multiply : List ℕ → List ℕ → List ℕ
  pub hash_buffer : List ℕ → List ℕ
  pub sign : ℕ → List ℕ → List ℕ → List ℕ
  pub check : List ℕ → List ℕ → List ℕ → Bool
  pub own_private : List ℕ
  pub peer_public : List ℕ

abbrev pub with_kep : KepCtx → World → World
with_kep kep w = record w { session = record w.session { kep = kep } }

abbrev pub kep_of : World → KepCtx
kep_of w = w.session.kep

-- `p - session->receivedMessage.type` for a field.
abbrev pub offset : Option ℕ → ℕ
offset (some i) = i
offset none = 0

-- The words that the field points to, and the bytes of an array of words.
abbrev pub curve_point_of : DecodedMessage → List ℕ
curve_point_of m = to_word_array (take field_curvepoint_nb (bytes_at m m.curve_point)) 16

-- `init_KEP_ctxDrone` and `init_KEP_ctxBaseStation`, which have one text.
unfoldable pub init_kep_ctx : Environment → World → World
init_kep_ctx env w =
    with_kep
      (record {
        scalar = replicate 8 0;
        generated_point_xy = replicate 16 0;
        received_point_xy = replicate 16 0;
        signature = replicate 16 0;
        kep_active = false;
        time_of_transmission = 0;
        num_transmissions = 0;
        sequence_nb = little_endian_to_num (env.random_bytes w.randoms_read field_seq_nb_nb) 4;
        expected_sequence_nb = 0;
        cached_message = replicate kep2_message_bytes 0;
      })
      (random_taken w)

-- `KEP2_send_handlerDrone`, `KEP4_send_handlerDrone`, `KEP1_send_handlerBaseStation` and
-- `KEP3_send_handlerBaseStation`, which differ in the number of bytes.
unfoldable pub kep_send_handler : Environment → ℕ → World → World × Code
kep_send_handler env nb_bytes w =
    let kep = kep_of w in
    let sent = transmit_message env kep.cached_message nb_bytes w in
    if leb kep_max_retransmissions kep.num_transmissions
    then (with_system_state clear_session w, code_0)
    else (
      with_kep
          (record kep {
            num_transmissions = kep.num_transmissions + 1;
            time_of_transmission = env.micro_time sent.times_read;
          })
          (time_taken sent),
      code_1,
    )

-- `aegisEncryptMessage` on the cached message under the IV given.
abbrev pub seal : Environment → World → List ℕ → List ℕ → ℕ → ℕ → List ℕ
seal env w iv message ad_len plain_len =
    aegis_encrypt_message env.aes_round w.session.session_key iv message ad_len plain_len
