-- ===== src/Sm/SessionInfo.antt =====
-- The data of include/general/session_info.h: states, contexts, and the decoded message. A field that
-- points into a message array is the index it points to, and `none` where it is NULL.
use remote_drone.Base.{ℕ, Bool, true, false, List, Option}
use remote_drone.Sm.UdpIo.{IoCtx}

pub data KepState : Type 0 where
  kep_idle kep1_compute kep1_send kep1_wait : KepState
  kep2_precompute kep2_wait_request kep2_compute kep2_send kep2_wait : KepState
  kep3_verify kep3_compute kep3_send kep3_wait : KepState
  kep4_verify kep4_compute kep4_send : KepState
  kep5_verify : KepState
  done_state : KepState

pub data MessState : Type 0 where
  mess_idle mess_react mess_encrypt mess_verify mess_send mess_wait mess_ack mess_nack : MessState

pub data SystemState : Type 0 where
  idle clear_session kep session_ready : SystemState

pub data MessageStatus : Type 0 where
  channel_empty channel_inconsistent : MessageStatus
  message_valid message_repeated message_invalid message_used : MessageStatus
  message_checks_failed message_incomplete : MessageStatus

-- Tests of a status against one value.
abbrev pub is_valid : MessageStatus → Bool
is_valid message_valid = true
is_valid _ = false

abbrev pub is_repeated : MessageStatus → Bool
is_repeated message_repeated = true
is_repeated _ = false

abbrev pub is_incomplete : MessageStatus → Bool
is_incomplete message_incomplete = true
is_incomplete _ = false

abbrev pub is_inconsistent : MessageStatus → Bool
is_inconsistent channel_inconsistent = true
is_inconsistent _ = false

-- `struct State`.
pub record State : Type 0 where
  pub system_state : SystemState
  pub kep_state : KepState
  pub comm_state : MessState
  pub stat_state : MessState
  pub feed_state : MessState
  pub req_alive_state : MessState
  pub res_alive_state : MessState

-- `struct KEP_ctx`; a point is its two coordinates in one array of words.
pub record KepCtx : Type 0 where
  pub scalar : List ℕ
  pub generated_point_xy : List ℕ
  pub received_point_xy : List ℕ
  pub signature : List ℕ
  pub kep_active : Bool
  pub time_of_transmission : ℕ
  pub num_transmissions : ℕ
  pub sequence_nb : ℕ
  pub expected_sequence_nb : ℕ
  pub cached_message : List ℕ

-- `struct MESS_ctx`. Its two function pointers are fixed by `send_type`: see `Environment`.
pub record MessCtx : Type 0 where
  pub send_type : ℕ
  pub ack_type : ℕ
  pub nack_type : ℕ
  pub send_length : ℕ
  pub nack_length : ℕ
  pub ack_length : ℕ
  pub needs_acknowledge : Bool
  pub time_of_transmission : ℕ
  pub num_transmissions : ℕ
  pub sequence_nb : ℕ
  pub expected_sequence_nb : ℕ
  pub cached_message : List ℕ

-- `struct decodedMessage`. `type` and `length` always point to the places 0 and 1.
pub record DecodedMessage : Type 0 where
  pub message : List ℕ
  pub iv : Option ℕ
  pub target_id : Option ℕ
  pub seq_nb : Option ℕ
  pub ack_seq_nb : Option ℕ
  pub curve_point : Option ℕ
  pub data_field : Option ℕ
  pub mac : Option ℕ
  pub length_num : ℕ
  pub seq_nb_num : ℕ
  pub ack_seq_nb_num : ℕ
  pub message_status : MessageStatus

-- `struct SessionInfo`.
pub record SessionInfo : Type 0 where
  pub aegis_iv : List ℕ
  pub session_key : List ℕ
  pub io : IoCtx
  pub state : State
  pub received_message : DecodedMessage
  pub kep : KepCtx
  pub comm : MessCtx
  pub stat : MessCtx
  pub feed : MessCtx
  pub alive_req : MessCtx
  pub alive_res : MessCtx
  pub target_id : List ℕ
  pub own_id : List ℕ

-- `session->receivedMessage.messageStatus = status`.
abbrev pub set_status : MessageStatus → SessionInfo → SessionInfo
set_status status session = record session {
  received_message = record session.received_message { message_status = status };
}
