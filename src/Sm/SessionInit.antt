-- ===== src/Sm/SessionInit.antt =====
-- src/sm/session_init_sm.c (RELIABLE_FEED is 0). The function pointers follow the send type.
use remote_drone.Base.{true, false}
use remote_drone.Sm.Params.{
  type_comm_send, type_comm_ack, type_comm_nack, type_stat_send, type_stat_ack, type_stat_nack,
  type_feed_send, type_alive_send, type_alive_ack, type_alive_nack, session_ack_message_bytes,
  session_nack_message_bytes,
}
use remote_drone.Sm.SessionInfo.{MessCtx}

-- `init_COMM_ctx`.
unfoldable pub init_comm_ctx : MessCtx → MessCtx
init_comm_ctx ctx = record ctx {
  send_type = type_comm_send;
  ack_type = type_comm_ack;
  nack_type = type_comm_nack;
  nack_length = session_nack_message_bytes;
  ack_length = session_ack_message_bytes;
  needs_acknowledge = true;
  num_transmissions = 0;
  time_of_transmission = 0;
}

-- `init_STAT_ctx`.
unfoldable pub init_stat_ctx : MessCtx → MessCtx
init_stat_ctx ctx = record ctx {
  send_type = type_stat_send;
  ack_type = type_stat_ack;
  nack_type = type_stat_nack;
  nack_length = session_nack_message_bytes;
  ack_length = session_ack_message_bytes;
  needs_acknowledge = true;
  num_transmissions = 0;
  time_of_transmission = 0;
}

-- `init_FEED_ctx`.
unfoldable pub init_feed_ctx : MessCtx → MessCtx
init_feed_ctx ctx = record ctx {
  send_type = type_feed_send;
  ack_type = 0;
  nack_type = 0;
  nack_length = 0;
  ack_length = 0;
  needs_acknowledge = false;
  num_transmissions = 0;
  time_of_transmission = 0;
}

-- `init_ALIVE_ctx`.
unfoldable pub init_alive_ctx : MessCtx → MessCtx
init_alive_ctx ctx = record ctx {
  send_type = type_alive_send;
  ack_type = type_alive_ack;
  nack_type = type_alive_nack;
  nack_length = session_nack_message_bytes;
  ack_length = session_ack_message_bytes;
  needs_acknowledge = true;
  num_transmissions = 0;
  time_of_transmission = 0;
}
