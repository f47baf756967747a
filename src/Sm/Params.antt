-- ===== src/Sm/Params.antt =====
-- The constants of include/general/params.h that the protocol layer uses.
use remote_drone.Base.{ℕ, ◌+◌, ◌*◌, ◌/◌}

abbrev pub message_max_payload_size : ℕ
message_max_payload_size = 10000

abbrev pub nb_cached_messages : ℕ
nb_cached_messages = 10

abbrev pub aegis_iv_nb : ℕ
aegis_iv_nb = 16

abbrev pub aegis_mac_nb : ℕ
aegis_mac_nb = 16

abbrev pub field_type_nb : ℕ
field_type_nb = 1

abbrev pub field_length_nb : ℕ
field_length_nb = 3

abbrev pub field_target_nb : ℕ
field_target_nb = 8

abbrev pub field_seq_nb_nb : ℕ
field_seq_nb_nb = 4

abbrev pub field_curvepoint_nb : ℕ
field_curvepoint_nb = 64

abbrev pub field_sign_nb : ℕ
field_sign_nb = 64

abbrev pub field_header_nb : ℕ
field_header_nb = field_type_nb + field_length_nb + aegis_iv_nb + field_target_nb + field_seq_nb_nb

abbrev pub max_message_nb : ℕ
max_message_nb = field_header_nb + message_max_payload_size + aegis_mac_nb

abbrev pub max_packet_size : ℕ
max_packet_size = 11 * max_message_nb / 10

abbrev pub kep1_message_bytes : ℕ
kep1_message_bytes = 80

abbrev pub kep2_message_bytes : ℕ
kep2_message_bytes = 176

abbrev pub kep3_message_bytes : ℕ
kep3_message_bytes = 112

abbrev pub kep4_message_bytes : ℕ
kep4_message_bytes = 52

abbrev pub min_message_bytes : ℕ
min_message_bytes = 48

abbrev pub session_ack_message_bytes : ℕ
session_ack_message_bytes = 52

abbrev pub session_nack_message_bytes : ℕ
session_nack_message_bytes = 52

abbrev pub type_kep1_send : ℕ
type_kep1_send = 0x04

abbrev pub type_kep2_send : ℕ
type_kep2_send = 0x08

abbrev pub type_kep3_send : ℕ
type_kep3_send = 0x0C

abbrev pub type_kep4_send : ℕ
type_kep4_send = 0x10

abbrev pub type_comm_send : ℕ
type_comm_send = 0x40

abbrev pub type_comm_ack : ℕ
type_comm_ack = 0x42

abbrev pub type_comm_nack : ℕ
type_comm_nack = 0x41

abbrev pub type_stat_send : ℕ
type_stat_send = 0x80

abbrev pub type_stat_ack : ℕ
type_stat_ack = 0x82

abbrev pub type_stat_nack : ℕ
type_stat_nack = 0x81

abbrev pub type_feed_send : ℕ
type_feed_send = 0xC0

abbrev pub type_feed_ack : ℕ
type_feed_ack = 0xC2

abbrev pub type_feed_nack : ℕ
type_feed_nack = 0xC1

abbrev pub type_alive_send : ℕ
type_alive_send = 0xE0

abbrev pub type_alive_ack : ℕ
type_alive_ack = 0xE2

abbrev pub type_alive_nack : ℕ
type_alive_nack = 0xE1

abbrev pub kep_retransmission_timeout : ℕ
kep_retransmission_timeout = 500

abbrev pub kep_max_retransmissions : ℕ
kep_max_retransmissions = 10

abbrev pub session_retransmission_timeout : ℕ
session_retransmission_timeout = 500

abbrev pub session_max_retransmissions : ℕ
session_max_retransmissions = 10

abbrev pub max_missed_seq_nbs : ℕ
max_missed_seq_nbs = 50

abbrev pub mic_per_mil : ℕ
mic_per_mil = 1000

abbrev pub packet_interval : ℕ
packet_interval = 0
