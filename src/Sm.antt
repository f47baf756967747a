-- ===== src/Sm.antt =====
-- The protocol layer of src/sm.
pub mod Params
pub mod SeqNb
pub mod Udp
pub mod UdpIo
pub mod SessionInfo
pub mod Encode
pub mod VideoBuffer
pub mod World
pub mod CheckInput
pub mod WriteOutput
pub mod Decode
pub mod SessionReq
pub mod SessionRes
pub mod SessionInit
pub mod KeyExchange
pub mod DroneKep
pub mod BaseStationKep
