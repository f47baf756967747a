-- ===== src/General.antt =====
-- The helpers of src/general: array comparison and byte order.
pub mod Compare
pub mod Endian
