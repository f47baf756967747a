-- ===== src/Crypto.antt =====
-- The cryptographic code of src/crypto.
pub mod ModArithmetic
pub mod Montgomery
pub mod ModInverse
pub mod CurveParams
pub mod EcArithmetic
pub mod Ecdh
pub mod Ecdsa
pub mod Aes
pub mod CrtDrbg
pub mod Aegis
