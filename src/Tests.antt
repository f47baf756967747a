-- ===== src/Tests.antt =====
-- Tests on concrete inputs, and an instance of each theorem.
mod Crypto
mod Transport
mod Protocol
mod Requests
mod Exchange
mod Main
mod Curve
mod Signatures
mod Random
mod Input
