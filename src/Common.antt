-- ===== src/Common.antt =====
-- The crate `common`: the protocol between host and enclave.
pub mod Bytes
pub mod Request
pub mod Response
pub mod Communication
