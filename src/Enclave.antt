-- ===== src/Enclave.antt =====
-- The crate `enclave`: the program that runs inside the enclave and holds the signing key.
pub mod Platform
pub mod Server
pub mod Connection
pub mod ByteBuf
pub mod Tasks
