-- ===== src/Host.antt =====
-- The crate `host`: the program outside the enclave, its library and its binaries.
pub mod Platform
pub mod Address
pub mod Errors
pub mod Stream
pub mod Handlers
pub mod Storage
pub mod Attestations
pub mod SaveAttestation
pub mod ValidateSigners
pub mod Signers
pub mod Setup
pub mod Execute
pub mod Launch
pub mod AuthClient
