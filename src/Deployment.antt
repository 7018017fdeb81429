-- ===== src/Deployment.antt =====
-- The parts together: the handlers of host/bin/server.rs on a connection to the server of
-- enclave/src/server.rs and with the client of host/src/server/auth.rs, and the contract of
-- contracts/src with the setup of host/bin/setup.rs and with what the host returns.
pub mod Link
pub mod Exchange
pub mod Handlers
pub mod Signature
pub mod Attestation
pub mod Registration
pub mod Proof
pub mod Authentication
pub mod Lifecycle
