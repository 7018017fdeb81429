-- ===== src/Contracts.antt =====
-- The contracts of contracts/src. A call is a function of the contract's state, which a revert
-- leaves as it was. A revert with a reason is an error, and Solidity's own checks are panics.
pub mod SignersMap
pub mod SimpleOwnable
pub mod Sp1TeeVerifier
