-- ===== src/Lib.antt =====
-- sp1-tee: a host outside an AWS Nitro enclave sends programs to a server inside it; the
-- server runs them on the SP1 executor and signs what they put out with a key that never
-- leaves the enclave and that the enclave's security module attests.
--
-- The parts, and the files that model them (paths of the repository's sources in brackets):
-- - Common.Request, Common.Response [common/src/lib.rs]: `EnclaveRequest` and
--   `EnclaveResponse`, a constructor for each variant, and their `type_of`.
-- - Common.Communication [common/src/communication.rs]: `VsockStream::send` and `recv`,
--   messages after their length in four big-endian bytes. Common.Bytes has the bytes of a
--   `u32`.
-- - Enclave.Server [enclave/src/server.rs]: `get_public_key`, `attest_signing_key` and
--   `execute`.
-- - Enclave.Connection [enclave/src/server.rs]: `handle_message` and the loop
--   `handle_connection`.
-- - Enclave.ByteBuf [enclave/src/ffi/bytebuf.rs]: `AWSByteBuf`, made of bytes and dropped.
-- - Host.Address [host/src/lib.rs]: Ethereum's address of an encoded point and of SEC1 bytes.
-- - Host.Errors [host/src/server.rs, host/src/attestations.rs]: the errors, their texts and
--   statuses.
-- - Host.Stream [host/src/server/stream.rs]: the host's end of a connection, closed when
--   dropped.
-- - Host.Handlers [host/bin/server.rs]: `get_address` and `execute_inner`; Host.Signers:
--   `get_signers`; Host.Execute [also host/src/api.rs]: `execute` and its event, and in
--   Tasks its requests as a step relation that share the mutex.
-- - Host.Attestations [host/src/attestations.rs]: `get_raw_attestations`, `verify_attestation`
--   and `verify_attestation_for_signer`; Host.SaveAttestation: `save_attestation`.
-- - Host.ValidateSigners [host/bin/validate_signers.rs]: the validation of one or of all
--   signers.
-- - Host.Setup [host/bin/setup.rs]: adding the signers of all attestations to the verifier
--   contract; Host.Setup.Deploy: what `main` does before, the run of forge among it;
--   Host.Setup.Main: `main`.
-- - Host.AuthClient [host/src/server/auth.rs]: the client of the prover network's whitelist.
-- - Enclave.Tasks [enclave/src/server.rs]: the tasks of `run`, one for each connection, with
--   the guard of executions and the driver that they share, as a step relation whose steps are
--   `recv`, `handle_message` and the parts of an execution.
-- - Host.Launch [host/src/server.rs, host/bin/server.rs]: `main`, `Server::new`, starting and
--   terminating the enclave, its measurement; Host.Launch.Refresh: the loop of
--   `spawn_attestation_task`.
-- - Contracts [contracts/src]: `SignersMap`, `SimpleOwnable` and `SP1TeeVerifier`, whose
--   external functions are transactions: a revert leaves the state as it was. A check of
--   Solidity's that fails is the outcome `panic`, a `revert` an error.
-- - Deployment: the host's operations where the other end of the connection is the enclave's
--   loop, the setup where the chain's contract is `SP1TeeVerifier`, the contract where a
--   proof holds what the host returned, and in Lifecycle all of these one after another.
-- - Prelude, Result, Io, Guard: numbers, lists, tests; Rust's `Result` with a panic as third
--   outcome; actions that pass a state on; and a mutex that tasks share. `?` on an error is
--   the bind, `unwrap` and `expect` make a panic.
-- - Tests: the theorems at concrete inputs, with small functions for what the program calls.
--
-- How the code corresponds: a byte and a word are natural numbers; a function that changes a
-- stream, the driver or S3 takes that state and returns it; an `async` function is the
-- function that runs to its end. Log output is left out. A panic in a task of the blocking
-- pool comes back as the join error, any other ends its thread.
--
-- What is not in the repository is a parameter: the socket (`Transport`), bincode (`Codec`,
-- `EventCodec`), k256, keccak, the SP1 SDK and the security module's driver (`Platform`),
-- alloy's addresses and the build's overflow checks (`HostPlatform`), S3, the validation of
-- documents, hex and UTF-8 (`Storage`), the contract on its chain with its hex decoding
-- (`Verifier`), the sender of a request and the whitelist (`Whitelist`), the allocator
-- (`Memory`), keccak, `ecrecover` and the gateway of the chain (`Evm`), tokio's interval
-- (`Ticker`), tonic (`Tonic`), and the environment, processes and files (`Machine`), with
-- the chain behind a wallet (`Provider`). What the theorems ask of them stands in records of
-- laws: `CodecLaws`, `PipeLaws`, `IsLive`, `IsFed`, `IsServed`, `PointLaws`, `DriverLaws`,
-- `StorageLaws`, `DocumentLaws`, `VerifierLaws`, `MemoryLaws`, `TickerLaws`, `TonicLaws`,
-- `EventLaws`, `ListingLaws`, `Recovery`, all of which the small world of Tests meets. A
-- `Running` enclave has a socket with these laws; `Linked` says that all connections of the
-- host lead to it and that the host reads what the enclave writes.
--
-- Fuel: the loop of a connection has no bound of its own. It takes fuel, one unit a round; a
-- round takes at least the four bytes of a length, so more fuel than there are bytes to read
-- is enough.
--
-- Not modelled: the table of routes, the parsing of command lines, the set-up of logging
-- [host/src/lib.rs], the events of the contracts, the drawing of the key, the build script of
-- the enclave, and the example.
pub mod Prelude
pub mod Result
pub mod Io
pub mod Guard
pub mod Common
pub mod Enclave
pub mod Host
pub mod Contracts
pub mod Deployment
pub mod Tests
