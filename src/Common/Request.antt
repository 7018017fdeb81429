-- ===== src/Common/Request.antt =====
-- common/src/lib.rs: the requests of the host to the enclave, and where the enclave listens. The
-- type of the SDK's standard input is a parameter.
use sp1_tee.Prelude.{ℕ, String, List}

-- The port and the context identifier of the enclave.
abbrev pub enclave_port : ℕ
enclave_port = 5005

abbrev pub enclave_cid : ℕ
enclave_cid = 10

pub data EnclaveRequest (Stdin : Type 0) : Type 0 where
  print : String → EnclaveRequest Stdin
  get_public_key : EnclaveRequest Stdin
  get_encrypted_signing_key : EnclaveRequest Stdin
  attest_signing_key : EnclaveRequest Stdin
  execute : (stdin : Stdin) (program : List ℕ) (cycle_limit : ℕ) → EnclaveRequest Stdin
  set_signing_key : List ℕ → EnclaveRequest Stdin
  close_session : EnclaveRequest Stdin

unfoldable pub type_of : {Stdin : Type 0} → EnclaveRequest Stdin → String
type_of (print _) = "Print"
type_of get_public_key = "GetPublicKey"
type_of get_encrypted_signing_key = "GetEncryptedSigningKey"
type_of attest_signing_key = "AttestSigningKey"
type_of (execute _ _ _) = "Execute"
type_of (set_signing_key _) = "SetSigningKey"
type_of close_session = "CloseSession"
