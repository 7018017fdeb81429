-- ===== src/Enclave/Server.antt =====
-- enclave/src/server.rs: the server and the three answers that need work. The signing key is never
-- changed, since the two functions that would change it are not implemented.
pub mod Signing
pub mod Attestation
pub mod Typing
use sp1_tee.Prelude.{
  ℕ, zero, suc, ◌≡◌, String, Bool, true, false, List, [], ◌∷◌, ◌++◌, Option, none, some, length,
  ltb, concat, if◌then◌else◌,
}
use sp1_tee.Result.{Result, ok, err, panic, ErrorText, ◌>>=◌}
use sp1_tee.Io.{Io, pure, unwrapping}
use sp1_tee.Common.Bytes.{u32_max, to_le_bytes}
use sp1_tee.Common.Request.{EnclaveRequest}
use sp1_tee.Common.Response.{
  EnclaveResponse, public_key, signing_key_attestation, signed_public_values, error, ack,
}
use sp1_tee.Common.Communication.{CommunicationError, Transport, Codec, send, recv}
use sp1_tee.Enclave.Platform.{Platform, NsmRequest, NsmResponse, attestation, unexpected}

-- `MAX_ALLOWED_CYCLES`
abbrev pub max_allowed_cycles : ℕ
max_allowed_cycles = u32_max

pub record EnclaveArgs : Type 0 where
  pub enc_key_arn : String
  pub cid : Option ℕ

module _ (pl : Platform) where
  open pl use {
    Stdin, Point, Signature, SigningKey, Driver, display, tee_version, verifying_point, point_bytes,
    keccak256, sign_digest, setup_vkey, run_program, nsm_init, nsm_process_request, nsm_exit,
    debug_mode,
  }

  pub record Server : Type 0 where
    pub args : EnclaveArgs
    pub signing_key : SigningKey

  abbrev pub Request : Type 0
  Request = EnclaveRequest Stdin

  abbrev pub Response : Type 0
  Response = EnclaveResponse Point Signature

  -- `Server::new`, with the key that was drawn.
  pub new : EnclaveArgs → SigningKey → Server
  new args key = record { args = args; signing_key = key }

  unfoldable pub get_public_key : Server → Point
  get_public_key server = verifying_point server.signing_key

  -- The request to the security module: the version and the public key go into the document.
  pub attestation_request : Server → NsmRequest
  unfolding get_public_key
  attestation_request server = record {
    user_data = some (to_le_bytes tee_version);
    nonce = none;
    public_key = some (point_bytes (get_public_key server));
  }

  document_of : NsmResponse → Response
  document_of (attestation document) = signing_key_attestation document
  document_of unexpected = error "Unexpected response type from NSM, this is a bug."

  attest_with : Server → Option ℕ → Driver → Response × Driver
  unfolding document_of
  attest_with server none d = (error "Failed to initialize NSM", d)
  attest_with server (some fd) d =
      let (response, d') = nsm_process_request fd (attestation_request server) d in
      (document_of response, nsm_exit fd d')

  pub attest_signing_key : Server → Driver → Response × Driver
  unfolding attest_with
  attest_signing_key server d = let (fd, d') = nsm_init d in attest_with server fd d'

  -- What the signature covers: the hashed version, the program's key, the hashed public values.
  unfoldable pub signed_message : (vkey public_values : List ℕ) → List ℕ
  signed_message vkey public_values =
      keccak256 (to_le_bytes tee_version) ++ (vkey ++ keccak256 public_values)

  signed : Server → (vkey public_values : List ℕ) → Response
  signed server vkey public_values =
      elim (sign_digest server.signing_key (keccak256 (signed_message vkey public_values))) [
        | some (signature, recovery_id) ↦
            signed_public_values vkey public_values signature recovery_id
        | none ↦ error "Failed to sign public values, this is a bug."
      ]

  executed : Server → (vkey : List ℕ) → Result ErrorText (List ℕ) → Result ⊥ Response
  unfolding signed
  executed server vkey (ok public_values) = ok (signed server vkey public_values)
  executed server vkey (err e) = ok (error (concat ("Failed to execute program: " ∷ e ∷ [])))
  executed server vkey (panic p) = panic p

  unfoldable pub execute :
      Server → Stdin → (program : List ℕ) → (cycle_limit : ℕ) → Result ⊥ Response
  unfolding executed
  execute server stdin program cycle_limit =
      if ltb max_allowed_cycles cycle_limit
      then ok (
          error (
            concat (
              "Cycle limit is too high: "
              ∷ display cycle_limit
              ∷ ", max: "
              ∷ display max_allowed_cycles
              ∷ [])))
      else (do
        vkey ← setup_vkey program
        executed server vkey (run_program program stdin cycle_limit))
