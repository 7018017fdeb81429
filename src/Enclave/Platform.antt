-- ===== src/Enclave/Platform.antt =====
-- What the enclave's server calls and the repository does not hold: the prover and its executor
-- (sp1-sdk), Keccak-256 (sha3), the curve (k256) and the Nitro security module's driver.
use sp1_tee.Prelude.{ℕ, String, Bool, List, Option}
use sp1_tee.Result.{Result, ErrorText}

-- A request to the security module, with the fields that the server sets.
pub record NsmRequest : Type 0 where
  pub user_data : Option (List ℕ)
  pub nonce : Option (List ℕ)
  pub public_key : Option (List ℕ)

pub data NsmResponse : Type 0 where
  attestation : (document : List ℕ) → NsmResponse
  unexpected : NsmResponse

pub record Platform : Type 1 where
  -- whether the enclave is built with the feature `debug-mode`
  pub debug_mode : Bool
  pub Stdin : Type 0
  pub Point : Type 0
  pub Signature : Type 0
  pub SigningKey : Type 0
  -- `SP1_TEE_VERSION`, a `u32`
  pub tee_version : ℕ
  -- how Rust prints a number
  pub display : ℕ → String
  -- the key's verifying key as an uncompressed point, and a point's SEC1 bytes
  pub verifying_point : SigningKey → Point
  pub point_bytes : Point → List ℕ
  pub keccak256 : List ℕ → List ℕ
  -- signs a digest, with the recovery id, or fails
  pub sign_digest : SigningKey → List ℕ → Option (Signature × ℕ)
  -- `prover.setup`, then `bytes32_raw` of the verifying key; it panics on a bad program
  pub setup_vkey : (program : List ℕ) → Result ⊥ (List ℕ)
  -- the public values of a run within a limit of cycles
  pub run_program : (program : List ℕ) (stdin : Stdin) (limit : ℕ) → Result ErrorText (List ℕ)
  -- how tokio prints that a blocking task panicked
  pub join_error : String → String
  -- the driver of the security module; `none` is a negative descriptor
  pub Driver : Type 0
  pub nsm_init : Driver → Option ℕ × Driver
  pub nsm_process_request : ℕ → NsmRequest → Driver → NsmResponse × Driver
  pub nsm_exit : ℕ → Driver → Driver
