-- ===== src/Host/ValidateSigners.antt =====
-- host/bin/validate_signers.rs: validating one signer, or all signers of a verifier contract. The
-- contract's list of signers and the objects in S3 are arguments.
pub mod Judgement
use sp1_tee.Prelude.{ℕ, String, List, [], ◌∷◌}
use sp1_tee.Result.{Result, ok, err, panic, ErrorText, expect, ◌>>=◌, ◌>>◌}
use sp1_tee.Enclave.Platform.{Platform}
use sp1_tee.Host.Platform.{Address, HostPlatform}
use sp1_tee.Host.Storage.{Storage}
use sp1_tee.Host.Attestations.{
  AttestationVerificationError, version_mismatch, verify_attestation_for_signer,
}

-- What is printed about a signer.
pub data Verdict : Type 0 where
  validated skipped : Verdict

-- The `match` on the verification of a signer of a contract.
pub judge : Result AttestationVerificationError (Unit {0}) → Result ⊥ Verdict
judge (ok _) = ok validated
judge (err (version_mismatch _ _)) = ok skipped
judge (err _) = panic "Failed to validate signer"
judge (panic p) = panic p

module _ (st : Storage) (display : ℕ → String) (pl : Platform) (h : HostPlatform pl)
    (objects : st.Objects) (version : ℕ) (pcr0 : String) where
  -- `Command::Signer`
  pub validate_signer : Address → Result ⊥ (Unit {0})
  validate_signer signer =
      expect "called `Result::unwrap()` on an `Err` value"
        (verify_attestation_for_signer st display pl h objects signer version pcr0)

  -- The loop of `Command::Contract`.
  pub validate_contract : List Address → Result ⊥ (List (Address × Verdict))
  validate_contract [] = ok []
  validate_contract (signer ∷ signers) = do
    verdict ← judge (verify_attestation_for_signer st display pl h objects signer version pcr0)
    rest ← validate_contract signers
    ok ((signer, verdict) ∷ rest)

-- The command line's `Command`.
pub data Command : Type 0 where
  signer_command : (signer : Address) (pcr0 : String) (version : ℕ) → Command
  contract_command : (contract : Address) (rpc_url : String) (version : ℕ) (pcr0 : String) → Command

-- `parse_url` makes a provider, whose contract `get_signers` asks for its signers.
module _ (st : Storage) (display : ℕ → String) (pl : Platform) (h : HostPlatform pl)
    (objects : st.Objects) (parse_url : String → Result ErrorText (Unit {0}))
    (get_signers : (rpc_url : String) → Address → Result ErrorText (List Address)) where
  pub main : Command → Result ⊥ (List (Address × Verdict))
  unfolding validate_signer validate_contract
  main (signer_command signer pcr0 version) = do
    validate_signer st display pl h objects version pcr0 signer
    ok ((signer, validated) ∷ [])
  main (contract_command contract rpc_url version pcr0) = do
    expect "called `Result::unwrap()` on an `Err` value" (parse_url rpc_url)
    signers ← expect "called `Result::unwrap()` on an `Err` value" (get_signers rpc_url contract)
    validate_contract st display pl h objects version pcr0 signers
