-- ===== src/Common/Response.antt =====
-- common/src/lib.rs: the responses of the enclave. The types of k256's points and signatures are
-- parameters.
use sp1_tee.Prelude.{ℕ, String, List}

pub data EnclaveResponse (Point Signature : Type 0) : Type 0 where
  public_key : Point → EnclaveResponse Point Signature
  encrypted_signing_key : List ℕ → EnclaveResponse Point Signature
  signing_key_attestation : List ℕ → EnclaveResponse Point Signature
  signed_public_values :
      (vkey public_values : List ℕ) (signature : Signature) (recovery_id : ℕ)
      → EnclaveResponse Point Signature
  error : String → EnclaveResponse Point Signature
  ack : EnclaveResponse Point Signature

unfoldable pub type_of : {Point Signature : Type 0} → EnclaveResponse Point Signature → String
type_of (public_key _) = "PublicKey"
type_of (encrypted_signing_key _) = "EncryptedSigningKey"
type_of (signing_key_attestation _) = "SigningKeyAttestation"
type_of (signed_public_values _ _ _ _) = "SignedPublicValues"
type_of (error _) = "Error"
type_of ack = "Ack"
