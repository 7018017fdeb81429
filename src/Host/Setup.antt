-- ===== src/Host/Setup.antt =====
-- host/bin/setup.rs: adding the signers of all attestations to the verifier contract. The contract
-- on its chain is a parameter; the text of a panic stops before the values that it prints.
pub mod Genuine
pub mod Registration
pub mod Completion
pub mod Deploy
pub mod Main
use sp1_tee.Prelude.{
  String, Bool, List, [], ◌∷◌, Option, none, some, not, bytes_eq, ℕ, if◌then◌else◌,
}
use sp1_tee.Result.{Result, ok, err, panic, ErrorText, expect, expect_some, ◌>>=◌, ◌>>◌}
use sp1_tee.Io
use sp1_tee.Io.{Io, pure, lift, unwrapping}
use sp1_tee.Enclave.Platform.{Platform}
use sp1_tee.Host.Platform.{Address, HostPlatform}
use sp1_tee.Host.Address.{ethereum_address_from_sec1_bytes}
use sp1_tee.Host.Storage.{Storage, AttestationDoc}
use sp1_tee.Host.Attestations.{RawAttestation, get_raw_attestations, verify_attestation}

-- The contract's `isSigner`, and `addSigner` as a transaction that is sent and then confirmed.
pub record Verifier : Type 1 where
  pub Chain : Type 0
  pub Pending : Type 0
  pub is_signer : Address → Chain → Result ErrorText Bool
  pub add_signer : Address → Io Chain ErrorText Pending
  pub watch : Pending → Io Chain ErrorText (Unit {0})
  -- `hex::decode`
  pub hex_decode : String → Result ErrorText (List ℕ)

-- `Args`, as they are once clap has put in the defaults.
pub record SetupArgs : Type 0 where
  pub deploy : Bool
  pub anvil : Bool
  pub rpc_url : String
  pub private_key : Option String
  pub etherscan_api_key : Option String
  pub etherscan_url : Option String
  pub pcr0 : Option String
  pub register_signers : Bool
  pub verifier_gateway : Option Address

module _ (st : Storage) (pl : Platform) (h : HostPlatform pl) (v : Verifier)
    (args : SetupArgs) where
  pub check_image : Option String → AttestationDoc → Result ⊥ (Unit {0})
  check_image none doc = ok tt
  check_image (some pcr0) doc = do
    pcr0_bytes ← expect "Failed to decode pcr0" (v.hex_decode pcr0)
    pcr ← expect_some "no entry found for key" (doc.pcrs 0)
    if not (bytes_eq pcr pcr0_bytes) then panic "PCR0 mismatch for address" else ok tt

  pub check_address : Address → AttestationDoc → Result ⊥ (Unit {0})
  check_address address doc = do
    pubkey_bytes ← expect_some "Public key is not set in attestation" doc.public_key
    derived_address ←
        expect_some "Failed to derive address from public key"
          (ethereum_address_from_sec1_bytes pl h pubkey_bytes)
    if not (bytes_eq derived_address address) then panic "Address mismatch expected" else ok tt

  -- `addSigner`, if the arguments ask for it.
  pub enroll : Address → Io v.Chain ⊥ (Unit {0})
  enroll address =
      if args.register_signers
      then Io.◌>>=◌ (unwrapping "Failed send tx to add signer" (v.add_signer address))
          (λ pending. unwrapping "Failed to get confirmation of adding signer" (v.watch pending))
      else pure tt

  pub register_unless : Address → Bool → Io v.Chain ⊥ (Unit {0})
  unfolding enroll
  register_unless address known = if known then pure tt else enroll address

  pub register : Address → Io v.Chain ⊥ (Unit {0})
  unfolding register_unless
  register address chain =
      Io.continue (expect "Failed to check if signer is registered" (v.is_signer address chain))
        (register_unless address) chain

  -- The body of the loop, after the `match` on the verification.
  pub add_verified : Address → Result ErrorText AttestationDoc → Io v.Chain ⊥ (Unit {0})
  unfolding check_image check_address register
  add_verified address (ok doc) =
      Io.◌>>=◌ (lift (do check_image args.pcr0 doc; check_address address doc))
        (λ _. register address)
  add_verified address (err _) = pure tt
  add_verified address (panic p) = lift (panic p)

  unfoldable pub add_signers : List RawAttestation → Io v.Chain ⊥ (Unit {0})
  unfolding add_verified
  add_signers [] = pure tt
  add_signers (raw ∷ raws) =
      Io.◌>>=◌ (add_verified raw.address (verify_attestation st raw.attestation))
        (λ _. add_signers raws)

  -- The part of `main` that adds the signers.
  unfoldable pub setup_signers : st.Objects → Io v.Chain ⊥ (Unit {0})
  unfolding add_signers
  setup_signers objects =
      Io.◌>>=◌ (lift (expect "Failed to get attestations" (get_raw_attestations st objects)))
        add_signers
