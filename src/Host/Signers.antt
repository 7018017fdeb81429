-- ===== src/Host/Signers.antt =====
-- host/bin/server.rs: `get_signers`, the addresses of all attested keys of this version.
-- The iterator takes one attestation after the other, through both filters and the conversion.
pub mod Selection
use sp1_tee.Prelude.{
  ℕ, ◌≡◌, ◌≢◌, ◌↔◌, refl, sym, ap, ◌∙◌, String, Bool, List, [], ◌∷◌, Option, none, some, arith,
  length, bytes_eq, bytes_eq_iff, if◌then◌else◌, Option-cases, inl, inr,
}
use sp1_tee.Result.{
  Result, ok, err, panic, ErrorText, map_err, expect, expect_some, ok_or, ◌>>=◌, >>=-iff,
  map_err_iff, expect-eq-ok,
}
use sp1_tee.Common.Bytes.{to_le_bytes}
use sp1_tee.Common.Communication.{Codec}
use sp1_tee.Enclave.Platform.{Platform}
use sp1_tee.Host.Platform.{Address, HostPlatform}
use sp1_tee.Host.Address.{ethereum_address_from_sec1_bytes, ethereum_address_from_sec1_bytes_iff}
use sp1_tee.Host.Errors.{
  ServerError, failed_to_convert_public_key_to_address, failed_to_get_attestations,
}
use sp1_tee.Host.Storage.{Storage, AttestationDoc}
use sp1_tee.Host.Attestations.{RawAttestation, get_raw_attestations, verify_attestation, s3_bucket}

module _ (st : Storage) (pl : Platform) (h : HostPlatform pl) where
  -- The last step of the chain.
  pub converted : AttestationDoc → Result ServerError Address
  converted doc = do
    key ← expect_some "No public key found in attestation" doc.public_key
    ok_or failed_to_convert_public_key_to_address (ethereum_address_from_sec1_bytes pl h key)

  -- A verified document, if it is for this version, and the signers after it.
  pub select :
      AttestationDoc → Result ServerError (List Address) → Result ServerError (List Address)
  unfolding converted
  select doc rest = do
    user_data ← expect_some "No user data found in attestation" doc.user_data
    if bytes_eq user_data (to_le_bytes pl.tee_version)
        then (do address ← converted doc; signers ← rest; ok (address ∷ signers))
        else rest

  -- An attestation that does not verify is left out.
  pub select_verified :
      Result ErrorText AttestationDoc
      → Result ServerError (List Address)
      → Result ServerError (List Address)
  unfolding select
  select_verified (ok doc) rest = select doc rest
  select_verified (err _) rest = rest
  select_verified (panic p) rest = panic p

  pub signers_of : List RawAttestation → Result ServerError (List Address)
  unfolding select_verified
  signers_of [] = ok []
  signers_of (raw ∷ raws) =
      select_verified (verify_attestation st raw.attestation) (signers_of raws)

  pub get_signers : Codec (List Address) → st.Objects → Result ServerError (List ℕ)
  unfolding signers_of
  get_signers codec objects = do
    all_attestations ← map_err failed_to_get_attestations (get_raw_attestations st objects)
    signers ← signers_of all_attestations
    expect "failed to serialize signers" (codec.serialize signers)
