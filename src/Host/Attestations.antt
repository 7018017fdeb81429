-- ===== src/Host/Attestations.antt =====
-- host/src/attestations.rs: fetching all attestations, and verifying one for a signer. A read of S3
-- is a function of the objects that are there.
pub mod Verification
pub mod Listing
use text.Mathlib.Text.{◌==◌ as str_eq}
use sp1_tee.Prelude.{
  ℕ, String, Bool, List, [], ◌∷◌, Option, none, some, not, bytes_eq, if◌then◌else◌,
}
use sp1_tee.Result.{
  Result, ok, err, panic, ErrorText, map_err, expect, expect_some, ok_or, ◌>>=◌, ◌>>◌,
}
use sp1_tee.Common.Bytes.{to_le_bytes}
use sp1_tee.Enclave.Platform.{Platform}
use sp1_tee.Host.Platform.{Address, HostPlatform}
use sp1_tee.Host.Address.{ethereum_address_from_sec1_bytes}
use sp1_tee.Host.Errors.{
  GetAttestationError, list_attestations_error, s3_get_object_error, byte_stream_error,
}
use sp1_tee.Host.Storage.{Storage, AttestationDoc}

pub data AttestationVerificationError : Type 0 where
  verification_error : ErrorText → AttestationVerificationError
  pcr0_verification_error : (expected actual : String) → AttestationVerificationError
  get_attestation_error : GetAttestationError → AttestationVerificationError
  missing_required_field : String → AttestationVerificationError
  address_mismatch : (expected found : Address) → AttestationVerificationError
  version_mismatch : (expected found : String) → AttestationVerificationError

pub record RawAttestation : Type 0 where
  pub address : Address
  pub attestation : List ℕ

module _ (st : Storage) where
  open st use {
    Objects, Body, get_object, collect, list_objects_v2, validate_and_parse, parse_address,
    address_text, hex_encode, without_0x, from_utf8, production,
  }

  -- `S3_BUCKET`
  pub s3_bucket : String
  s3_bucket = if production then "sp1-tee-attestations" else "sp1-tee-attestations-testing"

  unfoldable pub verify_attestation : List ℕ → Result ErrorText AttestationDoc
  verify_attestation attestation = validate_and_parse attestation

  -- One entry of the listing, fetched.
  fetch : Objects → Option String → Result GetAttestationError RawAttestation
  unfolding s3_bucket
  fetch objects metadata_key = do
    key ← expect_some "No key found in attestations" metadata_key
    key_as_address ← expect "Failed to parse key as address" (parse_address key)
    object ← map_err s3_get_object_error (get_object s3_bucket key objects)
    bytes ← map_err byte_stream_error (collect object)
    ok (record { address = key_as_address; attestation = bytes })

  fetch_all : Objects → List (Option String) → Result GetAttestationError (List RawAttestation)
  unfolding fetch
  fetch_all objects [] = ok []
  fetch_all objects (m ∷ ms) = do
    raw ← fetch objects m
    rest ← fetch_all objects ms
    ok (raw ∷ rest)

  unfoldable pub get_raw_attestations : Objects → Result GetAttestationError (List RawAttestation)
  unfolding fetch_all
  get_raw_attestations objects = do
    listing ← map_err list_attestations_error (list_objects_v2 s3_bucket objects)
    contents ← expect_some "No contents found in attestations" listing
    fetch_all objects contents

  module _ (display : ℕ → String) (pl : Platform) (h : HostPlatform pl) where
    check_pcr0 : String → AttestationDoc → Result AttestationVerificationError (Unit {0})
    check_pcr0 pcr0 doc = do
      pcr ← expect_some "no entry found for key" (doc.pcrs 0)
      let doc_pcr0 = hex_encode pcr
      if not (str_eq doc_pcr0 (without_0x pcr0))
          then err (pcr0_verification_error pcr0 doc_pcr0)
          else ok tt

    check_version : ℕ → AttestationDoc → Result AttestationVerificationError (Unit {0})
    check_version version doc = do
      user_data ← ok_or (missing_required_field "user_data") doc.user_data
      if not (bytes_eq user_data (to_le_bytes version))
          then (do
            found ← expect "called `Result::unwrap()` on an `Err` value" (from_utf8 user_data)
            err (version_mismatch (display version) found))
          else ok tt

    derived_address : Option (List ℕ) → Option Address
    derived_address none = none
    derived_address (some key) = ethereum_address_from_sec1_bytes pl h key

    check_signer : Address → AttestationDoc → Result AttestationVerificationError (Unit {0})
    unfolding derived_address
    check_signer signer doc = do
      address ← ok_or (missing_required_field "public_key") (derived_address doc.public_key)
      if not (bytes_eq address signer) then err (address_mismatch signer address) else ok tt

    -- The attestation stored under the signer's address.
    stored : Objects → Address → Result AttestationVerificationError (List ℕ)
    unfolding s3_bucket
    stored objects signer = do
      attestation ←
          map_err (λ e. get_attestation_error (s3_get_object_error e))
            (get_object s3_bucket (address_text signer) objects)
      map_err (λ e. get_attestation_error (byte_stream_error e)) (collect attestation)

    pub verify_attestation_for_signer :
        Objects
        → (signer : Address) (version : ℕ) (pcr0 : String)
        → Result AttestationVerificationError (Unit {0})
    unfolding stored verify_attestation check_pcr0 check_version check_signer
    verify_attestation_for_signer objects signer version pcr0 = do
      bytes ← stored objects signer
      doc ← map_err verification_error (verify_attestation bytes)
      check_pcr0 pcr0 doc
      check_version version doc
      check_signer signer doc
