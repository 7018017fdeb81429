-- ===== src/Tests/Lifecycle.antt =====
-- The small enclave from its attestation to a proof: a bucket that keeps what was put under each
-- key, and the contract that the setup finds freshly made.
use mathlib.Core.List.{map}
use mathlib.Core.List.Memᴰ.{head}
use text.Mathlib.Text
use text.Mathlib.TextPositions.{eq_refl}
use sp1_tee.Prelude.{
  ℕ, ◌≡◌, refl, ap, ◌∙◌, String, false, List, [], ◌∷◌, some, arith, replicate, bytes_eq,
  if◌then◌else◌,
}
use sp1_tee.Result.{Result, ok, err, ErrorText}
use sp1_tee.Common.Bytes.{to_le_bytes}
use sp1_tee.Host.Address.{ethereum_address_from_sec1_bytes}
use sp1_tee.Host.Storage.{Storage}
use sp1_tee.Host.Attestations.{verify_attestation, s3_bucket, get_raw_attestations}
use sp1_tee.Host.Attestations.Listing.{nil, cons, get_raw_attestations_iff}
use sp1_tee.Host.SaveAttestation.{SaveAttestationError, save_attestation}
use sp1_tee.Host.Setup.{add_signers, setup_signers}
use sp1_tee.Contracts.SignersMap
use sp1_tee.Contracts.SimpleOwnable.{only_owner}
use sp1_tee.Contracts.Sp1TeeVerifier
use sp1_tee.Contracts.Sp1TeeVerifier.{verify_proof}
use sp1_tee.Contracts.Sp1TeeVerifier.Proofs.{bytes_of}
use sp1_tee.Deployment.Attestation.{StorageLaws, DocumentLaws, save_attestation_linked}
use sp1_tee.Deployment.Registration.{verifier}
use sp1_tee.Deployment.Lifecycle.{ListingLaws, verify_proof-setup_signers}
use sp1_tee.Tests.World.{small, host, point_laws, recovery, store, document_laws}
use sp1_tee.Tests.Encoding.{requests, request_laws, responses, response_laws}
use sp1_tee.Tests.Sockets.{running, served, linked}
use sp1_tee.Tests.Deployed.{
  request, signed_response, response, answered, fits_executing, fits_signed, returned, document,
  attested, fits_attest, fits_get, fits_document, fits_key,
}
use sp1_tee.Tests.Registration.{args, contract, fresh, nine}
use sp1_tee.Tests.Chain.{chain, proof, carries, not_zero}

abbrev Shelf : Type 0
Shelf = List (String × List ℕ)

abbrev look : String → Shelf → Result ErrorText (List ℕ)
look key [] = err "no such key"
look key ((k, body) ∷ rest) = if Text.◌==◌ k key then ok body else look key rest

abbrev shelf : Storage
shelf = record {
  Objects = Shelf;
  Body = List ℕ;
  put_object = λ bucket key body objects. (ok tt, (key, body) ∷ objects);
  get_object = λ bucket key objects. look key objects;
  collect = λ body. ok body;
  list_objects_v2 = λ bucket objects. ok (some (map (λ (o : String × List ℕ). some o.0) objects));
  validate_and_parse = store.validate_and_parse;
  address_text = store.address_text;
  parse_address = store.parse_address;
  hex_encode = store.hex_encode;
  without_0x = store.without_0x;
  from_utf8 = store.from_utf8;
  production = false;
}

shelf_laws : StorageLaws shelf
shelf_laws = record {
  get-put = λ bucket key bytes objects done. (bytes, ground (arith, eq_refl key), refl);
}

shelf_listing : ListingLaws shelf
shelf_listing = record {
  listed = λ bucket key bytes objects keys done there short.
      let same : some key ∷ map (λ (o : String × List ℕ). some o.0) objects ≡ keys = ground arith in
      rw (← same) (head refl);
}

-- `DocumentLaws` is about validation alone.
shelf_documents : DocumentLaws small shelf
shelf_documents = record { image = document_laws.image; validates = document_laws.validates }

abbrev full : Shelf
full = ("address", document) ∷ []

linked_save :
    save_attestation small host shelf served requests responses
      (record { cid = 10; port = 5005; bucket = s3_bucket shelf })
      []
    ≡ (ok tt, full)
linked_save =
    save_attestation_linked small host point_laws requests request_laws responses response_laws
      running served linked shelf document attested fits_attest fits_get fits_document fits_key
      (record { cid = 10; port = 5005; bucket = s3_bucket shelf }) (replicate 64 9) [] refl

got : get_raw_attestations shelf full ≡ ok (record { address = nine; attestation = document } ∷ [])
got =
    (get_raw_attestations_iff shelf full (record { address = nine; attestation = document } ∷ [])).1
      (some "address" ∷ [], refl, cons "address" nine document document refl refl refl nil)

ready :
    (setup_signers shelf small host (verifier nine contract.hex_decode) args full fresh).0 ≡ ok tt
unfolding setup_signers
ready = rw got (
    unfold add_signers verify_attestation bytes_eq to_le_bytes ethereum_address_from_sec1_bytes
      Sp1TeeVerifier.add_signer Sp1TeeVerifier.is_signer only_owner SignersMap.add_signer
      SignersMap.is_signer SignersMap.empty_map in
    refl)

abbrev Saved : Type 0
Saved = Result SaveAttestationError (Unit {0}) × Shelf

verify_proof-setup_signers_example :
    verify_proof chain
      (setup_signers shelf small host
        (verifier nine contract.hex_decode)
        args
        (save_attestation small host shelf served requests responses
          (record { cid = 10; port = 5005; bucket = s3_bucket shelf })
          []).1
        fresh).1
      (7 ∷ 7 ∷ [])
      (5 ∷ 100 ∷ [])
      (bytes_of proof)
    ≡ ok tt
verify_proof-setup_signers_example =
    verify_proof-setup_signers small host point_laws requests request_laws responses response_laws
      running served linked shelf shelf_laws shelf_listing shelf_documents document attested
      fits_attest fits_get fits_document fits_key (replicate 64 9) refl refl nine
      contract.hex_decode args recovery chain 10 5005 [] (some "address" ∷ []) fresh request
      signed_response response proof (ap (λ (x : Saved). x.0) linked_save)
      (ap (λ (x : Saved). shelf.list_objects_v2 (s3_bucket shelf) x.1) linked_save) (omega arith)
      refl
      (ap
          (λ (x : Saved).
            (setup_signers shelf small host (verifier nine contract.hex_decode) args x.1 fresh).0)
          linked_save
        ∙ ready)
      not_zero answered fits_executing fits_signed returned carries (omega arith) refl
