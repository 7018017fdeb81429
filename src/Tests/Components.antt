-- ===== src/Tests/Components.antt =====
-- Signing, attesting, addresses and verification, each at a concrete input.
use sp1_tee.Prelude.{ℕ, ◌≡◌, ◌↔◌, List, [], ◌∷◌, some}
use sp1_tee.Result.{ok, panic}
use sp1_tee.Common.Response.{signing_key_attestation, signed_public_values}
use sp1_tee.Enclave.Platform.{Platform, attestation}
use sp1_tee.Enclave.Server.{Server, execute, attest_signing_key}
use sp1_tee.Enclave.Server.Signing.{Signs, execute-Signs}
use sp1_tee.Enclave.Server.Attestation.{
  key_request, opened-attest_signing_key, attest_signing_key_document,
}
use sp1_tee.Host.Storage.{AttestationDoc}
use sp1_tee.Host.Attestations.{verify_attestation_for_signer, s3_bucket}
use sp1_tee.Host.Attestations.Verification.{Speaks, verify_attestation_for_signer_iff}
use sp1_tee.Tests.World.{small, server, driver_laws, host, store}

execute-Signs_example :
    (execute small server 5 (7 ∷ []) 100
      ≡ ok (signed_public_values (7 ∷ 7 ∷ []) (5 ∷ 100 ∷ []) 9 1))
    ↔ Signs small server 5 (7 ∷ []) 100 (7 ∷ 7 ∷ []) (5 ∷ 100 ∷ []) 9 1
execute-Signs_example = execute-Signs small server 5 (7 ∷ []) 100 (7 ∷ 7 ∷ []) (5 ∷ 100 ∷ []) 9 1

-- A prover that panics on every program.
abbrev broken : Platform
broken = record small { setup_vkey = λ program. panic "bad ELF" }

abbrev broken_server : Server broken
broken_server = record { args = server.args; signing_key = 9 }

opened-attest_signing_key_example :
    driver_laws.opened (attest_signing_key small server (4 ∷ [])).1 ≡ driver_laws.opened (4 ∷ [])
opened-attest_signing_key_example = opened-attest_signing_key small server driver_laws (4 ∷ [])

attest_signing_key_document_example :
    ((attest_signing_key small server []).0 ≡ signing_key_attestation (8 ∷ [])) ↔ (
      (fd : ℕ) × ((small.nsm_init []).0 ≡ some fd)
      × ((small.nsm_process_request fd (key_request small server) (small.nsm_init []).1).0
          ≡ attestation (8 ∷ [])))
attest_signing_key_document_example = attest_signing_key_document small server [] (8 ∷ [])

verify_attestation_for_signer_iff_example :
    (verify_attestation_for_signer store (λ _. "a number") small host (1 ∷ 0 ∷ []) (3 ∷ []) 6 "aa"
      ≡ ok tt)
    ↔ ((body : List ℕ) × (bytes : List ℕ) × (doc : AttestationDoc) × (store.get_object
            (s3_bucket store)
            "address"
            (1 ∷ 0 ∷ [])
          ≡ ok body)
        × (store.collect body ≡ ok bytes)
        × (store.validate_and_parse bytes ≡ ok doc)
        × Speaks store (λ _. "a number") small host doc (3 ∷ []) 6 "aa")
verify_attestation_for_signer_iff_example =
    verify_attestation_for_signer_iff store (λ _. "a number") small host (1 ∷ 0 ∷ []) (3 ∷ []) 6
      "aa"
