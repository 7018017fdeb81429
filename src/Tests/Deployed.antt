-- ===== src/Tests/Deployed.antt =====
-- The host against the enclave: one execution, one address and one saved attestation.
use sp1_tee.Prelude.{ℕ, ◌↔◌, ◌≡◌, refl, ap, List, [], ◌∷◌, some, arith, replicate, length-replicate}
use sp1_tee.Result.{Result, ok}
use sp1_tee.Common.Bytes.{to_le_bytes}
use sp1_tee.Common.Request.{get_public_key, attest_signing_key, execute}
use sp1_tee.Common.Response.{public_key, signing_key_attestation, signed_public_values}
use sp1_tee.Enclave.Server
use sp1_tee.Enclave.Server.{Request, Response}
use sp1_tee.Enclave.Server.Attestation.{key_request, attest_signing_key_document}
use sp1_tee.Enclave.Server.Signing.{Signs, execute-Signs}
use sp1_tee.Enclave.Connection.Answers.{answer, answer_signed}
use sp1_tee.Host.Handlers.{TeeRequest, TeeResponse, execute_inner, get_address}
use sp1_tee.Host.Attestations.{verify_attestation_for_signer, s3_bucket}
use sp1_tee.Host.SaveAttestation.{SaveAttestationArgs, SaveAttestationError, save_attestation}
use sp1_tee.Deployment.Link.{Fits}
use sp1_tee.Deployment.Handlers.{get_address_linked}
use sp1_tee.Deployment.Signature.{Attests, execute_inner-Attests, execute_inner_succeeds}
use sp1_tee.Deployment.Attestation.{
  save_attestation_linked, verify-save_attestation, verify-save_attestation_iff,
}
use sp1_tee.Tests.World.{
  small, server, host, point_laws, recovery, store, store_laws, document_laws, document_of,
}
use sp1_tee.Tests.Encoding.{requests, request_laws, responses, response_laws}
use sp1_tee.Tests.Sockets.{running, served, linked}

abbrev pub request : TeeRequest small
request = record { program = 7 ∷ []; stdin = 5; cycle_limit = 100 }

abbrev pub response : TeeResponse small
response = record {
  vkey = 7 ∷ 7 ∷ [];
  public_values = 5 ∷ 100 ∷ [];
  signature = 9;
  recovery_id = 28;
}

abbrev pub executing : Request small
executing = execute request.stdin request.program request.cycle_limit

abbrev pub signed_response : Response small
signed_response = signed_public_values (7 ∷ 7 ∷ []) (5 ∷ 100 ∷ []) 9 1

signs : Signs small server 5 (7 ∷ []) 100 (7 ∷ 7 ∷ []) (5 ∷ 100 ∷ []) 9 1
signs = record { within = omega arith; set_up = refl; ran = refl; signature_of = refl }

pub answered : (answer small server executing []).0 ≡ some signed_response
answered =
    (answer_signed small server 5 (7 ∷ []) 100 [] (7 ∷ 7 ∷ []) (5 ∷ 100 ∷ []) 9 1).1
      ((execute-Signs small server 5 (7 ∷ []) 100 (7 ∷ 7 ∷ []) (5 ∷ 100 ∷ []) 9 1).1 signs)

pub fits_executing : Fits requests executing
fits_executing = record { bytes = 3 ∷ 5 ∷ 100 ∷ 7 ∷ []; serialized = refl; small = omega arith }

pub fits_signed : Fits responses signed_response
fits_signed = record {
  bytes = 3 ∷ 9 ∷ 1 ∷ 2 ∷ 7 ∷ 7 ∷ 5 ∷ 100 ∷ [];
  serialized = refl;
  small = omega arith;
}

execute_inner_succeeds_example :
    (execute_inner small host served requests responses 10 request).0 ≡ ok response
execute_inner_succeeds_example =
    execute_inner_succeeds small host requests request_laws responses response_laws running served
      linked recovery (replicate 64 9) refl 10 request (7 ∷ 7 ∷ []) (5 ∷ 100 ∷ []) 9 1 signs
      fits_executing fits_signed

-- the same, for the next witness
pub returned : (execute_inner small host served requests responses 10 request).0 ≡ ok response
returned =
    execute_inner_succeeds small host requests request_laws responses response_laws running served
      linked recovery (replicate 64 9) refl 10 request (7 ∷ 7 ∷ []) (5 ∷ 100 ∷ []) 9 1 signs
      fits_executing fits_signed

execute_inner-Attests_example :
    Attests small host recovery request server.signing_key
      (host.from_raw_public_key (replicate 64 9))
      response
execute_inner-Attests_example =
    execute_inner-Attests small host requests request_laws responses response_laws running served
      linked recovery (replicate 64 9) refl 10 request signed_response response answered
      fits_executing fits_signed returned

pub fits_get : Fits requests get_public_key
fits_get = record { bytes = 0 ∷ []; serialized = refl; small = omega arith }

pub fits_key : Fits responses (public_key 9)
fits_key = record { bytes = 0 ∷ 9 ∷ []; serialized = refl; small = omega arith }

get_address_linked_example :
    (raw : List ℕ) × (small.point_bytes 9 ≡ 4 ∷ raw)
    × ((get_address small host served requests responses 10).0 ≡ ok (host.from_raw_public_key raw))
get_address_linked_example =
    get_address_linked small host requests request_laws responses response_laws running served
      linked point_laws 10 fits_get fits_key

abbrev pub document : List ℕ
document = document_of (key_request small server)

pub fits_attest : Fits requests attest_signing_key
fits_attest = record { bytes = 1 ∷ []; serialized = refl; small = omega arith }

pub fits_document : Fits responses (signing_key_attestation document)
unfolding to_le_bytes
fits_document = record { bytes = 1 ∷ document; serialized = refl; small = omega arith }

pub attested : (Server.attest_signing_key small server []).0 ≡ signing_key_attestation document
attested = (attest_signing_key_document small server [] document).1 (3, refl, refl)

abbrev args : SaveAttestationArgs
args = record { cid = 10; port = 5005; bucket = s3_bucket store }

saved : (save_attestation small host store served requests responses args []).0 ≡ ok tt
saved =
    ap (λ (r : Result SaveAttestationError (Unit {0}) × List ℕ). r.0)
      (save_attestation_linked small host point_laws requests request_laws responses response_laws
        running served linked store document attested fits_attest fits_get fits_document fits_key
        args (replicate 64 9) [] refl)

verify-save_attestation_iff_example :
    (verify_attestation_for_signer store
        (λ _. "a number")
        small
        host
        (save_attestation small host store served requests responses args []).1
        (host.from_raw_public_key (replicate 64 9))
        7
        "aa"
      ≡ ok tt)
    ↔ ((7 ≡ small.tee_version) × (store.hex_encode document_laws.image ≡ store.without_0x "aa"))
verify-save_attestation_iff_example =
    verify-save_attestation_iff small host point_laws requests request_laws responses response_laws
      running served linked store document attested fits_attest fits_get fits_document fits_key
      store_laws document_laws (λ _. "a number") 10 5005 (replicate 64 9) 7 "aa" [] refl
      (length-replicate {A = ℕ} 64 9) (omega arith) (omega arith) saved

verify-save_attestation_example :
    verify_attestation_for_signer store
      (λ _. "a number")
      small
      host
      (save_attestation small host store served requests responses args []).1
      (host.from_raw_public_key (replicate 64 9))
      6
      "aa"
    ≡ ok tt
verify-save_attestation_example =
    verify-save_attestation small host point_laws requests request_laws responses response_laws
      running served linked store document attested fits_attest fits_get fits_document fits_key
      store_laws document_laws (λ _. "a number") 10 5005 (replicate 64 9) "aa" [] refl
      (length-replicate {A = ℕ} 64 9) refl saved
