-- ===== src/Tests/Encoding.antt =====
-- An encoding of the messages that the tests send, with its law. Other messages do not serialize.
use sp1_tee.Prelude.{
  ℕ, zero, suc, ◌≡◌, List, [], ◌∷◌, ◌++◌, length, take, drop, take-append, drop-append,
}
use sp1_tee.Result.{Result, ok, err, ErrorText}
use sp1_tee.Common.Request.{
  EnclaveRequest, print, get_public_key, get_encrypted_signing_key, attest_signing_key, execute,
  set_signing_key, close_session,
}
use sp1_tee.Common.Response.{
  EnclaveResponse, public_key, encrypted_signing_key, signing_key_attestation, signed_public_values,
  error, ack,
}
use sp1_tee.Common.Communication.{Codec}
use sp1_tee.Common.Communication.Laws.{CodecLaws}

abbrev request_bytes : EnclaveRequest ℕ → Result ErrorText (List ℕ)
request_bytes get_public_key = ok (0 ∷ [])
request_bytes attest_signing_key = ok (1 ∷ [])
request_bytes close_session = ok (2 ∷ [])
request_bytes (execute stdin program limit) = ok (3 ∷ stdin ∷ limit ∷ program)
request_bytes _ = err "not encoded"

abbrev read_request : List ℕ → Result ErrorText (EnclaveRequest ℕ)
read_request (zero ∷ _) = ok get_public_key
read_request (suc zero ∷ _) = ok attest_signing_key
read_request (suc (suc zero) ∷ _) = ok close_session
read_request (suc (suc (suc _)) ∷ stdin ∷ limit ∷ program) = ok (execute stdin program limit)
read_request _ = err "not a request"

abbrev pub requests : Codec (EnclaveRequest ℕ)
requests = record { serialize = request_bytes; deserialize = read_request }

request_round_trip :
    (m : EnclaveRequest ℕ) (bytes : List ℕ) → request_bytes m ≡ ok bytes → read_request bytes ≡ ok m
request_round_trip get_public_key bytes e = let same : 0 ∷ [] ≡ bytes = cc in rw (← same)
request_round_trip attest_signing_key bytes e = let same : 1 ∷ [] ≡ bytes = cc in rw (← same)
request_round_trip close_session bytes e = let same : 2 ∷ [] ≡ bytes = cc in rw (← same)
request_round_trip (execute stdin program limit) bytes e =
    let same : 3 ∷ stdin ∷ limit ∷ program ≡ bytes = cc in rw (← same)
request_round_trip (print _) bytes e = cc
request_round_trip get_encrypted_signing_key bytes e = cc
request_round_trip (set_signing_key _) bytes e = cc

pub request_laws : CodecLaws requests
request_laws = record { round_trip = request_round_trip }

abbrev response_bytes : EnclaveResponse ℕ ℕ → Result ErrorText (List ℕ)
response_bytes (public_key q) = ok (0 ∷ q ∷ [])
response_bytes (signing_key_attestation document) = ok (1 ∷ document)
response_bytes ack = ok (2 ∷ [])
response_bytes (signed_public_values vkey pv signature rid) =
    ok (3 ∷ signature ∷ rid ∷ length vkey ∷ (vkey ++ pv))
response_bytes _ = err "not encoded"

abbrev read_response : List ℕ → Result ErrorText (EnclaveResponse ℕ ℕ)
read_response (zero ∷ q ∷ _) = ok (public_key q)
read_response (suc zero ∷ document) = ok (signing_key_attestation document)
read_response (suc (suc zero) ∷ _) = ok ack
read_response (suc (suc (suc _)) ∷ signature ∷ rid ∷ n ∷ rest) =
    ok (signed_public_values (take n rest) (drop n rest) signature rid)
read_response _ = err "not a response"

abbrev pub responses : Codec (EnclaveResponse ℕ ℕ)
responses = record { serialize = response_bytes; deserialize = read_response }

response_round_trip :
    (m : EnclaveResponse ℕ ℕ) (bytes : List ℕ)
    → response_bytes m ≡ ok bytes
    → read_response bytes ≡ ok m
response_round_trip (public_key q) bytes e = let same : 0 ∷ q ∷ [] ≡ bytes = cc in rw (← same)
response_round_trip (signing_key_attestation document) bytes e =
    let same : 1 ∷ document ≡ bytes = cc in rw (← same)
response_round_trip ack bytes e = let same : 2 ∷ [] ≡ bytes = cc in rw (← same)
response_round_trip (signed_public_values vkey pv signature rid) bytes e =
    let same : 3 ∷ signature ∷ rid ∷ length vkey ∷ (vkey ++ pv) ≡ bytes = cc in
    rw (← same) (rw (take-append vkey pv, drop-append vkey pv))
response_round_trip (encrypted_signing_key _) bytes e = cc
response_round_trip (error _) bytes e = cc

pub response_laws : CodecLaws responses
response_laws = record { round_trip = response_round_trip }
