-- ===== src/Host/SaveAttestation.antt =====
-- host/src/attestations.rs: `save_attestation`, which asks the enclave for its attestation and its
-- key over one connection and stores the one under the address of the other.
use sp1_tee.Prelude.{ℕ, String, List}
use sp1_tee.Result.{Result, ok, err, panic, ErrorText, ok_or}
use sp1_tee.Io.{Io, pure, raise, lift, mapping_err, ◌>>=◌, ◌>>◌}
use sp1_tee.Common.Request.{attest_signing_key, get_public_key}
use sp1_tee.Common.Response.{EnclaveResponse, public_key, signing_key_attestation}
use sp1_tee.Common.Response
use sp1_tee.Common.Communication.{CommunicationError, Transport, Codec}
use sp1_tee.Enclave.Platform.{Platform}
use sp1_tee.Enclave.Server.{Request, Response}
use sp1_tee.Host.Platform.{Address, HostPlatform}
use sp1_tee.Host.Address.{ethereum_address_from_encoded_point}
use sp1_tee.Host.Storage.{Storage}
use sp1_tee.Host.Stream
use sp1_tee.Host.Stream.{HostStream}

pub data SaveAttestationError : Type 0 where
  vsock_error : CommunicationError → SaveAttestationError
  s3_put_object_error : ErrorText → SaveAttestationError
  bad_public_key : SaveAttestationError
  unexpected_message : String → SaveAttestationError

pub record SaveAttestationArgs : Type 0 where
  pub cid : ℕ
  pub port : ℕ
  pub bucket : String

module _ (pl : Platform) (h : HostPlatform pl) (st : Storage) (t : Transport)
    (requests : Codec (Request pl)) (responses : Codec (Response pl)) where
  abbrev Conn : Type 0
  Conn = HostStream pl t requests responses

  document_in : Response pl → Result SaveAttestationError (List ℕ)
  document_in (signing_key_attestation attestation) = ok attestation
  document_in msg = err (unexpected_message (Response.type_of msg))

  key_in : Response pl → Result SaveAttestationError pl.Point
  key_in (public_key point) = ok point
  key_in msg = err (unexpected_message (Response.type_of msg))

  -- Both requests are written before a response is read.
  unfoldable pub ask : Io Conn SaveAttestationError (List ℕ × Address)
  unfolding document_in key_in
  ask = do
    mapping_err vsock_error (Stream.send pl t requests responses attest_signing_key)
    mapping_err vsock_error (Stream.send pl t requests responses get_public_key)
    first ← mapping_err vsock_error (Stream.recv pl t requests responses)
    attestation ← lift (document_in first)
    second ← mapping_err vsock_error (Stream.recv pl t requests responses)
    point ← lift (key_in second)
    address ← lift (ok_or bad_public_key (ethereum_address_from_encoded_point pl h point))
    pure (attestation, address)

  -- Store what came of asking.
  put_under :
      (bucket : String)
      → Result SaveAttestationError (List ℕ × Address)
      → Io st.Objects SaveAttestationError (Unit {0})
  put_under bucket (ok (attestation, address)) =
      mapping_err s3_put_object_error (st.put_object bucket (st.address_text address) attestation)
  put_under bucket (err e) = raise e
  put_under bucket (panic p) = lift (panic p)

  over : String → Result CommunicationError Conn → Io st.Objects SaveAttestationError (Unit {0})
  unfolding put_under
  over bucket (ok stream) = put_under bucket (ask stream).0
  over bucket (err e) = raise (vsock_error e)
  over bucket (panic p) = lift (panic p)

  -- The stream is dropped at the end, which the objects in S3 do not show.
  unfoldable pub save_attestation :
      SaveAttestationArgs → Io st.Objects SaveAttestationError (Unit {0})
  unfolding over
  save_attestation args = over args.bucket (Stream.new pl t requests responses args.cid args.port)
