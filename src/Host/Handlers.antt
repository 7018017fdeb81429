-- ===== src/Host/Handlers.antt =====
-- host/bin/server.rs: the two handlers that ask the enclave, each over a connection of its own
-- that is dropped at the end, whatever the outcome.
use sp1_tee.Prelude.{ℕ, ◌+◌, ◌%◌, Bool, List, Option, none, some, ltb, if◌then◌else◌}
use sp1_tee.Result.{Result, ok, err, panic, ok_or}
use sp1_tee.Io.{Io, lift, mapping_err, ◌>>=◌, ◌>>◌}
use sp1_tee.Common.Request.{enclave_port, get_public_key, execute}
use sp1_tee.Common.Response.{public_key, signed_public_values, error}
use sp1_tee.Common.Communication.{CommunicationError, Transport, Codec}
use sp1_tee.Enclave.Platform.{Platform}
use sp1_tee.Enclave.Server.{Request, Response}
use sp1_tee.Host.Platform.{Address, HostPlatform}
use sp1_tee.Host.Address.{ethereum_address_from_encoded_point}
use sp1_tee.Host.Errors.{
  ServerError, failed_to_connect_to_enclave, failed_to_send_request_to_enclave,
  failed_to_receive_response_from_enclave, unexpected_response_from_enclave,
  failed_to_convert_public_key_to_address, enclave_error,
}
use sp1_tee.Host.Stream
use sp1_tee.Host.Stream.{HostStream}

-- `a + b` of two bytes, in a build that checks for overflow or one that wraps.
unfoldable pub add_u8 : {E : Type 0} → (overflow_checks : Bool) → ℕ → ℕ → Result E ℕ
add_u8 overflow_checks a b =
    if ltb 255 (a + b)
    then (if overflow_checks then panic "attempt to add with overflow" else ok ((a + b) % 256))
    else ok (a + b)

module _ (pl : Platform) where
  -- The fields that the host reads of sp1-sdk's `TEERequest`.
  pub record TeeRequest : Type 0 where
    pub program : List ℕ
    pub stdin : pl.Stdin
    pub cycle_limit : ℕ

  -- and those that it sets of `TEEResponse`
  pub record TeeResponse : Type 0 where
    pub vkey : List ℕ
    pub public_values : List ℕ
    pub signature : pl.Signature
    pub recovery_id : ℕ

module _ (pl : Platform) (h : HostPlatform pl) where
  -- The last `match` of `get_address`.
  unfoldable pub address_of_response : Response pl → Result ServerError Address
  address_of_response (public_key point) =
      ok_or failed_to_convert_public_key_to_address (ethereum_address_from_encoded_point pl h point)
  address_of_response _ = err unexpected_response_from_enclave

  -- The last `match` of `execute_inner`.
  unfoldable pub tee_response : Response pl → Result ServerError (TeeResponse pl)
  unfolding add_u8
  tee_response (signed_public_values vkey public_values signature recovery_id) =
      elim (add_u8 {E = ServerError} h.overflow_checks recovery_id 27) [
        | ok v ↦ ok (record {
          vkey = vkey;
          public_values = public_values;
          signature = signature;
          recovery_id = v;
        })
        | err e ↦ err e
        | panic p ↦ panic p
      ]
  tee_response (error e) = err (enclave_error e)
  tee_response _ = err unexpected_response_from_enclave

  module _ (t : Transport) (requests : Codec (Request pl)) (responses : Codec (Response pl)) where
    abbrev Conn : Type 0
    Conn = HostStream pl t requests responses

    dropped : Result ⊥ t.Raw → Option t.Raw
    dropped (ok raw) = some raw
    dropped (err e) = none
    dropped (panic p) = none

    finish : {A : Type 0} → Result ServerError A × Conn → Result ServerError A × Option t.Raw
    unfolding dropped
    finish (r, s) = (r, dropped (Stream.drop pl t requests responses s))

    -- Connect, run the body, drop the stream.
    connected :
        {A : Type 0}
        → Io Conn ServerError A
        → Result CommunicationError Conn
        → Result ServerError A × Option t.Raw
    unfolding finish
    connected body (ok s) = finish (body s)
    connected body (err e) = (err failed_to_connect_to_enclave, none)
    connected body (panic p) = (panic p, none)

    -- Send a request and wait for the response.
    unfoldable pub exchange : Request pl → Io Conn ServerError (Response pl)
    exchange request = do
      mapping_err (λ _. failed_to_send_request_to_enclave)
          (Stream.send pl t requests responses request)
      mapping_err (λ _. failed_to_receive_response_from_enclave)
          (Stream.recv pl t requests responses)

    unfoldable pub get_address : (cid : ℕ) → Result ServerError Address × Option t.Raw
    unfolding connected exchange
    get_address cid =
        connected (do response ← exchange get_public_key; lift (address_of_response response))
          (Stream.new pl t requests responses cid enclave_port)

    unfoldable pub execute_inner :
        (cid : ℕ) → TeeRequest pl → Result ServerError (TeeResponse pl) × Option t.Raw
    unfolding connected exchange
    execute_inner cid request =
        connected
          (do
            response ← exchange (execute request.stdin request.program request.cycle_limit)
            lift (tee_response response))
          (Stream.new pl t requests responses cid enclave_port)
