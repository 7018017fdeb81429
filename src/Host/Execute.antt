-- ===== src/Host/Execute.antt =====
-- host/bin/server.rs and host/src/api.rs: the handler `execute`. It reads the request, checks who
-- signed it where the program is built for production, and streams one event with the outcome.
-- The recovery of the signer and the whitelist of the prover network are parameters.
pub mod Events
pub mod Admission
pub mod Tasks
use sp1_tee.Prelude.{ℕ, String, Bool, true, false, List, if◌then◌else◌}
use sp1_tee.Result.{Result, ok, err, panic, ErrorText, map_err, expect, ◌>>=◌, ◌>>◌}
use sp1_tee.Common.Communication.{Transport, Codec}
use sp1_tee.Enclave.Platform.{Platform}
use sp1_tee.Enclave.Server.{Request, Response}
use sp1_tee.Host.Platform.{Address, HostPlatform}
use sp1_tee.Host.Errors.{
  ServerError, failed_to_deserialize_request, failed_to_authenticate_request, to_string,
}
use sp1_tee.Host.Handlers.{TeeRequest, TeeResponse, execute_inner}

-- `axum`'s event, with its data.
pub record Event : Type 0 where
  pub event_data : String

module _ (pl : Platform) where
  -- A request with its identifier and the signature of its sender.
  pub record SignedRequest : Type 0 where
    pub request : TeeRequest pl
    pub id : List ℕ
    pub signature : List ℕ

  pub data EventPayload : Type 0 where
    success : TeeResponse pl → EventPayload
    error : String → EventPayload

  pub record Whitelist : Type 0 where
    pub production : Bool
    pub recover_address_from_msg : (signature id : List ℕ) → Result ErrorText Address
    pub is_whitelisted : Address → Result ErrorText Bool
    pub deserialize : List ℕ → Result ErrorText SignedRequest

  pub result_to_event_payload :
      (display : ℕ → String) → Result ServerError (TeeResponse pl) → Result ⊥ EventPayload
  result_to_event_payload display (ok response) = ok (success response)
  result_to_event_payload display (err e) = ok (error (to_string display e))
  result_to_event_payload display (panic p) = panic p

  -- How a payload is encoded: `bincode` and then `hex::encode`.
  pub record EventCodec : Type 0 where
    pub payloads : Codec EventPayload
    pub hex_encode : List ℕ → String

  module _ (events : EventCodec) where
    pub event_payload_to_event : EventPayload → Result ⊥ Event
    event_payload_to_event payload = do
      bytes ← expect "Failed to serialize response" (events.payloads.serialize payload)
      ok (record { event_data = events.hex_encode bytes })

    pub result_to_event :
        (display : ℕ → String) → Result ServerError (TeeResponse pl) → Result ⊥ Event
    unfolding result_to_event_payload event_payload_to_event
    result_to_event display response = do
      payload ← result_to_event_payload display response
      event_payload_to_event payload

  module _ (w : Whitelist) where
    -- The `match` on the answer of the prover network.
    unfoldable pub admitted : Result ErrorText Bool → Result ServerError (Unit {0})
    admitted (ok true) = ok tt
    admitted (ok false) = err failed_to_authenticate_request
    admitted (err e) = err failed_to_authenticate_request
    admitted (panic p) = panic p

    unfoldable pub authenticate : SignedRequest → Result ServerError (Unit {0})
    unfolding admitted
    authenticate request =
        if w.production
        then (do
          signer ←
              map_err (λ _. failed_to_authenticate_request)
                (w.recover_address_from_msg request.signature request.id)
          admitted (w.is_whitelisted signer))
        else ok tt

    module _ (events : EventCodec) (display : ℕ → String) (h : HostPlatform pl) (t : Transport)
        (requests : Codec (Request pl)) (responses : Codec (Response pl)) where
      -- What the handler answers with: an error, or the one event of its stream.
      pub execute : (cid : ℕ) → List ℕ → Result ServerError (Result ⊥ Event)
      unfolding authenticate result_to_event
      execute cid req = do
        request ← map_err failed_to_deserialize_request (w.deserialize req)
        authenticate request
        ok (
            result_to_event events display
              (execute_inner pl h t requests responses cid request.request).0)
