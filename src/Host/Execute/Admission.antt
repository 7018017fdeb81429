-- ===== src/Host/Execute/Admission.antt =====
-- host/bin/server.rs: whose requests `execute` executes.
use sp1_tee.Prelude.{
  ℕ, ◌≡◌, ◌↔◌, ◌⊎◌, inl, inr, refl, ap, String, Bool, true, false, Bool-cases, List, arith,
}
use sp1_tee.Result.{Result, ok, err, panic, ErrorText, map_err, >>=-iff, map_err_iff}
use sp1_tee.Common.Communication.{Transport, Codec}
use sp1_tee.Enclave.Platform.{Platform}
use sp1_tee.Enclave.Server.{Request, Response}
use sp1_tee.Host.Platform.{Address, HostPlatform}
use sp1_tee.Host.Errors.{failed_to_deserialize_request, failed_to_authenticate_request}
use sp1_tee.Host.Handlers.{TeeResponse, execute_inner}
use sp1_tee.Host.Execute.Events.{EventLaws, Reads, result_to_event_success, result_to_event_ok}
use sp1_tee.Host.Execute.{
  SignedRequest, success, Whitelist, Event, EventCodec, result_to_event, admitted, authenticate,
  execute,
}

module _ (pl : Platform) (w : Whitelist pl) where
  admitted_iff : (r : Result ErrorText Bool) → (admitted pl w r ≡ ok tt) ↔ (r ≡ ok true)
  unfolding admitted
  admitted_iff (ok true) = (λ e. refl, λ e. refl)
  admitted_iff (ok false) = (λ e. cc, λ e. absurd (ground arith))
  admitted_iff (err x) = (λ e. cc, λ e. cc)
  admitted_iff (panic p) = (λ e. cc, λ e. cc)

  authenticate_iff :
      (request : SignedRequest pl)
      → (authenticate pl w request ≡ ok tt) ↔ (
          (w.production ≡ false)
          ⊎ ((w.production ≡ true)
              × (signer : Address) × (w.recover_address_from_msg request.signature request.id
                  ≡ ok signer)
              × (w.is_whitelisted signer ≡ ok true)))
  unfolding authenticate
  authenticate_iff request = (
    λ e. elim (Bool-cases w.production) [
      | inr off ↦ inl off
      | inl on ↦
          let (signer, recovered, e') =
            (>>=-iff
                (map_err (λ _. failed_to_authenticate_request)
                  (w.recover_address_from_msg request.signature request.id))
                (λ signer. admitted pl w (w.is_whitelisted signer)) tt).0
              (rw on at e) in
          inr (
            on,
            signer,
            (map_err_iff (λ _. failed_to_authenticate_request)
                  (w.recover_address_from_msg request.signature request.id) signer).0
                recovered,
            (admitted_iff (w.is_whitelisted signer)).0 e',
          )
    ],
    λ c. elim c [
      | inl off ↦ rw off refl
      | inr (on, signer, recovered, listed) ↦
          rw (on, recovered) ((admitted_iff (w.is_whitelisted signer)).1 listed)
    ],
  )

  module _ (events : EventCodec pl) (laws : EventLaws pl events) (display : ℕ → String)
      (h : HostPlatform pl) (t : Transport) (requests : Codec (Request pl))
      (responses : Codec (Response pl)) where
    -- A request whose sender may send it, and that `execute_inner` has answered with this response.
    abbrev pub Answered : (cid : ℕ) → List ℕ → TeeResponse pl → Type 0
    Answered cid req response =
        (request : SignedRequest pl) × (w.deserialize req ≡ ok request)
        × ((w.production ≡ false)
            ⊎ ((w.production ≡ true)
                × (signer : Address) × (w.recover_address_from_msg request.signature request.id
                    ≡ ok signer)
                × (w.is_whitelisted signer ≡ ok true)))
        × ((execute_inner pl h t requests responses cid request.request).0 ≡ ok response)

    pub execute_success :
        (cid : ℕ) (req : List ℕ) (response : TeeResponse pl) (event : Event)
        → execute pl w events display h t requests responses cid req ≡ ok (ok event)
        → Reads pl events laws event (success response)
        → Answered cid req response
    unfolding execute
    execute_success cid req response event e reads =
        let (request, read, e') =
          (>>=-iff (map_err failed_to_deserialize_request (w.deserialize req)) _ (ok event)).0 e in
        let (_, passed, e'') = (>>=-iff (authenticate pl w request) _ (ok event)).0 e' in
        let made : result_to_event pl events display
              (execute_inner pl h t requests responses cid request.request).0
            ≡ ok event =
          cc in
        (
          request,
          (map_err_iff failed_to_deserialize_request (w.deserialize req) request).0 read,
          (authenticate_iff request).0 passed,
          result_to_event_success pl events laws display _ response event made reads,
        )

    -- For an encoding of events that is read back (`EventLaws`) and a response that serializes: the
    -- handler `execute` answers with an event in which its reader finds just this response exactly
    -- if the request was read, the program is not built for production or the request's signature
    -- recovers to an address that the prover network's whitelist has, and `execute_inner` returned
    -- this response for the request.
    pub execute_success_iff :
        (cid : ℕ) (req : List ℕ) (response : TeeResponse pl) (bytes : List ℕ)
        → events.payloads.serialize (success response) ≡ ok bytes
        → ((event : Event) × (execute pl w events display h t requests responses cid req
              ≡ ok (ok event))
            × Reads pl events laws event (success response))
          ↔ Answered cid req response
    unfolding execute
    execute_success_iff cid req response bytes fits = (
      λ q. execute_success cid req response q.0 q.1 q.2,
      λ q.
          let (request, read, allowed, done) = q in
          let passed = (authenticate_iff request).1 allowed in
          let event : Event = record { event_data = events.hex_encode bytes } in
          (
            event,
            rw (read, passed, done)
                (ap ok (result_to_event_ok pl events laws display response bytes fits)),
            (bytes, laws.decoded bytes, laws.payload_laws.round_trip (success response) bytes fits),
          ),
    )
