-- ===== src/Host/Execute/Events.antt =====
-- host/src/api.rs: what the reader of an event finds in it.
use sp1_tee.Prelude.{ℕ, ◌≡◌, ◌↔◌, refl, ap, ◌∙◌, String, List, arith}
use sp1_tee.Result.{Result, ok, err, panic, ErrorText, expect, expect-eq-ok, >>=-iff}
use sp1_tee.Common.Communication.Laws.{CodecLaws}
use sp1_tee.Enclave.Platform.{Platform}
use sp1_tee.Host.Errors.{ServerError}
use sp1_tee.Host.Handlers.{TeeResponse}
use sp1_tee.Host.Execute.{
  EventPayload, success, Event, EventCodec, result_to_event_payload, event_payload_to_event,
  result_to_event,
}

module _ (pl : Platform) where
  success_iff :
      (display : ℕ → String) (r : Result ServerError (TeeResponse pl)) (response : TeeResponse pl)
      → (result_to_event_payload pl display r ≡ ok (success response)) ↔ (r ≡ ok response)
  unfolding result_to_event_payload
  success_iff display (ok x) response = (λ e. ground arith, λ e. ground arith)
  success_iff display (err x) response = (λ e. cc, λ e. cc)
  success_iff display (panic x) response = (λ e. cc, λ e. cc)

  -- What the reader of an event relies on: hex and bincode give back what was put in.
  pub record EventLaws (events : EventCodec pl) : Type 0 where
    pub hex_decode : String → Result ErrorText (List ℕ)
    pub decoded : (bytes : List ℕ) → hex_decode (events.hex_encode bytes) ≡ ok bytes
    pub payload_laws : CodecLaws events.payloads

  module _ (events : EventCodec pl) (laws : EventLaws events) where
    -- The payload that the reader of an event finds.
    abbrev pub Reads : Event → EventPayload pl → Type 0
    Reads event payload =
        (bytes : List ℕ) × (laws.hex_decode event.event_data ≡ ok bytes)
        × (events.payloads.deserialize bytes ≡ ok payload)

    event_payload_to_event-Reads :
        (payload : EventPayload pl) (event : Event)
        → event_payload_to_event pl events payload ≡ ok event
        → Reads event payload
    unfolding event_payload_to_event
    event_payload_to_event-Reads payload event e =
        let (bytes, written, made) =
          (>>=-iff (expect "Failed to serialize response" (events.payloads.serialize payload)) _
              event).0
            e in
        let serialized =
          expect-eq-ok "Failed to serialize response" (events.payloads.serialize payload) written in
        let same : events.hex_encode bytes ≡ event.event_data = ground arith in
        (
          bytes,
          rw (← same) (laws.decoded bytes),
          laws.payload_laws.round_trip payload bytes serialized,
        )

    Reads-unique : (event : Event) (p q : EventPayload pl) → Reads event p → Reads event q → p ≡ q
    Reads-unique event p q (bs, e, f) (bs', e', f') =
        let same : bs ≡ bs' = cc in cc (f, rw (← same) at f')

    -- The events of a response are the events of `execute_inner` having returned it.
    pub result_to_event_success :
        (display : ℕ → String) (r : Result ServerError (TeeResponse pl)) (response : TeeResponse pl)
        (event : Event)
        → result_to_event pl events display r ≡ ok event
        → Reads event (success response)
        → r ≡ ok response
    unfolding result_to_event
    result_to_event_success display r response event e reads =
        let (payload, made, encoded) =
          (>>=-iff (result_to_event_payload pl display r) _ event).0 e in
        let same =
          Reads-unique event payload (success response)
            (event_payload_to_event-Reads payload event encoded) reads in
        (success_iff display r response).0 (made ∙ ap ok same)

    pub result_to_event_ok :
        (display : ℕ → String) (response : TeeResponse pl) (bytes : List ℕ)
        → events.payloads.serialize (success response) ≡ ok bytes
        → result_to_event pl events display (ok response)
          ≡ ok (record { event_data = events.hex_encode bytes })
    unfolding result_to_event result_to_event_payload event_payload_to_event
    result_to_event_ok display response bytes e = rw e refl
