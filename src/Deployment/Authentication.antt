-- ===== src/Deployment/Authentication.antt =====
-- host/bin/server.rs with host/src/server/auth.rs: the handler `execute` where the whitelist is that
-- of the prover network, asked by the client.
use text.Mathlib.Text.{starts_with}
use sp1_tee.Prelude.{ℕ, String, ◌≡◌, inl, inr, true, List}
use sp1_tee.Result.{ok, map_err, map_err-eq-ok}
use sp1_tee.Common.Communication.{Transport, Codec}
use sp1_tee.Enclave.Platform.{Platform}
use sp1_tee.Enclave.Server.{Request, Response}
use sp1_tee.Host.Platform.{Address, HostPlatform}
use sp1_tee.Host.Handlers.{TeeResponse, execute_inner}
use sp1_tee.Host.Execute.{SignedRequest, success, Whitelist, Event, EventCodec, execute}
use sp1_tee.Host.Execute.Events.{EventLaws, Reads}
use sp1_tee.Host.Execute.Admission.{execute_success}
use sp1_tee.Host.AuthClient.{Tonic, AuthClient, is_whitelisted, to_string}
use sp1_tee.Host.AuthClient.Secure.{TonicLaws, is_whitelisted_secure}

module _ (pl : Platform) (k : Tonic) (network : k.Network) (self : AuthClient) where
  -- A server built for production, whose client asks the network as it is then.
  abbrev pub in_production : Whitelist pl → Whitelist pl
  in_production w = record {
    production = true;
    recover_address_from_msg = w.recover_address_from_msg;
    is_whitelisted = λ signer. map_err to_string (is_whitelisted k self signer network).0;
    deserialize = w.deserialize;
  }

  module _ (laws : TonicLaws k) (w : Whitelist pl) (events : EventCodec pl)
      (event_laws : EventLaws pl events) (display : ℕ → String) (h : HostPlatform pl)
      (t : Transport) (requests : Codec (Request pl)) (responses : Codec (Response pl)) where
    open laws use {over_tls}

    -- Built for production, with the address of a prover network under https, for endpoints whose
    -- channels run over TLS exactly if their address is under https and TLS is configured, as tonic
    -- documents them (`TonicLaws`), and an encoding of events that is read back (`EventLaws`): if
    -- the handler `execute` answers with an event in which its reader finds a response, the request
    -- was read and its signature recovers to a signer of whom the network said, on a channel over
    -- TLS, that the whitelist has it, and `execute_inner` returned this response for the request.
    pub execute_success_secure :
        (cid : ℕ) (req : List ℕ) (response : TeeResponse pl) (event : Event)
        → starts_with self.url "https://" ≡ true
        → execute pl (in_production w) events display h t requests responses cid req ≡ ok (ok event)
        → Reads pl events event_laws event (success response)
        → (request : SignedRequest pl) × (w.deserialize req ≡ ok request)
          × (signer : Address) × (w.recover_address_from_msg request.signature request.id
              ≡ ok signer)
          × (client : k.Channel) × (over_tls client ≡ true)
          × (network' : k.Network) × ((k.get_tee_whitelist_status client signer network').0
              ≡ ok true)
          × ((execute_inner pl h t requests responses cid request.request).0 ≡ ok response)
    execute_success_secure cid req response event https e reads =
        let (request, read, allowed, done) =
          (execute_success pl (in_production w) events event_laws display h t requests responses cid
            req response event e reads) in
        elim allowed [
          | inl off ↦ absurd (cc)
          | inr (_, signer, recovered, listed) ↦
              let answered =
                map_err-eq-ok to_string (is_whitelisted k self signer network).0 listed in
              let (client, network', secure, said) =
                is_whitelisted_secure k laws self signer true network https answered in
              (request, read, signer, recovered, client, secure, network', said, done)
        ]
