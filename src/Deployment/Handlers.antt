-- ===== src/Deployment/Handlers.antt =====
-- `get_address` and `execute_inner` of host/bin/server.rs against a running enclave.
use sp1_tee.Prelude.{ℕ, ◌≡◌, refl, List, ◌∷◌, some}
use sp1_tee.Result.{ok}
use sp1_tee.Common.Request.{get_public_key, execute}
use sp1_tee.Common.Response.{public_key}
use sp1_tee.Common.Communication.{Transport, Codec, connect}
use sp1_tee.Common.Communication.Laws.{CodecLaws}
use sp1_tee.Enclave.Platform.{Platform}
use sp1_tee.Enclave.Server.{Request, Response}
use sp1_tee.Enclave.Connection.Answers.{answer}
use sp1_tee.Host.Platform.{HostPlatform, PointLaws}
use sp1_tee.Host.Address.{key_address}
use sp1_tee.Host.Stream
use sp1_tee.Host.Handlers.{
  TeeRequest, get_address, execute_inner, address_of_response, tee_response,
}
use sp1_tee.Deployment.Link.{Fits, Running, Linked}
use sp1_tee.Deployment.Exchange.{exchange-answer}

module _ (pl : Platform) (h : HostPlatform pl) (requests : Codec (Request pl))
    (request_laws : CodecLaws requests) (responses : Codec (Response pl))
    (response_laws : CodecLaws responses) (e : Running pl requests responses) (t : Transport)
    (link : Linked pl requests responses e t) where
  -- For a host linked to a running enclave (`Linked`, `Running`) and lawful encodings, where
  -- encoded keys are neither the identity nor compact nor compressed and request and answer fit in
  -- one frame each: the point of the enclave's signing key is the byte 4 and some coordinates, and
  -- `get_address` returns the address of those coordinates.
  pub get_address_linked :
      (laws : PointLaws pl h) (cid : ℕ)
      → Fits requests get_public_key
      → Fits responses (public_key (pl.verifying_point e.server.signing_key))
      → (raw : List ℕ) × (pl.point_bytes (pl.verifying_point e.server.signing_key) ≡ 4 ∷ raw)
        × ((get_address pl h t requests responses cid).0 ≡ ok (h.from_raw_public_key raw))
  unfolding get_address answer address_of_response Stream.new connect
  get_address_linked laws cid fm fr =
      let (raw, bytes, address) = key_address pl h laws e.server.signing_key in
      let got =
        exchange-answer pl h requests request_laws responses response_laws e t link get_public_key _
          (λ same. cc) refl fm fr in
      (raw, bytes, rw (link.connects, got, address))

  -- What the host returns for a request is what the enclave's execution of it comes to.
  pub execute_inner_linked :
      (cid : ℕ) (request : TeeRequest pl) (r : Response pl)
      → (answer pl e.server (execute request.stdin request.program request.cycle_limit) e.driver).0
        ≡ some r
      → Fits requests (execute request.stdin request.program request.cycle_limit)
      → Fits responses r
      → (execute_inner pl h t requests responses cid request).0 ≡ tee_response pl h r
  unfolding execute_inner Stream.new connect
  execute_inner_linked cid request r a fm fr =
      let got =
        exchange-answer pl h requests request_laws responses response_laws e t link _ r (λ same. cc)
          a fm fr in
      rw (link.connects, got)
