-- ===== src/Deployment/Proof.antt =====
-- From the enclave to the chain: host/bin/server.rs returns what the enclave signed, and
-- contracts/src/SP1TeeVerifier.sol verifies it. The client that puts the proof's bytes together is
-- not in the repository.
use sp1_tee.Prelude.{
  ◌++◌, inl, inr, arith, ℕ, ◌≤◌, ◌≡◌, ◌≢◌, sym, ◌∙◌, true, List, ◌∷◌, ◌++◌, some, arith, take,
}
use sp1_tee.Result.{ok}
use sp1_tee.Common.Bytes.{to_le_bytes}
use sp1_tee.Enclave.Platform.{Platform}
use sp1_tee.Host.Platform.{Address, HostPlatform}
use sp1_tee.Host.Handlers.{TeeRequest, TeeResponse}
use sp1_tee.Contracts.SimpleOwnable.{zero_address}
use sp1_tee.Contracts.Sp1TeeVerifier.{State, Evm, is_signer, message_hash, verify_proof}
use sp1_tee.Contracts.Sp1TeeVerifier.Proofs.{Layout, bytes_of, Fitting, verify_proof_iff}
use sp1_tee.Common.Request.{execute}
use sp1_tee.Common.Communication.{Transport, Codec}
use sp1_tee.Common.Communication.Laws.{CodecLaws}
use sp1_tee.Enclave.Server.{Request, Response}
use sp1_tee.Enclave.Connection.Answers.{answer}
use sp1_tee.Host.Handlers.{execute_inner}
use sp1_tee.Deployment.Link.{Fits, Running, Linked}
use sp1_tee.Deployment.Signature.{Recovery, Attests, execute_inner-Attests}

module _ (pl : Platform) (h : HostPlatform pl) (rec : Recovery pl h) (evm : Evm) where
  -- Proof bytes that hold the parts of a response: its recovery id, its signature as two halves from
  -- which the chain recovers the same signers, and the version that the enclave signs.
  pub record Carries (p : Layout) (resp : TeeResponse pl) : Type 0 where
    pub fits : Fitting p
    pub selector : take 4 (bytes_of p) ≡ take 4 evm.verifier_hash
    pub recovery_id : p.v ≡ resp.recovery_id
    pub version : p.version ≡ to_le_bytes pl.tee_version
    pub hashes : (bytes : List ℕ) → evm.keccak256 bytes ≡ pl.keccak256 bytes
    pub signature :
        (digest : List ℕ) (v : ℕ)
        → evm.ecrecover digest v p.r p.s ≡ rec.ecrecover digest v resp.signature

  -- Where the recovery id is one that `ecrecover` takes, it traces the signature.
  low_id-traced :
      {request : TeeRequest pl} {sk : pl.SigningKey} {signer : Address} {resp : TeeResponse pl}
      → Attests pl h rec request sk signer resp
      → resp.recovery_id ≤ 28
      → rec.ecrecover
          (pl.keccak256 (
            pl.keccak256 (to_le_bytes pl.tee_version)
            ++ (resp.vkey ++ pl.keccak256 resp.public_values)))
          resp.recovery_id
          resp.signature
        ≡ signer
  low_id-traced attests low = elim attests.traced [
    | inl high ↦ absurd (omega arith)
    | inr traced ↦ traced
  ]

  verify_proof-Attests :
      (state : State) (p : Layout) (request : TeeRequest pl) (sk : pl.SigningKey) (signer : Address)
      (resp : TeeResponse pl)
      → Attests pl h rec request sk signer resp
      → Carries p resp
      → is_signer state signer ≡ true
      → signer ≢ zero_address
      → resp.recovery_id ≤ 28
      → evm.gateway_verify_proof resp.vkey resp.public_values p.rest ≡ ok tt
      → verify_proof evm state resp.vkey resp.public_values (bytes_of p) ≡ ok tt
  unfolding message_hash
  verify_proof-Attests state p request sk signer resp attests c known not_zero low accepted =
      let digest =
        evm.keccak256
          (evm.keccak256 p.version ++ (resp.vkey ++ evm.keccak256 resp.public_values)) in
      let traced = low_id-traced attests low in
      let recovered : evm.ecrecover digest p.v p.r p.s ≡ signer =
        c.signature digest p.v
        ∙ rw
            (
              c.hashes (evm.keccak256 p.version ++ (resp.vkey ++ evm.keccak256 resp.public_values)),
              c.hashes p.version,
              c.hashes resp.public_values,
              c.version,
              c.recovery_id,
            )
            traced in
      let at_least = attests.id_low in
      let same = c.recovery_id in
      (verify_proof_iff evm state p c.fits resp.vkey resp.public_values).1 (
        c.selector,
        record {
          recovery_id = ground arith;
          not_zero = λ z. not_zero (sym recovered ∙ z);
          known = rw recovered known;
        },
        accepted,
      )

module _ (pl : Platform) (h : HostPlatform pl) (requests : Codec (Request pl))
    (request_laws : CodecLaws requests) (responses : Codec (Response pl))
    (response_laws : CodecLaws responses) (e : Running pl requests responses) (t : Transport)
    (link : Linked pl requests responses e t) (rec : Recovery pl h) (raw : List ℕ)
    (key : pl.point_bytes (pl.verifying_point e.server.signing_key) ≡ 4 ∷ raw) (evm : Evm) where
  -- For a host linked to a running enclave (`Linked`, `Running`), lawful encodings, a request and
  -- an answer that each fit in one frame, and an enclave key whose point is the byte 4 and some
  -- coordinates: if `execute_inner` has returned a response with a recovery id of at most 28, a
  -- proof carries it (`Carries`: the selector, the recovery id, a signature from which the chain
  -- recovers as `ecrecover` does, the enclave's version of at most 185 bytes, and the same keccak),
  -- the address of the key is a signer of the contract and not zero, and the gateway accepts the
  -- rest of the proof, then `verifyProof` accepts the proof for the key and the public values of
  -- the response.
  pub verify_proof-execute_inner :
      (cid : ℕ) (request : TeeRequest pl) (r : Response pl) (resp : TeeResponse pl) (state : State)
      (p : Layout)
      → (answer pl e.server (execute request.stdin request.program request.cycle_limit) e.driver).0
        ≡ some r
      → Fits requests (execute request.stdin request.program request.cycle_limit)
      → Fits responses r
      → (execute_inner pl h t requests responses cid request).0 ≡ ok resp
      → Carries pl h rec evm p resp
      → is_signer state (h.from_raw_public_key raw) ≡ true
      → h.from_raw_public_key raw ≢ zero_address
      → resp.recovery_id ≤ 28
      → evm.gateway_verify_proof resp.vkey resp.public_values p.rest ≡ ok tt
      → verify_proof evm state resp.vkey resp.public_values (bytes_of p) ≡ ok tt
  verify_proof-execute_inner cid request r resp state p a fm fr done c known not_zero low accepted =
      let attests =
        execute_inner-Attests pl h requests request_laws responses response_laws e t link rec raw
          key cid request r resp a fm fr done in
      verify_proof-Attests pl h rec evm state p request e.server.signing_key
        (h.from_raw_public_key raw) resp attests c known not_zero low accepted
