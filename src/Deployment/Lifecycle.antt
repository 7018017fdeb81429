-- ===== src/Deployment/Lifecycle.antt =====
-- From an attested key to a proof that the chain accepts: host/src/attestations.rs stores the
-- attestation, host/bin/setup.rs registers its signer on contracts/src/SP1TeeVerifier.sol, and
-- host/bin/server.rs returns what the enclave has signed.
use mathlib.Core.List.{Memᴰ}
use mathlib.Core.List.Memᴰ
use sp1_tee.Prelude.{
  ℕ, ◌≤◌, ◌<◌, ◌≡◌, ◌≢◌, refl, sym, ap, ◌∙◌, inl, inr, String, true, List, ◌∷◌, Option, some,
  length,
}
use sp1_tee.Result.{Result, ok, ErrorText, expect, expect-eq-ok, map_err-eq-ok}
use sp1_tee.Io.{lift, >>=-eq-ok}
use sp1_tee.Common.Request.{attest_signing_key, get_public_key, execute}
use sp1_tee.Common.Response.{public_key, signing_key_attestation}
use sp1_tee.Common.Communication.{Transport, Codec}
use sp1_tee.Common.Communication.Laws.{CodecLaws}
use sp1_tee.Enclave.Platform.{Platform}
use sp1_tee.Enclave.Server
use sp1_tee.Enclave.Server.{Request, Response}
use sp1_tee.Enclave.Server.Attestation.{attest_signing_key_document}
use sp1_tee.Enclave.Connection.Answers.{answer}
use sp1_tee.Host.Platform.{Address, HostPlatform, PointLaws}
use sp1_tee.Host.Storage.{Storage}
use sp1_tee.Host.Attestations.{RawAttestation, get_raw_attestations, s3_bucket}
use sp1_tee.Host.Attestations.Listing.{Fetched, nil, cons, get_raw_attestations_iff}
use sp1_tee.Host.SaveAttestation.{SaveAttestationError, s3_put_object_error, save_attestation}
use sp1_tee.Host.Handlers.{TeeRequest, TeeResponse, execute_inner}
use sp1_tee.Host.Setup.{SetupArgs, setup_signers, add_signers}
use sp1_tee.Contracts.SimpleOwnable.{zero_address}
use sp1_tee.Contracts.Sp1TeeVerifier.{State, Evm, is_signer, verify_proof}
use sp1_tee.Contracts.Sp1TeeVerifier.Proofs.{Layout, bytes_of}
use sp1_tee.Deployment.Link.{Fits, Running, Linked}
use sp1_tee.Deployment.Signature.{Recovery}
use sp1_tee.Deployment.Attestation.{StorageLaws, DocumentLaws, save_attestation_linked}
use sp1_tee.Deployment.Registration.{verifier, is_signer-add_signers}
use sp1_tee.Deployment.Proof.{Carries, verify_proof-execute_inner}

-- S3 lists what was put, in a listing of less than the thousand entries that one may have.
pub record ListingLaws (st : Storage) : Type 0 where
  pub listed :
      (bucket key : String) (bytes : List ℕ) (objects : st.Objects) (keys : List (Option String))
      → (st.put_object bucket key bytes objects).0 ≡ ok tt
      → st.list_objects_v2 bucket (st.put_object bucket key bytes objects).1 ≡ ok (some keys)
      → length keys < 1000
      → Memᴰ (some key) keys

-- A fetched key is a fetched attestation.
Fetched-Mem :
    (st : Storage) (objects : st.Objects) {keys : List (Option String)} {raws : List RawAttestation}
    (key : String) (address : Address) (body : st.Body) (bytes : List ℕ)
    → st.parse_address key ≡ ok address
    → st.get_object (s3_bucket st) key objects ≡ ok body
    → st.collect body ≡ ok bytes
    → Fetched st objects keys raws
    → Memᴰ (some key) keys
    → Memᴰ (record { address = address; attestation = bytes }) raws
Fetched-Mem st objects key address body bytes p g c nil m = absurd (Memᴰ.not-nil m)
Fetched-Mem st objects key address body bytes p g c (cons key' address' body' bytes' p' g' c' f) m =
    elim (Memᴰ.cases_cons m) [
      | inl same ↦
          let k : key ≡ key' = cc in
          let a : address ≡ address' = cc (p, rw (← k) at p') in
          let b : body ≡ body' = cc (g, rw (← k) at g') in
          let d : bytes ≡ bytes' = cc (c, rw (← b) at c') in Memᴰ.head (rw (a, d) refl)
      | inr later ↦ Memᴰ.tail (Fetched-Mem st objects key address body bytes p g c f later)
    ]

module _ (pl : Platform) (h : HostPlatform pl) (laws : PointLaws pl h)
    (requests : Codec (Request pl)) (request_laws : CodecLaws requests)
    (responses : Codec (Response pl)) (response_laws : CodecLaws responses)
    (e : Running pl requests responses) (t : Transport) (link : Linked pl requests responses e t)
    (st : Storage) (storage : StorageLaws st) (listing : ListingLaws st)
    (documents : DocumentLaws pl st) (document : List ℕ)
    (attested : (Server.attest_signing_key pl e.server e.driver).0
      ≡ signing_key_attestation document)
    (fits_attest : Fits requests attest_signing_key) (fits_get : Fits requests get_public_key)
    (fits_document : Fits responses (signing_key_attestation document))
    (fits_key : Fits responses (public_key (pl.verifying_point e.server.signing_key)))
    (raw : List ℕ) (key : pl.point_bytes (pl.verifying_point e.server.signing_key) ≡ 4 ∷ raw)
    (parsed : st.parse_address (st.address_text (h.from_raw_public_key raw))
      ≡ ok (h.from_raw_public_key raw))
    (owner : Address) (hex_decode : String → Result ErrorText (List ℕ)) (args : SetupArgs) where
  abbrev pub signer : Address
  signer = h.from_raw_public_key raw

  -- The bucket after the enclave's attestation has been saved in it.
  abbrev pub saved :
      (cid port : ℕ) → st.Objects → Result SaveAttestationError (Unit {0}) × st.Objects
  saved cid port objects =
      save_attestation pl h st t requests responses
        (record { cid = cid; port = port; bucket = s3_bucket st }) objects

  -- The contract after the setup has read that bucket.
  abbrev pub set_up : st.Objects → State → Result ⊥ (Unit {0}) × State
  set_up objects state = setup_signers st pl h (verifier owner hex_decode) args objects state

  fetched_document :
      (objects : st.Objects) (keys : List (Option String)) (raws : List RawAttestation)
      → (st.put_object (s3_bucket st) (st.address_text signer) document objects).0 ≡ ok tt
      → let objects' = (st.put_object (s3_bucket st) (st.address_text signer) document objects).1 in
        st.list_objects_v2 (s3_bucket st) objects' ≡ ok (some keys)
        → length keys < 1000
        → get_raw_attestations st objects' ≡ ok raws
        → Memᴰ (record { address = signer; attestation = document }) raws
  fetched_document objects keys raws put there short got =
      let objects' = (st.put_object (s3_bucket st) (st.address_text signer) document objects).1 in
      let (keys', there', fetched) = (get_raw_attestations_iff st objects' raws).0 got in
      let same : keys' ≡ keys = cc in
      let (body, stored, read) =
        storage.get-put (s3_bucket st) (st.address_text signer) document objects put in
      Fetched-Mem st objects' (st.address_text signer) signer body document parsed stored read
        fetched
        (rw same (
          listing.listed (s3_bucket st) (st.address_text signer) document objects keys put there
            short))

  setup_signers_ok :
      (objects : st.Objects) (state : State)
      → (set_up objects state).0 ≡ ok tt
      → (raws : List RawAttestation) × (get_raw_attestations st objects ≡ ok raws)
        × ((add_signers st pl h (verifier owner hex_decode) args raws state).0 ≡ ok tt)
        × ((set_up objects state).1
            ≡ (add_signers st pl h (verifier owner hex_decode) args raws state).1)
  unfolding setup_signers
  setup_signers_ok objects state done =
      let (raws, got, step) =
        >>=-eq-ok (lift (expect "Failed to get attestations" (get_raw_attestations st objects)))
          (add_signers st pl h (verifier owner hex_decode) args) state done in
      (
        raws,
        expect-eq-ok "Failed to get attestations" (get_raw_attestations st objects) got,
        ap (λ (x : Result ⊥ (Unit {0}) × State). x.0) (sym step) ∙ done,
        ap (λ (x : Result ⊥ (Unit {0}) × State). x.1) step,
      )

  -- What the save comes to.
  saved-put :
      (cid port : ℕ) (objects : st.Objects)
      → (saved cid port objects).0 ≡ ok tt
      → let put = st.put_object (s3_bucket st) (st.address_text signer) document objects in
        (put.0 ≡ ok tt) × ((saved cid port objects).1 ≡ put.1)
  saved-put cid port objects done =
      let linked =
        save_attestation_linked pl h laws requests request_laws responses response_laws e t link st
          document attested fits_attest fits_get fits_document fits_key
          (record { cid = cid; port = port; bucket = s3_bucket st }) raw objects key in
      (
        map_err-eq-ok s3_put_object_error
            (st.put_object (s3_bucket st) (st.address_text signer) document objects).0
            (rw linked at done),
        ap (λ (x : Result SaveAttestationError (Unit {0}) × st.Objects). x.1) linked,
      )

  pub is_signer-setup_signers :
      (cid port : ℕ) (objects : st.Objects) (keys : List (Option String)) (state : State)
      → (saved cid port objects).0 ≡ ok tt
      → st.list_objects_v2 (s3_bucket st) (saved cid port objects).1 ≡ ok (some keys)
      → length keys < 1000
      → args.register_signers ≡ true
      → (set_up (saved cid port objects).1 state).0 ≡ ok tt
      → is_signer (set_up (saved cid port objects).1 state).1 signer ≡ true
  is_signer-setup_signers cid port objects keys state saved_ok there short asked done =
      let (put, after) = saved-put cid port objects saved_ok in
      let (raws, got, added, end) = setup_signers_ok (saved cid port objects).1 state done in
      let listed =
        fetched_document objects keys raws put (rw after at there) short (rw after at got) in
      let (fd, _, module_said) =
        (attest_signing_key_document pl e.server e.driver document).0 attested in
      let (doc, valid, _, _, _) = documents.validates fd _ _ document module_said in
      ap (λ (x : State). is_signer x signer) end
      ∙ is_signer-add_signers owner hex_decode st pl h args raws
          (record { address = signer; attestation = document }) doc state asked listed valid added

  -- For a host linked to a running enclave (`Linked`, `Running`), lawful encodings, messages that
  -- each fit in one frame, an enclave that attests its key with a document, whose key's point is
  -- the byte 4 and some coordinates and whose address is not zero and is read back from its text,
  -- where S3 gives back and lists what was put and a document of the security module validates: if
  -- `save_attestation` to the bucket of attestations has succeeded, the bucket's listing then has
  -- less than 1000 entries, the owner's setup with registration asked for has then come to its end
  -- without a panic on a chain whose contract is `SP1TeeVerifier`, and `execute_inner` has returned
  -- a response with a recovery id of at most 28, then `verifyProof` of that contract accepts, for
  -- the key and the public values of the response, every proof that carries it (`Carries`) and
  -- whose rest the gateway accepts.
  pub verify_proof-setup_signers :
      (rec : Recovery pl h) (evm : Evm) (cid port : ℕ) (objects : st.Objects)
      (keys : List (Option String)) (state : State) (request : TeeRequest pl) (r : Response pl)
      (resp : TeeResponse pl) (p : Layout)
      → (saved cid port objects).0 ≡ ok tt
      → st.list_objects_v2 (s3_bucket st) (saved cid port objects).1 ≡ ok (some keys)
      → length keys < 1000
      → args.register_signers ≡ true
      → (set_up (saved cid port objects).1 state).0 ≡ ok tt
      → signer ≢ zero_address
      → (answer pl e.server (execute request.stdin request.program request.cycle_limit) e.driver).0
        ≡ some r
      → Fits requests (execute request.stdin request.program request.cycle_limit)
      → Fits responses r
      → (execute_inner pl h t requests responses cid request).0 ≡ ok resp
      → Carries pl h rec evm p resp
      → resp.recovery_id ≤ 28
      → evm.gateway_verify_proof resp.vkey resp.public_values p.rest ≡ ok tt
      → verify_proof evm
          (set_up (saved cid port objects).1 state).1
          resp.vkey
          resp.public_values
          (bytes_of p)
        ≡ ok tt
  verify_proof-setup_signers rec evm cid port objects keys state request r resp p saved_ok there
        short asked done not_zero a fm fr returned c low accepted =
      verify_proof-execute_inner pl h requests request_laws responses response_laws e t link rec raw
        key evm cid request r resp (set_up (saved cid port objects).1 state).1 p a fm fr returned c
        (is_signer-setup_signers cid port objects keys state saved_ok there short asked done)
        not_zero low accepted
