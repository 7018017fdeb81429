-- ===== src/Deployment/Attestation.antt =====
-- host/src/attestations.rs: `save_attestation` against a running enclave, and
-- `verify_attestation_for_signer` on what it stored.
use sp1_tee.Prelude.{
  sym, ◌≤◌, ◌↔◌, ℕ, ◌≡◌, refl, ap, ◌∙◌, String, List, [], ◌∷◌, ◌++◌, append-nil, some, length,
}
use sp1_tee.Result.{Result, ok, map_err-eq-ok}
use sp1_tee.Common.Bytes.{u32_max, to_le_bytes, to_le_bytes-injective}
use sp1_tee.Io.{mapping_err}
use sp1_tee.Common.Request.{attest_signing_key, get_public_key}
use sp1_tee.Common.Response.{public_key, signing_key_attestation}
use sp1_tee.Common.Communication.{Transport, Codec, connect, send, recv}
use sp1_tee.Common.Communication.Laws.{CodecLaws}
use sp1_tee.Common.Communication.Sending.{frame, send_live, send_keep}
use sp1_tee.Common.Communication.Receiving.{recv_ok}
use sp1_tee.Enclave.Platform.{Platform, NsmRequest, attestation}
use sp1_tee.Enclave.Server.{Request, Response}
use sp1_tee.Enclave.Server
use sp1_tee.Enclave.Server.Attestation.{attest_signing_key_document}
use sp1_tee.Enclave.Connection.Answers.{answers}
use sp1_tee.Enclave.Connection.Loop.{nil, cons}
use sp1_tee.Host.Platform.{HostPlatform, PointLaws}
use sp1_tee.Host.Address.{key_address}
use sp1_tee.Host.Storage.{Storage, AttestationDoc}
use sp1_tee.Host.Stream
use sp1_tee.Host.Stream.{open_stream}
use sp1_tee.Host.Attestations.{verify_attestation_for_signer, s3_bucket}
use sp1_tee.Host.Attestations.Verification.{verify_attestation_for_signer_iff}
use sp1_tee.Host.SaveAttestation.{SaveAttestationArgs, s3_put_object_error, ask, save_attestation}
use sp1_tee.Deployment.Link.{Fits, Running, Linked, enclave_peer, enclave_peer-answers}

ok-injective : {E A : Type 0} {a b : A} → ◌≡◌ {A = Result E A} (ok a) (ok b) → a ≡ b
ok-injective e = cc

some-injective : {A : Type 0} {a b : A} → some a ≡ some b → a ≡ b
some-injective e = cc

-- S3 gives back what was put.
pub record StorageLaws (st : Storage) : Type 0 where
  pub get-put :
      (bucket key : String) (bytes : List ℕ) (objects : st.Objects)
      → (st.put_object bucket key bytes objects).0 ≡ ok tt
      → (body : st.Body) × (st.get_object bucket key (st.put_object bucket key bytes objects).1
          ≡ ok body)
        × (st.collect body ≡ ok bytes)

-- A document of the security module validates, and holds the image's measurement and what the
-- module was asked to bind.
pub record DocumentLaws (pl : Platform) (st : Storage) : Type 0 where
  pub image : List ℕ
  pub validates :
      (fd : ℕ) (r : NsmRequest) (d : pl.Driver) (document : List ℕ)
      → (pl.nsm_process_request fd r d).0 ≡ attestation document
      → (doc : AttestationDoc) × (st.validate_and_parse document ≡ ok doc)
        × (doc.pcrs 0 ≡ some image)
        × (doc.user_data ≡ r.user_data)
        × (doc.public_key ≡ r.public_key)

module _ (pl : Platform) (h : HostPlatform pl) (laws : PointLaws pl h)
    (requests : Codec (Request pl)) (request_laws : CodecLaws requests)
    (responses : Codec (Response pl)) (response_laws : CodecLaws responses)
    (e : Running pl requests responses) (t : Transport) (link : Linked pl requests responses e t)
    (st : Storage) (document : List ℕ)
    (attested : (Server.attest_signing_key pl e.server e.driver).0
      ≡ signing_key_attestation document)
    (fits_attest : Fits requests attest_signing_key) (fits_get : Fits requests get_public_key)
    (fits_document : Fits responses (signing_key_attestation document))
    (fits_key : Fits responses (public_key (pl.verifying_point e.server.signing_key))) where
  open link use {pipe, live, served, raw, fresh, unread}

  abbrev key_response : Response pl
  key_response = public_key (pl.verifying_point e.server.signing_key)

  abbrev s₁ : t.Raw
  s₁ = (send t requests attest_signing_key raw).1

  abbrev s₂ : t.Raw
  s₂ = (send t requests get_public_key s₁).1

  sent_both :
      ((send t requests attest_signing_key raw).0 ≡ ok tt)
      × ((send t requests get_public_key s₁).0 ≡ ok tt)
      × (pipe.sent s₂ ≡ frame fits_attest.bytes ++ (frame fits_get.bytes ++ []))
  sent_both =
      let (done, sent) =
        send_live t requests pipe live attest_signing_key fits_attest.bytes raw
          fits_attest.serialized fits_attest.small in
      let (done', sent') =
        send_live t requests pipe live get_public_key fits_get.bytes s₁ fits_get.serialized
          fits_get.small in
      (done, done', sent' ∙ rw (sent, fresh, append-nil (frame fits_get.bytes)))

  -- Both answers are on their way.
  both_answers :
      enclave_peer pl requests responses e (frame fits_attest.bytes ++ (frame fits_get.bytes ++ []))
      ≡ frame fits_document.bytes ++ (frame fits_key.bytes ++ [])
  unfolding answers
  both_answers =
      enclave_peer-answers pl requests responses request_laws e
        (attest_signing_key ∷ get_public_key ∷ []) _ _ ((λ q. cc), ((λ q. cc), tt))
        (cons fits_attest.bytes fits_attest.serialized fits_attest.small
          (cons fits_get.bytes fits_get.serialized fits_get.small nil))
        (rw attested (
          cons fits_document.bytes fits_document.serialized fits_document.small
            (cons fits_key.bytes fits_key.serialized fits_key.small nil)))

  pending_both : pipe.pending s₂ ≡ frame fits_document.bytes ++ (frame fits_key.bytes ++ [])
  pending_both =
      let untouched : served.taken s₂ ≡ 0 =
        send_keep t requests served.taken served.taken-write_all get_public_key s₁
        ∙ send_keep t requests served.taken served.taken-write_all attest_signing_key raw
        ∙ unread in
      let (_, _, sent) = sent_both in
      served.served s₂ untouched ∙ ap (enclave_peer pl requests responses e) sent ∙ both_answers

  -- So the host gets the document, and the address of the key that the enclave signs with.
  ask_linked :
      (address : List ℕ)
      → pl.point_bytes (pl.verifying_point e.server.signing_key) ≡ 4 ∷ address
      → (ask pl h st t requests responses (open_stream pl t requests responses raw)).0
        ≡ ok (document, h.from_raw_public_key address)
  unfolding ask Stream.send Stream.recv
  ask_linked address bytes =
      let (done, done', _) = sent_both in
      let (got, q, _) =
        recv_ok t pipe responses response_laws (signing_key_attestation document)
          fits_document.bytes (frame fits_key.bytes ++ []) s₂ fits_document.serialized
          fits_document.small pending_both in
      let (got', _, _) =
        recv_ok t pipe responses response_laws key_response fits_key.bytes []
          (recv t responses s₂).1 fits_key.serialized fits_key.small q in
      let (address', bytes', derived) = key_address pl h laws e.server.signing_key in
      let same : address' ≡ address = cc in rw (done, done', got, got', derived, same)

  -- For a host linked to a running enclave (`Linked`, `Running`), lawful encodings, messages that
  -- each fit in one frame, and an enclave that attests its key with a document and whose key's
  -- point is the byte 4 and some coordinates: `save_attestation` is exactly one write to S3, of
  -- that document, into the given bucket, under the text of the address of the enclave's key, with
  -- the write's error as its own.
  pub save_attestation_linked :
      (args : SaveAttestationArgs) (address : List ℕ) (objects : st.Objects)
      → pl.point_bytes (pl.verifying_point e.server.signing_key) ≡ 4 ∷ address
      → save_attestation pl h st t requests responses args objects
        ≡ mapping_err s3_put_object_error
            (st.put_object args.bucket (st.address_text (h.from_raw_public_key address)) document)
            objects
  unfolding save_attestation Stream.new connect
  save_attestation_linked args address objects bytes = rw (link.connects, ask_linked address bytes)

  -- What is stored once it is saved.
  saved_document :
      (storage : StorageLaws st) (documents : DocumentLaws pl st) (cid port : ℕ) (address : List ℕ)
      (objects : st.Objects)
      → pl.point_bytes (pl.verifying_point e.server.signing_key) ≡ 4 ∷ address
      → (save_attestation pl h st t requests responses
          (record { cid = cid; port = port; bucket = s3_bucket st })
          objects).0
        ≡ ok tt
      → (body : st.Body) × (st.get_object
            (s3_bucket st)
            (st.address_text (h.from_raw_public_key address))
            (save_attestation pl h st t requests responses
              (record { cid = cid; port = port; bucket = s3_bucket st })
              objects).1
          ≡ ok body)
        × (st.collect body ≡ ok document)
        × (doc : AttestationDoc) × (st.validate_and_parse document ≡ ok doc)
        × (doc.pcrs 0 ≡ some documents.image)
        × (doc.user_data ≡ some (to_le_bytes pl.tee_version))
        × (doc.public_key ≡ some (4 ∷ address))
  saved_document storage documents cid port address objects bytes saved_ok =
      let args : SaveAttestationArgs = record { cid = cid; port = port; bucket = s3_bucket st } in
      let saved = save_attestation_linked args address objects bytes in
      let signer = h.from_raw_public_key address in
      let put_ok =
        map_err-eq-ok s3_put_object_error
          (st.put_object (s3_bucket st) (st.address_text signer) document objects).0
          (rw saved at saved_ok) in
      let (body, got, read) =
        storage.get-put (s3_bucket st) (st.address_text signer) document objects put_ok in
      let (fd, _, asked) = (attest_signing_key_document pl e.server e.driver document).0 attested in
      let (doc, valid, image, version, key) = documents.validates fd _ _ document asked in
      (body, rw saved got, read, doc, valid, image, version, key ∙ ap some bytes)

  -- For a host linked to a running enclave (`Linked`, `Running`), lawful encodings, messages that
  -- each fit in one frame, an enclave that attests its key with a document and whose key's point is
  -- the byte 4 and 64 more, where S3 gives back what was put, and a document of the security module
  -- validates to its image and to what the module was asked to bind: once `save_attestation` to the
  -- bucket of attestations has succeeded, `verify_attestation_for_signer` succeeds on what is then
  -- stored, for the address of the enclave's key, the enclave's version and a PCR0 that is the text
  -- of the image's measurement.
  pub verify-save_attestation :
      (storage : StorageLaws st) (documents : DocumentLaws pl st) (display : ℕ → String)
      (cid port : ℕ) (address : List ℕ) (pcr0 : String) (objects : st.Objects)
      → pl.point_bytes (pl.verifying_point e.server.signing_key) ≡ 4 ∷ address
      → length address ≡ 64
      → st.hex_encode documents.image ≡ st.without_0x pcr0
      → (save_attestation pl h st t requests responses
          (record { cid = cid; port = port; bucket = s3_bucket st })
          objects).0
        ≡ ok tt
      → verify_attestation_for_signer st display pl h
          (save_attestation pl h st t requests responses
            (record { cid = cid; port = port; bucket = s3_bucket st })
            objects).1
          (h.from_raw_public_key address)
          pl.tee_version
          pcr0
        ≡ ok tt
  verify-save_attestation storage documents display cid port address pcr0 objects bytes long
        measured saved_ok =
      let signer = h.from_raw_public_key address in
      let (body, got, read, doc, valid, image, version, key) =
        saved_document storage documents cid port address objects bytes saved_ok in
      (verify_attestation_for_signer_iff st display pl h _ signer pl.tee_version pcr0).1 (
        body,
        document,
        doc,
        got,
        read,
        valid,
        record {
          measured = (documents.image, image, measured);
          versioned = version;
          keyed = (address, key, long, refl);
        },
      )

  -- For a host linked to a running enclave (`Linked`, `Running`), lawful encodings, messages that
  -- each fit in one frame, and an enclave that attests its key with a document and whose key's
  -- point is the byte 4 and 64 more, where S3 gives back what was put, and a document of the
  -- security module validates to its image and to what the module was asked to bind: once
  -- `save_attestation` to the bucket of attestations has succeeded, `verify_attestation_for_signer`
  -- succeeds on what is then stored, for the address of the enclave's key, exactly if the version
  -- asked for is the enclave's and the PCR0 asked for is the text of the image's measurement, so
  -- that it fails or panics for any other version or image, where both versions are numbers of 32
  -- bits.
  pub verify-save_attestation_iff :
      (storage : StorageLaws st) (documents : DocumentLaws pl st) (display : ℕ → String)
      (cid port : ℕ) (address : List ℕ) (version : ℕ) (pcr0 : String) (objects : st.Objects)
      → pl.point_bytes (pl.verifying_point e.server.signing_key) ≡ 4 ∷ address
      → length address ≡ 64
      → version ≤ u32_max
      → pl.tee_version ≤ u32_max
      → (save_attestation pl h st t requests responses
          (record { cid = cid; port = port; bucket = s3_bucket st })
          objects).0
        ≡ ok tt
      → (verify_attestation_for_signer st display pl h
            (save_attestation pl h st t requests responses
              (record { cid = cid; port = port; bucket = s3_bucket st })
              objects).1
            (h.from_raw_public_key address)
            version
            pcr0
          ≡ ok tt)
        ↔ ((version ≡ pl.tee_version) × (st.hex_encode documents.image ≡ st.without_0x pcr0))
  verify-save_attestation_iff storage documents display cid port address version pcr0 objects bytes
        long small small_tee saved_ok =
      let signer = h.from_raw_public_key address in
      let (body, got, read, doc, valid, image, tee, _) =
        saved_document storage documents cid port address objects bytes saved_ok in
      (
        λ verified.
            let (body', bytes', doc', got', read', valid', speaks) =
              (verify_attestation_for_signer_iff st display pl h _ signer version pcr0).0
                verified in
            let same_body : body' ≡ body = ok-injective (sym got' ∙ got) in
            let same_bytes : bytes' ≡ document =
              ok-injective (sym read' ∙ ap st.collect same_body ∙ read) in
            let same_doc : doc' ≡ doc =
              ok-injective (sym valid' ∙ ap st.validate_and_parse same_bytes ∙ valid) in
            let (pcr, there, shown) = speaks.measured in
            let same_pcr : pcr ≡ documents.image =
              some-injective (sym there ∙ ap (λ (d : AttestationDoc). d.pcrs 0) same_doc ∙ image) in
            let same_version : to_le_bytes version ≡ to_le_bytes pl.tee_version =
              some-injective
                (sym speaks.versioned ∙ ap (λ (d : AttestationDoc). d.user_data) same_doc ∙ tee) in
            (
              to_le_bytes-injective version pl.tee_version small small_tee same_version,
              rw (← same_pcr) shown,
            ),
        λ (same, measured). rw same (
            verify-save_attestation storage documents display cid port address pcr0 objects bytes
              long measured saved_ok),
      )
