-- ===== src/Host/Attestations/Verification.antt =====
-- host/src/attestations.rs: what `verify_attestation_for_signer` accepts, and how it fails.
use text.Mathlib.TextEquality.{eq_iff}
use sp1_tee.Prelude.{
  ℕ, ◌≡◌, ◌≢◌, ◌↔◌, refl, sym, ap, ◌∙◌, String, List, ◌∷◌, Option, none, some, arith, length,
  bytes_eq_iff, Option-cases, inl, inr,
}
use sp1_tee.Result.{ok, err, expect, ◌>>=◌, ◌>>◌, >>=-iff, map_err_iff}
use sp1_tee.Common.Bytes.{to_le_bytes}
use sp1_tee.Enclave.Platform.{Platform}
use sp1_tee.Host.Platform.{Address, HostPlatform}
use sp1_tee.Host.Address.{ethereum_address_from_sec1_bytes, ethereum_address_from_sec1_bytes_iff}
use sp1_tee.Host.Storage.{Storage, AttestationDoc}
use sp1_tee.Host.Attestations.{
  pcr0_verification_error, version_mismatch, verify_attestation_for_signer, s3_bucket, check_pcr0,
  check_version, check_signer, stored, verify_attestation,
}

module _ (st : Storage) (display : ℕ → String) (pl : Platform) (h : HostPlatform pl) where
  -- What a validated document must hold for a signer.
  pub record Speaks (doc : AttestationDoc) (signer : Address) (version : ℕ) (pcr0 : String)
      : Type 0 where
    pub measured :
        (pcr : List ℕ) × (doc.pcrs 0 ≡ some pcr) × (st.hex_encode pcr ≡ st.without_0x pcr0)
    pub versioned : doc.user_data ≡ some (to_le_bytes version)
    pub keyed :
        (raw : List ℕ) × (doc.public_key ≡ some (4 ∷ raw))
        × (length raw ≡ 64)
        × (signer ≡ h.from_raw_public_key raw)

  check_pcr0_iff :
      (pcr0 : String) (doc : AttestationDoc)
      → (check_pcr0 st display pl h pcr0 doc ≡ ok tt)
        ↔ ((pcr : List ℕ) × (doc.pcrs 0 ≡ some pcr) × (st.hex_encode pcr ≡ st.without_0x pcr0))
  unfolding check_pcr0
  check_pcr0_iff pcr0 doc = elim (Option-cases (doc.pcrs 0)) [
    | inl missing ↦ (λ e. absurd (ground arith), λ e. absurd (cc (e.1)))
    | inr (pcr, there) ↦ (
      λ e. (pcr, there, ground (arith, eq_iff (st.hex_encode pcr) (st.without_0x pcr0))),
      λ e. ground (arith, eq_iff (st.hex_encode pcr) (st.without_0x pcr0)),
    )
  ]

  check_version_iff :
      (version : ℕ) (doc : AttestationDoc)
      → (check_version st display pl h version doc ≡ ok tt)
        ↔ (doc.user_data ≡ some (to_le_bytes version))
  unfolding check_version
  check_version_iff version doc = elim (Option-cases doc.user_data) [
    | inl missing ↦ (λ e. absurd (ground arith), λ e. absurd (cc))
    | inr (found, there) ↦ (
      λ e. ground (arith, bytes_eq_iff found (to_le_bytes version)),
      λ e. ground (arith, bytes_eq_iff found (to_le_bytes version)),
    )
  ]

  check_signer_ok :
      (signer : Address) (doc : AttestationDoc) (o : Option (List ℕ))
      → doc.public_key ≡ o
      → check_signer st display pl h signer doc ≡ ok tt
      → (raw : List ℕ) × (o ≡ some (4 ∷ raw))
        × (length raw ≡ 64)
        × (signer ≡ h.from_raw_public_key raw)
  unfolding check_signer
  check_signer_ok signer doc none there e = absurd (ground arith)
  check_signer_ok signer doc (some key) there e =
      elim (Option-cases (ethereum_address_from_sec1_bytes pl h key)) [
        | inl bad ↦ absurd (ground (arith, bad))
        | inr (address, good) ↦
            let (raw, tag, long, derived) =
              (ethereum_address_from_sec1_bytes_iff pl h key address).0 good in
            let same : address ≡ signer = ground (arith, good, bytes_eq_iff address signer) in
            (raw, ap some tag, long, sym same ∙ derived)
      ]

  check_signer_iff :
      (signer : Address) (doc : AttestationDoc)
      → (check_signer st display pl h signer doc ≡ ok tt) ↔ (
          (raw : List ℕ) × (doc.public_key ≡ some (4 ∷ raw))
          × (length raw ≡ 64)
          × (signer ≡ h.from_raw_public_key raw))
  unfolding check_signer
  check_signer_iff signer doc = (
    λ e. check_signer_ok signer doc doc.public_key refl e,
    λ e.
        let (raw, key, long, derived) = e in
        let address =
          (ethereum_address_from_sec1_bytes_iff pl h (4 ∷ raw) signer).1
            (raw, refl, long, derived) in
        let same = (bytes_eq_iff signer signer).1 refl in ground (arith, key, address, same),
  )

  stored_iff :
      (objects : st.Objects) (signer : Address) (bytes : List ℕ)
      → (stored st display pl h objects signer ≡ ok bytes) ↔ (
          (body : st.Body) × (st.get_object (s3_bucket st) (st.address_text signer) objects
            ≡ ok body)
          × (st.collect body ≡ ok bytes))
  unfolding stored s3_bucket
  stored_iff objects signer bytes = (
    λ e.
        let (body, got, read) = (>>=-iff _ _ bytes).0 e in
        (body, (map_err_iff _ _ body).0 got, (map_err_iff _ _ bytes).0 read),
    λ e.
        let (body, got, read) = e in
        (>>=-iff _ _ bytes).1 (body, (map_err_iff _ _ body).1 got, (map_err_iff _ _ bytes).1 read),
  )

  -- The verification of a signer by `verify_attestation_for_signer` succeeds exactly if an object
  -- is stored under the signer's address and its body comes back, the body validates to a document,
  -- the document's PCR0 has the text asked for less its 0x, its user data is the four bytes of the
  -- version, and its public key is the byte 4 and 64 more bytes whose address is the signer.
  pub verify_attestation_for_signer_iff :
      (objects : st.Objects) (signer : Address) (version : ℕ) (pcr0 : String)
      → (verify_attestation_for_signer st display pl h objects signer version pcr0 ≡ ok tt) ↔ (
          (body : st.Body) × (bytes : List ℕ) × (doc : AttestationDoc) × (st.get_object
              (s3_bucket st)
              (st.address_text signer)
              objects
            ≡ ok body)
          × (st.collect body ≡ ok bytes)
          × (st.validate_and_parse bytes ≡ ok doc)
          × Speaks doc signer version pcr0)
  unfolding verify_attestation_for_signer verify_attestation
  verify_attestation_for_signer_iff objects signer version pcr0 = (
    λ e.
        let (bytes, from_store, e₁) = (>>=-iff _ _ tt).0 e in
        let (doc, valid, e₂) = (>>=-iff _ _ tt).0 e₁ in
        let (_, measured, e₃) = (>>=-iff _ _ tt).0 e₂ in
        let (_, versioned, keyed) = (>>=-iff _ _ tt).0 e₃ in
        let (body, got, read) = (stored_iff objects signer bytes).0 from_store in
        (
          body,
          bytes,
          doc,
          got,
          read,
          (map_err_iff _ _ doc).0 valid,
          record {
            measured = (check_pcr0_iff pcr0 doc).0 measured;
            versioned = (check_version_iff version doc).0 versioned;
            keyed = (check_signer_iff signer doc).0 keyed;
          },
        ),
    λ e.
        let (body, bytes, doc, got, read, valid, speaks) = e in
        let found = (stored_iff objects signer bytes).1 (body, got, read) in
        let first = (check_pcr0_iff pcr0 doc).1 speaks.measured in
        let second = (check_version_iff version doc).1 speaks.versioned in
        let third = (check_signer_iff signer doc).1 speaks.keyed in
        rw (found, valid, first, second) third,
  )

  -- The document that is stored for a signer, where one is and validates.
  pub record Stored (objects : st.Objects) (signer : Address) (doc : AttestationDoc) : Type 0 where
    pub body : st.Body
    pub bytes : List ℕ
    pub got : st.get_object (s3_bucket st) (st.address_text signer) objects ≡ ok body
    pub read : st.collect body ≡ ok bytes
    pub valid : st.validate_and_parse bytes ≡ ok doc

  -- The verification of a stored document is its three checks, the image's first.
  verify-Stored :
      (objects : st.Objects) (signer : Address) (version : ℕ) (pcr0 : String) (doc : AttestationDoc)
      → Stored objects signer doc
      → verify_attestation_for_signer st display pl h objects signer version pcr0 ≡ (do
        check_pcr0 st display pl h pcr0 doc
        check_version st display pl h version doc
        check_signer st display pl h signer doc)
  unfolding verify_attestation_for_signer verify_attestation
  verify-Stored objects signer version pcr0 doc s =
      let found = (stored_iff objects signer s.bytes).1 (s.body, s.got, s.read) in
      rw (found, s.valid)

  -- If a document is stored for the signer and the text of its PCR0 is not the one asked for, then
  -- the verification fails with the two measurements, whatever version and key the document has.
  pub verify_other_image :
      (objects : st.Objects) (signer : Address) (version : ℕ) (pcr0 : String) (doc : AttestationDoc)
      (pcr : List ℕ)
      → Stored objects signer doc
      → doc.pcrs 0 ≡ some pcr
      → st.hex_encode pcr ≢ st.without_0x pcr0
      → verify_attestation_for_signer st display pl h objects signer version pcr0
        ≡ err (pcr0_verification_error pcr0 (st.hex_encode pcr))
  unfolding check_pcr0
  verify_other_image objects signer version pcr0 doc pcr s there other =
      rw (verify-Stored objects signer version pcr0 doc s)
        (ground (arith, eq_iff (st.hex_encode pcr) (st.without_0x pcr0)))

  -- If a document is stored for the signer and has the image asked for, but its user data is not
  -- the bytes of the version asked for, then the verification is a version mismatch with the user
  -- data as text, or a panic where it is no text.
  verify_other_version :
      (objects : st.Objects) (signer : Address) (version : ℕ) (pcr0 : String) (doc : AttestationDoc)
      (pcr user_data : List ℕ)
      → Stored objects signer doc
      → doc.pcrs 0 ≡ some pcr
      → st.hex_encode pcr ≡ st.without_0x pcr0
      → doc.user_data ≡ some user_data
      → user_data ≢ to_le_bytes version
      → verify_attestation_for_signer st display pl h objects signer version pcr0 ≡ (do
        found ← expect "called `Result::unwrap()` on an `Err` value" (st.from_utf8 user_data)
        err (version_mismatch (display version) found))
  unfolding check_version
  verify_other_version objects signer version pcr0 doc pcr user_data s there same has other =
      let first = (check_pcr0_iff pcr0 doc).1 (pcr, there, same) in
      rw (verify-Stored objects signer version pcr0 doc s, first)
        (ground (arith, bytes_eq_iff user_data (to_le_bytes version)))
