-- ===== src/Host/Signers/Selection.antt =====
-- host/bin/server.rs: which signers `get_signers` returns.
use sp1_tee.Prelude.{
  ℕ, ◌≡◌, ◌≢◌, ◌↔◌, refl, ap, ◌∙◌, String, List, [], ◌∷◌, Option, some, arith, length, bytes_eq,
  bytes_eq_iff, Bool-cases, inl, inr,
}
use sp1_tee.Result.{
  Result, ok, err, panic, ErrorText, map_err, expect_some, >>=-iff, map_err_iff, expect-eq-ok,
}
use sp1_tee.Common.Bytes.{to_le_bytes}
use sp1_tee.Common.Communication.{Codec}
use sp1_tee.Enclave.Platform.{Platform}
use sp1_tee.Host.Platform.{Address, HostPlatform}
use sp1_tee.Host.Address.{ethereum_address_from_sec1_bytes, ethereum_address_from_sec1_bytes_iff}
use sp1_tee.Host.Errors.{ServerError, failed_to_get_attestations}
use sp1_tee.Host.Storage.{Storage, AttestationDoc}
use sp1_tee.Host.Attestations.{RawAttestation, get_raw_attestations, verify_attestation, s3_bucket}
use sp1_tee.Host.Attestations.Listing.{Fetched, get_raw_attestations_iff}
use sp1_tee.Host.Signers.{converted, select, select_verified, signers_of, get_signers}

module _ (st : Storage) (pl : Platform) (h : HostPlatform pl) where
  -- Attestations and the signers that are made of them, in order.
  pub data Selected : List RawAttestation → List Address → Type 0 where
    nil : Selected [] []
    invalid :
        {raws : List RawAttestation} {signers : List Address} (raw : RawAttestation) (e : ErrorText)
        → st.validate_and_parse raw.attestation ≡ err e
        → Selected raws signers
        → Selected (raw ∷ raws) signers
    other_version :
        {raws : List RawAttestation} {signers : List Address} (raw : RawAttestation)
        (doc : AttestationDoc) (user_data : List ℕ)
        → st.validate_and_parse raw.attestation ≡ ok doc
        → doc.user_data ≡ some user_data
        → user_data ≢ to_le_bytes pl.tee_version
        → Selected raws signers
        → Selected (raw ∷ raws) signers
    signer :
        {raws : List RawAttestation} {signers : List Address} (raw : RawAttestation)
        (doc : AttestationDoc) (coordinates : List ℕ)
        → st.validate_and_parse raw.attestation ≡ ok doc
        → doc.user_data ≡ some (to_le_bytes pl.tee_version)
        → doc.public_key ≡ some (4 ∷ coordinates)
        → length coordinates ≡ 64
        → Selected raws signers
        → Selected (raw ∷ raws) (h.from_raw_public_key coordinates ∷ signers)

  Selected-complete :
      {raws : List RawAttestation} {signers : List Address}
      → Selected raws signers
      → signers_of st pl h raws ≡ ok signers
  unfolding signers_of verify_attestation select_verified select converted
  Selected-complete nil = refl
  Selected-complete (invalid raw e bad s) = rw bad (Selected-complete s)
  Selected-complete (other_version raw doc user_data valid has other s) =
      let rest = Selected-complete s in
      rw (valid, has) (ground (arith, bytes_eq_iff user_data (to_le_bytes pl.tee_version)))
  Selected-complete (signer raw doc coordinates valid has key long s) =
      let rest = Selected-complete s in
      let same = (bytes_eq_iff (to_le_bytes pl.tee_version) (to_le_bytes pl.tee_version)).1 refl in
      let address =
        (ethereum_address_from_sec1_bytes_iff pl h (4 ∷ coordinates)
            (h.from_raw_public_key coordinates)).1
          (coordinates, refl, long, refl) in
      rw (valid, has, same, key, address, rest)

  converted_ok :
      (doc : AttestationDoc) (address : Address)
      → converted st pl h doc ≡ ok address
      → (coordinates : List ℕ) × (doc.public_key ≡ some (4 ∷ coordinates))
        × (length coordinates ≡ 64)
        × (address ≡ h.from_raw_public_key coordinates)
  unfolding converted
  converted_ok doc address e =
      let (key, has, e') =
        (>>=-iff (expect_some "No public key found in attestation" doc.public_key) _ address).0 e in
      let there : doc.public_key ≡ some key = ground arith in
      let made : ethereum_address_from_sec1_bytes pl h key ≡ some address = ground arith in
      let (coordinates, tag, long, derived) =
        (ethereum_address_from_sec1_bytes_iff pl h key address).0 made in
      (coordinates, there ∙ ap some tag, long, derived)

  select_ok :
      (raw : RawAttestation) (raws : List RawAttestation) (doc : AttestationDoc)
      (rest : Result ServerError (List Address)) (signers : List Address)
      → st.validate_and_parse raw.attestation ≡ ok doc
      → select st pl h doc rest ≡ ok signers
      → ((found : List Address) → rest ≡ ok found → Selected raws found)
      → Selected (raw ∷ raws) signers
  unfolding select
  select_ok raw raws doc rest signers valid e rec =
      let (user_data, has, e') =
        (>>=-iff (expect_some "No user data found in attestation" doc.user_data) _ signers).0 e in
      let there : doc.user_data ≡ some user_data = ground arith in
      elim (Bool-cases (bytes_eq user_data (to_le_bytes pl.tee_version))) [
        | inl same ↦
            let current = (bytes_eq_iff user_data (to_le_bytes pl.tee_version)).0 same in
            let (address, made, e'') =
              (>>=-iff (converted st pl h doc) _ signers).0 (rw same at e') in
            let (found, others, last) =
              (>>=-iff rest (λ found. ok (address ∷ found)) signers).0 e'' in
            let (coordinates, key, long, derived) = converted_ok doc address made in
            let whole : address ∷ found ≡ signers = ground arith in
            rw (← whole, derived)
              (signer raw doc coordinates valid (there ∙ ap some current) key long
                (rec found others))
        | inr differ ↦
            other_version raw doc user_data valid there
              (λ same. ground (arith, (bytes_eq_iff user_data (to_le_bytes pl.tee_version)).1 same))
              (rec signers (rw differ at e'))
      ]

  verified_sound :
      (raw : RawAttestation) (raws : List RawAttestation) (doc : Result ErrorText AttestationDoc)
      (signers : List Address)
      → st.validate_and_parse raw.attestation ≡ doc
      → select_verified st pl h doc (signers_of st pl h raws) ≡ ok signers
      → ((found : List Address) → signers_of st pl h raws ≡ ok found → Selected raws found)
      → Selected (raw ∷ raws) signers
  unfolding select_verified
  verified_sound raw raws (ok doc) signers valid e rec =
      select_ok raw raws doc (signers_of st pl h raws) signers valid e rec
  verified_sound raw raws (err x) signers bad e rec = invalid raw x bad (rec signers e)
  verified_sound raw raws (panic p) signers bad e rec = absurd (cc)

  Selected-sound :
      (raws : List RawAttestation) (signers : List Address)
      → signers_of st pl h raws ≡ ok signers
      → Selected raws signers
  unfolding signers_of verify_attestation
  Selected-sound [] signers e = let same : [] ≡ signers = cc in rw (← same) nil
  Selected-sound (raw ∷ raws) signers e =
      verified_sound raw raws (st.validate_and_parse raw.attestation) signers refl e
        (λ found. Selected-sound raws found)

  -- `get_signers` returns these bytes exactly if the bucket's listing has contents that were all
  -- fetched, and the bytes are the serialized addresses of the public keys of the fetched
  -- documents, in order, without the attestations that do not validate and without the documents
  -- whose user data is not this version, where each other document has this version as user data
  -- and a public key of the byte 4 and 64 more.
  pub get_signers_iff :
      (codec : Codec (List Address)) (objects : st.Objects) (bytes : List ℕ)
      → (get_signers st pl h codec objects ≡ ok bytes) ↔ (
          (keys : List (Option String)) × (raws : List RawAttestation) × (signers : List Address)
          × (st.list_objects_v2 (s3_bucket st) objects ≡ ok (some keys))
          × Fetched st objects keys raws
          × Selected raws signers
          × (codec.serialize signers ≡ ok bytes))
  unfolding get_signers
  get_signers_iff codec objects bytes = (
    λ e.
        let (raws, fetched, e') =
          (>>=-iff (map_err failed_to_get_attestations (get_raw_attestations st objects)) _ bytes).0
            e in
        let (signers, selected, last) = (>>=-iff (signers_of st pl h raws) _ bytes).0 e' in
        let (keys, listed, all) = (get_raw_attestations_iff st objects raws).0 (
          (map_err_iff failed_to_get_attestations (get_raw_attestations st objects) raws).0
            fetched) in
        (
          keys,
          raws,
          signers,
          listed,
          all,
          Selected-sound raws signers selected,
          expect-eq-ok "failed to serialize signers" (codec.serialize signers) last,
        ),
    λ q.
        let (keys, raws, signers, listed, all, selected, serialized) = q in
        let fetched = (get_raw_attestations_iff st objects raws).1 (keys, listed, all) in
        rw (fetched, Selected-complete selected, serialized),
  )
