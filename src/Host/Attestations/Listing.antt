-- ===== src/Host/Attestations/Listing.antt =====
-- host/src/attestations.rs: what `get_raw_attestations` returns, and how it fails.
use sp1_tee.Prelude.{
  ℕ, ◌≡◌, ◌≢◌, ◌↔◌, refl, sym, ap, ◌∙◌, String, List, [], ◌∷◌, Option, none, some, arith,
}
use sp1_tee.Result.{
  Result, ok, err, panic, map_err, expect, expect_some, ◌>>=◌, >>=-iff, map_err_iff, expect-eq-ok,
}
use sp1_tee.Host.Platform.{Address}
use sp1_tee.Host.Errors.{
  GetAttestationError, parse_address_error, s3_get_object_error, byte_stream_error,
  list_attestations_error,
}
use sp1_tee.Host.Storage.{Storage}
use sp1_tee.Host.Attestations.{RawAttestation, fetch, fetch_all, get_raw_attestations, s3_bucket}

module _ (st : Storage) (objects : st.Objects) where
  fetch-ne-parse :
      (key : Option String) (e : String) → fetch st objects key ≢ err (parse_address_error e)
  unfolding fetch
  fetch-ne-parse key e h = ground arith

  fetch_all-ne-parse :
      (keys : List (Option String)) (e : String)
      → fetch_all st objects keys ≢ err (parse_address_error e)
  unfolding fetch_all
  fetch_all-ne-parse [] e h = cc
  fetch_all-ne-parse (key ∷ keys) e h =
      ground (arith, fetch-ne-parse key e, fetch_all-ne-parse keys e)

  listed-ne-parse :
      (listing : Result GetAttestationError (Option (List (Option String)))) (e : String)
      → listing ≢ err (parse_address_error e)
      → (do
        found ← listing
        contents ← expect_some "No contents found in attestations" found
        fetch_all st objects contents)
        ≢ err (parse_address_error e)
  listed-ne-parse (ok (some contents)) e other h = fetch_all-ne-parse contents e h
  listed-ne-parse (ok none) e other h = cc
  listed-ne-parse (err x) e other h = other (ground arith)
  listed-ne-parse (panic p) e other h = cc

  list_error-ne-parse :
      {A : Type 0} (r : Result String A) (e : String)
      → map_err list_attestations_error r ≢ err (parse_address_error e)
  list_error-ne-parse r e h = ground arith

  -- `get_raw_attestations` never fails with the error for a key that is no address.
  get_raw_attestations-ne-parse :
      (e : String) → get_raw_attestations st objects ≢ err (parse_address_error e)
  unfolding get_raw_attestations
  get_raw_attestations-ne-parse e h =
      listed-ne-parse (map_err list_attestations_error (st.list_objects_v2 (s3_bucket st) objects))
        e (list_error-ne-parse (st.list_objects_v2 (s3_bucket st) objects) e) h

  fetch-some :
      (key : String) (raw : RawAttestation)
      → fetch st objects (some key) ≡ ok raw
      → (address : Address) × (body : st.Body) × (bytes : List ℕ) × (st.parse_address key
          ≡ ok address)
        × (st.get_object (s3_bucket st) key objects ≡ ok body)
        × (st.collect body ≡ ok bytes)
        × (raw ≡ record { address = address; attestation = bytes })
  unfolding fetch
  fetch-some key raw h =
      let (address, parsed, h') =
        (>>=-iff (expect "Failed to parse key as address" (st.parse_address key)) _ raw).0 h in
      let (body, got, h'') =
        (>>=-iff (map_err s3_get_object_error (st.get_object (s3_bucket st) key objects)) _ raw).0
          h' in
      let (bytes, read, made) =
        (>>=-iff (map_err byte_stream_error (st.collect body))
            (λ bytes. ok (record { address = address; attestation = bytes })) raw).0
          h'' in
      let same : record { address = address; attestation = bytes } ≡ raw = ground arith in
      (
        address,
        body,
        bytes,
        expect-eq-ok "Failed to parse key as address" (st.parse_address key) parsed,
        (map_err_iff s3_get_object_error (st.get_object (s3_bucket st) key objects) body).0 got,
        (map_err_iff byte_stream_error (st.collect body) bytes).0 read,
        sym same,
      )

  -- Entries of a listing and the attestations fetched for them, in order: each entry has a key that
  -- is an address, and the object under that key came back.
  pub data Fetched : List (Option String) → List RawAttestation → Type 0 where
    nil : Fetched [] []
    cons :
        {keys : List (Option String)} {raws : List RawAttestation} (key : String)
        (address : Address) (body : st.Body) (bytes : List ℕ)
        → st.parse_address key ≡ ok address
        → st.get_object (s3_bucket st) key objects ≡ ok body
        → st.collect body ≡ ok bytes
        → Fetched keys raws
        → Fetched (some key ∷ keys) (record { address = address; attestation = bytes } ∷ raws)

  Fetched-complete :
      {keys : List (Option String)} {raws : List RawAttestation}
      → Fetched keys raws
      → fetch_all st objects keys ≡ ok raws
  unfolding fetch_all fetch
  Fetched-complete nil = refl
  Fetched-complete (cons key address body bytes parsed got read f) =
      rw (parsed, got, read, Fetched-complete f)

  Fetched-sound :
      (keys : List (Option String)) (raws : List RawAttestation)
      → fetch_all st objects keys ≡ ok raws
      → Fetched keys raws
  unfolding fetch_all fetch
  Fetched-sound [] raws h = let same : [] ≡ raws = cc in rw (← same) nil
  Fetched-sound (none ∷ keys) raws h = absurd (cc)
  Fetched-sound (some key ∷ keys) raws h =
      let (raw, one, h') = (>>=-iff (fetch st objects (some key)) _ raws).0 h in
      let (rest, others, made) =
        (>>=-iff (fetch_all st objects keys) (λ rest. ok (raw ∷ rest)) raws).0 h' in
      let same : raw ∷ rest ≡ raws = ground arith in
      let (address, body, bytes, parsed, got, read, is) = fetch-some key raw one in
      rw (← same, is) (cons key address body bytes parsed got read (Fetched-sound keys rest others))

  -- `get_raw_attestations` returns a list of attestations exactly if the bucket's listing has
  -- contents, and the list holds, in the order of the contents, for each entry the address that its
  -- key parses to and the bytes of the object under that key, all of which came back.
  pub get_raw_attestations_iff :
      (raws : List RawAttestation)
      → (get_raw_attestations st objects ≡ ok raws) ↔ (
          (keys : List (Option String)) × (st.list_objects_v2 (s3_bucket st) objects
            ≡ ok (some keys))
          × Fetched keys raws)
  unfolding get_raw_attestations
  get_raw_attestations_iff raws = (
    λ h.
        let (listing, listed, h') =
          (>>=-iff (map_err list_attestations_error (st.list_objects_v2 (s3_bucket st) objects)) _
              raws).0
            h in
        let (keys, found, h'') =
          (>>=-iff (expect_some "No contents found in attestations" listing) _ raws).0 h' in
        let is : listing ≡ some keys = ground arith in
        (
          keys,
          (map_err_iff list_attestations_error (st.list_objects_v2 (s3_bucket st) objects) _).0
                listed
              ∙ ap ok is,
          Fetched-sound keys raws h'',
        ),
    λ q. let (keys, listed, f) = q in rw (listed, Fetched-complete f),
  )
