-- ===== src/Host/Setup/Genuine.antt =====
-- host/bin/setup.rs: what the setup asks of an attestation.
use sp1_tee.Prelude.{
  ◌≡◌, ◌⊎◌, inl, inr, refl, sym, ap, ◌∙◌, String, List, ◌∷◌, Option, none, some, arith,
  bytes_eq_iff, ℕ, length,
}
use sp1_tee.Result.{ok, expect, expect_some, ◌>>◌, >>=-iff, expect-eq-ok}
use sp1_tee.Enclave.Platform.{Platform}
use sp1_tee.Host.Platform.{Address, HostPlatform}
use sp1_tee.Host.Address.{ethereum_address_from_sec1_bytes, ethereum_address_from_sec1_bytes_iff}
use sp1_tee.Host.Storage.{Storage, AttestationDoc}
use sp1_tee.Host.Attestations.{RawAttestation}
use sp1_tee.Host.Setup.{Verifier, SetupArgs, check_image, check_address}

module _ (st : Storage) (pl : Platform) (h : HostPlatform pl) (v : Verifier)
    (args : SetupArgs) where
  -- An attestation that speaks for its address: its document validates, has the image asked for,
  -- if one is, and a public key with that address.
  pub record Genuine (raw : RawAttestation) : Type 0 where
    pub doc : AttestationDoc
    pub coordinates : List ℕ
    pub valid : st.validate_and_parse raw.attestation ≡ ok doc
    pub image :
        (args.pcr0 ≡ none)
        ⊎ ((text : String) × (pcr : List ℕ) × (args.pcr0 ≡ some text)
            × (v.hex_decode text ≡ ok pcr)
            × (doc.pcrs 0 ≡ some pcr))
    pub key : doc.public_key ≡ some (4 ∷ coordinates)
    pub long : length coordinates ≡ 64
    pub derived : raw.address ≡ h.from_raw_public_key coordinates

  check_image_ok :
      (o : Option String) (doc : AttestationDoc)
      → check_image st pl h v args o doc ≡ ok tt
      → (o ≡ none)
        ⊎ ((text : String) × (pcr : List ℕ) × (o ≡ some text)
            × (v.hex_decode text ≡ ok pcr)
            × (doc.pcrs 0 ≡ some pcr))
  unfolding check_image
  check_image_ok none doc e = inl refl
  check_image_ok (some text) doc e =
      let (wanted, decoded, e') =
        (>>=-iff (expect "Failed to decode pcr0" (v.hex_decode text)) _ tt).0 e in
      let (pcr, has, e'') =
        (>>=-iff (expect_some "no entry found for key" (doc.pcrs 0)) _ tt).0 e' in
      let there : doc.pcrs 0 ≡ some pcr = ground arith in
      let same : pcr ≡ wanted = ground (arith, bytes_eq_iff pcr wanted) in
      inr (
        text,
        wanted,
        refl,
        expect-eq-ok "Failed to decode pcr0" (v.hex_decode text) decoded,
        there ∙ ap some same,
      )

  check_address_ok :
      (address : Address) (doc : AttestationDoc)
      → check_address st pl h v args address doc ≡ ok tt
      → (coordinates : List ℕ) × (doc.public_key ≡ some (4 ∷ coordinates))
        × (length coordinates ≡ 64)
        × (address ≡ h.from_raw_public_key coordinates)
  unfolding check_address
  check_address_ok address doc e =
      let (key, has, e') =
        (>>=-iff (expect_some "Public key is not set in attestation" doc.public_key) _ tt).0 e in
      let (found, made, e'') =
        (>>=-iff
            (expect_some "Failed to derive address from public key"
              (ethereum_address_from_sec1_bytes pl h key))
            _ tt).0
          e' in
      let there : doc.public_key ≡ some key = ground arith in
      let made' : ethereum_address_from_sec1_bytes pl h key ≡ some found = ground arith in
      let same : found ≡ address = ground (arith, bytes_eq_iff found address) in
      let (coordinates, tag, long, derived) =
        (ethereum_address_from_sec1_bytes_iff pl h key found).0 made' in
      (coordinates, there ∙ ap some tag, long, sym same ∙ derived)

  pub checked-Genuine :
      (raw : RawAttestation) (doc : AttestationDoc)
      → st.validate_and_parse raw.attestation ≡ ok doc
      → (do check_image st pl h v args args.pcr0 doc; check_address st pl h v args raw.address doc)
        ≡ ok tt
      → Genuine raw
  checked-Genuine raw doc valid e =
      let (_, image, addressed) =
        (>>=-iff (check_image st pl h v args args.pcr0 doc)
            (λ _. check_address st pl h v args raw.address doc) tt).0
          e in
      let (coordinates, key, long, derived) = check_address_ok raw.address doc addressed in
      record {
        doc = doc;
        coordinates = coordinates;
        valid = valid;
        image = check_image_ok args.pcr0 doc image;
        key = key;
        long = long;
        derived = derived;
      }
