-- ===== src/Enclave/Server/Attestation.antt =====
-- `attest_signing_key`: what the document binds, and the descriptor of the security module.
use sp1_tee.Prelude.{ℕ, ◌≡◌, refl, ◌∙◌, List, ◌∷◌, Option, none, some, arith, ◌↔◌}
use sp1_tee.Common.Bytes.{to_le_bytes}
use sp1_tee.Common.Response.{signing_key_attestation}
use sp1_tee.Enclave.Platform.{Platform, NsmRequest, NsmResponse, attestation, unexpected}
use sp1_tee.Enclave.Server.{
  Server, attest_signing_key, attest_with, document_of, attestation_request, get_public_key,
}

-- The driver seen as its open descriptors.
pub record DriverLaws (pl : Platform) : Type 0 where
  pub opened : pl.Driver → List ℕ
  pub init_fails : (d : pl.Driver) → (pl.nsm_init d).0 ≡ none → opened (pl.nsm_init d).1 ≡ opened d
  pub init_opens :
      (d : pl.Driver) (fd : ℕ)
      → (pl.nsm_init d).0 ≡ some fd
      → opened (pl.nsm_init d).1 ≡ fd ∷ opened d
  pub process_keeps :
      (fd : ℕ) (r : NsmRequest) (d : pl.Driver)
      → opened (pl.nsm_process_request fd r d).1 ≡ opened d
  pub exit_closes :
      (fd : ℕ) (fds : List ℕ) (d : pl.Driver)
      → opened d ≡ fd ∷ fds
      → opened (pl.nsm_exit fd d) ≡ fds

module _ (pl : Platform) (server : Server pl) where
  open pl use {Driver, nsm_init, nsm_process_request}

  opened-attest_with :
      (laws : DriverLaws pl) (o : Option ℕ) (d d' : Driver)
      → (o ≡ none → laws.opened d' ≡ laws.opened d)
      → ((fd : ℕ) → o ≡ some fd → laws.opened d' ≡ fd ∷ laws.opened d)
      → laws.opened (attest_with pl server o d').1 ≡ laws.opened d
  unfolding attest_with
  opened-attest_with laws none d d' fails opens = fails refl
  opened-attest_with laws (some fd) d d' fails opens =
      laws.exit_closes fd (laws.opened d) _ (laws.process_keeps fd _ d' ∙ opens fd refl)

  -- Where opening the security module adds at most its new descriptor and closing one removes it,
  -- `attest_signing_key` leaves open exactly the descriptors that were open before, on each of its
  -- paths.
  pub opened-attest_signing_key :
      (laws : DriverLaws pl) (d : Driver)
      → laws.opened (attest_signing_key pl server d).1 ≡ laws.opened d
  unfolding attest_signing_key
  opened-attest_signing_key laws d =
      opened-attest_with laws (nsm_init d).0 d (nsm_init d).1 (laws.init_fails d)
        (laws.init_opens d)

  document_of_iff :
      (r : NsmResponse) (document : List ℕ)
      → (document_of pl r ≡ signing_key_attestation document) ↔ (r ≡ attestation document)
  unfolding document_of
  document_of_iff (attestation x) document = (λ h. ground arith, λ h. ground arith)
  document_of_iff unexpected document = (λ h. cc, λ h. cc)

  -- What the security module is asked.
  abbrev pub key_request : NsmRequest
  key_request = record {
    user_data = some (to_le_bytes pl.tee_version);
    nonce = none;
    public_key = some (pl.point_bytes (pl.verifying_point server.signing_key));
  }

  attest_with_document :
      (o : Option ℕ) (d : Driver) (document : List ℕ)
      → ((attest_with pl server o d).0 ≡ signing_key_attestation document) ↔ (
          (fd : ℕ) × (o ≡ some fd)
          × ((nsm_process_request fd key_request d).0 ≡ attestation document))
  unfolding attest_with attestation_request get_public_key
  attest_with_document none d document = (λ h. cc, λ h. cc (h.1))
  attest_with_document (some fd) d document = (
    λ h. (fd, refl, (document_of_iff _ document).0 h),
    λ h.
        let (fd', e, asked) = h in
        let same : fd ≡ fd' = cc in (document_of_iff _ document).1 (rw same asked),
  )

  -- `attest_signing_key` answers with a document exactly if the security module was opened and gave
  -- this document when asked to bind the four bytes of the version and the point of the key that
  -- the server signs with, with no nonce.
  pub attest_signing_key_document :
      (d : Driver) (document : List ℕ)
      → ((attest_signing_key pl server d).0 ≡ signing_key_attestation document) ↔ (
          (fd : ℕ) × ((nsm_init d).0 ≡ some fd)
          × ((nsm_process_request fd key_request (nsm_init d).1).0 ≡ attestation document))
  unfolding attest_signing_key
  attest_signing_key_document d document =
      attest_with_document (nsm_init d).0 (nsm_init d).1 document
