-- ===== src/Host/Setup/Completion.antt =====
-- host/bin/setup.rs: what a setup that comes to its end has done.
use mathlib.Core.List.{Memᴰ}
use mathlib.Core.List.Memᴰ
use sp1_tee.Prelude.{◌≡◌, refl, ◌⊎◌, inl, inr, Bool, true, false, Bool-cases, List, [], ◌∷◌}
use sp1_tee.Result.{Result, ok, err, panic, ErrorText, expect, expect-eq-ok, ◌>>◌}
use sp1_tee.Io
use sp1_tee.Io.{Io, >>=-eq-ok, >>=-preserves, lift, unwrapping}
use sp1_tee.Enclave.Platform.{Platform}
use sp1_tee.Host.Platform.{Address, HostPlatform}
use sp1_tee.Host.Storage.{Storage, AttestationDoc}
use sp1_tee.Host.Attestations.{RawAttestation, verify_attestation}
use sp1_tee.Host.Setup.{
  Verifier, SetupArgs, check_image, check_address, enroll, register_unless, register, add_verified,
  add_signers,
}
use sp1_tee.Host.Setup.Registration.{VerifierLaws}

-- What sending a transaction and confirming one leave of each address, the whole loop leaves.
module _ (st : Storage) (pl : Platform) (h : HostPlatform pl) (v : Verifier) (args : SetupArgs)
    (P : v.Chain → Address → Type 0)
    (sent : (a x : Address) (c : v.Chain) → P c x → P (v.add_signer a c).1 x)
    (watched : (p : v.Pending) (x : Address) (c : v.Chain) → P c x → P (v.watch p c).1 x) where
  enroll-preserves :
      (address x : Address) (c : v.Chain) → P c x → P (enroll st pl h v args address c).1 x
  unfolding enroll
  enroll-preserves address x c s = elim (Bool-cases args.register_signers) [
    | inl asked ↦ rw asked (
        >>=-preserves {E = ⊥} (λ c'. P c' x)
          (unwrapping "Failed send tx to add signer" (v.add_signer address)) _ c
          (sent address x c s) (λ p c' s'. watched p x c' s'))
    | inr off ↦ rw off s
  ]

  register-preserves :
      (address x : Address) (c : v.Chain) → P c x → P (register st pl h v args address c).1 x
  unfolding register register_unless
  register-preserves address x c s = go (v.is_signer address c)
    where
      go :
          (r : Result ErrorText Bool)
          → P
              (Io.continue
                (expect {F = ⊥} "Failed to check if signer is registered" r)
                (register_unless st pl h v args address)
                c).1
              x
      go (ok true) = s
      go (ok false) = enroll-preserves address x c s
      go (err e) = s
      go (panic e) = s

  add_verified-preserves :
      (address x : Address) (r : Result ErrorText AttestationDoc) (c : v.Chain)
      → P c x
      → P (add_verified st pl h v args address r c).1 x
  unfolding add_verified
  add_verified-preserves address x (ok doc) c s =
      >>=-preserves (λ c'. P c' x)
        (lift
          (do check_image st pl h v args args.pcr0 doc; check_address st pl h v args address doc))
        (λ _. register st pl h v args address) c s (λ _ c' s'. register-preserves address x c' s')
  add_verified-preserves address x (err e) c s = s
  add_verified-preserves address x (panic e) c s = s

  pub add_signers-preserves :
      (raws : List RawAttestation) (x : Address) (c : v.Chain)
      → P c x
      → P (add_signers st pl h v args raws c).1 x
  unfolding add_signers
  add_signers-preserves [] x c s = s
  add_signers-preserves (raw ∷ raws) x c s =
      >>=-preserves (λ c'. P c' x)
        (add_verified st pl h v args raw.address (verify_attestation st raw.attestation)) _ c
        (add_verified-preserves raw.address x (verify_attestation st raw.attestation) c s)
        (λ _ c' s'. add_signers-preserves raws x c' s')

module _ (st : Storage) (pl : Platform) (h : HostPlatform pl) (v : Verifier) (args : SetupArgs)
    (laws : VerifierLaws v) where
  open laws use {Signs, Reverted}

  pub add_signers-keep :
      (raws : List RawAttestation) (x : Address) (c : v.Chain)
      → Signs c x
      → Signs (add_signers st pl h v args raws c).1 x
  add_signers-keep raws x c s =
      add_signers-preserves st pl h v args Signs laws.sent_keeps laws.watched_keeps raws x c s

  -- A signer, or an address whose `addSigner` has been reverted.
  abbrev pub Settled : v.Chain → Address → Type 0
  Settled c x = Signs c x ⊎ Reverted c x

  add_signers-Settled :
      (raws : List RawAttestation) (x : Address) (c : v.Chain)
      → Settled c x
      → Settled (add_signers st pl h v args raws c).1 x
  add_signers-Settled raws x c (inl s) = inl (add_signers-keep raws x c s)
  add_signers-Settled raws x c (inr s) = inr (
      add_signers-preserves st pl h v args Reverted laws.sent_reverted laws.watched_reverted raws x
        c s)

  module _ (asked : args.register_signers ≡ true) where
    enroll_ok :
        (address : Address) (c : v.Chain)
        → (enroll st pl h v args address c).0 ≡ ok tt
        → Settled (enroll st pl h v args address c).1 address
    unfolding enroll
    enroll_ok address c e =
        let (p, sent, step) =
          >>=-eq-ok (unwrapping "Failed send tx to add signer" (v.add_signer address))
            (λ p. unwrapping "Failed to get confirmation of adding signer" (v.watch p)) c
            (rw asked at e) in
        let confirmed =
          expect-eq-ok "Failed to get confirmation of adding signer"
            (v.watch p (v.add_signer address c).1).0 (rw step at rw asked at e) in
        rw (asked, step)
          (laws.watched address c p
            (expect-eq-ok "Failed send tx to add signer" (v.add_signer address c).0 sent) confirmed)

    register_ok :
        (address : Address) (c : v.Chain)
        → (register st pl h v args address c).0 ≡ ok tt
        → Settled (register st pl h v args address c).1 address
    unfolding register register_unless
    register_ok address c = go (v.is_signer address c) refl
      where
        after : Result ErrorText Bool → Result ⊥ (Unit {0}) × v.Chain
        after r =
            Io.continue (expect {F = ⊥} "Failed to check if signer is registered" r)
              (register_unless st pl h v args address) c

        go :
            (r : Result ErrorText Bool)
            → v.is_signer address c ≡ r
            → (after r).0 ≡ ok tt
            → Settled (after r).1 address
        go (ok true) e _ = inl (laws.known address c e)
        go (ok false) e done = enroll_ok address c done
        go (err x) e done = absurd (cc)
        go (panic x) e done = absurd (cc)

    add_verified_ok :
        (first raw : RawAttestation) (doc : AttestationDoc) (c : v.Chain)
        → raw ≡ first
        → st.validate_and_parse raw.attestation ≡ ok doc
        → (add_verified st pl h v args first.address (st.validate_and_parse first.attestation) c).0
          ≡ ok tt
        → Settled
            (add_verified st pl h v args first.address
              (st.validate_and_parse first.attestation)
              c).1
            raw.address
    unfolding add_verified
    add_verified_ok first raw doc c same valid done =
        let valid' : st.validate_and_parse first.attestation ≡ ok doc = rw same at valid in
        let (_, _, step) =
          >>=-eq-ok
            (lift (do
              check_image st pl h v args args.pcr0 doc
              check_address st pl h v args first.address doc))
            (λ _. register st pl h v args first.address) c (rw valid' at done) in
        rw (same, valid', step) (register_ok first.address c (rw step at rw valid' at done))

    -- For a contract whose signers stay signers and where a confirmed `addSigner` has made one or
    -- was reverted, and with registration asked for: once `add_signers` has come to its end without
    -- a panic, the address of every listed attestation whose document validates is a signer, or an
    -- `addSigner` of it was reverted.
    pub add_signers_ok :
        (raws : List RawAttestation) (raw : RawAttestation) (doc : AttestationDoc) (c : v.Chain)
        → Memᴰ raw raws
        → st.validate_and_parse raw.attestation ≡ ok doc
        → (add_signers st pl h v args raws c).0 ≡ ok tt
        → Settled (add_signers st pl h v args raws c).1 raw.address
    unfolding add_signers add_verified verify_attestation
    add_signers_ok [] raw doc c there valid done = elim there [ ]
    add_signers_ok (first ∷ raws) raw doc c there valid done =
        let one =
          add_verified st pl h v args first.address (st.validate_and_parse first.attestation) in
        let (_, first_done, step) = >>=-eq-ok one (λ _. add_signers st pl h v args raws) c done in
        elim (Memᴰ.cases_cons there) [
          | inr further ↦
              rw step (add_signers_ok raws raw doc (one c).1 further valid (rw step at done))
          | inl same ↦ rw step (
              add_signers-Settled raws raw.address (one c).1
                (add_verified_ok first raw doc c same valid first_done))
        ]
