-- ===== src/Host/Setup/Registration.antt =====
-- host/bin/setup.rs: who is a signer of the contract after the setup.
use mathlib.Core.List.{Memᴰ}
use mathlib.Core.List.Memᴰ.{head, tail}
use sp1_tee.Prelude.{◌≡◌, ◌⊎◌, inl, inr, refl, Bool, true, false, Bool-cases, List, [], ◌∷◌}
use sp1_tee.Result.{Result, ok, err, panic, ErrorText, expect, ◌>>◌}
use sp1_tee.Io
use sp1_tee.Io.{Io, >>=-eq-ok, lift, unwrapping}
use sp1_tee.Enclave.Platform.{Platform}
use sp1_tee.Host.Platform.{Address, HostPlatform}
use sp1_tee.Host.Storage.{Storage, AttestationDoc}
use sp1_tee.Host.Attestations.{RawAttestation, verify_attestation}
use sp1_tee.Host.Setup.Genuine.{Genuine, checked-Genuine}
use sp1_tee.Host.Setup.{
  Verifier, SetupArgs, check_image, check_address, enroll, register_unless, register, add_verified,
  add_signers,
}

-- The contract as a set of signers, which only `addSigner` changes, by the signer that it adds. A
-- transaction that is confirmed has been mined, and has added its signer or was reverted: `watch`
-- does not tell which.
pub record VerifierLaws (v : Verifier) : Type 1 where
  pub Signs : v.Chain → Address → Type 0
  -- an `addSigner` of this address has been reverted by now
  pub Reverted : v.Chain → Address → Type 0
  pub known : (a : Address) (c : v.Chain) → v.is_signer a c ≡ ok true → Signs c a
  pub sent_keeps : (a x : Address) (c : v.Chain) → Signs c x → Signs (v.add_signer a c).1 x
  pub sent_only : (a x : Address) (c : v.Chain) → Signs (v.add_signer a c).1 x → Signs c x ⊎ (x ≡ a)
  pub watched :
      (a : Address) (c : v.Chain) (p : v.Pending)
      → (v.add_signer a c).0 ≡ ok p
      → (v.watch p (v.add_signer a c).1).0 ≡ ok tt
      → Signs (v.watch p (v.add_signer a c).1).1 a ⊎ Reverted (v.watch p (v.add_signer a c).1).1 a
  pub sent_reverted : (a x : Address) (c : v.Chain) → Reverted c x → Reverted (v.add_signer a c).1 x
  pub watched_reverted :
      (p : v.Pending) (x : Address) (c : v.Chain) → Reverted c x → Reverted (v.watch p c).1 x
  pub watched_keeps :
      (p : v.Pending) (x : Address) (c : v.Chain) → Signs c x → Signs (v.watch p c).1 x
  pub watched_only :
      (a x : Address) (c c' : v.Chain) (p : v.Pending)
      → (v.add_signer a c).0 ≡ ok p
      → Signs (v.watch p c').1 x
      → Signs c' x ⊎ (x ≡ a)

module _ (st : Storage) (pl : Platform) (h : HostPlatform pl) (v : Verifier) (args : SetupArgs)
    (laws : VerifierLaws v) where
  open laws use {Signs}

  enrolled_only :
      (address x : Address) (c : v.Chain)
      → Signs (enroll st pl h v args address c).1 x
      → Signs c x ⊎ (x ≡ address)
  unfolding enroll
  enrolled_only address x c s = elim (Bool-cases args.register_signers) [
    | inl asked ↦ sent_then (v.add_signer address c).0 refl (rw asked at s)
    | inr off ↦ inl (rw off at s)
  ]
    where
      sent_then :
          (r : Result ErrorText v.Pending)
          → (v.add_signer address c).0 ≡ r
          → Signs
              (Io.continue
                (expect {F = ⊥} "Failed send tx to add signer" r)
                (λ p. unwrapping "Failed to get confirmation of adding signer" (v.watch p))
                (v.add_signer address c).1).1
              x
          → Signs c x ⊎ (x ≡ address)
      sent_then (ok p) e s' = elim (laws.watched_only address x c _ p e s') [
        | inl before ↦ laws.sent_only address x c before
        | inr same ↦ inr same
      ]
      sent_then (err e) _ s' = laws.sent_only address x c s'
      sent_then (panic e) _ s' = laws.sent_only address x c s'

  registered_only :
      (address x : Address) (c : v.Chain)
      → Signs (register st pl h v args address c).1 x
      → Signs c x ⊎ (x ≡ address)
  unfolding register register_unless
  registered_only address x c = go (v.is_signer address c)
    where
      go :
          (r : Result ErrorText Bool)
          → Signs
              (Io.continue
                (expect {F = ⊥} "Failed to check if signer is registered" r)
                (register_unless st pl h v args address)
                c).1
              x
          → Signs c x ⊎ (x ≡ address)
      go (ok true) s = inl s
      go (ok false) s = enrolled_only address x c s
      go (err e) s = inl s
      go (panic e) s = inl s

  added_only :
      (raw : RawAttestation) (x : Address) (c : v.Chain)
      → Signs
          (add_verified st pl h v args raw.address (verify_attestation st raw.attestation) c).1
          x
      → Signs c x ⊎ (Genuine st pl h v args raw × (x ≡ raw.address))
  unfolding verify_attestation add_verified
  added_only raw x c = go (st.validate_and_parse raw.attestation) refl
    where
      checked :
          (doc : AttestationDoc) (r : Result ⊥ (Unit {0}))
          → st.validate_and_parse raw.attestation ≡ ok doc
          → (do
            check_image st pl h v args args.pcr0 doc
            check_address st pl h v args raw.address doc)
            ≡ r
          → Signs (Io.continue r (λ _. register st pl h v args raw.address) c).1 x
          → Signs c x ⊎ (Genuine st pl h v args raw × (x ≡ raw.address))
      checked doc (ok _) valid e s = elim (registered_only raw.address x c s) [
        | inl before ↦ inl before
        | inr same ↦ inr (checked-Genuine st pl h v args raw doc valid e, same)
      ]
      checked doc (err e') valid e s = inl s
      checked doc (panic e') valid e s = inl s

      go :
          (r : Result ErrorText AttestationDoc)
          → st.validate_and_parse raw.attestation ≡ r
          → Signs (add_verified st pl h v args raw.address r c).1 x
          → Signs c x ⊎ (Genuine st pl h v args raw × (x ≡ raw.address))
      go (ok doc) valid s = checked doc _ valid refl s
      go (err e) valid s = inl s
      go (panic e) valid s = inl s

  -- The loop goes on after a round that has succeeded, and else is at its end.
  round_cases :
      {B : Type 0} (r : Result ⊥ (Unit {0})) (raws : List RawAttestation) (x : Address)
      (c : v.Chain)
      → (Signs c x → B)
      → (Signs (add_signers st pl h v args raws c).1 x → B)
      → Signs (Io.continue r (λ _. add_signers st pl h v args raws) c).1 x
      → B
  round_cases (ok _) raws x c ends goes s = goes s
  round_cases (err _) raws x c ends goes s = ends s
  round_cases (panic _) raws x c ends goes s = ends s

  abbrev Listed : List RawAttestation → Address → Type 0
  Listed raws x =
      (raw : RawAttestation) × Memᴰ raw raws × Genuine st pl h v args raw × (x ≡ raw.address)

  Listed-later :
      (raw : RawAttestation) {raws : List RawAttestation} {x : Address}
      → Listed raws x
      → Listed (raw ∷ raws) x
  Listed-later raw (found, there, genuine, same) = (found, tail there, genuine, same)

  -- For a contract whose signers only `addSigner` changes, by the signer that it adds: after
  -- `add_signers`, also one that a panic has ended, every signer of the contract was one before, or
  -- is the address of a listed attestation whose document validates, has the PCR0 asked for if one
  -- is, and has a public key with that address.
  pub add_signers-Genuine :
      (raws : List RawAttestation) (x : Address) (c : v.Chain)
      → Signs (add_signers st pl h v args raws c).1 x
      → Signs c x
        ⊎ ((raw : RawAttestation) × Memᴰ raw raws × Genuine st pl h v args raw × (x ≡ raw.address))
  unfolding add_signers
  add_signers-Genuine [] x c s = inl s
  add_signers-Genuine (raw ∷ raws) x c s =
      let round =
        add_verified st pl h v args raw.address (verify_attestation st raw.attestation) c in
      let first : Signs round.1 x → Signs c x ⊎ Listed (raw ∷ raws) x = λ before.
        elim (added_only raw x c before) [
          | inl earlier ↦ inl earlier
          | inr (genuine, same) ↦ inr (raw, head refl, genuine, same)
        ] in
      round_cases round.0 raws x round.1 first
        (λ s'. elim (add_signers-Genuine raws x round.1 s') [
          | inl before ↦ first before
          | inr listed ↦ inr (Listed-later raw listed)
        ])
        s
