-- ===== src/Host/ValidateSigners/Judgement.antt =====
-- host/bin/validate_signers.rs: the verdicts on a contract's signers.
use sp1_tee.Prelude.{
  ℕ, ◌≡◌, ◌≢◌, ◌↔◌, refl, sym, ◌⊎◌, inl, inr, String, List, [], ◌∷◌, ◌++◌, some, arith,
}
use sp1_tee.Result.{Result, ok, err, panic, >>=-iff}
use sp1_tee.Enclave.Platform.{Platform}
use sp1_tee.Host.Platform.{Address, HostPlatform}
use sp1_tee.Host.Storage.{Storage, AttestationDoc}
use sp1_tee.Host.Attestations.{
  AttestationVerificationError, version_mismatch, verify_attestation_for_signer,
}
use sp1_tee.Host.Attestations.Verification.{Stored, verify_other_image}
use sp1_tee.Host.ValidateSigners.{Verdict, validated, skipped, judge, validate_contract}

judge_ok :
    (r : Result AttestationVerificationError (Unit {0})) (v : Verdict)
    → judge r ≡ ok v
    → ((v ≡ validated) × (r ≡ ok tt))
      ⊎ ((v ≡ skipped)
          × ((expected : String) × (found : String) × (r ≡ err (version_mismatch expected found))))
unfolding judge
judge_ok (ok _) v h = inl (ground arith, refl)
judge_ok (err (version_mismatch e f)) v h = inr (ground arith, (e, f, refl))
judge_ok r v h = absurd (ground arith)

module _ (st : Storage) (display : ℕ → String) (pl : Platform) (h : HostPlatform pl)
    (objects : st.Objects) (version : ℕ) (pcr0 : String) where
  abbrev verify : Address → Result AttestationVerificationError (Unit {0})
  verify signer = verify_attestation_for_signer st display pl h objects signer version pcr0

  abbrev validate : List Address → Result ⊥ (List (Address × Verdict))
  validate = validate_contract st display pl h objects version pcr0

  -- A list of signers with a verdict on each: it was verified, or its version is another.
  pub data Judged : List Address → List (Address × Verdict) → Type 0 where
    nil : Judged [] []
    pass :
        {signers : List Address} {verdicts : List (Address × Verdict)} (signer : Address)
        → verify signer ≡ ok tt
        → Judged signers verdicts
        → Judged (signer ∷ signers) ((signer, validated) ∷ verdicts)
    skip :
        {signers : List Address} {verdicts : List (Address × Verdict)} (signer : Address)
        (expected found : String)
        → verify signer ≡ err (version_mismatch expected found)
        → Judged signers verdicts
        → Judged (signer ∷ signers) ((signer, skipped) ∷ verdicts)

  Judged-complete :
      {signers : List Address} {verdicts : List (Address × Verdict)}
      → Judged signers verdicts
      → validate signers ≡ ok verdicts
  unfolding validate_contract judge
  Judged-complete nil = refl
  Judged-complete (pass signer e j) = rw (e, Judged-complete j)
  Judged-complete (skip signer expected found e j) = rw (e, Judged-complete j)

  validate_cons :
      (signer : Address) (signers : List Address) (verdicts : List (Address × Verdict))
      → validate (signer ∷ signers) ≡ ok verdicts
      → (v : Verdict) × (rest : List (Address × Verdict)) × (judge (verify signer) ≡ ok v)
        × (validate signers ≡ ok rest)
        × (verdicts ≡ (signer, v) ∷ rest)
  unfolding validate_contract
  validate_cons signer signers verdicts e =
      let (v, judged, e') = (>>=-iff (judge (verify signer)) _ verdicts).0 e in
      let (rest, done, made) =
        (>>=-iff (validate signers) (λ rest. ok ((signer, v) ∷ rest)) verdicts).0 e' in
      let same : (signer, v) ∷ rest ≡ verdicts = cc in (v, rest, judged, done, sym same)

  Judged-sound :
      (signers : List Address) (verdicts : List (Address × Verdict))
      → validate signers ≡ ok verdicts
      → Judged signers verdicts
  unfolding validate_contract
  Judged-sound [] verdicts e = let same : [] ≡ verdicts = cc in rw (← same) nil
  Judged-sound (signer ∷ signers) verdicts e =
      let (v, rest, judged, done, made) = validate_cons signer signers verdicts e in
      let j = Judged-sound signers rest done in
      elim (judge_ok (verify signer) v judged) [
        | inl (passed, r) ↦ rw (made, passed) (pass signer r j)
        | inr (left, (expected, found, r)) ↦ rw (made, left) (skip signer expected found r j)
      ]

  -- The validation of a contract's signers comes to its end with these verdicts exactly if there is
  -- one verdict on each signer, in order, and each signer was either verified, with the verdict
  -- `validated`, or failed with a version mismatch, with the verdict `skipped`.
  pub validate_contract_iff :
      (signers : List Address) (verdicts : List (Address × Verdict))
      → (validate_contract st display pl h objects version pcr0 signers ≡ ok verdicts)
        ↔ Judged signers verdicts
  validate_contract_iff signers verdicts = (Judged-sound signers verdicts, Judged-complete)

  -- If the document stored for one of the signers has a PCR0 whose text is not the one asked for,
  -- the validation of the contract's signers does not come to its end, whatever version the
  -- document is for.
  pub validate_contract_other_image :
      (before after : List Address) (signer : Address) (doc : AttestationDoc) (pcr : List ℕ)
      (verdicts : List (Address × Verdict))
      → Stored st display pl h objects signer doc
      → doc.pcrs 0 ≡ some pcr
      → st.hex_encode pcr ≢ st.without_0x pcr0
      → validate_contract st display pl h objects version pcr0 (before ++ (signer ∷ after))
        ≢ ok verdicts
  unfolding judge
  validate_contract_other_image [] after signer doc pcr verdicts s there other e =
      let (v, _, judged, _, _) = validate_cons signer after verdicts e in
      let stops =
        verify_other_image st display pl h objects signer version pcr0 doc pcr s there other in
      let none_left : judge (verify signer) ≡ panic "Failed to validate signer" = rw stops in cc
  validate_contract_other_image (x ∷ before) after signer doc pcr verdicts s there other e =
      let (_, rest, _, done, _) = validate_cons x (before ++ (signer ∷ after)) verdicts e in
      validate_contract_other_image before after signer doc pcr rest s there other done
