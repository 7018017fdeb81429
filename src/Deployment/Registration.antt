-- ===== src/Deployment/Registration.antt =====
-- host/bin/setup.rs against contracts/src/SP1TeeVerifier.sol: the contract as what the setup sees
-- of its chain, where the owner sends the transactions and no one else does. A transaction is tried
-- when it is sent, and takes place when it is confirmed, which does not tell whether it reverts.
use sp1_tee.Prelude.{
  ◌≡◌, refl, ◌∙◌, ◌⊎◌, inl, inr, ℕ, String, Bool-cases, true, arith, bytes_eq, bytes_eq_iff,
  if◌then◌else◌, List,
}
use sp1_tee.Result.{Result, ok, err, panic, ErrorText, >>=-iff}
use sp1_tee.Host.Platform.{Address}
use sp1_tee.Host.Setup.{Verifier}
use sp1_tee.Host.Setup.Registration.{VerifierLaws}
use mathlib.Core.List.{Memᴰ}
use sp1_tee.Enclave.Platform.{Platform}
use sp1_tee.Host.Platform.{HostPlatform}
use sp1_tee.Host.Storage.{Storage, AttestationDoc}
use sp1_tee.Host.Attestations.{RawAttestation}
use sp1_tee.Host.Setup.{SetupArgs, add_signers}
use sp1_tee.Host.Setup.Completion.{add_signers_ok}
use sp1_tee.Contracts.SignersMap
use sp1_tee.Contracts.SignersMap.Refinement.{add_signer-members}
use sp1_tee.Contracts.SimpleOwnable.{zero_address, only_owner}
use sp1_tee.Contracts.Sp1TeeVerifier.{State, is_signer, add_signer}

-- The chain after a transaction was mined, which a revert leaves as it was.
abbrev mined : State → Result ErrorText State → State
mined s (ok s') = s'
mined s (err e) = s
mined s (panic p) = s

abbrev tried : Address → Result ErrorText State → Result ErrorText Address
tried a (ok s) = ok a
tried a (err e) = err e
tried a (panic p) = panic p

module _ (owner : Address) (hex_decode : String → Result ErrorText (List ℕ)) where
  abbrev pub verifier : Verifier
  verifier = record {
    Chain = State;
    Pending = Address;
    is_signer = λ a s. ok (is_signer s a);
    add_signer = λ a s. (tried a (add_signer owner s a), s);
    watch = λ a s. (ok tt, mined s (add_signer owner s a));
    hex_decode = hex_decode;
  }

  add_signer_ok :
      (a : Address) (s s' : State)
      → add_signer owner s a ≡ ok s'
      → (x : Address) → is_signer s' x ≡ (if bytes_eq x a then true else is_signer s x)
  unfolding add_signer is_signer
  add_signer_ok a s s' e x =
      let (_, _, e') = (>>=-iff (only_owner s.owner owner) _ s').0 e in
      elim (Bool-cases (bytes_eq a zero_address)) [
        | inl zero ↦ absurd (cc (rw zero at e'))
        | inr other ↦
            let (m, done, made) =
              (>>=-iff (SignersMap.add_signer s.signers_map a) _ s').0 (rw other at e') in
            let same : m ≡ s'.signers_map = ground arith in
            rw (← same) (add_signer-members s.signers_map m a done x)
      ]

  tried_ok :
      (a p : Address) (r : Result ErrorText State)
      → tried a r ≡ ok p
      → (p ≡ a) × (s' : State) × (r ≡ ok s')
  tried_ok a p (ok s) e = (ground arith, s, refl)
  tried_ok a p (err x) e = absurd (cc)
  tried_ok a p (panic x) e = absurd (cc)

  mined_keeps :
      (a x : Address) (s : State) (r : Result ErrorText State)
      → add_signer owner s a ≡ r
      → is_signer s x ≡ true
      → is_signer (mined s r) x ≡ true
  mined_keeps a x s (ok s') e known = add_signer_ok a s s' e x ∙ ground arith
  mined_keeps a x s (err _) e known = known
  mined_keeps a x s (panic _) e known = known

  mined_only :
      (a x : Address) (s : State) (r : Result ErrorText State)
      → add_signer owner s a ≡ r
      → is_signer (mined s r) x ≡ true
      → (is_signer s x ≡ true) ⊎ (x ≡ a)
  mined_only a x s (ok s') e known = elim (Bool-cases (bytes_eq x a)) [
    | inl same ↦ inr ((bytes_eq_iff x a).0 same)
    | inr other ↦ inl (ground (arith, add_signer_ok a s s' e x))
  ]
  mined_only a x s (err _) e known = inl known
  mined_only a x s (panic _) e known = inl known

  -- What was sent did not revert when it was tried, and nothing has changed since.
  watched_lem :
      (a : Address) (c : State) (p : Address)
      → tried a (add_signer owner c a) ≡ ok p
      → is_signer (mined c (add_signer owner c p)) a ≡ true
  watched_lem a c p sent =
      let (same, s', e) = tried_ok a p (add_signer owner c a) sent in
      let self = (bytes_eq_iff a a).1 refl in rw (same, e) (add_signer_ok a c s' e a ∙ rw self refl)

  watched_only_lem :
      (a x : Address) (c c' : State) (p : Address)
      → tried a (add_signer owner c a) ≡ ok p
      → is_signer (mined c' (add_signer owner c' p)) x ≡ true
      → (is_signer c' x ≡ true) ⊎ (x ≡ a)
  watched_only_lem a x c c' p sent known =
      let (same, _, _) = tried_ok a p (add_signer owner c a) sent in
      elim (mined_only p x c' (add_signer owner c' p) refl known) [
        | inl before ↦ inl before
        | inr new ↦ inr (new ∙ same)
      ]

  known_lem : (a : Address) (c : State) → verifier.is_signer a c ≡ ok true → is_signer c a ≡ true
  known_lem a c e = ground arith

  -- The contract keeps what the setup asks of it.
  pub laws : VerifierLaws verifier
  laws = record {
    Signs = λ c x. is_signer c x ≡ true;
    known = known_lem;
    sent_keeps = λ a x c s. s;
    sent_only = λ a x c s. inl s;
    Reverted = λ c x. ⊥;
    watched = λ a c p sent done. inl (watched_lem a c p sent);
    sent_reverted = λ a x c never. never;
    watched_reverted = λ p x c never. never;
    watched_keeps = λ p x c s. mined_keeps p x c (add_signer owner c p) refl s;
    watched_only = watched_only_lem;
  }

  module _ (st : Storage) (pl : Platform) (h : HostPlatform pl) (args : SetupArgs) where
    -- On a chain whose contract is `SP1TeeVerifier` and where just the owner sends transactions:
    -- once `add_signers` of the setup, with registration asked for, has come to its end without a
    -- panic, `isSigner` holds for the address of every listed attestation whose document validates.
    pub is_signer-add_signers :
        (raws : List RawAttestation) (raw : RawAttestation) (doc : AttestationDoc) (s : State)
        → args.register_signers ≡ true
        → Memᴰ raw raws
        → st.validate_and_parse raw.attestation ≡ ok doc
        → (add_signers st pl h verifier args raws s).0 ≡ ok tt
        → is_signer (add_signers st pl h verifier args raws s).1 raw.address ≡ true
    unfolding laws
    is_signer-add_signers raws raw doc s asked there valid done =
        elim (add_signers_ok st pl h verifier args laws asked raws raw doc s there valid done) [
          | inl known ↦ known
          | inr never ↦ absurd never
        ]
