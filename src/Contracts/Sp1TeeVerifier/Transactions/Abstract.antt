-- ===== src/Contracts/Sp1TeeVerifier/Transactions/Abstract.antt =====
-- contracts/src/SP1TeeVerifier.sol as an owner and a set of signers, without array and index.
use mathlib.Core.Path.{fun_ext}
use sp1_tee.Prelude.{
  ◌≡◌, refl, ap, ◌∙◌, inl, inr, Bool, Bool-cases, true, false, List, [], ◌∷◌, bytes_eq,
  bytes_eq_iff, if◌then◌else◌,
}
use sp1_tee.Result.{ok}
use sp1_tee.Host.Platform.{Address}
use sp1_tee.Contracts.SignersMap
use sp1_tee.Contracts.SignersMap.Invariant.{IsValid}
use sp1_tee.Contracts.SignersMap.Refinement.{
  add_signer_known, remove_signer_unknown, add_signer-Added, remove_signer-Removed, is_signer_cases,
}
use sp1_tee.Contracts.SimpleOwnable.{
  zero_address, construct_owner, only_owner, transfer_ownership, renounce_ownership,
}
use sp1_tee.Contracts.Sp1TeeVerifier.{State, construct, add_signer, remove_signer, is_signer}
use sp1_tee.Contracts.Sp1TeeVerifier.Transactions.{
  Call, add_signer_call, remove_signer_call, transfer_ownership_call, renounce_ownership_call, call,
  outcome, run, outcome-call_other, outcome-IsValid, call-IsValid, construct-IsValid,
}

-- What the contract is for its users.
pub record Registry : Type 0 where
  pub owner : Address
  pub members : Address → Bool

abbrev pub registry_of : State → Registry
registry_of s = record { owner = s.owner; members = λ a. is_signer s a }

abbrev pub effect : Call → Registry → Registry
effect (add_signer_call a) r =
    if bytes_eq a zero_address
    then r
    else record { owner = r.owner; members = λ x. if bytes_eq x a then true else r.members x }
effect (remove_signer_call a) r = record {
  owner = r.owner;
  members = λ x. if bytes_eq x a then false else r.members x;
}
effect (transfer_ownership_call a) r =
    if bytes_eq a zero_address then r else record { owner = a; members = r.members }
effect renounce_ownership_call r = record { owner = zero_address; members = r.members }

-- The owner's transactions have their effect, and others have none.
abbrev pub steps : List (Address × Call) → Registry → Registry
steps [] r = r
steps ((msg_sender, c) ∷ txs) r = steps txs (if bytes_eq msg_sender r.owner then effect c r else r)

same_members :
    (o : Address) (f g : Address → Bool)
    → ((a : Address) → f a ≡ g a)
    → ◌≡◌ {A = Registry} (record { owner = o; members = f }) (record { owner = o; members = g })
same_members o f g e = ap (λ (m : Address → Bool). record { owner = o; members = m }) (fun_ext e)

known_member :
    (f : Address → Bool) (b : Bool) (a x : Address)
    → f a ≡ b
    → f x ≡ (if bytes_eq x a then b else f x)
known_member f b a x known = elim (Bool-cases (bytes_eq x a)) [
  | inl same ↦ rw same (ap f ((bytes_eq_iff x a).0 same) ∙ known)
  | inr other ↦ rw other refl
]

module _ (sender : Address) (s : State) (v : IsValid s.signers_map)
    (allowed : bytes_eq sender s.owner ≡ true) where
  add_signer_effect :
      (a : Address)
      → registry_of (outcome s (call sender (add_signer_call a) s))
        ≡ effect (add_signer_call a) (registry_of s)
  unfolding call outcome add_signer only_owner is_signer
  add_signer_effect a = elim (Bool-cases (bytes_eq a zero_address)) [
    | inl zero ↦ rw (allowed, zero) refl
    | inr other ↦ elim (is_signer_cases s.signers_map a) [
      | inl known ↦
          rw (allowed, other, add_signer_known s.signers_map a known)
            (same_members s.owner _ _
              (λ x. known_member (SignersMap.is_signer s.signers_map) true a x known))
      | inr new ↦
          let (m, e, added) = add_signer-Added s.signers_map a v new in
          rw (allowed, other, e) (same_members s.owner _ _ added.members)
    ]
  ]

  remove_signer_effect :
      (a : Address)
      → registry_of (outcome s (call sender (remove_signer_call a) s))
        ≡ effect (remove_signer_call a) (registry_of s)
  unfolding call outcome remove_signer only_owner is_signer
  remove_signer_effect a = elim (is_signer_cases s.signers_map a) [
    | inl known ↦
        let (m, e, removed) = remove_signer-Removed s.signers_map a v known in
        rw (allowed, e) (same_members s.owner _ _ removed.members)
    | inr unknown ↦
        rw (allowed, remove_signer_unknown s.signers_map a unknown)
          (same_members s.owner _ _
            (λ x. known_member (SignersMap.is_signer s.signers_map) false a x unknown))
  ]

  transfer_ownership_effect :
      (a : Address)
      → registry_of (outcome s (call sender (transfer_ownership_call a) s))
        ≡ effect (transfer_ownership_call a) (registry_of s)
  unfolding call outcome transfer_ownership only_owner is_signer
  transfer_ownership_effect a = elim (Bool-cases (bytes_eq a zero_address)) [
    | inl zero ↦ rw (allowed, zero) refl
    | inr other ↦ rw (allowed, other) refl
  ]

  renounce_ownership_effect :
      registry_of (outcome s (call sender renounce_ownership_call s))
      ≡ effect renounce_ownership_call (registry_of s)
  unfolding call outcome renounce_ownership only_owner is_signer
  renounce_ownership_effect = rw allowed refl

  call-effect : (c : Call) → registry_of (outcome s (call sender c s)) ≡ effect c (registry_of s)
  call-effect (add_signer_call a) = add_signer_effect a
  call-effect (remove_signer_call a) = remove_signer_effect a
  call-effect (transfer_ownership_call a) = transfer_ownership_effect a
  call-effect renounce_ownership_call = renounce_ownership_effect

call_steps :
    (sender : Address) (c : Call) (s : State)
    → IsValid s.signers_map
    → registry_of (outcome s (call sender c s))
      ≡ (if bytes_eq sender s.owner then effect c (registry_of s) else registry_of s)
call_steps sender c s v = elim (Bool-cases (bytes_eq sender s.owner)) [
  | inl allowed ↦ rw allowed (call-effect sender s v allowed c)
  | inr refused ↦ rw refused (
      ap registry_of (
        outcome-call_other sender c s (λ same. cc (refused, (bytes_eq_iff sender s.owner).1 same))))
]

run-steps :
    (txs : List (Address × Call)) (s : State)
    → IsValid s.signers_map
    → registry_of (run txs s) ≡ steps txs (registry_of s)
unfolding run
run-steps [] s v = refl
run-steps ((sender, c) ∷ txs) s v =
    run-steps txs (outcome s (call sender c s))
      (outcome-IsValid s (call sender c s) v (λ s' e. call-IsValid sender c s s' v e))
    ∙ ap (steps txs) (call_steps sender c s v)

construct_registry :
    (owner : Address) (s : State)
    → construct owner ≡ ok s
    → registry_of s ≡ record { owner = owner; members = λ a. false }
unfolding construct construct_owner is_signer SignersMap.is_signer SignersMap.empty_map
construct_registry owner s e = elim (Bool-cases (bytes_eq owner zero_address)) [
  | inl zero ↦ absurd (cc (rw zero at e))
  | inr other ↦
      let made : record { owner = owner; signers_map = SignersMap.empty_map } ≡ s =
        cc (rw other at e) in
      rw (← made) refl
]

-- After the constructor and any sequence of the transactions that change the contract, by any
-- senders, its owner and what `isSigner` says of every address are those of a registry that is just
-- an owner and a set: the owner's transactions add an address other than zero, remove one, pass the
-- ownership to an address other than zero or give it up, also where the contract reverts because
-- the address is or is not a signer, and the transactions of others do nothing.
pub registry_of-run :
    (owner : Address) (s : State) (txs : List (Address × Call))
    → construct owner ≡ ok s
    → registry_of (run txs s) ≡ steps txs (record { owner = owner; members = λ a. false })
registry_of-run owner s txs e =
    run-steps txs s (construct-IsValid owner s e) ∙ ap (steps txs) (construct_registry owner s e)
