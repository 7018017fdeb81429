-- ===== src/Contracts/Sp1TeeVerifier/Transactions.antt =====
-- contracts/src/SP1TeeVerifier.sol: the life of the contract, one transaction after another. A
-- transaction that reverts leaves the state as it was.
pub mod Abstract
use sp1_tee.Prelude.{
  ◌≡◌, ◌≢◌, refl, inl, inr, Bool-cases, false, List, [], ◌∷◌, arith, bytes_eq, bytes_eq_iff,
}
use sp1_tee.Result.{Result, ok, err, panic, ErrorText, ◌>>=◌, >>=-iff}
use sp1_tee.Host.Platform.{Address}
use sp1_tee.Contracts.SignersMap
use sp1_tee.Contracts.SignersMap.Invariant.{IsValid, empty_map-IsValid}
use sp1_tee.Contracts.SignersMap.Refinement.{add_signer-IsValid, remove_signer-IsValid}
use sp1_tee.Contracts.SimpleOwnable.{
  zero_address, construct_owner, only_owner, transfer_ownership, renounce_ownership,
}
use sp1_tee.Contracts.Sp1TeeVerifier.{State, construct, add_signer, remove_signer}

pub data Call : Type 0 where
  add_signer_call remove_signer_call transfer_ownership_call : Address → Call
  renounce_ownership_call : Call

pub call : (msg_sender : Address) → Call → State → Result ErrorText State
call msg_sender (add_signer_call a) s = add_signer msg_sender s a
call msg_sender (remove_signer_call a) s = remove_signer msg_sender s a
call msg_sender (transfer_ownership_call a) s = do
  owner ← transfer_ownership s.owner msg_sender a
  ok (record s { owner = owner })
call msg_sender renounce_ownership_call s = do
  owner ← renounce_ownership s.owner msg_sender
  ok (record s { owner = owner })

pub outcome : State → Result ErrorText State → State
outcome s (ok s') = s'
outcome s (err e) = s
outcome s (panic p) = s

pub run : List (Address × Call) → State → State
unfolding outcome
run [] s = s
run ((msg_sender, c) ∷ txs) s = run txs (outcome s (call msg_sender c s))

call-IsValid :
    (msg_sender : Address) (c : Call) (s s' : State)
    → IsValid s.signers_map
    → call msg_sender c s ≡ ok s'
    → IsValid s'.signers_map
unfolding call add_signer remove_signer
call-IsValid sender (add_signer_call a) s s' v e =
    let (_, _, e') = (>>=-iff (only_owner s.owner sender) _ s').0 e in
    elim (Bool-cases (bytes_eq a zero_address)) [
      | inl zero ↦ absurd (cc (rw zero at e'))
      | inr other ↦
          let (m, done, made) =
            (>>=-iff (SignersMap.add_signer s.signers_map a) _ s').0 (rw other at e') in
          let same : m ≡ s'.signers_map = ground arith in
          rw (← same) (add_signer-IsValid s.signers_map m a v done)
    ]
call-IsValid sender (remove_signer_call a) s s' v e =
    let (_, _, e') = (>>=-iff (only_owner s.owner sender) _ s').0 e in
    let (m, done, made) = (>>=-iff (SignersMap.remove_signer s.signers_map a) _ s').0 e' in
    let same : m ≡ s'.signers_map = ground arith in
    rw (← same) (remove_signer-IsValid s.signers_map m a v done)
call-IsValid sender (transfer_ownership_call a) s s' v e =
    let (o, _, made) = (>>=-iff (transfer_ownership s.owner sender a) _ s').0 e in
    let same : s.signers_map ≡ s'.signers_map = ground arith in rw (← same) v
call-IsValid sender renounce_ownership_call s s' v e =
    let (o, _, made) = (>>=-iff (renounce_ownership s.owner sender) _ s').0 e in
    let same : s.signers_map ≡ s'.signers_map = ground arith in rw (← same) v

outcome-IsValid :
    (s : State) (r : Result ErrorText State)
    → IsValid s.signers_map
    → ((s' : State) → r ≡ ok s' → IsValid s'.signers_map)
    → IsValid (outcome s r).signers_map
unfolding outcome
outcome-IsValid s (ok s') v k = k s' refl
outcome-IsValid s (err e) v k = v
outcome-IsValid s (panic p) v k = v

run_from-IsValid :
    (txs : List (Address × Call)) (s : State)
    → IsValid s.signers_map
    → IsValid (run txs s).signers_map
unfolding run
run_from-IsValid [] s v = v
run_from-IsValid ((sender, c) ∷ txs) s v =
    run_from-IsValid txs _
      (outcome-IsValid s (call sender c s) v (λ s' e. call-IsValid sender c s s' v e))

construct-IsValid : (owner : Address) (s : State) → construct owner ≡ ok s → IsValid s.signers_map
unfolding construct construct_owner
construct-IsValid owner s e =
    let same : s.signers_map ≡ SignersMap.empty_map = ground arith in rw same empty_map-IsValid

-- After the constructor and any sequence of the transactions that change the contract, by any
-- senders, of which those that revert leave it as it was, the array, the map and the index of its
-- signers agree: each signer is in the array where its index says, and every entry of the array is
-- a signer at its index.
pub run-IsValid :
    (owner : Address) (s : State) (txs : List (Address × Call))
    → construct owner ≡ ok s
    → IsValid (run txs s).signers_map
run-IsValid owner s txs e = run_from-IsValid txs s (construct-IsValid owner s e)

-- Whoever is not the owner changes nothing.
outcome-call_other :
    (sender : Address) (c : Call) (s : State) → sender ≢ s.owner → outcome s (call sender c s) ≡ s
unfolding call outcome add_signer remove_signer transfer_ownership renounce_ownership only_owner
outcome-call_other sender c s other =
    let refused : bytes_eq sender s.owner ≡ false = ground (arith, bytes_eq_iff sender s.owner) in
    go c refused
  where
    go : (c : Call) → bytes_eq sender s.owner ≡ false → outcome s (call sender c s) ≡ s
    go (add_signer_call a) r = rw r
    go (remove_signer_call a) r = rw r
    go (transfer_ownership_call a) r = rw r
    go renounce_ownership_call r = rw r

abbrev pub NotFrom : Address → List (Address × Call) → Type 0
NotFrom a [] = Unit {0}
NotFrom a (tx ∷ txs) = (tx.0 ≢ a) × NotFrom a txs

-- Transactions none of which is sent by the contract's owner leave the contract as it was: its
-- owner and its signers.
run_not_owner : (txs : List (Address × Call)) (s : State) → NotFrom s.owner txs → run txs s ≡ s
unfolding run
run_not_owner [] s n = refl
run_not_owner ((sender, c) ∷ txs) s n =
    let same = outcome-call_other sender c s n.0 in rw same (run_not_owner txs s n.1)
