-- ===== src/Contracts/SignersMap/Bag.antt =====
-- contracts/src/SignersMap.sol: its signers without their order, which swap and pop changes.
use mathlib.Core.List.{Perm, perm_append_singleton}
use mathlib.Core.List.Perm
use mathlib.Core.Quot
use mathlib.Core.Quot.{Quot}
use sp1_tee.Prelude.{◌≡◌, refl, ◌∙◌, inl, inr, Bool-cases, true, false, bytes_eq, bytes_eq_iff}
use sp1_tee.Result.{ok}
use sp1_tee.Host.Platform.{Address}
use sp1_tee.Contracts.SignersMap.{SignersMap, add_signer, remove_signer, is_signer, get_signers}
use sp1_tee.Contracts.SignersMap.Invariant.{IsValid}
use sp1_tee.Contracts.SignersMap.Refinement.{remove_signer-Removed, add_signer-Added}

-- Lists of addresses up to their order.
abbrev pub Bag : Type 0
Bag = Quot (Perm {A = Address})

abbrev pub bag : SignersMap → Bag
bag m = Quot.mk (get_signers m)

-- On a map whose array and index agree, removing a signer and adding it again both succeed, the
-- array and the index of the result agree, its array is equal to the one before up to order, as
-- elements of the quotient by permutation, and membership of every address is as before.
pub add_signer-remove_signer :
    (m : SignersMap) (s a : Address)
    → IsValid m
    → is_signer m s ≡ true
    → (removed added : SignersMap) × (remove_signer m s ≡ ok removed)
      × (add_signer removed s ≡ ok added)
      × IsValid added
      × (bag added ≡ bag m)
      × (is_signer added a ≡ is_signer m a)
add_signer-remove_signer m s a v known =
    let (removed, gone, r) = remove_signer-Removed m s v known in
    let same : bytes_eq s s ≡ true = (bytes_eq_iff s s).1 refl in
    let unknown : is_signer removed s ≡ false = r.members s ∙ rw same refl in
    let (added, back, d) = add_signer-Added removed s r.valid unknown in
    let members : (a : Address) → is_signer added a ≡ is_signer m a = λ a.
      elim (Bool-cases (bytes_eq a s)) [
        | inl here ↦
            let same_address = (bytes_eq_iff a s).0 here in
            d.members a ∙ rw (here, same_address, known) refl
        | inr other ↦ d.members a ∙ rw other (r.members a ∙ rw other refl)
      ] in
    (
      removed,
      added,
      gone,
      back,
      d.valid,
      Quot.sound (
          rw d.signers
            (Perm.trans (perm_append_singleton s (get_signers removed)) (Perm.symm r.signers))),
      members a,
    )
