-- ===== src/Contracts/SignersMap/Refinement.antt =====
-- contracts/src/SignersMap.sol as a set of signers: what adding and removing do to the array.
use mathlib.Core.List.{Perm}
use mathlib.Core.List.Perm
use sp1_tee.Prelude.{
  ℕ, zero, suc, ◌-◌, ◌<◌, ◌≡◌, refl, ap, ◌∙◌, ◌⊎◌, inl, inr, Bool-cases, true, false, List, [], ◌∷◌,
  ◌++◌, some, arith, length, bytes_eq, get_elem?, set, drop_last, length-set, if◌then◌else◌,
  lt_of_get_elem?, get_elem?-some, ltb-cases,
}
use sp1_tee.Result.{ok, err}
use sp1_tee.Host.Platform.{Address}
use sp1_tee.Contracts.SignersMap.{SignersMap, add_signer, remove_signer, is_signer, get_signers}
use sp1_tee.Contracts.SignersMap.Invariant.{
  IsValid, added, add_signer-eq, added-IsValid, popped, swapped, remove_last, remove_other,
  popped-IsValid, swapped-IsValid,
}

module _ {ℓ} {A : Type ℓ} where
  drop_last-cons : (x : A) (xs : List A) → 0 < length xs → drop_last (x ∷ xs) ≡ x ∷ drop_last xs
  drop_last-cons x [] h = elim h [ ]
  drop_last-cons x (y ∷ xs) h = refl

  last_perm :
      (xs : List A) (l : A) → get_elem? xs (length xs - 1) ≡ some l → Perm xs (l ∷ drop_last xs)
  last_perm [] l h = absurd (cc)
  last_perm (x ∷ []) l h = let same : x ≡ l = cc in rw same (Perm.refl (l ∷ []))
  last_perm (x ∷ y ∷ xs) l h =
      Perm.trans (Perm.cons x (last_perm (y ∷ xs) l (ground arith)))
        (Perm.swap l x (drop_last (y ∷ xs)))

  swap_and_pop_perm :
      (xs : List A) (k : ℕ) (s l : A)
      → get_elem? xs k ≡ some s
      → suc k < length xs
      → get_elem? xs (length xs - 1) ≡ some l
      → Perm xs (s ∷ drop_last (set xs k l))
  swap_and_pop_perm [] k s l here inner end = absurd (cc)
  swap_and_pop_perm (x ∷ []) k s l here inner end = absurd (omega arith)
  swap_and_pop_perm (x ∷ y ∷ xs) zero s l here inner end =
      let same : x ≡ s = cc in rw same (Perm.cons s (last_perm (y ∷ xs) l (ground arith)))
  swap_and_pop_perm (x ∷ y ∷ xs) (suc k) s l here inner end =
      let rest = swap_and_pop_perm (y ∷ xs) k s l here (omega arith) (ground arith) in
      rw (drop_last-cons x (set (y ∷ xs) k l) (omega (arith, length-set (y ∷ xs) k l)))
        (Perm.trans (Perm.cons x rest) (Perm.swap s x (drop_last (set (y ∷ xs) k l))))

-- After a removal: the array is still consistent, holds what it held less the signer, in whatever
-- order, and membership has changed for that signer alone.
pub record Removed (m : SignersMap) (s : Address) (m' : SignersMap) : Type 0 where
  pub valid : IsValid m'
  pub signers : Perm (get_signers m) (s ∷ get_signers m')
  pub members : (a : Address) → is_signer m' a ≡ (if bytes_eq a s then false else is_signer m a)

-- After an addition, in the same way.
pub record Added (m : SignersMap) (s : Address) (m' : SignersMap) : Type 0 where
  pub valid : IsValid m'
  pub signers : get_signers m' ≡ get_signers m ++ (s ∷ [])
  pub members : (a : Address) → is_signer m' a ≡ (if bytes_eq a s then true else is_signer m a)

popped-Removed :
    (m : SignersMap) (s : Address)
    → IsValid m
    → m.map s ≡ true
    → suc (m.signer_index s) ≡ length m.signers
    → Removed m s (popped m s)
unfolding get_signers is_signer
popped-Removed m s v known last = record {
  valid = popped-IsValid m s v known last;
  signers = last_perm m.signers s (ap (get_elem? m.signers) (omega arith) ∙ v.indexed s known);
  members = λ a. refl;
}

swapped-Removed :
    (m : SignersMap) (s l : Address)
    → IsValid m
    → m.map s ≡ true
    → suc (m.signer_index s) < length m.signers
    → get_elem? m.signers (length m.signers - 1) ≡ some l
    → Removed m s (swapped m s l)
unfolding get_signers is_signer
swapped-Removed m s l v known inner end = record {
  valid = swapped-IsValid m s v known l inner end;
  signers = swap_and_pop_perm m.signers (m.signer_index s) s l (v.indexed s known) inner end;
  members = λ a. refl;
}

-- On a map whose array and index agree, `removeSigner` of a signer succeeds, the array and the
-- index of the result agree, its array has the same entries in some order but for one occurrence of
-- the signer, which is gone, and membership has changed for the signer alone.
pub remove_signer-Removed :
    (m : SignersMap) (s : Address)
    → IsValid m
    → is_signer m s ≡ true
    → (m' : SignersMap) × (remove_signer m s ≡ ok m') × Removed m s m'
unfolding is_signer
remove_signer-Removed m s v known =
    let before = lt_of_get_elem? m.signers (m.signer_index s) (v.indexed s known) in
    elim (ltb-cases (suc (m.signer_index s)) (length m.signers)) [
      | inl inner ↦
          let (l, end) = get_elem?-some m.signers (length m.signers - 1) (omega arith) in
          (
            swapped m s l,
            remove_other m s l known inner end,
            swapped-Removed m s l v known inner end,
          )
      | inr outer ↦
          let last : suc (m.signer_index s) ≡ length m.signers = omega arith in
          (popped m s, remove_last m s known last, popped-Removed m s v known last)
    ]

-- On a map whose array and index agree, `addSigner` of an address that is no signer succeeds, the
-- array and the index of the result agree, its array has the address at its end, and membership has
-- changed for the address alone.
pub add_signer-Added :
    (m : SignersMap) (s : Address)
    → IsValid m
    → is_signer m s ≡ false
    → (m' : SignersMap) × (add_signer m s ≡ ok m') × Added m s m'
unfolding is_signer get_signers
add_signer-Added m s v new = (
  added m s,
  add_signer-eq m s new,
  record { valid = added-IsValid s v new; signers = refl; members = λ a. refl },
)

-- The other calls are refused.
pub add_signer_known :
    (m : SignersMap) (s : Address)
    → is_signer m s ≡ true
    → add_signer m s ≡ err "Signer already exists"
unfolding is_signer add_signer
add_signer_known m s known = rw known

pub remove_signer_unknown :
    (m : SignersMap) (s : Address)
    → is_signer m s ≡ false
    → remove_signer m s ≡ err "Signer does not exist"
unfolding is_signer remove_signer
remove_signer_unknown m s unknown = rw unknown

pub is_signer_cases :
    (m : SignersMap) (s : Address) → (is_signer m s ≡ true) ⊎ (is_signer m s ≡ false)
is_signer_cases m s = Bool-cases (is_signer m s)

pub add_signer-IsValid :
    (m m' : SignersMap) (s : Address) → IsValid m → add_signer m s ≡ ok m' → IsValid m'
add_signer-IsValid m m' s v done = elim (is_signer_cases m s) [
  | inl known ↦ absurd (cc (add_signer_known m s known))
  | inr new ↦
      let (found, e, a) = add_signer-Added m s v new in
      let same : found ≡ m' = cc in rw (← same) a.valid
]

pub remove_signer-IsValid :
    (m m' : SignersMap) (s : Address) → IsValid m → remove_signer m s ≡ ok m' → IsValid m'
remove_signer-IsValid m m' s v done = elim (is_signer_cases m s) [
  | inl known ↦
      let (found, e, r) = remove_signer-Removed m s v known in
      let same : found ≡ m' = cc in rw (← same) r.valid
  | inr unknown ↦ absurd (cc (remove_signer_unknown m s unknown))
]

pub add_signer-members :
    (m m' : SignersMap) (s : Address)
    → add_signer m s ≡ ok m'
    → (a : Address) → is_signer m' a ≡ (if bytes_eq a s then true else is_signer m a)
unfolding is_signer
add_signer-members m m' s done a = elim (is_signer_cases m s) [
  | inl known ↦ absurd (cc (add_signer_known m s known))
  | inr new ↦ let same : added m s ≡ m' = cc (add_signer-eq m s new) in rw (← same) refl
]
