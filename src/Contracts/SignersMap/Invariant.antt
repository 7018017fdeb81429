-- ===== src/Contracts/SignersMap/Invariant.antt =====
-- contracts/src/SignersMap.sol: the map, the array and the index agree, and stay so.
use sp1_tee.Prelude.{
  ℕ, suc, ◌+◌, ◌-◌, ◌<◌, ◌≡◌, ◌≢◌, sym, ◌∙◌, inl, inr, Bool-cases, true, false, ◌==◌, [], ◌∷◌, ◌++◌,
  none, some, arith, length, ltb, bytes_eq, bytes_eq_iff, get_elem?, set, drop_last, if◌then◌else◌,
  length-append, length-set, get_elem?-append_last, get_elem?-set, get_elem?-drop_last,
  lt_of_get_elem?,
}
use sp1_tee.Result.{ok}
use sp1_tee.Host.Platform.{Address}
use sp1_tee.Contracts.SignersMap.{
  SignersMap, write, checked_sub, at_index, store_at, pop, empty_map, add_signer, swap_and_pop,
  remove_signer,
}

-- Each signer stands in the array where its index says, and the array holds nothing else.
pub record IsValid (m : SignersMap) : Type 0 where
  pub indexed : (a : Address) → m.map a ≡ true → get_elem? m.signers (m.signer_index a) ≡ some a
  pub listed :
      (i : ℕ) (a : Address)
      → get_elem? m.signers i ≡ some a
      → (m.map a ≡ true) × (m.signer_index a ≡ i)

pub empty_map-IsValid : IsValid empty_map
unfolding empty_map
empty_map-IsValid = record { indexed = λ a h. absurd (cc); listed = λ i a h. absurd (cc) }

-- The signer is appended.
abbrev pub added : SignersMap → Address → SignersMap
added m s = record {
  map = write m.map s true;
  signers = m.signers ++ (s ∷ []);
  signer_index = write m.signer_index s (length m.signers);
}

pub add_signer-eq :
    (m : SignersMap) (s : Address) → m.map s ≡ false → add_signer m s ≡ ok (added m s)
unfolding add_signer checked_sub
add_signer-eq m s h =
    let long : length (m.signers ++ (s ∷ [])) ≡ length m.signers + 1 =
      length-append m.signers (s ∷ []) in
    rw (h, long) (ground arith)

pub added-IsValid :
    {m : SignersMap} (s : Address) → IsValid m → m.map s ≡ false → IsValid (added m s)
added-IsValid {m} s v new = record {
  indexed = λ a h. elim (Bool-cases (bytes_eq a s)) [
    | inl same ↦
        rw same
          (get_elem?-append_last m.signers s (length m.signers) ∙ ground (arith, bytes_eq_iff a s))
    | inr other ↦
        let old = v.indexed a (rw other at h) in
        let before = lt_of_get_elem? m.signers (m.signer_index a) old in
        rw other (get_elem?-append_last m.signers s (m.signer_index a) ∙ ground arith)
  ];
  listed = λ i a h.
      let which = sym (get_elem?-append_last m.signers s i) ∙ h in
      elim (Bool-cases (i == length m.signers)) [
        | inl last ↦ ground (arith, bytes_eq_iff a s)
        | inr earlier ↦
            let old : get_elem? m.signers i ≡ some a = rw earlier at which in
            let facts = v.listed i a old in ground (arith, bytes_eq_iff a s)
      ];
}

module _ (m : SignersMap) (s : Address) where
  -- The last signer is popped.
  abbrev pub popped : SignersMap
  popped = record {
    map = write m.map s false;
    signers = drop_last m.signers;
    signer_index = write m.signer_index s 0;
  }

  -- Another is overwritten by the last.
  abbrev pub swapped : Address → SignersMap
  swapped l = record {
    map = write m.map s false;
    signers = drop_last (set m.signers (m.signer_index s) l);
    signer_index = write (write m.signer_index s 0) l (m.signer_index s);
  }

  pub remove_last :
      m.map s ≡ true → suc (m.signer_index s) ≡ length m.signers → remove_signer m s ≡ ok popped
  unfolding remove_signer checked_sub pop
  remove_last known last = rw known (ground arith)

  pub remove_other :
      (l : Address)
      → m.map s ≡ true
      → suc (m.signer_index s) < length m.signers
      → get_elem? m.signers (length m.signers - 1) ≡ some l
      → remove_signer m s ≡ ok (swapped l)
  unfolding remove_signer swap_and_pop checked_sub at_index store_at pop
  remove_other l known inner end =
      let kept = length-set m.signers (m.signer_index s) l in ground (arith, kept)

  module _ (v : IsValid m) (known : m.map s ≡ true) where
    open v use {indexed, listed}

    pub popped-IsValid : suc (m.signer_index s) ≡ length m.signers → IsValid popped
    popped-IsValid last = record {
      indexed = λ a h.
          let there = get_elem?-drop_last m.signers (m.signer_index a) in
          let other : bytes_eq a s ≡ false = ground arith in
          let old = indexed a (rw other at h) in
          let before = lt_of_get_elem? m.signers (m.signer_index a) old in
          let mine = indexed s known in
          rw other (
            there ∙ elim (Bool-cases (ltb (suc (m.signer_index a)) (length m.signers))) [
              | inl inner ↦ rw inner old
              | inr outer ↦
                  let same : m.signer_index a ≡ m.signer_index s = ground arith in
                  let equal : a ≡ s = cc in absurd (ground (arith, bytes_eq_iff a s))
            ]);
      listed = λ i a h.
          let there = get_elem?-drop_last m.signers i in
          let inner : ltb (suc i) (length m.signers) ≡ true = ground arith in
          let facts = listed i a (ground arith) in
          let mine = indexed s known in
          let other : bytes_eq a s ≡ false = ground (arith, bytes_eq_iff a s) in rw other facts;
    }

    module _ (l : Address) (inner : suc (m.signer_index s) < length m.signers)
        (end : get_elem? m.signers (length m.signers - 1) ≡ some l) where
      swapped_at :
          (i : ℕ)
          → get_elem? (drop_last (set m.signers (m.signer_index s) l)) i ≡ (
              if ltb (suc i) (length m.signers)
              then (if i == m.signer_index s then some l else get_elem? m.signers i)
              else none)
      swapped_at i =
          get_elem?-drop_last (set m.signers (m.signer_index s) l) i
          ∙ rw (
            length-set m.signers (m.signer_index s) l,
            get_elem?-set m.signers (m.signer_index s) l i (omega arith),
          )

      swapped_indexed :
          (a : Address)
          → write m.map s false a ≡ true
          → get_elem?
              (drop_last (set m.signers (m.signer_index s) l))
              (write (write m.signer_index s 0) l (m.signer_index s) a)
            ≡ some a
      swapped_indexed a h = elim (Bool-cases (bytes_eq a l)) [
        | inl is_last ↦
            rw is_last (swapped_at (m.signer_index s) ∙ ground (arith, bytes_eq_iff a l))
        | inr not_last ↦
            let other : bytes_eq a s ≡ false = ground arith in
            let old = indexed a (rw other at h) in
            let before = lt_of_get_elem? m.signers (m.signer_index a) old in
            let mine = indexed s known in
            let differ : m.signer_index a ≢ m.signer_index s =
              λ e. let equal : a ≡ s = cc in ground (arith, bytes_eq_iff a s) in
            let below : m.signer_index a ≢ length m.signers - 1 =
              λ e. let equal : a ≡ l = cc in ground (arith, bytes_eq_iff a l) in
            rw (not_last, other) (swapped_at (m.signer_index a) ∙ ground arith)
      ]

      swapped_listed :
          (i : ℕ) (a : Address)
          → get_elem? (drop_last (set m.signers (m.signer_index s) l)) i ≡ some a
          → (write m.map s false a ≡ true)
            × (write (write m.signer_index s 0) l (m.signer_index s) a ≡ i)
      swapped_listed i a h =
          let h' = sym (swapped_at i) ∙ h in
          let last = listed (length m.signers - 1) l end in
          elim (Bool-cases (i == m.signer_index s)) [
            | inl here ↦
                let equal : l ≡ a = ground arith in
                let other : bytes_eq a s ≡ false = ground (arith, bytes_eq_iff a s) in
                ground (arith, bytes_eq_iff a l)
            | inr there ↦
                let old : get_elem? m.signers i ≡ some a = ground arith in
                let facts = listed i a old in
                let other : bytes_eq a s ≡ false = ground (arith, bytes_eq_iff a s) in
                let not_last : bytes_eq a l ≡ false = ground (arith, bytes_eq_iff a l) in
                ground arith
          ]

      pub swapped-IsValid : IsValid (swapped l)
      swapped-IsValid = record { indexed = swapped_indexed; listed = swapped_listed }
