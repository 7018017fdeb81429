-- ===== src/Prelude/Arrays.antt =====
-- Lists as arrays that grow and shrink at their end.
use Prim.Native.Nat.{ℕ, zero, suc, ◌+◌, ◌-◌, ◌<◌}
use mathlib.Core.Path.{◌≡◌, refl, ap}
use mathlib.Core.Option.{Option, none, some}
use mathlib.Core.List.{List, [], ◌∷◌, ◌++◌}
use native.Mathlib.Omega.{arith}
use sp1_tee.Prelude.Tests.{ltb, ◌==◌, if◌then◌else◌}
use sp1_tee.Prelude.Lists.{length, drop}

module _ {ℓ} {A : Type ℓ} where
  abbrev pub get_elem? : List A → ℕ → Option A
  get_elem? [] i = none
  get_elem? (x ∷ xs) zero = some x
  get_elem? (x ∷ xs) (suc i) = get_elem? xs i

  -- A write out of bounds changes nothing.
  abbrev pub set : List A → ℕ → A → List A
  set [] i v = []
  set (x ∷ xs) zero v = v ∷ xs
  set (x ∷ xs) (suc i) v = x ∷ set xs i v

  -- All but the last.
  abbrev pub drop_last : List A → List A
  drop_last [] = []
  drop_last (x ∷ []) = []
  drop_last (x ∷ y ∷ xs) = x ∷ drop_last (y ∷ xs)

  pub length-set : (xs : List A) (i : ℕ) (v : A) → length (set xs i v) ≡ length xs
  length-set [] i v = refl
  length-set (x ∷ xs) zero v = refl
  length-set (x ∷ xs) (suc i) v = ap suc (length-set xs i v)

  pub length-drop_last : (xs : List A) → length (drop_last xs) ≡ length xs - 1
  length-drop_last [] = refl
  length-drop_last (x ∷ []) = refl
  length-drop_last (x ∷ y ∷ xs) = omega (arith, length-drop_last (y ∷ xs))

  pub get_elem?-append_last :
      (xs : List A) (v : A) (i : ℕ)
      → get_elem? (xs ++ (v ∷ [])) i ≡ (if i == length xs then some v else get_elem? xs i)
  get_elem?-append_last [] v zero = refl
  get_elem?-append_last [] v (suc i) = ground arith
  get_elem?-append_last (x ∷ xs) v zero = ground arith
  get_elem?-append_last (x ∷ xs) v (suc i) = ground (arith, get_elem?-append_last xs v i)

  pub get_elem?-set :
      (xs : List A) (k : ℕ) (v : A) (i : ℕ)
      → k < length xs
      → get_elem? (set xs k v) i ≡ (if i == k then some v else get_elem? xs i)
  get_elem?-set [] k v i h = elim h [ ]
  get_elem?-set (x ∷ xs) zero v zero h = refl
  get_elem?-set (x ∷ xs) zero v (suc i) h = ground arith
  get_elem?-set (x ∷ xs) (suc k) v zero h = ground arith
  get_elem?-set (x ∷ xs) (suc k) v (suc i) h = ground (arith, get_elem?-set xs k v i)

  pub get_elem?-drop_last :
      (xs : List A) (i : ℕ)
      → get_elem? (drop_last xs) i ≡ (if ltb (suc i) (length xs) then get_elem? xs i else none)
  get_elem?-drop_last [] i = ground arith
  get_elem?-drop_last (x ∷ []) i = ground arith
  get_elem?-drop_last (x ∷ y ∷ xs) zero = ground arith
  get_elem?-drop_last (x ∷ y ∷ xs) (suc i) = ground (arith, get_elem?-drop_last (y ∷ xs) i)

  -- An index that holds something is one of the list's.
  pub lt_of_get_elem? : (xs : List A) (i : ℕ) {a : A} → get_elem? xs i ≡ some a → i < length xs
  lt_of_get_elem? [] i h = absurd (cc)
  lt_of_get_elem? (x ∷ xs) zero h = omega arith
  lt_of_get_elem? (x ∷ xs) (suc i) h = omega (arith, lt_of_get_elem? xs i h)

  pub get_elem?-some : (xs : List A) (i : ℕ) → i < length xs → (a : A) × (get_elem? xs i ≡ some a)
  get_elem?-some [] i h = elim h [ ]
  get_elem?-some (x ∷ xs) zero h = (x, refl)
  get_elem?-some (x ∷ xs) (suc i) h = get_elem?-some xs i (omega arith)

  pub get_elem?-drop : (n i : ℕ) (xs : List A) → get_elem? xs (n + i) ≡ get_elem? (drop n xs) i
  get_elem?-drop zero i xs = let e : zero + i ≡ i = omega arith in rw e
  get_elem?-drop (suc n) i [] = refl
  get_elem?-drop (suc n) i (x ∷ xs) =
      let e : suc n + i ≡ suc (n + i) = omega arith in rw e (get_elem?-drop n i xs)
