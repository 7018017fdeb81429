-- ===== src/Io.antt =====
-- An asynchronous function awaited to its end: it changes a state and returns, fails or panics.
-- What it did before it failed stays done.
use sp1_tee.Prelude.{String, ◌≡◌, ◌≢◌, refl, sym, ap, ◌∙◌}
use sp1_tee.Result.{Result, ok, err, panic, map_err, expect}

abbrev pub Io : Type 0 → Type 0 → Type 0 → Type 0
Io S E A = S → Result E A × S

module _ {S E A : Type 0} where
  abbrev pub pure : A → Io S E A
  pure a s = (ok a, s)

  abbrev pub raise : E → Io S E A
  raise e s = (err e, s)

  abbrev pub lift : Result E A → Io S E A
  lift r s = (r, s)

-- `action.await.map_err(f)` and `action.await.unwrap()`
abbrev pub mapping_err : {S E F A : Type 0} → (E → F) → Io S E A → Io S F A
mapping_err f m s = let (r, s') = m s in (map_err f r, s')

abbrev pub unwrapping : {S E F A : Type 0} → String → Io S E A → Io S F A
unwrapping message m s = let (r, s') = m s in (expect message r, s')

module _ {S E A B : Type 0} where
  abbrev pub continue : Result E A → (A → Io S E B) → Io S E B
  continue (ok a) f s = f a s
  continue (err e) f s = (err e, s)
  continue (panic p) f s = (panic p, s)

  infixl 5 ◌>>=◌
  abbrev pub ◌>>=◌ : Io S E A → (A → Io S E B) → Io S E B
  ◌>>=◌ m f s = let (r, s') = m s in continue r f s'

infixl 5 ◌>>◌
abbrev pub ◌>>◌ : {S E B : Type 0} → Io S E (Unit {0}) → Io S E B → Io S E B
m >> k = m >>= λ _. k

-- An action that succeeds is one whose first part does, and then the rest.
pub >>=-eq-ok :
    {S E A B : Type 0} (m : Io S E A) (f : A → Io S E B) (s : S) {b : B}
    → ((m >>= f) s).0 ≡ ok b
    → (a : A) × ((m s).0 ≡ ok a) × ((m >>= f) s ≡ f a (m s).1)
>>=-eq-ok {S} {E} {A} {B} m f s {b} h = go (m s).0 refl h
  where
    go :
        (r : Result E A)
        → (m s).0 ≡ r
        → (continue r f (m s).1).0 ≡ ok b
        → (a : A) × ((m s).0 ≡ ok a) × ((m >>= f) s ≡ f a (m s).1)
    go (ok a) e h = (a, e, rw e)
    go (err x) e h = cc
    go (panic x) e h = cc

-- The same, with what the rest then returns.
pub >>=-parts :
    {S E A B : Type 0} (m : Io S E A) (f : A → Io S E B) (s : S) {b : B}
    → ((m >>= f) s).0 ≡ ok b
    → (a : A) × ((m s).0 ≡ ok a) × ((f a (m s).1).0 ≡ ok b)
>>=-parts {S} {E} {A} {B} m f s {b} h =
    let (a, first, step) = >>=-eq-ok m f s h in
    (a, first, ap (λ (x : Result E B × S). x.0) (sym step) ∙ h)

-- What both parts leave alone, the whole leaves alone.
pub >>=-keep :
    {S E A B C : Type 0} (view : S → C) (m : Io S E A) (f : A → Io S E B) (s : S)
    → view (m s).1 ≡ view s
    → ((a : A) → view (f a (m s).1).1 ≡ view (m s).1)
    → view ((m >>= f) s).1 ≡ view s
>>=-keep {S} {E} {A} view m f s first rest = go (m s).0
  where
    go : (r : Result E A) → view (continue r f (m s).1).1 ≡ view s
    go (ok a) = rest a ∙ first
    go (err x) = first
    go (panic x) = first

-- An error that neither part gives, the whole does not give.
pub >>=-ne-err :
    {S E A B : Type 0} (e : E) (m : Io S E A) (f : A → Io S E B) (s : S)
    → (m s).0 ≢ err e
    → ((a : A) → (m s).0 ≡ ok a → (f a (m s).1).0 ≢ err e)
    → ((m >>= f) s).0 ≢ err e
>>=-ne-err {S} {E} {A} e m f s first rest = go (m s).0 refl
  where
    go : (r : Result E A) → (m s).0 ≡ r → (continue r f (m s).1).0 ≢ err e
    go (ok a) q = rest a q
    go (err x) q = λ h. first (q ∙ cc)
    go (panic x) q = λ h. cc

-- What holds of the state before, and is kept by both parts, holds after the whole.
pub >>=-preserves :
    {S E A B : Type 0} (P : S → Type 0) (m : Io S E A) (f : A → Io S E B) (s : S)
    → P (m s).1
    → ((a : A) (s' : S) → P s' → P (f a s').1)
    → P ((m >>= f) s).1
>>=-preserves {S} {E} {A} P m f s first rest = go (m s).0
  where
    go : (r : Result E A) → P (continue r f (m s).1).1
    go (ok a) = rest a (m s).1 first
    go (err x) = first
    go (panic x) = first
