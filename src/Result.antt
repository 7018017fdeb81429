-- ===== src/Result.antt =====
-- Rust's `Result`, with the panic of a thread as a third outcome.
-- The errors of the libraries are known to the program by their text alone: it only prints them.
use sp1_tee.Prelude.{String, ◌≡◌, ◌≢◌, ◌↔◌, refl, Option, arith, none, some}

abbrev pub ErrorText : Type 0
ErrorText = String

pub data Result (E A : Type 0) : Type 0 where
  ok : A → Result E A
  err : E → Result E A
  panic : String → Result E A

-- `result.unwrap()` and `result.expect(message)`: an error ends the thread.
abbrev pub expect : {E F A : Type 0} → String → Result E A → Result F A
expect message (ok a) = ok a
expect message (err e) = panic message
expect message (panic p) = panic p

abbrev pub map_err : {E F A : Type 0} → (E → F) → Result E A → Result F A
map_err f (ok a) = ok a
map_err f (err e) = err (f e)
map_err f (panic p) = panic p

module _ {E A : Type 0} where
  abbrev pub ok_or : E → Option A → Result E A
  ok_or e none = err e
  ok_or e (some a) = ok a

  abbrev pub expect_some : String → Option A → Result E A
  expect_some message none = panic message
  expect_some message (some a) = ok a

-- The `?` of a function with no state.
infixl 5 ◌>>=◌ ◌>>◌
abbrev pub ◌>>=◌ : {E A B : Type 0} → Result E A → (A → Result E B) → Result E B
ok a >>= f = f a
err e >>= f = err e
panic p >>= f = panic p

abbrev pub ◌>>◌ : {E B : Type 0} → Result E (Unit {0}) → Result E B → Result E B
m >> k = m >>= λ _. k

pub map_err-eq-ok :
    {E F A : Type 0} (f : E → F) (r : Result E A) {a : A} → map_err f r ≡ ok a → r ≡ ok a
map_err-eq-ok f (ok x) h = ground arith
map_err-eq-ok f (err e) h = cc
map_err-eq-ok f (panic p) h = cc

-- After `unwrap` no error is left, of whatever type.
pub expect-ne-err :
    {E F A : Type 0} (message : String) (r : Result E A) (e : F) → expect {F = F} message r ≢ err e
expect-ne-err message (ok a) e h = cc
expect-ne-err message (err x) e h = cc
expect-ne-err message (panic p) e h = cc

pub expect-eq-ok :
    {E F A : Type 0} (message : String) (r : Result E A) {a : A}
    → expect {F = F} message r ≡ ok a
    → r ≡ ok a
expect-eq-ok message (ok x) h = ground arith
expect-eq-ok message (err e) h = cc
expect-eq-ok message (panic p) h = cc

-- A chain succeeds exactly if its parts do.
pub >>=-iff :
    {E A B : Type 0} (m : Result E A) (f : A → Result E B) (b : B)
    → ((m >>= f) ≡ ok b) ↔ ((a : A) × (m ≡ ok a) × (f a ≡ ok b))
>>=-iff (ok a) f b = (λ h. (a, refl, h), λ e. ground arith)
>>=-iff (err e) f b = (λ h. cc, λ q. cc (q.1))
>>=-iff (panic p) f b = (λ h. cc, λ q. cc (q.1))

pub map_err_iff :
    {E F A : Type 0} (f : E → F) (r : Result E A) (a : A) → (map_err f r ≡ ok a) ↔ (r ≡ ok a)
map_err_iff f (ok x) a = (λ h. ground arith, λ h. ground arith)
map_err_iff f (err e) a = (λ h. cc, λ h. cc)
map_err_iff f (panic p) a = (λ h. cc, λ h. cc)
