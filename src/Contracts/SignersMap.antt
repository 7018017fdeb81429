-- ===== src/Contracts/SignersMap.antt =====
-- contracts/src/SignersMap.sol: the set of signers as an array with an index into it, out of which
-- a signer is removed by swap and pop.
pub mod Invariant
pub mod Refinement
pub mod Bag
use sp1_tee.Prelude.{
  ℕ, ◌-◌, ◌≡◌, Bool, true, false, not, ◌==◌, List, [], ◌∷◌, ◌++◌, Option, length, ltb, bytes_eq,
  get_elem?, set, drop_last, if◌then◌else◌,
}
use sp1_tee.Result.{Result, ok, err, panic, ErrorText, expect_some, ◌>>=◌}
use sp1_tee.Host.Platform.{Address}

pub record SignersMap : Type 0 where
  pub map : Address → Bool
  pub signers : List Address
  pub signer_index : Address → ℕ

-- A write to a mapping.
abbrev pub write : {A : Type 0} → (Address → A) → Address → A → Address → A
write f k v a = if bytes_eq a k then v else f a

-- Subtraction of unsigned numbers, an access and a write by index, and `pop`, each with its check.
pub checked_sub : ℕ → ℕ → Result ErrorText ℕ
checked_sub a b = if ltb a b then panic "arithmetic underflow or overflow" else ok (a - b)

pub at_index : List Address → ℕ → Result ErrorText Address
at_index xs i = expect_some "array out-of-bounds access" (get_elem? xs i)

pub store_at : List Address → ℕ → Address → Result ErrorText (List Address)
store_at xs i a = if ltb i (length xs) then ok (set xs i a) else panic "array out-of-bounds access"

pub pop : List Address → Result ErrorText (List Address)
pop xs = if length xs == 0 then panic "pop on an empty array" else ok (drop_last xs)

unfoldable pub empty_map : SignersMap
empty_map = record { map = λ _. false; signers = []; signer_index = λ _. 0 }

unfoldable pub add_signer : SignersMap → Address → Result ErrorText SignersMap
unfolding checked_sub
add_signer self signer = if self.map signer then err "Signer already exists" else (do
  let signers = self.signers ++ (signer ∷ [])
  index ← checked_sub (length signers) 1
  ok (record {
    map = write self.map signer true;
    signers = signers;
    signer_index = write self.signer_index signer index;
  }))

-- What is left to do once the map and the index have forgotten the signer.
pub swap_and_pop : SignersMap → (index_to_remove : ℕ) → Result ErrorText SignersMap
unfolding checked_sub at_index store_at pop
swap_and_pop self index_to_remove = do
  last ← checked_sub (length self.signers) 1
  if index_to_remove == last
      then (do signers ← pop self.signers; ok (record self { signers = signers }))
      else (do
        last_signer ← at_index self.signers last
        signers ← store_at self.signers index_to_remove last_signer
        popped ← pop signers
        ok (record {
          map = self.map;
          signers = popped;
          signer_index = write self.signer_index last_signer index_to_remove;
        }))

pub remove_signer : SignersMap → Address → Result ErrorText SignersMap
unfolding swap_and_pop
remove_signer self signer =
    if not (self.map signer)
    then err "Signer does not exist"
    else swap_and_pop
        (record {
          map = write self.map signer false;
          signers = self.signers;
          signer_index = write self.signer_index signer 0;
        })
        (self.signer_index signer)

unfoldable pub is_signer : SignersMap → Address → Bool
is_signer self signer = self.map signer

pub get_signers : SignersMap → List Address
get_signers self = self.signers

pub get_signers_length : SignersMap → ℕ
get_signers_length self = length self.signers
