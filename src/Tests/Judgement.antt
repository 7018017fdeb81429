-- ===== src/Tests/Judgement.antt =====
-- Verdicts on stored documents, at the one object of the small store.
use text.Mathlib.TextEquality.{eq_iff}
use sp1_tee.Prelude.{
  ℕ, ◌≡◌, ◌≢◌, ◌↔◌, refl, String, List, [], ◌∷◌, ◌++◌, Option, none, some, arith, replicate,
}
use sp1_tee.Result.{ok}
use sp1_tee.Host.Platform.{Address}
use sp1_tee.Host.Attestations.{get_raw_attestations, s3_bucket}
use sp1_tee.Host.Attestations.Verification.{Stored}
use sp1_tee.Host.Attestations.Listing.{Fetched, get_raw_attestations_iff}
use sp1_tee.Host.ValidateSigners.{skipped, validate_contract}
use sp1_tee.Host.ValidateSigners.Judgement.{
  Judged, validate_contract_iff, validate_contract_other_image,
}
use sp1_tee.Tests.World.{small, host, store, read_document, field_bytes}

abbrev signer : Address
signer = replicate 20 9

-- A document for another version.
abbrev old : List ℕ
old = field_bytes (some (5 ∷ 0 ∷ [])) ++ field_bytes none

abbrev show : ℕ → String
show n = "a number"

Stored-old : Stored store show small host old signer (read_document old)
Stored-old = record { body = old; bytes = old; got = refl; read = refl; valid = refl }

bb_other : ◌≢◌ {A = String} "aa" "bb"
bb_other h = ground (arith, (eq_iff "aa" "bb").1 h)

get_raw_attestations_iff_example :
    (get_raw_attestations store (1 ∷ [])
      ≡ ok (record { address = signer; attestation = 1 ∷ [] } ∷ []))
    ↔ ((keys : List (Option String)) × (store.list_objects_v2 (s3_bucket store) (1 ∷ [])
          ≡ ok (some keys))
        × Fetched store (1 ∷ []) keys (record { address = signer; attestation = 1 ∷ [] } ∷ []))
get_raw_attestations_iff_example =
    get_raw_attestations_iff store (1 ∷ []) (record { address = signer; attestation = 1 ∷ [] } ∷ [])

validate_contract_iff_example :
    (validate_contract store show small host old 6 "aa" (signer ∷ []) ≡ ok ((signer, skipped) ∷ []))
    ↔ Judged store show small host old 6 "aa" (signer ∷ []) ((signer, skipped) ∷ [])
validate_contract_iff_example =
    validate_contract_iff store show small host old 6 "aa" (signer ∷ []) ((signer, skipped) ∷ [])

validate_contract_other_image_example :
    validate_contract store show small host old 6 "bb" ([] ++ (signer ∷ []))
    ≢ ok ((signer, skipped) ∷ [])
validate_contract_other_image_example =
    validate_contract_other_image store show small host old 6 "bb" [] [] signer (read_document old)
      (170 ∷ []) ((signer, skipped) ∷ []) Stored-old refl bb_other
