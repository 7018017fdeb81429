-- ===== src/Tests/Registration.antt =====
-- Signers of the small store: those listed, and those registered with a contract that is a list.
use mathlib.Core.List.{Memᴰ}
use mathlib.Core.List.Memᴰ
use mathlib.Core.List.Memᴰ.{head, tail}
use sp1_tee.Prelude.{
  none, ℕ, ◌≡◌, ◌↔◌, ◌⊎◌, inl, inr, refl, String, Bool, true, false, Bool-cases, List, [], ◌∷◌,
  ◌++◌, Option, some, arith, replicate, bytes_eq, bytes_eq_iff, if◌then◌else◌,
}
use sp1_tee.Result.{ok}
use sp1_tee.Common.Bytes.{to_le_bytes}
use sp1_tee.Common.Communication.{Codec}
use sp1_tee.Host.Platform.{Address}
use sp1_tee.Host.Address.{ethereum_address_from_sec1_bytes}
use sp1_tee.Host.Attestations.{RawAttestation, s3_bucket, verify_attestation}
use sp1_tee.Host.Attestations.Listing.{Fetched}
use sp1_tee.Host.Signers.{get_signers}
use sp1_tee.Host.Signers.Selection.{Selected, get_signers_iff}
use sp1_tee.Host.Setup.{Verifier, SetupArgs, add_signers}
use sp1_tee.Host.Setup.Genuine.{Genuine}
use sp1_tee.Host.Setup.Registration.{VerifierLaws, add_signers-Genuine}
use sp1_tee.Contracts.SignersMap
use sp1_tee.Contracts.SimpleOwnable.{only_owner}
use sp1_tee.Contracts.Sp1TeeVerifier
use sp1_tee.Contracts.Sp1TeeVerifier.{State}
use sp1_tee.Deployment.Registration.{verifier, is_signer-add_signers}
use sp1_tee.Tests.World.{small, host, store, read_document, field_bytes}

-- The bytes of the addresses, one after the other.
abbrev flat : List Address → List ℕ
flat [] = []
flat (x ∷ xs) = x ++ flat xs

abbrev addresses : Codec (List Address)
addresses = record { serialize = λ xs. ok (flat xs); deserialize = λ bytes. ok [] }

-- A document of this version and the key 9.
abbrev pub current : List ℕ
current = field_bytes (some (6 ∷ 0 ∷ 0 ∷ 0 ∷ [])) ++ field_bytes (some (4 ∷ replicate 64 9))

abbrev pub nine : Address
nine = replicate 20 9

get_signers_iff_example : (get_signers store small host addresses current ≡ ok (nine ++ [])) ↔ (
    (keys : List (Option String)) × (raws : List RawAttestation) × (signers : List Address)
    × (store.list_objects_v2 (s3_bucket store) current ≡ ok (some keys))
    × Fetched store current keys raws
    × Selected store small host raws signers
    × (addresses.serialize signers ≡ ok (nine ++ [])))
get_signers_iff_example = get_signers_iff store small host addresses current (nine ++ [])

abbrev holds : Address → List Address → Bool
holds a [] = false
holds a (x ∷ xs) = if bytes_eq a x then true else holds a xs

abbrev pub contract : Verifier
contract = record {
  Chain = List Address;
  Pending = Address;
  is_signer = λ a c. ok (holds a c);
  add_signer = λ a c. (ok a, c);
  watch = λ p c. (ok tt, p ∷ c);
  hex_decode = λ text. ok (170 ∷ []);
}

abbrev pub args : SetupArgs
args = record {
  deploy = true;
  anvil = false;
  rpc_url = "https://rpc";
  private_key = none;
  etherscan_api_key = some "api";
  etherscan_url = none;
  pcr0 = some "aa";
  register_signers = true;
  verifier_gateway = none;
}

pub holds-Mem : (a : Address) (c : List Address) → holds a c ≡ true → Memᴰ a c
holds-Mem a [] e = absurd (cc)
holds-Mem a (x ∷ xs) e = elim (Bool-cases (bytes_eq a x)) [
  | inl same ↦ head ((bytes_eq_iff a x).0 same)
  | inr other ↦ tail (holds-Mem a xs (rw other at e))
]

abbrev pub contract_laws : VerifierLaws contract
contract_laws = record {
  Signs = λ c x. Memᴰ x c;
  known = λ a c e. holds-Mem a c (ground arith);
  sent_keeps = λ a x c s. s;
  sent_only = λ a x c s. inl s;
  Reverted = λ c x. ⊥;
  watched = λ a c p e done. let same : a ≡ p = ground arith in inl (head same);
  sent_reverted = λ a x c never. never;
  watched_reverted = λ p x c never. never;
  watched_keeps = λ p x c s. tail s;
  watched_only = λ a x c c' p e s.
      let same : a ≡ p = ground arith in
      elim (Memᴰ.cases_cons s) [ inl new ↦ inr (rw same new) | inr old ↦ inl old ];
}

abbrev listed : List RawAttestation
listed = record { address = nine; attestation = current } ∷ []

abbrev after : List Address
after = (add_signers store small host contract args listed []).1

nine_after : Memᴰ nine after
unfolding add_signers verify_attestation bytes_eq to_le_bytes ethereum_address_from_sec1_bytes
nine_after = head refl

add_signers-Genuine_example :
    Memᴰ nine []
    ⊎ ((raw : RawAttestation) × Memᴰ raw listed
        × Genuine store small host contract args raw
        × (nine ≡ raw.address))
add_signers-Genuine_example =
    add_signers-Genuine store small host contract args contract_laws listed nine [] nine_after

-- The contract when its owner has just made it.
abbrev pub fresh : State
fresh = record { owner = nine; signers_map = SignersMap.empty_map }

is_signer-add_signers_example :
    Sp1TeeVerifier.is_signer
      (add_signers store small host (verifier nine contract.hex_decode) args listed fresh).1
      nine
    ≡ true
is_signer-add_signers_example =
    is_signer-add_signers nine contract.hex_decode store small host args listed
      (record { address = nine; attestation = current }) (read_document current) fresh refl
      (head refl) refl
      (unfold add_signers verify_attestation bytes_eq to_le_bytes ethereum_address_from_sec1_bytes
          Sp1TeeVerifier.add_signer Sp1TeeVerifier.is_signer only_owner SignersMap.add_signer
          SignersMap.is_signer SignersMap.empty_map in
        refl)
