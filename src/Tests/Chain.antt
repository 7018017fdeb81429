-- ===== src/Tests/Chain.antt =====
-- The contracts with one or two signers, and a proof of the small world on their chain.
use sp1_tee.Prelude.{
  false, ◌≡◌, ◌≢◌, ◌↔◌, refl, true, List, [], ◌∷◌, arith, replicate, take, bytes_eq, bytes_eq_iff,
}
use sp1_tee.Result.{ok}
use sp1_tee.Common.Bytes.{to_le_bytes}
use sp1_tee.Host.Platform.{Address}
use sp1_tee.Contracts.SignersMap.{SignersMap, empty_map, add_signer, remove_signer, is_signer}
use sp1_tee.Contracts.SignersMap.Invariant.{IsValid, empty_map-IsValid, added, added-IsValid}
use sp1_tee.Contracts.SignersMap.Refinement.{Removed, remove_signer-Removed}
use sp1_tee.Contracts.SignersMap.Bag.{bag, add_signer-remove_signer}
use sp1_tee.Contracts.Sp1TeeVerifier
use sp1_tee.Contracts.Sp1TeeVerifier.{State, Evm, construct, message_hash, verify_proof}
use sp1_tee.Contracts.Sp1TeeVerifier.Transactions.{
  Call, add_signer_call, remove_signer_call, run, run-IsValid,
}
use sp1_tee.Contracts.Sp1TeeVerifier.Transactions.Abstract.{registry_of, steps, registry_of-run}
use sp1_tee.Contracts.Sp1TeeVerifier.Proofs.{Layout, bytes_of, Fitting, Signed, verify_proof_iff}
use sp1_tee.Contracts.SimpleOwnable.{zero_address, construct_owner}
use sp1_tee.Deployment.Proof.{Carries, verify_proof-execute_inner}
use sp1_tee.Tests.World.{small, host, recovery}
use sp1_tee.Tests.Encoding.{requests, request_laws, responses, response_laws}
use sp1_tee.Tests.Sockets.{running, served, linked}
use sp1_tee.Tests.Deployed.{
  request, response, signed_response, answered, fits_executing, fits_signed, returned,
}

abbrev one : Address
one = 1 ∷ []

abbrev pub nine : Address
nine = replicate 20 9

abbrev one_signer : SignersMap
one_signer = added empty_map one

abbrev two_signers : SignersMap
two_signers = added one_signer nine

one_signer-IsValid : IsValid one_signer
unfolding empty_map
one_signer-IsValid = added-IsValid one empty_map-IsValid refl

two_signers-IsValid : IsValid two_signers
unfolding empty_map bytes_eq
two_signers-IsValid = added-IsValid nine one_signer-IsValid refl

-- the first of two, so that the last takes its place
remove_signer-Removed_example :
    (m' : SignersMap) × (remove_signer two_signers one ≡ ok m') × Removed two_signers one m'
unfolding empty_map bytes_eq is_signer
remove_signer-Removed_example = remove_signer-Removed two_signers one two_signers-IsValid refl

add_signer-remove_signer_example :
    (removed m : SignersMap) × (remove_signer two_signers one ≡ ok removed)
    × (add_signer removed one ≡ ok m)
    × IsValid m
    × (bag m ≡ bag two_signers)
    × (is_signer m nine ≡ is_signer two_signers nine)
unfolding empty_map bytes_eq is_signer
add_signer-remove_signer_example =
    add_signer-remove_signer two_signers one nine two_signers-IsValid refl

abbrev calls : List (Address × Call)
calls = (one, add_signer_call nine) ∷ (nine, remove_signer_call nine) ∷ []

abbrev start : State
start = record { owner = one; signers_map = empty_map }

run-IsValid_example : IsValid (run calls start).signers_map
unfolding construct construct_owner bytes_eq
run-IsValid_example = run-IsValid one start calls refl

registry_of-run_example :
    registry_of (run calls start) ≡ steps calls (record { owner = one; members = λ a. false })
unfolding construct construct_owner bytes_eq
registry_of-run_example = registry_of-run one start calls refl

abbrev pub chain : Evm
chain = record {
  keccak256 = λ bytes. bytes;
  ecrecover = λ digest v r s. take 20 r;
  verifier_hash = 1 ∷ 2 ∷ 3 ∷ 4 ∷ 5 ∷ [];
  gateway_verify_proof = λ vkey pv rest. ok tt;
}

abbrev pub proof : Layout
proof = record {
  b₀ = 1;
  b₁ = 2;
  b₂ = 3;
  b₃ = 4;
  v = 28;
  r = replicate 32 9;
  s = replicate 32 9;
  version = to_le_bytes 6;
  rest = 7 ∷ [];
}

abbrev registered : State
registered = record { owner = one; signers_map = two_signers }

fitting : Fitting proof
unfolding to_le_bytes
fitting = record { r_long = refl; s_long = refl; version_short = omega arith }

verify_proof_iff_example :
    (verify_proof chain registered (7 ∷ 7 ∷ []) (5 ∷ 100 ∷ []) (bytes_of proof) ≡ ok tt) ↔ (
      (take 4 (bytes_of proof) ≡ take 4 chain.verifier_hash)
      × Signed chain registered
          (message_hash chain registered (7 ∷ 7 ∷ []) (5 ∷ 100 ∷ []) proof.version)
          28
          proof.r
          proof.s
      × (chain.gateway_verify_proof (7 ∷ 7 ∷ []) (5 ∷ 100 ∷ []) (7 ∷ []) ≡ ok tt))
verify_proof_iff_example =
    verify_proof_iff chain registered proof fitting (7 ∷ 7 ∷ []) (5 ∷ 100 ∷ [])

pub carries : Carries small host recovery chain proof response
unfolding recovery
carries = record {
  fits = fitting;
  selector = refl;
  recovery_id = refl;
  version = refl;
  hashes = λ bytes. refl;
  signature = λ digest v. refl;
}

pub not_zero : nine ≢ zero_address
unfolding bytes_eq
not_zero e = cc ((bytes_eq_iff nine zero_address).1 e)

nine-registered : Sp1TeeVerifier.is_signer registered nine ≡ true
unfolding Sp1TeeVerifier.is_signer is_signer bytes_eq
nine-registered = refl

verify_proof-execute_inner_example :
    verify_proof chain registered (7 ∷ 7 ∷ []) (5 ∷ 100 ∷ []) (bytes_of proof) ≡ ok tt
verify_proof-execute_inner_example =
    verify_proof-execute_inner small host requests request_laws responses response_laws running
      served linked recovery (replicate 64 9) refl chain 10 request signed_response response
      registered proof answered fits_executing fits_signed returned carries nine-registered not_zero
      (omega arith) refl
