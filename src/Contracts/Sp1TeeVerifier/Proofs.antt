-- ===== src/Contracts/Sp1TeeVerifier/Proofs.antt =====
-- contracts/src/SP1TeeVerifier.sol: which proofs `verifyProof` accepts.
use sp1_tee.Prelude.{
  ℕ, ◌+◌, ◌-◌, ◌≤◌, ◌≡◌, ◌≢◌, ◌↔◌, ◌⊎◌, refl, sym, ap, ◌∙◌, true, false, List, ◌∷◌, ◌++◌, arith,
  length, take, drop, ltb, bytes_eq_iff, get_elem?, length-append, drop-drop, take_all,
  get_elem?-drop, take-append_of_length, drop-append_of_length,
}
use sp1_tee.Result.{Result, ok, map_err, ◌>>◌, >>=-iff, map_err_iff}
use sp1_tee.Contracts.SimpleOwnable.{zero_address}
use sp1_tee.Contracts.Sp1TeeVerifier.{
  State, Evm, VerifyError, is_signer, check_selector, byte_at, add_uint8, slice, message_hash,
  check_signer, gateway_reverted, verify_proof,
}

-- A proof: the selector, the recovery id, the two halves of the signature, the version after its
-- length, and the proof for the gateway.
pub record Layout : Type 0 where
  pub b₀ : ℕ
  pub b₁ : ℕ
  pub b₂ : ℕ
  pub b₃ : ℕ
  pub v : ℕ
  pub r : List ℕ
  pub s : List ℕ
  pub version : List ℕ
  pub rest : List ℕ

abbrev pub tail_of : Layout → List ℕ
tail_of p = length p.version ∷ (p.version ++ p.rest)

abbrev pub bytes_of : Layout → List ℕ
bytes_of p = p.b₀ ∷ p.b₁ ∷ p.b₂ ∷ p.b₃ ∷ p.v ∷ (p.r ++ (p.s ++ tail_of p))

-- Both halves have 32 bytes, and the version is not too long for the sum of two `uint8`.
pub record Fitting (p : Layout) : Type 0 where
  pub r_long : length p.r ≡ 32
  pub s_long : length p.s ≡ 32
  pub version_short : length p.version ≤ 185

module _ (evm : Evm) (state : State) where
  check_selector_iff :
      (bytes : List ℕ)
      → (check_selector evm state bytes ≡ ok tt) ↔ (take 4 bytes ≡ take 4 evm.verifier_hash)
  unfolding check_selector
  check_selector_iff bytes = (
    λ e. ground (arith, bytes_eq_iff (take 4 bytes) (take 4 evm.verifier_hash)),
    λ e. ground (arith, bytes_eq_iff (take 4 bytes) (take 4 evm.verifier_hash)),
  )

  -- What the contract asks of a signature.
  pub record Signed (digest : List ℕ) (v : ℕ) (r s : List ℕ) : Type 0 where
    pub recovery_id : (v ≡ 27) ⊎ (v ≡ 28)
    pub not_zero : evm.ecrecover digest v r s ≢ zero_address
    pub known : is_signer state (evm.ecrecover digest v r s) ≡ true

  check_signer_iff :
      (digest : List ℕ) (v : ℕ) (r s : List ℕ)
      → (check_signer evm state digest v r s ≡ ok tt) ↔ Signed digest v r s
  unfolding check_signer
  check_signer_iff digest v r s = (
    λ e. record {
      recovery_id = ground arith;
      not_zero = λ z. ground (arith, bytes_eq_iff (evm.ecrecover digest v r s) zero_address);
      known = ground arith;
    },
    λ q.
        let some_id = q.recovery_id in
        let other = q.not_zero in
        let listed = q.known in
        ground (arith, bytes_eq_iff (evm.ecrecover digest v r s) zero_address),
  )

  module _ (p : Layout) (fit : Fitting p) where
    open fit use {r_long, s_long, version_short}

    length_of : length (bytes_of p) ≡ 70 + (length p.version + length p.rest)
    length_of = omega (
      arith,
      length-append p.r (p.s ++ tail_of p),
      length-append p.s (tail_of p),
      length-append p.version p.rest,
    )

    after_r : drop 32 (p.r ++ (p.s ++ tail_of p)) ≡ p.s ++ tail_of p
    after_r = drop-append_of_length p.r (p.s ++ tail_of p) 32 r_long

    slice_r : slice (bytes_of p) 5 37 ≡ ok p.r
    unfolding slice
    slice_r =
        let long = length_of in
        let part = take-append_of_length p.r (p.s ++ tail_of p) 32 r_long in ground arith

    dropped_37 : drop 37 (bytes_of p) ≡ p.s ++ tail_of p
    dropped_37 = after_r

    dropped_69 : drop 69 (bytes_of p) ≡ tail_of p
    dropped_69 =
        drop-drop 37 32 (bytes_of p)
        ∙ ap (drop 32) dropped_37
        ∙ drop-append_of_length p.s (tail_of p) 32 s_long

    dropped_70 : drop 70 (bytes_of p) ≡ p.version ++ p.rest
    dropped_70 = drop-drop 69 1 (bytes_of p) ∙ ap (drop 1) dropped_69

    dropped_version : drop (70 + length p.version) (bytes_of p) ≡ p.rest
    dropped_version =
        drop-drop 70 (length p.version) (bytes_of p)
        ∙ ap (drop (length p.version)) dropped_70
        ∙ drop-append_of_length p.version p.rest (length p.version) refl

    slice_s : slice (bytes_of p) 37 69 ≡ ok p.s
    unfolding slice
    slice_s =
        let long = length_of in
        let part = take-append_of_length p.s (tail_of p) 32 s_long in rw dropped_37 (ground arith)

    version_len_at : byte_at (bytes_of p) 69 ≡ ok (length p.version)
    unfolding byte_at
    version_len_at =
        rw (get_elem?-drop 69 0 (bytes_of p) ∙ ap (λ (xs : List ℕ). get_elem? xs 0) dropped_69)

    version_end : add_uint8 70 (length p.version) ≡ ok (70 + length p.version)
    unfolding add_uint8
    version_end = ground arith

    slice_version : slice (bytes_of p) 70 (70 + length p.version) ≡ ok p.version
    unfolding slice
    slice_version =
        let long = length_of in
        let cut : 70 + length p.version - 70 ≡ length p.version = omega arith in
        let part = take-append_of_length p.version p.rest (length p.version) refl in
        rw (dropped_70, cut) (ground arith)

    slice_rest : slice (bytes_of p) (70 + length p.version) (length (bytes_of p)) ≡ ok p.rest
    unfolding slice
    slice_rest =
        let long = length_of in
        let cut : length (bytes_of p) - (70 + length p.version) ≡ length p.rest = omega arith in
        let part = take_all p.rest (length p.rest) refl in rw (dropped_version, cut) (ground arith)

    byte_at_4 : byte_at (bytes_of p) 4 ≡ ok p.v
    unfolding byte_at
    byte_at_4 = refl

    -- On such a proof only the selector, the signer and the gateway are left to fail.
    verify_proof-bytes_of :
        (vkey pv : List ℕ)
        → verify_proof evm state vkey pv (bytes_of p) ≡ (do
          check_selector evm state (bytes_of p)
          check_signer evm state (message_hash evm state vkey pv p.version) p.v p.r p.s
          map_err gateway_reverted (evm.gateway_verify_proof vkey pv p.rest))
    unfolding verify_proof
    verify_proof-bytes_of vkey pv =
        let enough : ltb (length (bytes_of p)) 70 ≡ false = let long = length_of in ground arith in
        let v_at : byte_at (bytes_of p) 4 ≡ ok p.v = byte_at_4 in
        rw (enough, v_at, slice_r, slice_s, version_len_at, version_end, slice_version, slice_rest)

    -- For proof bytes that are a selector, a recovery id, two halves of 32 bytes, a version of at
    -- most 185 bytes after its length, and a rest: `verifyProof` accepts exactly if the selector is
    -- that of the verifier's hash, the recovery id is 27 or 28, the signer recovered for the
    -- message hash is not zero and is in the map of signers, and the gateway accepts the rest.
    pub verify_proof_iff :
        (program_vkey public_values : List ℕ)
        → (verify_proof evm state program_vkey public_values (bytes_of p) ≡ ok tt) ↔ (
            (take 4 (bytes_of p) ≡ take 4 evm.verifier_hash)
            × Signed (message_hash evm state program_vkey public_values p.version) p.v p.r p.s
            × (evm.gateway_verify_proof program_vkey public_values p.rest ≡ ok tt))
    verify_proof_iff vkey pv =
        let selector = check_selector evm state (bytes_of p) in
        let signer =
          check_signer evm state (message_hash evm state vkey pv p.version) p.v p.r p.s in
        let gateway : Result VerifyError (Unit {0}) =
          map_err gateway_reverted (evm.gateway_verify_proof vkey pv p.rest) in
        (
          λ e.
              let (_, right, e') =
                (>>=-iff selector (λ _. signer >> gateway) tt).0
                  (sym (verify_proof-bytes_of vkey pv) ∙ e) in
              let (_, recovered, e'') = (>>=-iff signer (λ _. gateway) tt).0 e' in
              (
                (check_selector_iff (bytes_of p)).0 right,
                (check_signer_iff _ p.v p.r p.s).0 recovered,
                (map_err_iff gateway_reverted (evm.gateway_verify_proof vkey pv p.rest) tt).0 e'',
              ),
          λ q.
              let (right, recovered, accepted) = q in
              verify_proof-bytes_of vkey pv
              ∙ rw (
                (check_selector_iff (bytes_of p)).1 right,
                (check_signer_iff _ p.v p.r p.s).1 recovered,
                accepted,
              ),
        )
