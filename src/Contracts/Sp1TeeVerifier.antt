-- ===== src/Contracts/Sp1TeeVerifier.antt =====
-- contracts/src/SP1TeeVerifier.sol: the verifier of proofs that a registered enclave has signed.
-- Events are left out. The hash, the recovery of signers and the gateway are parameters.
pub mod Transactions
pub mod Proofs
use sp1_tee.Prelude.{
  ℕ, ◌+◌, ◌-◌, Bool, not, ◌==◌, ◌&&◌, ◌||◌, List, [], ◌∷◌, ◌++◌, Option, length, ltb, take, drop,
  bytes_eq, get_elem?, if◌then◌else◌,
}
use sp1_tee.Result.{Result, ok, err, panic, ErrorText, expect_some, map_err, ◌>>=◌, ◌>>◌}
use sp1_tee.Host.Platform.{Address}
use sp1_tee.Contracts.SignersMap
use sp1_tee.Contracts.SignersMap.{SignersMap}
use sp1_tee.Contracts.SimpleOwnable.{
  zero_address, construct_owner, only_owner, transfer_ownership, renounce_ownership,
}

pub record State : Type 0 where
  pub owner : Address
  pub signers_map : SignersMap

unfoldable pub construct : Address → Result ErrorText State
construct owner = do
  owner' ← construct_owner owner
  ok (record { owner = owner'; signers_map = SignersMap.empty_map })

module _ (msg_sender : Address) (s : State) where
  unfoldable pub add_signer : Address → Result ErrorText State
  add_signer signer = do
    only_owner s.owner msg_sender
    if bytes_eq signer zero_address
        then err "Signer cannot be the zero address"
        else (do m ← SignersMap.add_signer s.signers_map signer; ok (record s { signers_map = m }))

  unfoldable pub remove_signer : Address → Result ErrorText State
  remove_signer signer = do
    only_owner s.owner msg_sender
    m ← SignersMap.remove_signer s.signers_map signer
    ok (record s { signers_map = m })

unfoldable pub get_signers : State → List Address
get_signers s = SignersMap.get_signers s.signers_map

unfoldable pub is_signer : State → Address → Bool
is_signer s signer = SignersMap.is_signer s.signers_map signer

pub data VerifyError : Type 0 where
  wrong_verifier_selector : (received expected : List ℕ) → VerifyError
  invalid_signature : Address → VerifyError
  invalid_recovery_id : ℕ → VerifyError
  proof_bytes_too_short : (received_length expected_length : ℕ) → VerifyError
  gateway_reverted : ErrorText → VerifyError

pub record Evm : Type 0 where
  pub keccak256 : List ℕ → List ℕ
  pub ecrecover : (digest : List ℕ) (v : ℕ) (r s : List ℕ) → Address
  -- `VERIFIER_HASH`, the hash of the contract's name
  pub verifier_hash : List ℕ
  pub gateway_verify_proof :
      (program_vkey public_values proof_bytes : List ℕ) → Result ErrorText (Unit {0})

-- `proofBytes[i]`, and the sum of two `uint8`, each with its check.
pub byte_at : List ℕ → ℕ → Result VerifyError ℕ
byte_at bytes i = expect_some "array out-of-bounds access" (get_elem? bytes i)

pub add_uint8 : ℕ → ℕ → Result VerifyError ℕ
add_uint8 a b = if ltb 255 (a + b) then panic "arithmetic underflow or overflow" else ok (a + b)

-- `proofBytes[start:end]`, which reverts where the slice is out of bounds.
pub slice : List ℕ → (start end : ℕ) → Result VerifyError (List ℕ)
slice bytes start end =
    if ltb (length bytes) end || ltb end start
    then panic "slice out of bounds"
    else ok (take (end - start) (drop start bytes))

module _ (evm : Evm) (state : State) where
  pub check_selector : List ℕ → Result VerifyError (Unit {0})
  check_selector proof_bytes =
      let received = take 4 proof_bytes in
      let expected = take 4 evm.verifier_hash in
      if not (bytes_eq received expected)
      then err (wrong_verifier_selector received expected)
      else ok tt

  -- `message_hash`
  unfoldable pub message_hash : (program_vkey public_values version : List ℕ) → List ℕ
  message_hash program_vkey public_values version =
      evm.keccak256 (evm.keccak256 version ++ (program_vkey ++ evm.keccak256 public_values))

  pub check_signer : (digest : List ℕ) (v : ℕ) (r s : List ℕ) → Result VerifyError (Unit {0})
  check_signer digest v r s =
      if not (v == 27) && not (v == 28)
      then err (invalid_recovery_id v)
      else (let signer = evm.ecrecover digest v r s in
          if bytes_eq signer zero_address
          then err (invalid_signature signer)
          else if not (is_signer state signer)
          then err (invalid_signature signer)
          else ok tt)

  pub verify_proof :
      (program_vkey public_values proof_bytes : List ℕ) → Result VerifyError (Unit {0})
  verify_proof program_vkey public_values proof_bytes =
      if ltb (length proof_bytes) 70
      then err (proof_bytes_too_short (length proof_bytes) 70)
      else (do
        check_selector proof_bytes
        v ← byte_at proof_bytes 4
        r ← slice proof_bytes 5 37
        s ← slice proof_bytes 37 69
        version_len ← byte_at proof_bytes 69
        end ← add_uint8 70 version_len
        version ← slice proof_bytes 70 end
        check_signer (message_hash program_vkey public_values version) v r s
        rest ← slice proof_bytes end (length proof_bytes)
        map_err gateway_reverted (evm.gateway_verify_proof program_vkey public_values rest))
