-- ===== src/Enclave/Server/Typing.antt =====
-- The kinds of response that attesting and executing give.
use sp1_tee.Prelude.{◌≡◌, refl, ◌⊎◌, inl, inr, Bool-cases, ℕ, String, List, Option, none, some, ltb}
use sp1_tee.Result.{Result, ok, err, panic, ErrorText, ◌>>=◌}
use sp1_tee.Common.Response.{type_of, signed_public_values, error}
use sp1_tee.Enclave.Platform.{Platform, NsmResponse, attestation, unexpected}
use sp1_tee.Enclave.Server.{
  Server, Response, max_allowed_cycles, attest_signing_key, attest_with, document_of, signed,
  executed, execute,
}

-- A response of the kind, or an error.
abbrev pub IsOrError : (pl : Platform) → String → Response pl → Type 0
IsOrError pl kind r = (type_of r ≡ kind) ⊎ (type_of r ≡ "Error")

module _ (pl : Platform) (server : Server pl) where
  document_of-kind : (r : NsmResponse) → IsOrError pl "SigningKeyAttestation" (document_of pl r)
  unfolding document_of type_of
  document_of-kind (attestation document) = inl refl
  document_of-kind unexpected = inr refl

  attest_with-kind :
      (o : Option ℕ) (d : pl.Driver)
      → IsOrError pl "SigningKeyAttestation" (attest_with pl server o d).0
  unfolding attest_with type_of
  attest_with-kind none d = inr refl
  attest_with-kind (some fd) d = document_of-kind _

  pub attest_signing_key-kind :
      (d : pl.Driver) → IsOrError pl "SigningKeyAttestation" (attest_signing_key pl server d).0
  unfolding attest_signing_key
  attest_signing_key-kind d = attest_with-kind (pl.nsm_init d).0 (pl.nsm_init d).1

  -- What an execution returns, if it does not panic.
  abbrev pub IsSigned : Result ⊥ (Response pl) → Type 0
  IsSigned (ok r) = IsOrError pl "SignedPublicValues" r
  IsSigned (err e) = ⊥
  IsSigned (panic p) = Unit {0}

  executed-kind :
      (vkey : List ℕ) (o : Result ErrorText (List ℕ)) → IsSigned (executed pl server vkey o)
  unfolding executed signed type_of
  executed-kind vkey (ok pv) = signature _
    where
      signature :
          (o : Option (pl.Signature × ℕ))
          → IsOrError pl "SignedPublicValues" (elim o [
            | some (signature, recovery_id) ↦ signed_public_values vkey pv signature recovery_id
            | none ↦ error "Failed to sign public values, this is a bug."
          ])
      signature (some (s, rid)) = inl refl
      signature none = inr refl
  executed-kind vkey (err e) = inr refl
  executed-kind vkey (panic p) = tt

  pub execute-kind :
      (stdin : pl.Stdin) (program : List ℕ) (limit : ℕ)
      → IsSigned (execute pl server stdin program limit)
  unfolding execute type_of
  execute-kind stdin program limit = elim (Bool-cases (ltb max_allowed_cycles limit)) [
    | inl too_high ↦ rw too_high (inr refl)
    | inr fine ↦ rw fine (set_up (pl.setup_vkey program))
  ]
    where
      set_up :
          (o : Result ⊥ (List ℕ))
          → IsSigned (o >>= λ vkey. executed pl server vkey (pl.run_program program stdin limit))
      set_up (ok vkey) = executed-kind vkey _
      set_up (err e) = e
      set_up (panic p) = tt
