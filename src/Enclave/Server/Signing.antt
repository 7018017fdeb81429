-- ===== src/Enclave/Server/Signing.antt =====
-- `execute`: when the enclave signs, and what the signature covers.
use mathlib.Core.Path.{ap₂}
use sp1_tee.Prelude.{ℕ, String, ◌⊎◌, ◌≤◌, ◌≡◌, refl, ◌↔◌, List, [], ◌∷◌, ◌++◌, some, arith, length}
use sp1_tee.Result.{ok, panic}
use sp1_tee.Common.Response.{signed_public_values}
use sp1_tee.Enclave.Platform.{Platform}
use sp1_tee.Enclave.Server.{Server, signed_message, execute, max_allowed_cycles}

-- Two lists cut at one length are equal part by part.
append-injective {ℓ} :
    {A : Type ℓ} (xs ys : List A) {us vs : List A}
    → length xs ≡ length ys
    → xs ++ us ≡ ys ++ vs
    → (xs ≡ ys) × (us ≡ vs)
append-injective [] [] l e = (refl, e)
append-injective [] (y ∷ ys) l e = absurd (omega arith)
append-injective (x ∷ xs) [] l e = absurd (omega arith)
append-injective (x ∷ xs) (y ∷ ys) {us} {vs} l e =
    let heads : x ≡ y = cc in
    let tails : xs ++ us ≡ ys ++ vs = cc in
    let shorter : length xs ≡ length ys = omega arith in
    let (same, rest) = append-injective xs ys shorter tails in (ap₂ ◌∷◌ heads same, rest)

module _ (pl : Platform) (server : Server pl) where
  open pl use {Stdin, Signature, keccak256, sign_digest, setup_vkey, run_program}

  -- Why a signature was given.
  pub record Signs (stdin : Stdin) (program : List ℕ) (limit : ℕ) (vkey public_values : List ℕ)
      (signature : Signature) (recovery_id : ℕ) : Type 0 where
    pub within : limit ≤ max_allowed_cycles
    pub set_up : setup_vkey program ≡ ok vkey
    pub ran : run_program program stdin limit ≡ ok public_values
    pub signature_of :
        sign_digest server.signing_key (keccak256 (signed_message pl vkey public_values))
        ≡ some (signature, recovery_id)

  -- `execute` answers with signed public values exactly if the cycle limit is at most the maximum,
  -- the program's setup gives this key, its run with this input and limit gives these values, and
  -- the enclave's own key signs the hash of the signed message of both, with this signature and
  -- recovery id.
  pub execute-Signs :
      (stdin : Stdin) (program : List ℕ) (limit : ℕ) (vkey public_values : List ℕ)
      (signature : Signature) (recovery_id : ℕ)
      → (execute pl server stdin program limit
          ≡ ok (signed_public_values vkey public_values signature recovery_id))
        ↔ Signs stdin program limit vkey public_values signature recovery_id
  unfolding execute
  execute-Signs stdin program limit vkey pv sig rid = (
    λ h. record {
      within = ground arith;
      set_up = ground arith;
      ran = ground arith;
      signature_of = ground arith;
    },
    λ h. ground arith,
  )

  -- If `execute` panics, the cycle limit was allowed, and the panic is that of the program's setup,
  -- or that of its run after a setup that succeeded.
  pub execute_panics :
      (stdin : Stdin) (program : List ℕ) (limit : ℕ) (message : String)
      → execute pl server stdin program limit ≡ panic message
      → (limit ≤ max_allowed_cycles)
        × ((setup_vkey program ≡ panic message)
            ⊎ ((vkey : List ℕ) × (setup_vkey program ≡ ok vkey)
                × (run_program program stdin limit ≡ panic message)))
  unfolding execute
  execute_panics stdin program limit message h = ground arith

module _ (pl : Platform) where
  open pl use {keccak256}

  -- If two signed messages are equal and their program keys have equal lengths, then the program
  -- keys are equal, and so are the hashes of the public values.
  signed_message-injective :
      (vkey vkey' pv pv' : List ℕ)
      → length vkey ≡ length vkey'
      → signed_message pl vkey pv ≡ signed_message pl vkey' pv'
      → (vkey ≡ vkey') × (keccak256 pv ≡ keccak256 pv')
  unfolding signed_message
  signed_message-injective vkey vkey' pv pv' l e =
      append-injective vkey vkey' l (append-injective _ _ refl e).1
