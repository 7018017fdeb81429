-- ===== src/Host/Storage.antt =====
-- What attestations are stored in and checked with, none of it in the repository: S3's objects,
-- the validation of attestation documents, and the texts of addresses and bytes.
use sp1_tee.Prelude.{ℕ, String, Bool, List, Option}
use sp1_tee.Result.{Result, ErrorText}
use sp1_tee.Io.{Io}
use sp1_tee.Host.Platform.{Address}

-- The fields of a validated attestation document that the host reads.
pub record AttestationDoc : Type 0 where
  pub pcrs : ℕ → Option (List ℕ)
  pub user_data : Option (List ℕ)
  pub public_key : Option (List ℕ)

pub record Storage : Type 1 where
  pub Objects : Type 0
  pub Body : Type 0
  pub put_object : (bucket key : String) (body : List ℕ) → Io Objects ErrorText (Unit {0})
  pub get_object : (bucket key : String) → Objects → Result ErrorText Body
  -- the body's bytes, as they come over the network
  pub collect : Body → Result ErrorText (List ℕ)
  -- the listing's contents, if there are any, and each entry's key, if it has one
  pub list_objects_v2 :
      (bucket : String) → Objects → Result ErrorText (Option (List (Option String)))
  pub validate_and_parse : List ℕ → Result ErrorText AttestationDoc
  pub address_text : Address → String
  pub parse_address : String → Result ErrorText Address
  pub hex_encode : List ℕ → String
  -- `replace("0x", "")`
  pub without_0x : String → String
  pub from_utf8 : List ℕ → Result ErrorText String
  -- whether the program is built with the feature `production`
  pub production : Bool
