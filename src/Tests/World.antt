-- ===== src/Tests/World.antt =====
-- A small prover, signer, security module and store, with the laws that the theorems ask for.
use sp1_tee.Prelude.{
  ℕ, zero, suc, ◌≡◌, refl, ap, true, false, List, [], ◌∷◌, ◌++◌, Option, none, some, arith, length,
  take, drop, take-append, drop-append, replicate, length-replicate,
}
use sp1_tee.Result.{ok}
use sp1_tee.Enclave.Platform.{Platform, NsmRequest, attestation}
use sp1_tee.Enclave.Server.{Server}
use sp1_tee.Enclave.Server.Attestation.{DriverLaws}
use sp1_tee.Host.Platform.{HostPlatform, PointLaws}
use sp1_tee.Host.Storage.{Storage, AttestationDoc}
use sp1_tee.Deployment.Signature.{Recovery}
use sp1_tee.Deployment.Attestation.{StorageLaws, DocumentLaws}

-- An optional field of a document, and reading it back.
abbrev pub field_bytes : Option (List ℕ) → List ℕ
field_bytes none = 0 ∷ []
field_bytes (some bytes) = 1 ∷ length bytes ∷ bytes

abbrev pub read_field : List ℕ → Option (List ℕ) × List ℕ
read_field (suc _ ∷ n ∷ rest) = (some (take n rest), drop n rest)
read_field (zero ∷ rest) = (none, rest)
read_field _ = (none, [])

read_field-field_bytes :
    (o : Option (List ℕ)) (rest : List ℕ) → read_field (field_bytes o ++ rest) ≡ (o, rest)
read_field-field_bytes none rest = refl
read_field-field_bytes (some bytes) rest = rw (take-append bytes rest, drop-append bytes rest)

abbrev pub document_of : NsmRequest → List ℕ
document_of r = field_bytes r.user_data ++ (field_bytes r.public_key ++ [])

abbrev pub read_document : List ℕ → AttestationDoc
read_document bytes =
    let (user_data, rest) = read_field bytes in
    let (key, _) = read_field rest in
    record { pcrs = λ _. some (170 ∷ []); user_data = user_data; public_key = key }

read_document-document_of :
    (r : NsmRequest)
    → read_document (document_of r)
      ≡ record { pcrs = λ _. some (170 ∷ []); user_data = r.user_data; public_key = r.public_key }
read_document-document_of r =
    rw (read_field-field_bytes r.user_data (field_bytes r.public_key ++ []))
      (rw (read_field-field_bytes r.public_key []))

abbrev coordinates : ℕ → List ℕ
coordinates k = replicate 64 k

-- A key is a number, and its point, its address and its signatures show it. Hashing is left out:
-- a digest is the message.
abbrev pub small : Platform
small = record {
  debug_mode = false;
  Stdin = ℕ;
  Point = ℕ;
  Signature = ℕ;
  SigningKey = ℕ;
  tee_version = 6;
  display = λ _. "a number";
  verifying_point = λ k. k;
  point_bytes = λ q. 4 ∷ coordinates q;
  keccak256 = λ bytes. bytes;
  sign_digest = λ k digest. some (k, 1);
  setup_vkey = λ program. ok (program ++ program);
  run_program = λ program stdin limit. ok (stdin ∷ limit ∷ []);
  join_error = λ message. message;
  Driver = List ℕ;
  nsm_init = λ d. (some 3, 3 ∷ d);
  nsm_process_request = λ fd r d. (attestation (document_of r), d);
  nsm_exit = λ fd d. drop 1 d;
}

abbrev pub server : Server small
server = record { args = record { enc_key_arn = "arn"; cid = none }; signing_key = 9 }

pub driver_laws : DriverLaws small
driver_laws = record {
  opened = λ d. d;
  init_fails = λ d e. cc;
  init_opens = λ d fd e. ground arith;
  process_keeps = λ fd r d. refl;
  exit_closes = λ fd fds d e. rw e;
}

abbrev pub host : HostPlatform small
host = record {
  is_identity = λ _. false;
  is_compact = λ _. false;
  is_compressed = λ _. false;
  from_raw_public_key = λ raw. take 20 raw;
  overflow_checks = true;
}

pub point_laws : PointLaws small host
point_laws = record {
  uncompressed = λ q _ _ _. (coordinates q, refl, length-replicate 64 q);
  key_not_identity = λ _. refl;
  key_not_compact = λ _. refl;
  key_not_compressed = λ _. refl;
}

unfoldable pub recovery : Recovery small host
recovery = record {
  ecrecover = λ digest v signature. take 20 (coordinates signature);
  recovers = λ k digest raw signature recovery_id signed low bytes.
      let key : k ≡ signature = cc in let point : coordinates k ≡ raw = cc in rw (← key, ← point);
  small_id = λ k digest signature recovery_id signed. ground arith;
}

-- A store of one object.
abbrev pub store : Storage
store = record {
  Objects = List ℕ;
  Body = List ℕ;
  put_object = λ bucket key body objects. (ok tt, body);
  get_object = λ bucket key objects. ok objects;
  collect = λ body. ok body;
  list_objects_v2 = λ bucket objects. ok (some (some "key" ∷ []));
  validate_and_parse = λ bytes. ok (read_document bytes);
  address_text = λ address. "address";
  parse_address = λ text. ok (take 20 (coordinates 9));
  hex_encode = λ bytes. "aa";
  without_0x = λ text. text;
  from_utf8 = λ bytes. ok "text";
  production = false;
}

pub store_laws : StorageLaws store
store_laws = record { get-put = λ bucket key bytes objects done. (bytes, refl, refl) }

pub document_laws : DocumentLaws small store
document_laws = record {
  image = 170 ∷ [];
  validates = λ fd r d document made.
      let same : document_of r ≡ document = cc in
      (
        read_document (document_of r),
        rw same,
        refl,
        ap (λ (doc : AttestationDoc). doc.user_data) (read_document-document_of r),
        ap (λ (doc : AttestationDoc). doc.public_key) (read_document-document_of r),
      );
}
