-- ===== src/Deployment/Signature.antt =====
-- host/bin/server.rs against enclave/src/server.rs: what stands behind the response that the host
-- returns for a request, and Ethereum's `ecrecover` on its signature.
use sp1_tee.Prelude.{
  ℕ, ◌+◌, ◌≤◌, ◌<◌, ◌≡◌, ap, ◌∙◌, sym, ◌⊎◌, inl, inr, ltb-cases, List, ◌∷◌, ◌++◌, some, arith,
}
use sp1_tee.Result.{ok}
use sp1_tee.Common.Bytes.{to_le_bytes}
use sp1_tee.Common.Request.{execute}
use sp1_tee.Common.Response.{
  public_key, encrypted_signing_key, signing_key_attestation, signed_public_values, error, ack,
}
use sp1_tee.Common.Communication.{Transport, Codec}
use sp1_tee.Common.Communication.Laws.{CodecLaws}
use sp1_tee.Enclave.Platform.{Platform}
use sp1_tee.Enclave.Server.{Request, Response, signed_message, max_allowed_cycles}
use sp1_tee.Enclave.Server.Signing.{Signs, execute-Signs}
use sp1_tee.Enclave.Connection.Answers.{answer, answer_signed}
use sp1_tee.Host.Platform.{Address, HostPlatform}
use sp1_tee.Host.Errors.{ServerError}
use sp1_tee.Host.Handlers.{TeeRequest, TeeResponse, execute_inner, tee_response, add_u8}
use sp1_tee.Deployment.Link.{Fits, Running, Linked}
use sp1_tee.Deployment.Handlers.{execute_inner_linked}

-- Ethereum's precompiled contract, which recovers for 27 and 28 only, and what a recoverable
-- signature of k256 promises to it, whose recovery id can also be 2 or 3.
pub record Recovery (pl : Platform) (h : HostPlatform pl) : Type 0 where
  pub ecrecover : (digest : List ℕ) (v : ℕ) → pl.Signature → Address
  pub recovers :
      (k : pl.SigningKey) (digest raw : List ℕ) (signature : pl.Signature) (recovery_id : ℕ)
      → pl.sign_digest k digest ≡ some (signature, recovery_id)
      → recovery_id < 2
      → pl.point_bytes (pl.verifying_point k) ≡ 4 ∷ raw
      → ecrecover digest (recovery_id + 27) signature ≡ h.from_raw_public_key raw
  pub small_id :
      (k : pl.SigningKey) (digest : List ℕ) (signature : pl.Signature) (recovery_id : ℕ)
      → pl.sign_digest k digest ≡ some (signature, recovery_id)
      → recovery_id < 4

module _ (pl : Platform) (h : HostPlatform pl) where
  -- The host makes a response out of signed public values only, and adds 27 to the recovery id.
  tee_response_ok :
      (r : Response pl) (resp : TeeResponse pl)
      → tee_response pl h r ≡ ok resp
      → (rid : ℕ) × (r ≡ signed_public_values resp.vkey resp.public_values resp.signature rid)
        × (add_u8 {E = ServerError} h.overflow_checks rid 27 ≡ ok resp.recovery_id)
  unfolding tee_response
  tee_response_ok (signed_public_values vkey pv sig rid) resp e = (rid, ground arith, ground arith)
  tee_response_ok (error _) resp e = cc
  tee_response_ok (public_key _) resp e = cc
  tee_response_ok (encrypted_signing_key _) resp e = cc
  tee_response_ok (signing_key_attestation _) resp e = cc
  tee_response_ok ack resp e = cc

  add_u8_small :
      (rid : ℕ) → rid < 4 → add_u8 {E = ServerError} h.overflow_checks rid 27 ≡ ok (rid + 27)
  unfolding add_u8
  add_u8_small rid small = ground arith

  -- A response of the host that stands for this request: the public values and the key of the
  -- program are what the prover gives for it, and the signature is this key's over both, with the
  -- hashed version, and is traced to this address by a chain that looks at its recovery id at all.
  pub record Attests (rec : Recovery pl h) (request : TeeRequest pl) (key : pl.SigningKey)
      (signer : Address) (resp : TeeResponse pl) : Type 0 where
    pub within : request.cycle_limit ≤ max_allowed_cycles
    pub vkey : pl.setup_vkey request.program ≡ ok resp.vkey
    pub ran :
        pl.run_program request.program request.stdin request.cycle_limit ≡ ok resp.public_values
    pub signed :
        (rid : ℕ) × (pl.sign_digest key (
            pl.keccak256 (
              pl.keccak256 (to_le_bytes pl.tee_version)
              ++ (resp.vkey ++ pl.keccak256 resp.public_values)))
          ≡ some (resp.signature, rid))
        × (resp.recovery_id ≡ rid + 27)
    pub traced :
        (28 < resp.recovery_id)
        ⊎ (rec.ecrecover
              (pl.keccak256 (
                pl.keccak256 (to_le_bytes pl.tee_version)
                ++ (resp.vkey ++ pl.keccak256 resp.public_values)))
              resp.recovery_id
              resp.signature
            ≡ signer)
    pub id_low : 27 ≤ resp.recovery_id
    pub id_high : resp.recovery_id ≤ 30

module _ (pl : Platform) (h : HostPlatform pl) (requests : Codec (Request pl))
    (request_laws : CodecLaws requests) (responses : Codec (Response pl))
    (response_laws : CodecLaws responses) (e : Running pl requests responses) (t : Transport)
    (link : Linked pl requests responses e t) (rec : Recovery pl h) (raw : List ℕ)
    (key : pl.point_bytes (pl.verifying_point e.server.signing_key) ≡ 4 ∷ raw) where
  -- For a host linked to a running enclave (`Linked`, `Running`: no write fails, no debug mode),
  -- lawful encodings, a request and an answer that each fit in one frame, and an enclave key whose
  -- point is the byte 4 and some coordinates: whenever `execute_inner` returns a response, the
  -- request's cycle limit is allowed, the key and the public values in the response are what the
  -- prover's setup and its run give for exactly this request, the returned signature is the enclave
  -- key's own over the hashed version, the key and the hashed public values, with a recovery id
  -- that is 27 less than the returned one, the returned recovery id is from 27 to 30, and it is 29
  -- or more or `ecrecover`, which recovers what k256 has signed for 27 and 28 only (`Recovery`),
  -- traces the signature to the address of the enclave's key.
  pub execute_inner-Attests :
      (cid : ℕ) (request : TeeRequest pl) (r : Response pl) (resp : TeeResponse pl)
      → (answer pl e.server (execute request.stdin request.program request.cycle_limit) e.driver).0
        ≡ some r
      → Fits requests (execute request.stdin request.program request.cycle_limit)
      → Fits responses r
      → (execute_inner pl h t requests responses cid request).0 ≡ ok resp
      → Attests pl h rec request e.server.signing_key (h.from_raw_public_key raw) resp
  unfolding signed_message
  execute_inner-Attests cid request r resp a fm fr done =
      let returned =
        execute_inner_linked pl h requests request_laws responses response_laws e t link cid request
          r a fm fr in
      let (rid, is_signed, v) = tee_response_ok pl h r resp (sym returned ∙ done) in
      let executed =
        (answer_signed pl e.server request.stdin request.program request.cycle_limit e.driver
            resp.vkey resp.public_values resp.signature rid).0
          (a ∙ ap some is_signed) in
      let signs =
        (execute-Signs pl e.server request.stdin request.program request.cycle_limit resp.vkey
            resp.public_values resp.signature rid).0
          executed in
      let small = rec.small_id _ _ _ _ signs.signature_of in
      let shifted : rid + 27 ≡ resp.recovery_id = cc (v, add_u8_small pl h rid small) in
      record {
        within = signs.within;
        vkey = signs.set_up;
        ran = signs.ran;
        signed = (rid, signs.signature_of, sym shifted);
        traced = elim (ltb-cases rid 2) [
          | inl low ↦ inr (rw (← shifted) (rec.recovers _ _ raw _ _ signs.signature_of low key))
          | inr high ↦ inl (omega arith)
        ];
        id_low = omega arith;
        id_high = omega arith;
      }

  -- For a host linked to a running enclave (`Linked`, `Running`), lawful encodings and an enclave
  -- key whose point is the byte 4 and some coordinates: if the cycle limit is allowed, the
  -- program's setup and its run succeed, the enclave's key signs, and request and answer fit in one
  -- frame each, then `execute_inner` returns exactly that key, those values and that signature,
  -- with the recovery id raised by 27, whether additions are checked for overflow or not.
  pub execute_inner_succeeds :
      (cid : ℕ) (request : TeeRequest pl) (vkey pv : List ℕ) (signature : pl.Signature) (rid : ℕ)
      → Signs pl e.server request.stdin request.program request.cycle_limit vkey pv signature rid
      → Fits requests (execute request.stdin request.program request.cycle_limit)
      → Fits responses (signed_public_values vkey pv signature rid)
      → (execute_inner pl h t requests responses cid request).0
        ≡ ok (record {
          vkey = vkey;
          public_values = pv;
          signature = signature;
          recovery_id = rid + 27;
        })
  unfolding tee_response
  execute_inner_succeeds cid request vkey pv signature rid signs fm fr =
      let executed =
        (execute-Signs pl e.server request.stdin request.program request.cycle_limit vkey pv
            signature rid).1
          signs in
      let small = rec.small_id _ _ _ _ signs.signature_of in
      execute_inner_linked pl h requests request_laws responses response_laws e t link cid request
        (signed_public_values vkey pv signature rid)
        ((answer_signed pl e.server request.stdin request.program request.cycle_limit e.driver vkey
            pv signature rid).1
          executed)
        fm fr
      ∙ rw (add_u8_small pl h rid small, tee_response)
