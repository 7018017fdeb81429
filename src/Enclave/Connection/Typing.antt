-- ===== src/Enclave/Connection/Typing.antt =====
-- enclave/src/server.rs: each request has its kind of response.
use sp1_tee.Prelude.{ℕ, ◌≡◌, refl, false, ◌⊎◌, inl, inr, String, List, ◌++◌, some}
use sp1_tee.Result.{Result, ok, err, panic}
use sp1_tee.Common.Request.{
  print, get_public_key, get_encrypted_signing_key, attest_signing_key, execute, set_signing_key,
  close_session,
}
use sp1_tee.Common.Response.{type_of}
use sp1_tee.Common.Communication.{Transport, Codec}
use sp1_tee.Common.Communication.Laws.{PipeLaws, IsLive, IsFed}
use sp1_tee.Common.Communication.Sending.{frame}
use sp1_tee.Enclave.Platform.{Platform}
use sp1_tee.Enclave.Server
use sp1_tee.Enclave.Server.{Request, Response}
use sp1_tee.Enclave.Server.Typing.{IsOrError, IsSigned, attest_signing_key-kind, execute-kind}
use sp1_tee.Enclave.Connection.{ConnectionState, Session, handle_message}
use sp1_tee.Enclave.Connection.Answers.{Fits, answer, execution_answer, handle_message-answer}

module _ (pl : Platform) where
  -- The kind of response to each request, where it is no error: two requests are not implemented,
  -- and `close_session` has no response.
  abbrev pub reply_kind : Request pl → String
  reply_kind (print _) = "Ack"
  reply_kind get_public_key = "PublicKey"
  reply_kind attest_signing_key = "SigningKeyAttestation"
  reply_kind (execute _ _ _) = "SignedPublicValues"
  reply_kind _ = "Error"

  execution_answer-kind :
      (server : Server.Server pl) (o : Result ⊥ (Response pl))
      → IsSigned pl server o
      → IsOrError pl "SignedPublicValues" (execution_answer pl server o)
  unfolding execution_answer type_of
  execution_answer-kind server (ok r) h = h
  execution_answer-kind server (err e) h = absurd e
  execution_answer-kind server (panic p) h = inr refl

  IsOrError-some :
      (kind : String) (r r' : Response pl)
      → some r ≡ some r'
      → IsOrError pl kind r
      → IsOrError pl kind r'
  IsOrError-some kind r r' e h = let same : r ≡ r' = cc in rw (← same) h

  answer-kind :
      (server : Server.Server pl) (m : Request pl) (d : pl.Driver) (r : Response pl)
      → (answer pl server m d).0 ≡ some r
      → IsOrError pl (reply_kind m) r
  unfolding answer type_of
  answer-kind server (print _) d r e = IsOrError-some "Ack" _ r e (inl refl)
  answer-kind server get_public_key d r e = IsOrError-some "PublicKey" _ r e (inl refl)
  answer-kind server get_encrypted_signing_key d r e = IsOrError-some "Error" _ r e (inl refl)
  answer-kind server attest_signing_key d r e =
      IsOrError-some "SigningKeyAttestation" _ r e (attest_signing_key-kind pl server d)
  answer-kind server (execute stdin program limit) d r e =
      IsOrError-some "SignedPublicValues" _ r e (
        execution_answer-kind server (Server.execute pl server stdin program limit)
          (execute-kind pl server stdin program limit))
  answer-kind server (set_signing_key _) d r e = IsOrError-some "Error" _ r e (inl refl)
  answer-kind server close_session d r e = absurd (cc)

module _ (pl : Platform) (t : Transport) (p : PipeLaws t) (requests : Codec (Request pl))
    (responses : Codec (Response pl)) (live : IsLive t) (fed : IsFed t p)
    (server : Server.Server pl) (off : pl.debug_mode ≡ false) where
  -- On a stream whose writes go through and do not change what is to be read, without debug mode:
  -- for a message whose promised answer is there and fits in a frame, `handle_message` continues
  -- and writes one frame of a response that has the kind named for the message (`PublicKey` for
  -- `GetPublicKey`, `SigningKeyAttestation` for `AttestSigningKey`, `SignedPublicValues` for
  -- `Execute`, `Ack` for `Print`) or is an error.
  pub handle_message-kind :
      (m : Request pl) (s : Session pl t requests responses)
      → Fits pl responses (answer pl server m s.driver).0
      → let (outcome, s') = handle_message pl t requests responses server m s in
        (r : Response pl) × (bytes : List ℕ) × (outcome ≡ ok ConnectionState.continue)
        × (responses.serialize r ≡ ok bytes)
        × (p.sent s'.stream ≡ p.sent s.stream ++ frame bytes)
        × ((type_of r ≡ reply_kind pl m) ⊎ (type_of r ≡ "Error"))
  handle_message-kind m s (r, bytes, a, w, short) =
      let (goes, after) =
        handle_message-answer pl t p requests responses live fed server m r bytes s off a w short in
      (r, bytes, goes, w, after.sent, answer-kind pl server m s.driver r a)
