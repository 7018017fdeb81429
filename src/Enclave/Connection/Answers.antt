-- ===== src/Enclave/Connection/Answers.antt =====
-- One message: which answer goes back to the host.
use sp1_tee.Prelude.{
  ℕ, ◌≤◌, ◌≡◌, refl, ◌≢◌, ◌↔◌, ap, ◌∙◌, false, List, [], ◌∷◌, ◌++◌, Option, none, some, length,
  concat,
}
use sp1_tee.Result.{Result, ok, err, panic}
use sp1_tee.Io.{Io, pure, ◌>>◌}
use sp1_tee.Common.Bytes.{u32_max}
use sp1_tee.Common.Request.{
  print, get_public_key, get_encrypted_signing_key, attest_signing_key, execute, set_signing_key,
  close_session,
}
use sp1_tee.Common.Response.{public_key, signed_public_values, error, ack}
use sp1_tee.Common.Communication.{Transport, Codec}
use sp1_tee.Common.Communication.Laws.{PipeLaws, IsLive, IsFed}
use sp1_tee.Common.Communication.Sending.{frame, send_live, send_keep}
use sp1_tee.Enclave.Platform.{Platform}
use sp1_tee.Enclave.Server
use sp1_tee.Enclave.Server.{Request, Response}
use sp1_tee.Enclave.Connection.{ConnectionState, Stop, Session, send_unwrap, joined, handle_message}

-- The answer that the protocol promises, and what attesting does to the driver.
module _ (pl : Platform) (server : Server.Server pl) where
  open pl use {Driver}

  unfoldable pub execution_answer : Result ⊥ (Response pl) → Response pl
  execution_answer (ok response) = response
  execution_answer (err e) = absurd e
  execution_answer (panic p) =
      error (concat ("Join error when executing program: " ∷ pl.join_error p ∷ []))

  -- Signed public values are the answer only if the execution gave them.
  execution_answer-signed :
      (o : Result ⊥ (Response pl)) (vkey pv : List ℕ) (sig : pl.Signature) (rid : ℕ)
      → execution_answer o ≡ signed_public_values vkey pv sig rid
      → o ≡ ok (signed_public_values vkey pv sig rid)
  unfolding execution_answer
  execution_answer-signed (ok r) vkey pv sig rid h = ap ok h
  execution_answer-signed (err x) vkey pv sig rid h = absurd x
  execution_answer-signed (panic p) vkey pv sig rid h = cc

  unfoldable pub answer : Request pl → Driver → Option (Response pl) × Driver
  unfolding execution_answer
  answer (print _) d = (some ack, d)
  answer get_public_key d = (some (public_key (pl.verifying_point server.signing_key)), d)
  answer attest_signing_key d =
      let (response, d') = Server.attest_signing_key pl server d in (some response, d')
  answer (execute stdin program limit) d =
      (some (execution_answer (Server.execute pl server stdin program limit)), d)
  answer get_encrypted_signing_key d = (some (error "Not implemented"), d)
  answer (set_signing_key _) d = (some (error "Not implemented"), d)
  answer close_session d = (none, d)

  -- A conversation: the answers to the messages up to the first `close_session`.
  unfoldable pub answers : List (Request pl) → Driver → List (Response pl) × Driver
  unfolding answer
  answers [] d = ([], d)
  answers (m ∷ ms) d =
      let (o, d') = answer m d in
      let (rs, d'') = answers ms d' in elim o [ none ↦ ([], d') | some r ↦ (r ∷ rs, d'') ]

-- A response that is there and fits in a frame.
abbrev pub Fits : (pl : Platform) → Codec (Response pl) → Option (Response pl) → Type 0
Fits pl responses o =
    (r : Response pl) × (bytes : List ℕ) × (o ≡ some r)
    × (responses.serialize r ≡ ok bytes)
    × (length bytes ≤ u32_max)

-- Every message but `close_session` has an answer.
pub answer-some :
    (pl : Platform) (server : Server.Server pl) (m : Request pl) (d : pl.Driver)
    → m ≢ close_session
    → (r : Response pl) × ((answer pl server m d).0 ≡ some r)
unfolding answer
answer-some pl server (print _) d h = (_, refl)
answer-some pl server get_public_key d h = (_, refl)
answer-some pl server get_encrypted_signing_key d h = (_, refl)
answer-some pl server attest_signing_key d h = (_, refl)
answer-some pl server (execute stdin program limit) d h = (_, refl)
answer-some pl server (set_signing_key _) d h = (_, refl)
answer-some pl server close_session d h = absurd (h refl)

pub answers-cons :
    (pl : Platform) (server : Server.Server pl) (m : Request pl) (ms : List (Request pl))
    (d : pl.Driver) (r : Response pl)
    → (answer pl server m d).0 ≡ some r
    → let (rs, d') = answers pl server ms (answer pl server m d).1 in
      answers pl server (m ∷ ms) d ≡ (r ∷ rs, d')
unfolding answers
answers-cons pl server m ms d r e = rw (e, answers)

-- The host gets signed public values exactly if the execution of its request gave them.
pub answer_signed :
    (pl : Platform) (server : Server.Server pl) (stdin : pl.Stdin) (program : List ℕ) (limit : ℕ)
    (d : pl.Driver) (vkey pv : List ℕ) (sig : pl.Signature) (rid : ℕ)
    → ((answer pl server (execute stdin program limit) d).0
        ≡ some (signed_public_values vkey pv sig rid))
      ↔ (Server.execute pl server stdin program limit ≡ ok (signed_public_values vkey pv sig rid))
unfolding answer
answer_signed pl server stdin program limit d vkey pv sig rid =
    (λ h. execution_answer-signed pl server _ vkey pv sig rid (cc), λ h. rw h)

joined-eq :
    (pl : Platform) (t : Transport) (requests : Codec (Request pl))
    (responses : Codec (Response pl)) (server : Server.Server pl) (outcome : Result ⊥ (Response pl))
    → joined pl t requests responses "Join error when executing program: " outcome
      ≡ execution_answer pl server outcome
unfolding joined execution_answer
joined-eq pl t requests responses server (ok r) = refl
joined-eq pl t requests responses server (err e) = absurd e
joined-eq pl t requests responses server (panic m) = refl

module _ (pl : Platform) (t : Transport) (p : PipeLaws t) (requests : Codec (Request pl))
    (responses : Codec (Response pl)) (live : IsLive t) (fed : IsFed t p) where
  -- The session after an answer of these bytes.
  pub record Answered (s : Session pl t requests responses) (bytes : List ℕ) (d : pl.Driver)
      (s' : Session pl t requests responses) : Type 0 where
    pub sent : p.sent s'.stream ≡ p.sent s.stream ++ frame bytes
    pub pending : p.pending s'.stream ≡ p.pending s.stream
    pub driver : s'.driver ≡ d

  pub send_unwrap_lem :
      (r : Response pl) (bytes : List ℕ) (s : Session pl t requests responses)
      → responses.serialize r ≡ ok bytes
      → length bytes ≤ u32_max
      → ((send_unwrap pl t requests responses r s).0 ≡ ok tt)
        × Answered s bytes s.driver (send_unwrap pl t requests responses r s).1
  unfolding send_unwrap
  send_unwrap_lem r bytes s e h =
      let (done, sent) = send_live t responses p live r bytes s.stream e h in
      let kept = send_keep t responses p.pending fed.pending-write_all r s.stream in
      rw done (refl, record { sent = sent; pending = kept; driver = refl })

  -- An answer is written, and the loop goes on.
  abbrev respond : Response pl → Io (Session pl t requests responses) Stop ConnectionState
  respond r = do send_unwrap pl t requests responses r; pure ConnectionState.continue

  respond_lem :
      (r : Response pl) (bytes : List ℕ) (s : Session pl t requests responses)
      → responses.serialize r ≡ ok bytes
      → length bytes ≤ u32_max
      → ((respond r s).0 ≡ ok ConnectionState.continue) × Answered s bytes s.driver (respond r s).1
  respond_lem r bytes s e h =
      let (done, after) = send_unwrap_lem r bytes s e h in rw done (refl, after)

  -- The same for the response that the protocol names, at the driver that it leaves.
  respond_answer :
      (r r' : Response pl) (bytes : List ℕ) (s : Session pl t requests responses)
      → some r ≡ some r'
      → responses.serialize r' ≡ ok bytes
      → length bytes ≤ u32_max
      → ((respond r s).0 ≡ ok ConnectionState.continue) × Answered s bytes s.driver (respond r s).1
  respond_answer r r' bytes s same e h =
      let same' : r ≡ r' = cc in respond_lem r bytes s (rw same' e) h

  -- On a stream whose writes go through and do not change what is to be read, without debug mode: a
  -- message with a promised answer, which every message but `close_session` has, makes
  -- `handle_message` write just the frame of that answer, if it fits in one, take the driver where
  -- the answer leaves it, and continue.
  pub handle_message-answer :
      (server : Server.Server pl) (m : Request pl) (r : Response pl) (bytes : List ℕ)
      (s : Session pl t requests responses)
      → pl.debug_mode ≡ false
      → (answer pl server m s.driver).0 ≡ some r
      → responses.serialize r ≡ ok bytes
      → length bytes ≤ u32_max
      → let (outcome, s') = handle_message pl t requests responses server m s in
        (outcome ≡ ok ConnectionState.continue)
        × Answered s bytes (answer pl server m s.driver).1 s'
  unfolding handle_message answer Server.get_public_key
  handle_message-answer server (print _) r bytes s off a e h =
      rw off (respond_answer ack r bytes s a e h)
  handle_message-answer server get_public_key r bytes s off a e h = respond_answer _ r bytes s a e h
  handle_message-answer server get_encrypted_signing_key r bytes s off a e h =
      respond_answer _ r bytes s a e h
  handle_message-answer server attest_signing_key r bytes s off a e h =
      let (response, d) = Server.attest_signing_key pl server s.driver in
      let (done, after) = respond_answer response r bytes (record s { driver = d }) a e h in
      (done, record { sent = after.sent; pending = after.pending; driver = after.driver })
  handle_message-answer server (execute stdin program limit) r bytes s off a e h =
      let outcome = Server.execute pl server stdin program limit in
      respond_answer (joined pl t requests responses "Join error when executing program: " outcome)
        r bytes s (ap some (joined-eq pl t requests responses server outcome) ∙ a) e h
  handle_message-answer server (set_signing_key _) r bytes s off a e h =
      respond_answer _ r bytes s a e h
  handle_message-answer server close_session r bytes s off a e h = cc

-- `close_session` ends the loop, without an answer.
pub handle_message-close :
    (pl : Platform) (t : Transport) (requests : Codec (Request pl))
    (responses : Codec (Response pl)) (server : Server.Server pl)
    (s : Session pl t requests responses)
    → handle_message pl t requests responses server close_session s ≡ (ok ConnectionState.close, s)
unfolding handle_message
handle_message-close pl t requests responses server s = refl
