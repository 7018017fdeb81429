-- ===== src/Enclave/Connection/Loop.antt =====
-- enclave/src/server.rs: `handle_connection` on a whole conversation.
use sp1_tee.Prelude.{
  ℕ, zero, suc, ◌≤◌, ◌<◌, ◌≡◌, refl, ◌≢◌, ap, ◌∙◌, sym, false, List, [], ◌∷◌, ◌++◌, append_assoc,
  append-nil, some, arith, length,
}
use sp1_tee.Result.{ok}
use sp1_tee.Io.{Io, ◌>>=◌}
use sp1_tee.Common.Bytes.{u32_max}
use sp1_tee.Common.Request.{close_session}
use sp1_tee.Common.Communication.{Transport, Codec, recv}
use sp1_tee.Common.Communication.Laws.{PipeLaws, CodecLaws, IsLive, IsFed}
use sp1_tee.Common.Communication.Sending.{frame}
use sp1_tee.Common.Communication.Receiving.{recv_ok}
use sp1_tee.Enclave.Platform.{Platform}
use sp1_tee.Enclave.Server
use sp1_tee.Enclave.Server.{Request, Response}
use sp1_tee.Enclave.Connection.{Stop, Session, handle_message, handle_connection, next}
use sp1_tee.Enclave.Connection.Answers.{
  answer, answers, answer-some, answers-cons, handle_message-answer,
}

-- The bytes of a list of messages on the wire, each framed and none too large.
pub data Framed {M : Type 0} (c : Codec M) : List M → List ℕ → Type 0 where
  nil : Framed c [] []
  cons :
      {m : M} {ms : List M} {wire : List ℕ} (bytes : List ℕ)
      → c.serialize m ≡ ok bytes
      → length bytes ≤ u32_max
      → Framed c ms wire
      → Framed c (m ∷ ms) (frame bytes ++ wire)

pub Framed-cons :
    {M : Type 0} (c : Codec M) (m : M) (ms : List M) (wire : List ℕ)
    → Framed c (m ∷ ms) wire
    → (bytes tail : List ℕ) × (c.serialize m ≡ ok bytes)
      × (length bytes ≤ u32_max)
      × Framed c ms tail
      × (wire ≡ frame bytes ++ tail)
Framed-cons c m ms w (cons {wire = tail} bytes e h f) = (bytes, tail, e, h, f, refl)

pub Framed-nil : {M : Type 0} (c : Codec M) (wire : List ℕ) → Framed c [] wire → wire ≡ []
Framed-nil c w nil = refl

abbrev pub NoClose : (pl : Platform) → List (Request pl) → Type 0
NoClose pl [] = Unit
NoClose pl (m ∷ ms) = (m ≢ close_session) × NoClose pl ms

module _ (pl : Platform) (t : Transport) (p : PipeLaws t) (requests : Codec (Request pl))
    (request_laws : CodecLaws requests) (responses : Codec (Response pl)) (live : IsLive t)
    (fed : IsFed t p) (server : Server.Server pl) (off : pl.debug_mode ≡ false) where
  abbrev Thread : Type 0
  Thread = Session pl t requests responses

  abbrev thread : ℕ → Io Thread Stop (Unit {0})
  thread fuel = handle_connection pl t requests responses fuel server

  handling : ℕ → Request pl → Io Thread Stop (Unit {0})
  unfolding next
  handling fuel m = do
    state ← handle_message pl t requests responses server m
    next pl t requests responses (thread fuel) state

  -- A round takes one message off the stream and handles it.
  round :
      (m : Request pl) (bytes rest : List ℕ) (fuel : ℕ) (s : Thread)
      → requests.serialize m ≡ ok bytes
      → length bytes ≤ u32_max
      → p.pending s.stream ≡ frame bytes ++ rest
      → let s' : Thread = record s { stream = (recv t requests s.stream).1 } in
        (p.pending s'.stream ≡ rest)
        × (p.sent s'.stream ≡ p.sent s.stream)
        × (thread (suc fuel) s ≡ handling fuel m s')
  unfolding handle_connection handling
  round m bytes rest fuel s e fits q =
      let (r, q', kept) = recv_ok t p requests request_laws m bytes rest s.stream e fits q in
      (q', kept, rw r)

  -- A round with a message that is answered goes on to the next.
  pub round_answered :
      (m : Request pl) (r : Response pl) (bytes reply rest : List ℕ) (fuel : ℕ) (s : Thread)
      → requests.serialize m ≡ ok bytes
      → length bytes ≤ u32_max
      → p.pending s.stream ≡ frame bytes ++ rest
      → (answer pl server m s.driver).0 ≡ some r
      → responses.serialize r ≡ ok reply
      → length reply ≤ u32_max
      → (s' : Thread) × (thread (suc fuel) s ≡ thread fuel s')
        × (p.pending s'.stream ≡ rest)
        × (p.sent s'.stream ≡ p.sent s.stream ++ frame reply)
        × (s'.driver ≡ (answer pl server m s.driver).1)
  unfolding handling
  round_answered m r bytes reply rest fuel s e fits q a e' fits' =
      let s₁ : Thread = record s { stream = (recv t requests s.stream).1 } in
      let (q₁, kept, step) = round m bytes rest fuel s e fits q in
      let (goes, after) =
        handle_message-answer pl t p requests responses live fed server m r reply s₁ off a e'
          fits' in
      (
        (handle_message pl t requests responses server m s₁).1,
        step ∙ rw goes,
        after.pending ∙ q₁,
        after.sent ∙ ap (λ (bs : List ℕ). bs ++ frame reply) kept,
        after.driver,
      )

  close_lem :
      (bytes rest : List ℕ) (fuel : ℕ) (s : Thread)
      → requests.serialize close_session ≡ ok bytes
      → length bytes ≤ u32_max
      → p.pending s.stream ≡ frame bytes ++ rest
      → (s' : Thread) × (thread (suc fuel) s ≡ (ok tt, s'))
        × (p.pending s'.stream ≡ rest)
        × (p.sent s'.stream ≡ p.sent s.stream)
        × (s'.driver ≡ s.driver)
  unfolding handling handle_message
  close_lem bytes rest fuel s e fits q =
      let (q', kept, step) = round close_session bytes rest fuel s e fits q in
      (record s { stream = (recv t requests s.stream).1 }, step, q', kept, refl)

  -- On a stream whose writes go through and do not change what is to be read, without debug mode:
  -- if what is to be read is the frames of messages none of which is `close_session`, then a frame
  -- of `close_session` and any rest, the promised answers each fit in a frame, and the fuel is more
  -- than the number of messages, then `handle_connection` ends without a panic, with the rest still
  -- to be read, with exactly the frames of the answers written, in order, and with the driver that
  -- the answers leave.
  pub conversation :
      (ms : List (Request pl)) (wire out closing rest : List ℕ) (fuel : ℕ) (s : Thread)
      → NoClose pl ms
      → Framed requests ms wire
      → Framed responses (answers pl server ms s.driver).0 out
      → requests.serialize close_session ≡ ok closing
      → length closing ≤ u32_max
      → p.pending s.stream ≡ wire ++ (frame closing ++ rest)
      → length ms < fuel
      → (s' : Thread) × (thread fuel s ≡ (ok tt, s'))
        × (p.pending s'.stream ≡ rest)
        × (p.sent s'.stream ≡ p.sent s.stream ++ out)
        × (s'.driver ≡ (answers pl server ms s.driver).1)
  unfolding answers
  conversation ms w out closing rest zero s n f g e fits q h = elim h [ ]
  conversation [] w out closing rest (suc fuel) s n f g e fits q h =
      let no_in = Framed-nil requests w f in
      let no_out = Framed-nil responses out g in
      let (s', step, left, kept, same) = close_lem closing rest fuel s e fits (rw no_in at q) in
      (s', step, left, kept ∙ rw no_out (sym (append-nil _)), same)
  conversation (m ∷ ms) w out closing rest (suc fuel) s n f g e fits q h =
      let (r, a) = answer-some pl server m s.driver n.0 in
      let table = answers-cons pl server m ms s.driver r a in
      let (bytes, tail, em, hm, fm, cut) = Framed-cons requests m ms w f in
      let (reply, more, er, hr, fr, cut') = Framed-cons responses r _ out (rw table at g) in
      let (s₁, step, q₁, sent₁, d₁) =
        round_answered m r bytes reply (tail ++ (frame closing ++ rest)) fuel s em hm
          (q ∙ rw cut (append_assoc (frame bytes) tail (frame closing ++ rest))) a er hr in
      let (s', steps, left, sent, d) =
        conversation ms tail more closing rest fuel s₁ n.1 fm (rw d₁ fr) e fits q₁ (omega arith) in
      (
        s',
        step ∙ steps,
        left,
        sent ∙ rw (sent₁, cut') (append_assoc (p.sent s.stream) (frame reply) more),
        d ∙ rw (d₁, table),
      )
