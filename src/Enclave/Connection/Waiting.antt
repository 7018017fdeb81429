-- ===== src/Enclave/Connection/Waiting.antt =====
-- enclave/src/server.rs: a conversation that the host has not ended yet, in which the enclave's
-- thread waits for more.
use sp1_tee.Prelude.{
  ℕ, zero, suc, ◌<◌, ◌≡◌, ◌∙◌, sym, false, List, [], ◌∷◌, ◌++◌, append_assoc, append-nil, arith,
  length,
}
use sp1_tee.Io.{Io}
use sp1_tee.Common.Communication.{Transport, Codec}
use sp1_tee.Common.Communication.Laws.{PipeLaws, CodecLaws, IsLive, IsFed}
use sp1_tee.Common.Communication.Sending.{frame}
use sp1_tee.Common.Communication.Receiving.{recv_no_length, sent-recv}
use sp1_tee.Enclave.Platform.{Platform}
use sp1_tee.Enclave.Server
use sp1_tee.Enclave.Server.{Request, Response}
use sp1_tee.Enclave.Connection.{Stop, Session, handle_connection}
use sp1_tee.Enclave.Connection.Answers.{answers, answer-some, answers-cons}
use sp1_tee.Enclave.Connection.Loop.{Framed, Framed-cons, Framed-nil, NoClose, round_answered}

module _ (pl : Platform) (t : Transport) (p : PipeLaws t) (requests : Codec (Request pl))
    (request_laws : CodecLaws requests) (responses : Codec (Response pl)) (live : IsLive t)
    (fed : IsFed t p) (server : Server.Server pl) (off : pl.debug_mode ≡ false) where
  abbrev Thread : Type 0
  Thread = Session pl t requests responses

  abbrev thread : ℕ → Io Thread Stop (Unit {0})
  thread fuel = handle_connection pl t requests responses fuel server

  -- With nothing to read the thread writes nothing.
  silence :
      (fuel : ℕ) (s : Thread)
      → p.pending s.stream ≡ []
      → p.sent (thread (suc fuel) s).1.stream ≡ p.sent s.stream
  unfolding handle_connection
  silence fuel s q =
      let (e, r) = recv_no_length t p requests s.stream (rw q (omega arith)) in
      rw r (sent-recv t p requests s.stream)

  -- On a stream whose writes go through and do not change what is to be read, without debug mode:
  -- if what is to be read is just the frames of messages none of which is `close_session`, the
  -- promised answers each fit in a frame, and the fuel is more than the number of messages, then
  -- what `handle_connection` has written when it finds nothing more to read is exactly the frames
  -- of the answers, in order.
  pub sent-waiting :
      (ms : List (Request pl)) (wire out : List ℕ) (fuel : ℕ) (s : Thread)
      → NoClose pl ms
      → Framed requests ms wire
      → Framed responses (answers pl server ms s.driver).0 out
      → p.pending s.stream ≡ wire
      → length ms < fuel
      → p.sent (thread fuel s).1.stream ≡ p.sent s.stream ++ out
  unfolding answers
  sent-waiting ms wire out zero s n f g q h = elim h [ ]
  sent-waiting [] wire out (suc fuel) s n f g q h =
      silence fuel s (q ∙ Framed-nil requests wire f)
      ∙ rw (Framed-nil responses out g) (sym (append-nil _))
  sent-waiting (m ∷ ms) wire out (suc fuel) s n f g q h =
      let (r, a) = answer-some pl server m s.driver n.0 in
      let table = answers-cons pl server m ms s.driver r a in
      let (bytes, tail, em, hm, fm, cut) = Framed-cons requests m ms wire f in
      let (reply, more, er, hr, fr, cut') = Framed-cons responses r _ out (rw table at g) in
      let (s₁, step, q₁, sent₁, d₁) =
        round_answered pl t p requests request_laws responses live fed server off m r bytes reply
          tail fuel s em hm (q ∙ cut) a er hr in
      rw step (
        sent-waiting ms tail more fuel s₁ n.1 fm (rw d₁ fr) q₁ (omega arith)
        ∙ rw (sent₁, cut') (append_assoc (p.sent s.stream) (frame reply) more))
