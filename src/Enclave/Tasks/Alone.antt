-- ===== src/Enclave/Tasks/Alone.antt =====
-- enclave/src/server.rs: a connection among others against `handle_connection` on its own.
use sp1_tee.Prelude.{
  ℕ, ◌≤◌, ◌<◌, ◌≡◌, ◌≢◌, refl, sym, ap, ◌∙◌, false, List, [], ◌∷◌, ◌++◌, append_assoc, append-nil,
  some, length,
}
use sp1_tee.Result.{ok}
use sp1_tee.Common.Bytes.{u32_max}
use sp1_tee.Common.Request.{
  print, get_public_key, get_encrypted_signing_key, attest_signing_key, execute, set_signing_key,
  close_session,
}
use sp1_tee.Common.Communication.{Transport, Codec}
use sp1_tee.Common.Communication.Laws.{PipeLaws, CodecLaws, IsLive, IsFed}
use sp1_tee.Common.Communication.Sending.{frame}
use sp1_tee.Enclave.Platform.{Platform}
use sp1_tee.Enclave.Server
use sp1_tee.Enclave.Server.{Request, Response}
use sp1_tee.Enclave.Connection.{handle_connection}
use sp1_tee.Enclave.Connection.Answers.{answer, answers, answer-some, answers-cons}
use sp1_tee.Enclave.Connection.Loop.{Framed, nil, cons, NoClose, conversation}
use sp1_tee.Enclave.Tasks.{receiving, ended, System, Steps}
use sp1_tee.Enclave.Tasks.Serving.{Answerable, Wrote, nothing, answered, Sent}
use sp1_tee.Enclave.Tasks.Isolation.{start-Serves, steps-Serves}

Framed-snoc :
    {M : Type 0} (c : Codec M) (m : M) {ms : List M} {wire : List ℕ} (bytes : List ℕ)
    → Framed c ms wire
    → c.serialize m ≡ ok bytes
    → length bytes ≤ u32_max
    → Framed c (ms ++ (m ∷ [])) (wire ++ frame bytes)
Framed-snoc c m bytes nil e h = rw (← append-nil (frame bytes)) (cons bytes e h nil)
Framed-snoc c m bytes (cons {wire = wire} first e' h' f) e h =
    rw (append_assoc (frame first) wire (frame bytes))
      (cons first e' h' (Framed-snoc c m bytes f e h))

module _ (pl : Platform) where
  -- Messages other than `attest_signing_key` and `close_session`.
  abbrev pub Plain : List (Request pl) → Type 0
  Plain [] = Unit
  Plain (m ∷ ms) = (m ≢ close_session) × (m ≢ attest_signing_key) × Plain ms

  Plain-NoClose : (ms : List (Request pl)) → Plain ms → NoClose pl ms
  Plain-NoClose [] h = tt
  Plain-NoClose (m ∷ ms) (open_, plain, rest) = (open_, Plain-NoClose ms rest)

  Plain-init :
      (ms : List (Request pl)) (m : Request pl)
      → Plain (ms ++ (m ∷ []))
      → Plain ms × (m ≢ attest_signing_key)
  Plain-init [] m (open_, plain, rest) = (tt, plain)
  Plain-init (x ∷ ms) m (open_, plain, rest) =
      let (before, last) = Plain-init ms m rest in ((open_, plain, before), last)

  module _ (server : Server.Server pl) where
    -- Just `attest_signing_key` uses the driver.
    answer_plain :
        (m : Request pl) (d d' : pl.Driver)
        → m ≢ attest_signing_key
        → ((answer pl server m d).0 ≡ (answer pl server m d').0) × ((answer pl server m d).1 ≡ d)
    unfolding answer
    answer_plain (print _) d d' h = (refl, refl)
    answer_plain get_public_key d d' h = (refl, refl)
    answer_plain get_encrypted_signing_key d d' h = (refl, refl)
    answer_plain attest_signing_key d d' h = absurd (h refl)
    answer_plain (execute stdin program limit) d d' h = (refl, refl)
    answer_plain (set_signing_key _) d d' h = (refl, refl)
    answer_plain close_session d d' h = (refl, refl)

    answers-snoc :
        (ms : List (Request pl)) (m : Request pl) (r : Response pl) (d : pl.Driver)
        → Plain ms
        → (answer pl server m d).0 ≡ some r
        → (answers pl server (ms ++ (m ∷ [])) d).0 ≡ (answers pl server ms d).0 ++ (r ∷ [])
    unfolding answers
    answers-snoc [] m r d h a = rw (answers-cons pl server m [] d r a) refl
    answers-snoc (x ∷ ms) m r d (open_, plain, rest) a =
        let (r', a') = answer-some pl server x d open_ in
        let same = (answer_plain x d d plain).1 in
        rw
          (
            answers-cons pl server x (ms ++ (m ∷ [])) d r' a',
            answers-cons pl server x ms d r' a',
            same,
          )
          (ap (λ (rs : List (Response pl)). r' ∷ rs) (answers-snoc ms m r d rest a))

    -- What was written to plain messages is the answers of a conversation.
    Wrote-Framed :
        (responses : Codec (Response pl)) (d : pl.Driver) {ms : List (Request pl)} {out : List ℕ}
        → Wrote pl server responses ms out
        → Plain ms
        → Framed responses (answers pl server ms d).0 out
    unfolding answers
    Wrote-Framed responses d nothing h = nil
    Wrote-Framed responses d (answered {done = done} m d' r bytes w a e fits) h =
        let (before, plain) = Plain-init done m h in
        let a' : (answer pl server m d).0 ≡ some r = (answer_plain m d d' plain).0 ∙ a in
        rw (answers-snoc done m r d before a')
          (Framed-snoc responses r bytes (Wrote-Framed responses d w before) e fits)

module _ (pl : Platform) (t : Transport) (p : PipeLaws t) (requests : Codec (Request pl))
    (request_laws : CodecLaws requests) (responses : Codec (Response pl)) (live : IsLive t)
    (fed : IsFed t p) (server : Server.Server pl) (off : pl.debug_mode ≡ false) where
  -- On streams whose writes go through and do not change what is to be read, without debug mode and
  -- with a lawful encoding of requests: if a task of the enclave is at the head of its loop and its
  -- stream holds the frames of some messages none of which is `attest_signing_key` or
  -- `close_session`, each with an answer that fits in a frame whatever the state of the security
  -- module's driver, and then of `close_session`, and some steps of the tasks of all connections
  -- have ended it, then `handle_connection` on its own, on this stream with any driver and with
  -- more fuel than messages, ends without a panic and writes the very same.
  pub written-handle_connection :
      {s s' : System pl t requests responses}
      → Steps pl t requests responses server s s'
      → (i : ℕ) (first raw : t.Raw) (ms : List (Request pl)) (fuel : ℕ) (d : pl.Driver)
      → s.tasks i ≡ receiving first
      → s'.tasks i ≡ ended raw
      → Plain pl ms
      → Answerable pl server responses ms
      → Sent pl t p requests responses server first ms
      → length ms < fuel
      → let (outcome, alone) =
          handle_connection pl t requests responses fuel server
            (record { stream = first; driver = d }) in
        (outcome ≡ ok tt) × (p.sent raw ≡ p.sent alone.stream)
  written-handle_connection steps i first raw ms fuel d at_start at_end plain able h enough =
      let served =
        steps-Serves pl t p requests request_laws responses live fed server off first ms i steps (
          rw at_start (
            start-Serves pl t p requests request_laws responses live fed server off first ms able
              h)) in
      let pr = rw at_end at served in
      let all = sym (pr.split ∙ append-nil pr.done) in
      let out = pr.out in
      let wrote = rw all at pr.wrote in
      let (s', run, left, sent, driver) =
        conversation pl t p requests request_laws responses live fed server off ms h.wire out
          h.closing h.rest fuel (record { stream = first; driver = d }) (Plain-NoClose pl ms plain)
          h.frames (Wrote-Framed pl server responses d wrote plain) h.serialized h.fits h.pending
          enough in
      rw run (refl, pr.sent ∙ sym sent)
