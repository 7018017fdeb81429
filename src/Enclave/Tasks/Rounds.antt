-- ===== src/Enclave/Tasks/Rounds.antt =====
-- enclave/src/server.rs: one message of a connection, from its `recv` to its answer.
use sp1_tee.Prelude.{◌≡◌, refl, ap, ◌∙◌, inl, inr, false, List, [], ◌∷◌, ◌++◌}
use sp1_tee.Common.Communication.{Transport, Codec}
use sp1_tee.Common.Communication.Laws.{PipeLaws, CodecLaws, IsLive, IsFed}
use sp1_tee.Common.Communication.Sending.{frame}
use sp1_tee.Enclave.Platform.{Platform}
use sp1_tee.Enclave.Server
use sp1_tee.Enclave.Server.{Request, Response}
use sp1_tee.Enclave.Connection.{send_unwrap}
use sp1_tee.Enclave.Connection.Answers.{
  answer, handle_message-answer, handle_message-close, send_unwrap_lem,
}
use sp1_tee.Enclave.Tasks.{
  Job, job_request, Task, receiving, handling, replying, answer_of, handled, replied, handle_run,
  after_reply, System, Thread,
}
use sp1_tee.Enclave.Tasks.Serving.{
  Sent, Progress, Holds, Serves, Progress-keep, Progress-answered, Sent-keep,
}

module _ (pl : Platform) (t : Transport) (p : PipeLaws t) (requests : Codec (Request pl))
    (request_laws : CodecLaws requests) (responses : Codec (Response pl)) (live : IsLive t)
    (fed : IsFed t p) (server : Server.Server pl) (off : pl.debug_mode ≡ false) where
  abbrev Connection : Type 0
  Connection = Task pl t requests responses

  abbrev Tasks : Type 0
  Tasks = System pl t requests responses

  module _ (first : t.Raw) (ms : List (Request pl)) where
    abbrev Served : Connection → Type 0
    Served = Serves pl t p requests responses server first ms

    abbrev Held : Request pl → t.Raw → Type 0
    Held = Holds pl t p requests responses server first ms

    abbrev Done : t.Raw → List (Request pl) → Type 0
    Done = Progress pl t p requests responses server first ms

    abbrev Waits : t.Raw → List (Request pl) → Type 0
    Waits = Sent pl t p requests responses server

    -- A task that has answered a message is back at the head of its loop.
    abbrev pub Answered : Connection → List (Request pl) → Type 0
    Answered c todo = (raw : t.Raw) × (c ≡ receiving raw) × Done raw todo × Waits raw todo

    pub handle_lem :
        (m : Request pl) (todo : List (Request pl)) (raw : t.Raw)
        (s : Thread pl t requests responses)
        → s.stream ≡ raw
        → Done raw (m ∷ todo)
        → Waits raw todo
        → let (outcome, s') = handle_run pl t requests responses server m s in
          Answered (handled pl t requests responses outcome s'.stream) todo
    unfolding handled
    handle_lem m todo raw s e pr h =
        let (r, bytes, a, w, fits) = pr.able.0 s.driver in
        let (goes, after) =
          handle_message-answer pl t p requests responses live fed server m r bytes s off a w
            fits in
        let s' = (handle_run pl t requests responses server m s).1 in
        (
          s'.stream,
          rw goes refl,
          Progress-answered pl t p requests responses server first ms raw s'.stream m todo s.driver
              r bytes pr a w fits (after.sent ∙ ap (λ q. p.sent q ++ frame bytes) e),
          Sent-keep pl t p requests responses server first ms raw s'.stream todo h
              (after.pending ∙ ap p.pending e),
        )

    pub handle-Serves :
        (m : Request pl) (raw : t.Raw) (s : Thread pl t requests responses)
        → s.stream ≡ raw
        → Served (handling m raw)
        → let (outcome, s') = handle_run pl t requests responses server m s in
          Served (handled pl t requests responses outcome s'.stream)
    unfolding handled
    handle-Serves m raw s e (inr (closes, pr)) =
        rw (closes, handle_message-close pl t requests responses server s)
          (Progress-keep pl t p requests responses server first ms raw s.stream [] pr (ap p.sent e))
    handle-Serves m raw s e (inl (todo, pr, h)) =
        let (raw', at_head, pr', h') = handle_lem m todo raw s e pr h in rw at_head (todo, pr', h')

    pub reply_lem :
        (j : Job pl) (todo : List (Request pl)) (raw : t.Raw) (d : pl.Driver)
        → Done raw (job_request pl j ∷ todo)
        → Waits raw todo
        → Answered
            (after_reply pl t requests responses
              (answer_of pl server j)
              (record { stream = raw; driver = d }))
            todo
    unfolding replied answer answer_of
    reply_lem j todo raw d pr h =
        let (r, bytes, a, w, fits) = pr.able.0 d in
        let s : Thread pl t requests responses = record { stream = raw; driver = d } in
        let same : r ≡ answer_of pl server j = cc in
        let (goes, after) =
          send_unwrap_lem pl t p requests responses live fed (answer_of pl server j) bytes s
            (rw (← same) w) fits in
        let s' = (send_unwrap pl t requests responses (answer_of pl server j) s).1 in
        (
          s'.stream,
          rw goes refl,
          Progress-answered pl t p requests responses server first ms raw s'.stream
              (job_request pl j) todo d r bytes pr a w fits after.sent,
          Sent-keep pl t p requests responses server first ms raw s'.stream todo h after.pending,
        )

    pub reply-Serves :
        (j : Job pl) (r : Response pl) (raw : t.Raw) (d : pl.Driver)
        → Served (replying j r raw)
        → Served (after_reply pl t requests responses r (record { stream = raw; driver = d }))
    reply-Serves j r raw d (same, (todo, pr, h)) =
        let (raw', at_head, pr', h') = reply_lem j todo raw d pr h in
        rw (same, at_head) (todo, pr', h')
