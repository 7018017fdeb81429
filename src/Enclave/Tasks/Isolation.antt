-- ===== src/Enclave/Tasks/Isolation.antt =====
-- enclave/src/server.rs: what one connection gets while the others go on: its own answers.
use sp1_tee.Prelude.{
  ℕ, ◌==◌, ==_iff, ◌≡◌, refl, sym, ap, inl, inr, Bool, Bool-cases, false, List, [], ◌∷◌, ◌++◌,
  append-nil, some,
}
use sp1_tee.Common.Communication.{Transport, Codec}
use sp1_tee.Common.Communication.Laws.{PipeLaws, CodecLaws, IsLive, IsFed}
use sp1_tee.Enclave.Platform.{Platform}
use sp1_tee.Enclave.Server
use sp1_tee.Enclave.Server.{Request, Response}
use sp1_tee.Enclave.Tasks.{
  Job, job_request, Task, unaccepted, receiving, handling, waiting, executing, replying, ended,
  Move, accept, receive, handle, refuse, request, lock, unlock, reply, System, Step, step, Steps,
  here, next, Thread,
}
use sp1_tee.Enclave.Tasks.Serving.{
  Answerable, Wrote, nothing, stream_of, Sent, Holds, Serves, receive-Serves,
}
use sp1_tee.Enclave.Tasks.Rounds.{handle-Serves, reply-Serves}

module _ (pl : Platform) (t : Transport) (p : PipeLaws t) (requests : Codec (Request pl))
    (request_laws : CodecLaws requests) (responses : Codec (Response pl)) (live : IsLive t)
    (fed : IsFed t p) (server : Server.Server pl) (off : pl.debug_mode ≡ false) where
  abbrev Connection : Type 0
  Connection = Task pl t requests responses

  abbrev Tasks : Type 0
  Tasks = System pl t requests responses

  module _ (first : t.Raw) (ms : List (Request pl)) where
    abbrev Served : Connection → Type 0
    Served = Serves pl t p requests responses server first ms

    abbrev Held : Request pl → t.Raw → Type 0
    Held = Holds pl t p requests responses server first ms

    -- An execution is in hand, not the end of the conversation.
    execution-Held :
        (j : Job pl) (raw : t.Raw)
        → Served (handling (job_request pl j) raw)
        → Held (job_request pl j) raw
    execution-Held j raw (inl held) = held
    execution-Held j raw (inr (closes, pr)) = cc

    move-Serves :
        {g g' : Bool} {d d' : pl.Driver} {c c' : Connection}
        → Move pl t requests responses server g d c g' d' c'
        → Served c
        → Served c'
    move-Serves (accept raw) at_work = elim at_work [ ]
    move-Serves (receive raw) (todo, pr, h) =
        receive-Serves pl t p requests responses server first ms raw todo request_laws pr h
    move-Serves (handle m raw s other at_s) at_work =
        handle-Serves pl t p requests request_laws responses live fed server off first ms m raw s
          (ap (λ (s : Thread pl t requests responses). s.stream) at_s) at_work
    move-Serves (refuse j raw h) at_work = (refl, execution-Held j raw at_work)
    move-Serves (request j raw h) at_work = execution-Held j raw at_work
    move-Serves (lock j raw) at_work = at_work
    move-Serves (unlock j raw) at_work = (refl, at_work)
    move-Serves {d = d} (reply j r raw) at_work =
        reply-Serves pl t p requests request_laws responses live fed server off first ms j r raw d
          at_work

    -- A step of any task keeps what is served to one.
    step-Serves :
        {s s' : Tasks} (i : ℕ)
        → Step pl t requests responses server s s'
        → Served (s.tasks i)
        → Served (s'.tasks i)
    step-Serves {s} i (step k {task = task} m) at_work = elim (Bool-cases (i == k)) [
      | inl same ↦
          let moved : Served task = move-Serves m (rw (← (==_iff i k).0 same) at_work) in
          rw same moved
      | inr apart ↦ rw apart at_work
    ]

    pub steps-Serves :
        {s s' : Tasks} (i : ℕ)
        → Steps pl t requests responses server s s'
        → Served (s.tasks i)
        → Served (s'.tasks i)
    steps-Serves i here at_work = at_work
    steps-Serves i (next ms m) at_work = step-Serves i m (steps-Serves i ms at_work)

    -- A stream with the messages on it, at its first `recv`.
    pub start-Serves :
        Answerable pl server responses ms
        → Sent pl t p requests responses server first ms
        → Served (receiving first)
    start-Serves able h = (
      ms,
      record {
        done = [];
        out = [];
        split = refl;
        wrote = nothing;
        sent = sym (append-nil (p.sent first));
        able = able;
      },
      h,
    )

    abbrev Written : Connection → Type 0
    Written c =
        (raw : t.Raw) × (done todo : List (Request pl)) × (out : List ℕ) × (stream_of pl t p
            requests responses server c
          ≡ some raw)
        × (ms ≡ done ++ todo)
        × Wrote pl server responses done out
        × (p.sent raw ≡ p.sent first ++ out)

    Served-Written : (c : Connection) → Served c → Written c
    Served-Written unaccepted at_work = elim at_work [ ]
    Served-Written (receiving raw) (todo, pr, h) =
        (raw, pr.done, todo, pr.out, refl, pr.split, pr.wrote, pr.sent)
    Served-Written (handling m raw) (inl (todo, pr, h)) =
        (raw, pr.done, m ∷ todo, pr.out, refl, pr.split, pr.wrote, pr.sent)
    Served-Written (handling m raw) (inr (closes, pr)) =
        (raw, pr.done, [], pr.out, refl, pr.split, pr.wrote, pr.sent)
    Served-Written (waiting j raw) (todo, pr, h) =
        (raw, pr.done, _, pr.out, refl, pr.split, pr.wrote, pr.sent)
    Served-Written (executing j raw) (todo, pr, h) =
        (raw, pr.done, _, pr.out, refl, pr.split, pr.wrote, pr.sent)
    Served-Written (replying j r raw) (same, (todo, pr, h)) =
        (raw, pr.done, _, pr.out, refl, pr.split, pr.wrote, pr.sent)
    Served-Written (ended raw) pr = (raw, pr.done, [], pr.out, refl, pr.split, pr.wrote, pr.sent)

  -- On streams whose writes go through and do not change what is to be read, without debug mode and
  -- with a lawful encoding of requests: if a task of the enclave is at the head of its loop and its
  -- stream holds the frames of some messages, each with an answer that fits in a frame whatever the
  -- state of the security module's driver, and then of `close_session`, then after any steps of the
  -- tasks of all connections, what was written on this stream is exactly the frames of the answers
  -- to the first of these messages, in order, each the answer that `handle_message` promises for
  -- its message at some state of the driver.
  pub isolation :
      {s s' : Tasks}
      → Steps pl t requests responses server s s'
      → (i : ℕ) (first : t.Raw) (ms : List (Request pl)) → s.tasks i ≡ receiving first
      → Answerable pl server responses ms
      → Sent pl t p requests responses server first ms
      → (raw : t.Raw) × (done todo : List (Request pl)) × (out : List ℕ) × (stream_of pl t p
            requests responses server
            (s'.tasks i)
          ≡ some raw)
        × (ms ≡ done ++ todo)
        × Wrote pl server responses done out
        × (p.sent raw ≡ p.sent first ++ out)
  isolation {s} {s'} steps i first ms at_start able h =
      Served-Written first ms (s'.tasks i)
        (steps-Serves first ms i steps (rw at_start (start-Serves first ms able h)))
