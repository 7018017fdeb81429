-- ===== src/Enclave/Tasks/Ending.antt =====
-- enclave/src/server.rs: a connection can always be served to its end.
use sp1_tee.Prelude.{
  ℕ, ◌≡◌, refl, sym, ◌∙◌, ◌⊎◌, inl, inr, Bool-cases, false, ltb, arith, List, [], ◌∷◌, ◌++◌,
  append-nil,
}
use sp1_tee.Common.Request.{
  close_session, print, get_public_key, get_encrypted_signing_key, attest_signing_key, execute,
  set_signing_key,
}
use sp1_tee.Common.Communication.{Transport, Codec}
use sp1_tee.Common.Communication.Laws.{PipeLaws, CodecLaws, IsLive, IsFed}
use sp1_tee.Enclave.Platform.{Platform}
use sp1_tee.Enclave.Server
use sp1_tee.Enclave.Server.{Request, Response, max_allowed_cycles}
use sp1_tee.Enclave.Connection.Answers.{handle_message-close}
use sp1_tee.Enclave.Tasks.{
  Job, job_request, Task, receiving, handling, replying, ended, answer_of, handled, receive, handle,
  refuse, request, reply, is_execute, Reach, System, Steps, Thread,
}
use sp1_tee.Enclave.Tasks.Serving.{
  Answerable, Wrote, Sent, Progress, receive_message, receive_close,
}
use sp1_tee.Enclave.Tasks.Rounds.{handle_lem, reply_lem, Answered}
use sp1_tee.Enclave.Tasks.Isolation.{start-Serves, steps-Serves}
use sp1_tee.Enclave.Tasks.Exclusion.{can_answer}
use sp1_tee.Enclave.Tasks.Paths.{Reach-Steps, Steps-trans, Gets, move_lem, then-Gets}

module _ (pl : Platform) (t : Transport) (p : PipeLaws t) (requests : Codec (Request pl))
    (request_laws : CodecLaws requests) (responses : Codec (Response pl)) (live : IsLive t)
    (fed : IsFed t p) (server : Server.Server pl) (off : pl.debug_mode ≡ false) where
  abbrev Connection : Type 0
  Connection = Task pl t requests responses

  abbrev Tasks : Type 0
  Tasks = System pl t requests responses

  -- A message is one for `execute` or not.
  request_kind :
      (m : Request pl) → (is_execute pl m ≡ false) ⊎ ((j : Job pl) × (m ≡ job_request pl j))
  request_kind (execute stdin program limit) =
      inr (record { stdin = stdin; program = program; cycle_limit = limit }, refl)
  request_kind (print _) = inl refl
  request_kind get_public_key = inl refl
  request_kind get_encrypted_signing_key = inl refl
  request_kind attest_signing_key = inl refl
  request_kind (set_signing_key _) = inl refl
  request_kind close_session = inl refl

  execution_replies :
      {s : Tasks} {i : ℕ} {raw : t.Raw} (j : Job pl)
      → Reach pl t requests responses server s
      → s.tasks i ≡ handling (job_request pl j) raw
      → Gets pl t requests responses server s i (replying j (answer_of pl server j) raw)
  execution_replies {s} {i} {raw} j r e = elim (Bool-cases (ltb max_allowed_cycles j.cycle_limit)) [
    | inl too_high ↦ move_lem pl t requests responses server s i e (refuse j raw (ground arith))
    | inr fine ↦
        then-Gets pl t requests responses server r
          (move_lem pl t requests responses server s i e (request j raw (ground arith)))
          (λ s' r' e'. can_answer pl t requests responses server r' i j raw e')
  ]

  module _ (first : t.Raw) (ms : List (Request pl)) where
    abbrev Done : t.Raw → List (Request pl) → Type 0
    Done = Progress pl t p requests responses server first ms

    abbrev Waits : t.Raw → List (Request pl) → Type 0
    Waits = Sent pl t p requests responses server

    abbrev GetsAnswered : Tasks → ℕ → List (Request pl) → Type 0
    GetsAnswered s i todo =
        (c : Connection) × Gets pl t requests responses server s i c
        × Answered pl t p requests request_laws responses live fed server off first ms c todo

    -- From the head of `handle_message` to the head of the loop.
    handling_answered :
        {s : Tasks} {i : ℕ} (raw : t.Raw) (m : Request pl) (todo : List (Request pl))
        → Reach pl t requests responses server s
        → s.tasks i ≡ handling m raw
        → Done raw (m ∷ todo)
        → Waits raw todo
        → GetsAnswered s i todo
    handling_answered {s} {i} raw m todo r e pr h = elim (request_kind m) [
      | inl other ↦
          let at_m : Thread pl t requests responses = record { stream = raw; driver = s.driver } in
          (
            _,
            move_lem pl t requests responses server s i e (handle m raw at_m other refl),
            handle_lem pl t p requests request_laws responses live fed server off first ms m todo
                raw at_m refl pr h,
          )
      | inr (j, execution) ↦
          let (s', steps, there) = execution_replies j r (rw execution at e) in
          let (s'', steps', there') =
            move_lem pl t requests responses server s' i there
              (reply j (answer_of pl server j) raw) in
          (
            _,
            (s'', Steps-trans pl t requests responses server steps steps', there'),
            reply_lem pl t p requests request_laws responses live fed server off first ms j todo raw
                s'.driver (rw execution at pr) h,
          )
    ]

    -- The rest of a conversation, from the head of the loop.
    ends :
        {s : Tasks} {i : ℕ} (raw : t.Raw) (todo : List (Request pl))
        → Reach pl t requests responses server s
        → s.tasks i ≡ receiving raw
        → Done raw todo
        → Waits raw todo
        → (raw' : t.Raw) × Gets pl t requests responses server s i (ended raw')
    unfolding handled
    ends {s} {i} raw [] r e pr h =
        let (raw₁, at_end, pr₁) =
          receive_close pl t p requests responses server first ms raw request_laws pr h in
        let (s₁, steps, there) = move_lem pl t requests responses server s i e (receive raw) in
        let at_m : Thread pl t requests responses = record { stream = raw₁; driver = s₁.driver } in
        let (s₂, steps', there') =
          move_lem pl t requests responses server s₁ i (there ∙ at_end)
            (handle close_session raw₁ at_m refl refl) in
        (
          raw₁,
          (
            s₂,
            Steps-trans pl t requests responses server steps steps',
            there' ∙ rw (handle_message-close pl t requests responses server at_m) refl,
          ),
        )
    ends {s} {i} raw (m ∷ todo) r e pr h =
        let (raw₁, at_m, pr₁, h₁) =
          receive_message pl t p requests responses server first ms raw m todo request_laws pr h in
        let (s₁, steps₁, there₁) = move_lem pl t requests responses server s i e (receive raw) in
        let r₁ = Reach-Steps pl t requests responses server r steps₁ in
        let (c, (s₂, steps₂, there₂), (raw₂, at_head, pr₂, h₂)) =
          handling_answered raw₁ m todo r₁ (there₁ ∙ at_m) pr₁ h₁ in
        let (raw₃, (s₃, steps₃, there₃)) =
          ends {s = s₂} {i = i} raw₂ todo (Reach-Steps pl t requests responses server r₁ steps₂)
            (there₂ ∙ at_head) pr₂ h₂ in
        (
          raw₃,
          (
            s₃,
            Steps-trans pl t requests responses server steps₁
                (Steps-trans pl t requests responses server steps₂ steps₃),
            there₃,
          ),
        )

  all_done :
      (first raw : t.Raw) (ms : List (Request pl))
      → Progress pl t p requests responses server first ms raw []
      → (out : List ℕ) × Wrote pl server responses ms out × (p.sent raw ≡ p.sent first ++ out)
  all_done first raw ms pr =
      let all : pr.done ≡ ms = sym (pr.split ∙ append-nil pr.done) in
      (pr.out, rw all at pr.wrote, pr.sent)

  -- On streams whose writes go through and do not change what is to be read, without debug mode and
  -- with a lawful encoding of requests: however the tasks of the enclave's connections have
  -- interleaved since its start, if a task is at the head of its loop and its stream holds the
  -- frames of some messages, each with an answer that fits in a frame whatever the state of the
  -- security module's driver, and then of `close_session`, then some further steps end the task
  -- with exactly the frames of the answers to all the messages written, in order.
  pub can_finish :
      {s : Tasks}
      → Reach pl t requests responses server s
      → (i : ℕ) (first : t.Raw) (ms : List (Request pl)) → s.tasks i ≡ receiving first
      → Answerable pl server responses ms
      → Sent pl t p requests responses server first ms
      → (s' : Tasks) × (raw : t.Raw) × (out : List ℕ) × Steps pl t requests responses server s s'
        × (s'.tasks i ≡ ended raw)
        × Wrote pl server responses ms out
        × (p.sent raw ≡ p.sent first ++ out)
  can_finish {s} r i first ms at_start able h =
      let serves =
        start-Serves pl t p requests request_laws responses live fed server off first ms able h in
      let (todo, pr, h') = serves in
      let (raw, (s', steps, there)) = ends first ms {s = s} {i = i} first todo r at_start pr h' in
      let served =
        steps-Serves pl t p requests request_laws responses live fed server off first ms i steps
          (rw at_start serves) in
      let (out, wrote, sent) = all_done first raw ms (rw there at served) in
      (s', raw, out, steps, there, wrote, sent)
