-- ===== src/Enclave/Tasks.antt =====
-- enclave/src/server.rs: the tasks of `run`, one for each connection, which share the server, the
-- guard of executions and the driver of the security module. A task runs `handle_connection`; one
-- step receives a message, handles a message other than `execute`, or is a part of an execution.
-- The calls of the driver for one attestation are one step.
pub mod Paths
pub mod Exclusion
pub mod Serving
pub mod Rounds
pub mod Isolation
pub mod Ending
pub mod Alone
use sp1_tee.Prelude.{ℕ, ◌≡◌, ◌≤◌, ◌<◌, ◌==◌, Bool, true, false, List, if◌then◌else◌}
use sp1_tee.Result.{Result, ok, err, panic}
use sp1_tee.Guard.{update}
use sp1_tee.Common.Request.{EnclaveRequest, execute}
use sp1_tee.Common.Communication.{Transport, Codec, CommunicationError, recv}
use sp1_tee.Enclave.Platform.{Platform}
use sp1_tee.Enclave.Server
use sp1_tee.Enclave.Server.{Request, Response, max_allowed_cycles}
use sp1_tee.Enclave.Connection.{
  ConnectionState, continue, close, Stop, Session, send_unwrap, handle_message,
}
use sp1_tee.Enclave.Connection.Answers.{execution_answer}

module _ (pl : Platform) where
  pub record Job : Type 0 where
    pub stdin : pl.Stdin
    pub program : List ℕ
    pub cycle_limit : ℕ

  abbrev pub job_request : Job → Request pl
  job_request j = execute j.stdin j.program j.cycle_limit

  abbrev pub is_execute : Request pl → Bool
  is_execute (execute _ _ _) = true
  is_execute _ = false

  -- What `execute` comes to for its waiter, who gets a panic as an error.
  unfoldable pub answer_of : Server.Server pl → Job → Response pl
  answer_of server j =
      execution_answer pl server (Server.execute pl server j.stdin j.program j.cycle_limit)

module _ (pl : Platform) (t : Transport) (requests : Codec (Request pl))
    (responses : Codec (Response pl)) where
  -- Where the task of a connection stands, and its stream.
  pub data Task : Type 0 where
    unaccepted : Task
    receiving : t.Raw → Task  -- at the head of the loop of `handle_connection`
    handling : Request pl → t.Raw → Task  -- at the head of `handle_message`
    waiting : Job pl → t.Raw → Task  -- `execute`, at `execution_guard.lock()`
    executing : Job pl → t.Raw → Task  -- with the guard
    replying : Job pl → Response pl → t.Raw → Task  -- the response of `execute` is to be sent
    ended : t.Raw → Task

  -- Where a task is after `recv().await.unwrap()`, after `handle_message`, and after a `send` of
  -- it: a panic ends it.
  unfoldable pub received : Result CommunicationError (Request pl) → t.Raw → Task
  received (ok message) raw = handling message raw
  received (err e) raw = ended raw
  received (panic p) raw = ended raw

  unfoldable pub handled : Result Stop ConnectionState → t.Raw → Task
  handled (ok continue) raw = receiving raw
  handled (ok close) raw = ended raw
  handled (err e) raw = ended raw
  handled (panic p) raw = ended raw

  unfoldable pub replied : Result Stop (Unit {0}) → t.Raw → Task
  replied (ok _) raw = receiving raw
  replied (err e) raw = ended raw
  replied (panic p) raw = ended raw

  abbrev pub Thread : Type 0
  Thread = Session pl t requests responses

  abbrev pub after_recv : t.Raw → Task
  after_recv raw = let (outcome, raw') = recv t requests raw in received outcome raw'

  abbrev pub handle_run :
      Server.Server pl → Request pl → Thread → Result Stop ConnectionState × Thread
  handle_run server m s = handle_message pl t requests responses server m s

  abbrev pub after_reply : Response pl → Thread → Task
  after_reply r s =
      let (outcome, s') = send_unwrap pl t requests responses r s in replied outcome s'.stream

  -- One step of one task, with the guard (`true` is locked) and the driver.
  pub data Move (server : Server.Server pl)
      : Bool → pl.Driver → Task → Bool → pl.Driver → Task → Type 0 where
    accept :
        {g : Bool} {d : pl.Driver} (raw : t.Raw) → Move server g d unaccepted g d (receiving raw)
    receive :
        {g : Bool} {d : pl.Driver} (raw : t.Raw)
        → Move server g d (receiving raw) g d (after_recv raw)
    handle :
        {g : Bool} {d : pl.Driver} (m : Request pl) (raw : t.Raw) (s : Thread)
        → is_execute pl m ≡ false
        → s ≡ record { stream = raw; driver = d }
        → Move server g d
            (handling m raw)
            g
            (handle_run server m s).1.driver
            (handled (handle_run server m s).0 (handle_run server m s).1.stream)
    refuse :
        {g : Bool} {d : pl.Driver} (j : Job pl) (raw : t.Raw)
        → max_allowed_cycles < j.cycle_limit
        → Move server g d
            (handling (job_request pl j) raw)
            g
            d
            (replying j (answer_of pl server j) raw)
    request :
        {g : Bool} {d : pl.Driver} (j : Job pl) (raw : t.Raw)
        → j.cycle_limit ≤ max_allowed_cycles
        → Move server g d (handling (job_request pl j) raw) g d (waiting j raw)
    lock :
        {d : pl.Driver} (j : Job pl) (raw : t.Raw)
        → Move server false d (waiting j raw) true d (executing j raw)
    -- the guard is dropped at the end of `execute`, also by a panic
    unlock :
        {g : Bool} {d : pl.Driver} (j : Job pl) (raw : t.Raw)
        → Move server g d (executing j raw) false d (replying j (answer_of pl server j) raw)
    reply :
        {g : Bool} {d : pl.Driver} (j : Job pl) (r : Response pl) (raw : t.Raw)
        → Move server g d
            (replying j r raw)
            g
            d
            (after_reply r (record { stream = raw; driver = d }))

  pub record System : Type 0 where
    pub guard : Bool
    pub driver : pl.Driver
    pub tasks : ℕ → Task

  abbrev pub initial : pl.Driver → System
  initial d = record { guard = false; driver = d; tasks = λ _. unaccepted }

  pub data Step (server : Server.Server pl) (s : System) : System → Type 0 where
    step :
        (i : ℕ) {g : Bool} {d : pl.Driver} {task : Task}
        → Move server s.guard s.driver (s.tasks i) g d task
        → Step server s (record { guard = g; driver = d; tasks = update s.tasks i task })

  pub data Reach (server : Server.Server pl) : System → Type 0 where
    start : (d : pl.Driver) → Reach server (initial d)
    later : {s s' : System} → Reach server s → Step server s s' → Reach server s'

  -- Some steps.
  pub data Steps (server : Server.Server pl) (s : System) : System → Type 0 where
    here : Steps server s s
    next : {s₁ s₂ : System} → Steps server s s₁ → Step server s₁ s₂ → Steps server s s₂
