-- ===== src/Enclave/Tasks/Exclusion.antt =====
-- enclave/src/server.rs: what the execution guard gives, however the tasks interleave.
use sp1_tee.Prelude.{
  ap, ◌==◌, ==_iff, false, sym, ◌∙◌, ℕ, ◌≡◌, refl, ◌⊎◌, inl, inr, Bool, Bool-cases, true, false,
}
use sp1_tee.Result.{Result, ok, err, panic}
use sp1_tee.Guard.{update, Guarded, none-Guarded, quiet-Guarded, lock-Guarded, unlock-Guarded}
use sp1_tee.Common.Communication.{Transport, Codec, CommunicationError, recv}
use sp1_tee.Enclave.Platform.{Platform}
use sp1_tee.Enclave.Server
use sp1_tee.Enclave.Server.{Request, Response}
use sp1_tee.Enclave.Connection.{ConnectionState, continue, close, Stop, send_unwrap}
use sp1_tee.Enclave.Tasks.{
  Job, Task, unaccepted, receiving, handling, waiting, executing, replying, ended, answer_of,
  received, handled, replied, handle_run, Move, accept, receive, handle, refuse, request, lock,
  unlock, reply, System, Step, step, Reach, start, later, Steps, here, next, Thread,
}
use sp1_tee.Enclave.Tasks.Paths.{first-Step}

module _ (pl : Platform) (t : Transport) (requests : Codec (Request pl))
    (responses : Codec (Response pl)) where
  abbrev Connection : Type 0
  Connection = Task pl t requests responses

  abbrev Tasks : Type 0
  Tasks = System pl t requests responses

  abbrev pub is_executing : Connection → Bool
  is_executing (executing _ _) = true
  is_executing _ = false

  executing_job :
      (c : Connection)
      → is_executing c ≡ true
      → (j : Job pl) × (raw : t.Raw) × (c ≡ executing j raw)
  executing_job (executing j raw) e = (j, raw, refl)
  executing_job unaccepted e = absurd (cc)
  executing_job (receiving raw) e = absurd (cc)
  executing_job (handling m raw) e = absurd (cc)
  executing_job (waiting j raw) e = absurd (cc)
  executing_job (replying j r raw) e = absurd (cc)
  executing_job (ended raw) e = absurd (cc)

  received_outside :
      (o : Result CommunicationError (Request pl)) (raw : t.Raw)
      → is_executing (received pl t requests responses o raw) ≡ false
  unfolding received
  received_outside (ok m) raw = refl
  received_outside (err e) raw = refl
  received_outside (panic p) raw = refl

  handled_outside :
      (o : Result Stop ConnectionState) (raw : t.Raw)
      → is_executing (handled pl t requests responses o raw) ≡ false
  unfolding handled
  handled_outside (ok continue) raw = refl
  handled_outside (ok close) raw = refl
  handled_outside (err e) raw = refl
  handled_outside (panic p) raw = refl

  replied_outside :
      (o : Result Stop (Unit {0})) (raw : t.Raw)
      → is_executing (replied pl t requests responses o raw) ≡ false
  unfolding replied
  replied_outside (ok u) raw = refl
  replied_outside (err e) raw = refl
  replied_outside (panic p) raw = refl

  module _ (server : Server.Server pl) where
    abbrev Leads : Tasks → Tasks → Type 0
    Leads = Steps pl t requests responses server

    move-Guarded :
        {g g' : Bool} {d d' : pl.Driver} {c c' : Connection} (f : ℕ → Connection) (i : ℕ)
        → Move pl t requests responses server g d c g' d' c'
        → f i ≡ c
        → Guarded is_executing g f
        → Guarded is_executing g' (update f i c')
    move-Guarded {g} f i (accept raw) e inv =
        quiet-Guarded is_executing g f i (receiving raw) (rw e) refl inv
    move-Guarded {g} f i (receive raw) e inv =
        quiet-Guarded is_executing g f i _ (rw e)
          (received_outside (recv t requests raw).0 (recv t requests raw).1) inv
    move-Guarded {g} f i (handle m raw s other at_s) e inv =
        let run = handle_run pl t requests responses server m s in
        quiet-Guarded is_executing g f i _ (rw e) (handled_outside run.0 run.1.stream) inv
    move-Guarded {g} f i (refuse j raw h) e inv =
        quiet-Guarded is_executing g f i (replying j (answer_of pl server j) raw) (rw e) refl inv
    move-Guarded {g} f i (request j raw h) e inv =
        quiet-Guarded is_executing g f i (waiting j raw) (rw e) refl inv
    move-Guarded f i (lock j raw) e inv = lock-Guarded is_executing f i (executing j raw) refl inv
    move-Guarded {g} f i (unlock j raw) e inv =
        unlock-Guarded is_executing g f i (replying j (answer_of pl server j) raw) (rw e) refl inv
    move-Guarded {g} {d = d} f i (reply j r raw) e inv =
        let s : Thread pl t requests responses = record { stream = raw; driver = d } in
        let sent = send_unwrap pl t requests responses r s in
        quiet-Guarded is_executing g f i _ (rw e) (replied_outside sent.0 sent.1.stream) inv

    pub Reach-Guarded :
        {s : Tasks} → Reach pl t requests responses server s → Guarded is_executing s.guard s.tasks
    Reach-Guarded (start d) = none-Guarded is_executing unaccepted refl
    Reach-Guarded (later {s} r (step i m)) = move-Guarded s.tasks i m refl (Reach-Guarded r)

    -- However the tasks of the enclave's connections have interleaved since its start, two tasks
    -- that execute a program, each with the execution guard, are the same task.
    pub mutual_exclusion :
        {s : Tasks}
        → Reach pl t requests responses server s
        → (i j : ℕ) (a b : Job pl) (raw raw' : t.Raw) → s.tasks i ≡ executing a raw
        → s.tasks j ≡ executing b raw'
        → i ≡ j
    mutual_exclusion r i j a b raw raw' in_i in_j = (Reach-Guarded r).alone i j (rw in_i) (rw in_j)

    -- While a task waits for the guard another task executes, or the waiting task can take the
    -- guard as the next step.
    no_deadlock :
        {s : Tasks}
        → Reach pl t requests responses server s
        → (i : ℕ) (a : Job pl) (raw : t.Raw) → s.tasks i ≡ waiting a raw
        → ((k : ℕ) × (b : Job pl) × (raw' : t.Raw) × (s.tasks k ≡ executing b raw'))
          ⊎ Step pl t requests responses server s (record {
            guard = true;
            driver = s.driver;
            tasks = update s.tasks i (executing a raw);
          })
    no_deadlock {s} r i a raw at_lock = elim (Bool-cases s.guard) [
      | inl locked ↦
          let (k, busy) = (Reach-Guarded r).held locked in
          let (b, raw', there) = executing_job (s.tasks k) busy in inl (k, b, raw', there)
      | inr free ↦
          let m : Move pl t requests responses server s.guard s.driver (s.tasks i) true s.driver
              (executing a raw) =
            rw (free, at_lock) (lock a raw) in
          inr (step i m)
    ]

    abbrev Answers : Tasks → ℕ → Job pl → t.Raw → Type 0
    Answers s i a raw =
        (s' : Tasks) × Leads s s' × (s'.tasks i ≡ replying a (answer_of pl server a) raw)

    tasks_apart :
        (tasks : ℕ → Connection) (i k : ℕ) (a b : Job pl) (raw raw' : t.Raw)
        → tasks i ≡ waiting a raw
        → tasks k ≡ executing b raw'
        → (i == k) ≡ false
    tasks_apart tasks i k a b raw raw' at_lock inside = elim (Bool-cases (i == k)) [
      | inl same ↦ cc (sym at_lock ∙ ap tasks ((==_iff i k).0 same) ∙ inside)
      | inr apart ↦ apart
    ]

    -- With the guard free, the task takes it, executes and gives it back.
    Answers-unlocked :
        (tasks : ℕ → Connection) (d : pl.Driver) (i : ℕ) (a : Job pl) (raw : t.Raw)
        → tasks i ≡ waiting a raw
        → Answers (record { guard = false; driver = d; tasks = tasks }) i a raw
    Answers-unlocked tasks d i a raw at_lock =
        let here_i : (i == i) ≡ true = (==_iff i i).1 refl in
        let taken = update tasks i (executing a raw) in
        let inside : taken i ≡ executing a raw = rw here_i refl in
        let m : Move pl t requests responses server false d (tasks i) true d (executing a raw) =
          rw at_lock (lock a raw) in
        let m' : Move pl t requests responses server true d (taken i) false d
            (replying a (answer_of pl server a) raw) =
          rw inside (unlock a raw) in
        (_, next (next here (step i m)) (step i m'), rw here_i refl)

    -- X
    pub can_answer :
        {s : Tasks}
        → Reach pl t requests responses server s
        → (i : ℕ) (a : Job pl) (raw : t.Raw) → s.tasks i ≡ waiting a raw
        → (s' : Tasks) × Steps pl t requests responses server s s'
          × (s'.tasks i ≡ replying a (answer_of pl server a) raw)
    can_answer {s} r i a raw at_lock = elim (Bool-cases s.guard) [
      | inl locked ↦
          let (k, busy) = (Reach-Guarded r).held locked in
          let (b, raw', there) = executing_job (s.tasks k) busy in
          let released = update s.tasks k (replying b (answer_of pl server b) raw') in
          let m : Move pl t requests responses server s.guard s.driver (s.tasks k) false s.driver
              (replying b (answer_of pl server b) raw') =
            rw there (unlock b raw') in
          let apart = tasks_apart s.tasks i k a b raw raw' at_lock there in
          let (s', steps, done) = Answers-unlocked released s.driver i a raw (rw apart at_lock) in
          (s', first-Step pl t requests responses server (step k m) steps, done)
      | inr free ↦ rw free (Answers-unlocked s.tasks s.driver i a raw at_lock)
    ]
