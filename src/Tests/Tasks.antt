-- ===== src/Tests/Tasks.antt =====
-- Two connections to the small enclave, one of which executes while the other waits.
use sp1_tee.Prelude.{Bool, ℕ, ◌≡◌, ◌≢◌, refl, List, [], ◌∷◌, ◌++◌, some, arith}
use sp1_tee.Common.Request.{EnclaveRequest, close_session, attest_signing_key}
use sp1_tee.Common.Communication.{recv}
use sp1_tee.Common.Communication.Sending.{frame}
use sp1_tee.Enclave.Server
use sp1_tee.Common.Bytes.{to_be_bytes, from_be_bytes, to_le_bytes}
use sp1_tee.Enclave.Connection.Loop.{nil, cons}
use sp1_tee.Enclave.Connection.Answers.{answer}
use sp1_tee.Enclave.Tasks.{
  receiving, waiting, executing, replying, ended, answer_of, received, Job, job_request, accept,
  receive, handling, Move, request, lock, System, step, Reach, start, later, Steps, here, next,
}
use sp1_tee.Enclave.Tasks.Exclusion.{mutual_exclusion, can_answer}
use sp1_tee.Enclave.Tasks.Serving.{Wrote, Answerable, Sent, stream_of}
use sp1_tee.Enclave.Tasks.Isolation.{isolation}
use sp1_tee.Enclave.Tasks.Ending.{can_finish}
use sp1_tee.Enclave.Tasks.Alone.{written-handle_connection}
use sp1_tee.Enclave.Connection.{handle_connection}
use sp1_tee.Result.{ok}
use sp1_tee.Enclave.Tasks.Paths.{Reach-Steps}
use sp1_tee.Tests.World.{small, server}
use sp1_tee.Tests.Encoding.{requests, request_laws, responses}
use sp1_tee.Tests.Sockets.{Pipe, pipe, pipe_laws, pipe_live, pipe_fed}

abbrev Small : Type 0
Small = System small pipe requests responses

abbrev job : Job small
job = record { stdin = 5; program = 7 ∷ []; cycle_limit = 100 }

abbrev job_bytes : List ℕ
job_bytes = 3 ∷ 5 ∷ 100 ∷ 7 ∷ []

-- a host asks for an execution and closes
abbrev first : Pipe
first = ([], (frame job_bytes ++ []) ++ (frame (2 ∷ []) ++ []))

abbrev asked : Pipe
asked = ([], frame (2 ∷ []) ++ [])

abbrev Reached : Type 0
Reached = (s : Small) × Reach small pipe requests responses server s

-- the tasks 0 and 1 are accepted
abbrev accepted : Reached
accepted = (_, later (later (start []) (step 0 (accept first))) (step 1 (accept first)))

-- both get their request, and the task 0 gets the guard
abbrev Contended : Type 0
Contended =
    (s : Small) × Steps small pipe requests responses server accepted.0 s
    × (s.tasks 0 ≡ executing job asked)
    × (s.tasks 1 ≡ waiting job asked)

receives :
    {g : Bool} {d : List ℕ}
    → Move small pipe requests responses server g d
        (receiving first)
        g
        d
        (handling (job_request small job) asked)
unfolding recv received frame to_be_bytes from_be_bytes
receives = receive first

contended : Contended
contended = (
  _,
  next
      (next
        (next (next (next here (step 0 receives)) (step 0 (request job asked (omega arith))))
          (step 1 receives))
        (step 1 (request job asked (omega arith))))
      (step 0 (lock job asked)),
  refl,
  refl,
)

reached : Reach small pipe requests responses server contended.0
reached = Reach-Steps small pipe requests responses server accepted.1 contended.1

able : Answerable small server responses (job_request small job ∷ [])
unfolding answer answer_of Server.execute Server.signed_message to_le_bytes
able = (λ d. (_, 3 ∷ 9 ∷ 1 ∷ 2 ∷ 7 ∷ 7 ∷ 5 ∷ 100 ∷ [], refl, refl, omega arith), tt)

sent : Sent small pipe pipe_laws requests responses server first (job_request small job ∷ [])
sent = record {
  wire = frame job_bytes ++ [];
  closing = 2 ∷ [];
  rest = [];
  frames = cons job_bytes refl (omega arith) nil;
  serialized = refl;
  fits = omega arith;
  pending = refl;
}

mutual_exclusion_example : ◌≡◌ {A = ℕ} 0 0
mutual_exclusion_example =
    mutual_exclusion small pipe requests responses server reached 0 0 job job asked asked
      contended.2 contended.2

can_answer_example :
    (s : Small) × Steps small pipe requests responses server contended.0 s
    × (s.tasks 1 ≡ replying job (answer_of small server job) asked)
can_answer_example = can_answer small pipe requests responses server reached 1 job asked contended.3

isolation_example :
    (raw : Pipe) × (done todo : List (EnclaveRequest ℕ)) × (out : List ℕ) × (stream_of small pipe
        pipe_laws requests responses server
        (contended.0.tasks 1)
      ≡ some raw)
    × (job_request small job ∷ [] ≡ done ++ todo)
    × Wrote small server responses done out
    × (raw.0 ≡ [] ++ out)
isolation_example =
    isolation small pipe pipe_laws requests request_laws responses pipe_live pipe_fed server refl
      contended.1 1 first (job_request small job ∷ []) refl able sent

can_finish_example :
    (s : Small) × (raw : Pipe) × (out : List ℕ) × Steps small pipe requests responses server
      accepted.0 s
    × (s.tasks 1 ≡ ended raw)
    × Wrote small server responses (job_request small job ∷ []) out
    × (raw.0 ≡ [] ++ out)
can_finish_example =
    can_finish small pipe pipe_laws requests request_laws responses pipe_live pipe_fed server refl
      accepted.1 1 first (job_request small job ∷ []) refl able sent

finished :
    (s : Small) × (raw : Pipe) × (out : List ℕ) × Steps small pipe requests responses server
      accepted.0 s
    × (s.tasks 1 ≡ ended raw)
    × Wrote small server responses (job_request small job ∷ []) out
    × (raw.0 ≡ [] ++ out)
finished =
    can_finish small pipe pipe_laws requests request_laws responses pipe_live pipe_fed server refl
      accepted.1 1 first (job_request small job ∷ []) refl able sent

open_ : ◌≢◌ {A = EnclaveRequest ℕ} (job_request small job) close_session
open_ e = cc

plain : ◌≢◌ {A = EnclaveRequest ℕ} (job_request small job) attest_signing_key
plain e = cc

written-handle_connection_example :
    let (outcome, alone) =
      handle_connection small pipe requests responses 5 server
        (record { stream = first; driver = [] }) in
    (outcome ≡ ok tt) × (finished.1.0 ≡ alone.stream.0)
written-handle_connection_example =
    written-handle_connection small pipe pipe_laws requests request_laws responses pipe_live
      pipe_fed server refl finished.3 1 first finished.1 (job_request small job ∷ []) 5 [] refl
      finished.4 (open_, plain, tt) able sent (omega arith)
