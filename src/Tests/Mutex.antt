-- ===== src/Tests/Mutex.antt =====
-- Two requests to the small host, one of which executes while the other waits.
use sp1_tee.Prelude.{ℕ, ◌≡◌, refl, Bool, List, [], ◌∷◌, bytes_eq}
use sp1_tee.Host.Handlers.{TeeRequest}
use sp1_tee.Host.Execute.{authenticate, admitted}
use sp1_tee.Host.Execute.Tasks.{
  check, arrived, receive, lock, System, Move, unreceived, waiting, step, Reach, start, later,
}
use sp1_tee.Host.Execute.Tasks.Exclusion.{Admitted, executing_alone}
use sp1_tee.Tests.World.{small, host}
use sp1_tee.Tests.Encoding.{requests, responses}
use sp1_tee.Tests.Sockets.{served}
use sp1_tee.Tests.Events.{events}
use sp1_tee.Tests.Admission.{whitelist}

abbrev asked : TeeRequest small
asked = record { program = 7 ∷ []; stdin = 5; cycle_limit = 100 }

abbrev sent_bytes : List ℕ
sent_bytes = 1 ∷ 2 ∷ []

receives :
    {g : Bool}
    → Move small whitelist events
        (λ _. "a number")
        host
        (λ _. served)
        requests
        responses
        10
        g
        unreceived
        g
        (waiting sent_bytes asked)
unfolding check arrived authenticate admitted bytes_eq
receives = receive sent_bytes

abbrev Reached : Type 0
Reached =
    (s : System small) × Reach small whitelist events (λ _. "a number") host (λ _. served) requests
      responses 10 s

abbrev contended : Reached
contended = (
  _,
  later (later (later start (step 0 receives)) (step 1 receives)) (step 0 (lock sent_bytes asked)),
)

executing_alone_example :
    Admitted small whitelist events
      (λ _. "a number")
      host
      (λ _. served)
      requests
      responses
      10
      sent_bytes
      asked
    × ◌≡◌ {A = ℕ} 0 0
executing_alone_example =
    executing_alone small whitelist events (λ _. "a number") host (λ _. served) requests responses
      10 contended.1 0 0 sent_bytes sent_bytes asked asked refl refl
