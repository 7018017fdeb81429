-- ===== src/Host/Execute/Tasks.antt =====
-- host/bin/server.rs: the requests to `execute` as tasks that share the server's mutex. The sender
-- can go away at any time: its task is then dropped, and with it the mutex if it is held. A run meets
-- the network and the enclave in any of the states that they can be in, so that two runs of one
-- request may come to different outcomes.
pub mod Exclusion
use sp1_tee.Prelude.{ℕ, ◌≡◌, String, Bool, true, false, List}
use sp1_tee.Result.{Result, ok, err, panic, map_err, ◌>>=◌, ◌>>◌}
use sp1_tee.Guard.{update}
use sp1_tee.Common.Communication.{Transport, Codec}
use sp1_tee.Enclave.Platform.{Platform}
use sp1_tee.Enclave.Server.{Request, Response}
use sp1_tee.Host.Platform.{HostPlatform}
use sp1_tee.Host.Errors.{ServerError, failed_to_deserialize_request}
use sp1_tee.Host.Handlers.{TeeRequest, TeeResponse, execute_inner}
use sp1_tee.Host.Execute.{
  SignedRequest, Whitelist, Event, EventCodec, authenticate, result_to_event,
}

module _ (pl : Platform) where
  -- Each with the bytes of its request.
  pub data Task : Type 0 where
    unreceived : Task
    waiting : List ℕ → TeeRequest pl → Task  -- `execute_inner`, at `execution_mutex.lock()`
    executing : List ℕ → TeeRequest pl → Task  -- with the guard
    executed : List ℕ → Result ServerError (TeeResponse pl) → Task  -- its event is to be sent
    responded : List ℕ → Result ServerError (Result ⊥ Event) → Task
    gone : Task

  pub record System : Type 0 where
    pub mutex : Bool
    pub tasks : ℕ → Task

  abbrev pub initial : System
  initial = record { mutex = false; tasks = λ _. unreceived }

  -- What `execute` does before it awaits `execute_inner`.
  unfoldable pub check : Whitelist pl → List ℕ → Result ServerError (TeeRequest pl)
  check w req = do
    request ← map_err failed_to_deserialize_request (w.deserialize req)
    authenticate pl w request
    ok request.request

  unfoldable pub arrived : List ℕ → Result ServerError (TeeRequest pl) → Task
  arrived req (ok r) = waiting req r
  arrived req (err e) = responded req (err e)
  arrived req (panic p) = responded req (panic p)

  module _ (w : Whitelist pl) (events : EventCodec pl) (display : ℕ → String) (h : HostPlatform pl)
      (networks : ℕ → Transport) (requests : Codec (Request pl)) (responses : Codec (Response pl))
      (cid : ℕ) where
    -- One step of one task, with the mutex: `true` is locked.
    pub data Move : Bool → Task → Bool → Task → Type 0 where
      receive : {g : Bool} (req : List ℕ) → Move g unreceived g (arrived req (check w req))
      lock : (req : List ℕ) (r : TeeRequest pl) → Move false (waiting req r) true (executing req r)
      -- the guard is dropped at the end of `execute_inner`, also by a panic
      unlock :
          {g : Bool} (now : ℕ) (req : List ℕ) (r : TeeRequest pl)
          → Move g
              (executing req r)
              false
              (executed req (execute_inner pl h (networks now) requests responses cid r).0)
      respond :
          {g : Bool} (req : List ℕ) (o : Result ServerError (TeeResponse pl))
          → Move g (executed req o) g (responded req (ok (result_to_event pl events display o)))
      leave : {g : Bool} (req : List ℕ) (r : TeeRequest pl) → Move g (waiting req r) g gone
      abandon : {g : Bool} (req : List ℕ) (r : TeeRequest pl) → Move g (executing req r) false gone

    pub data Step (s : System) : System → Type 0 where
      step :
          (i : ℕ) {g : Bool} {task : Task}
          → Move s.mutex (s.tasks i) g task
          → Step s (record { mutex = g; tasks = update s.tasks i task })

    pub data Reach : System → Type 0 where
      start : Reach initial
      later : {s s' : System} → Reach s → Step s s' → Reach s'
