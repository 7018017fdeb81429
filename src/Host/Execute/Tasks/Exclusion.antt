-- ===== src/Host/Execute/Tasks/Exclusion.antt =====
-- host/bin/server.rs: what the mutex and the check of senders give, however the tasks interleave.
use mathlib.Core.Path.{subst}
use sp1_tee.Prelude.{inl, inr, ◌==◌, Bool-cases, ℕ, ◌≡◌, refl, Bool, true, false, String, List}
use sp1_tee.Result.{Result, ok, err, panic, map_err, map_err-eq-ok, >>=-iff}
use sp1_tee.Guard.{update, Guarded, none-Guarded, quiet-Guarded, lock-Guarded, unlock-Guarded}
use sp1_tee.Common.Communication.{Transport, Codec}
use sp1_tee.Enclave.Platform.{Platform}
use sp1_tee.Enclave.Server.{Request, Response}
use sp1_tee.Host.Platform.{HostPlatform}
use sp1_tee.Host.Errors.{ServerError, failed_to_deserialize_request}
use sp1_tee.Host.Handlers.{TeeRequest, execute_inner}
use sp1_tee.Host.Execute.{SignedRequest, Whitelist, EventCodec, authenticate, result_to_event}
use sp1_tee.Host.Execute.Tasks.{
  waiting, Task, unreceived, executing, executed, responded, gone, check, arrived, System, Move,
  receive, lock, unlock, respond, leave, abandon, step, Reach, start, later,
}

module _ (pl : Platform) (w : Whitelist pl) (events : EventCodec pl) (display : ℕ → String)
    (h : HostPlatform pl) (networks : ℕ → Transport) (requests : Codec (Request pl))
    (responses : Codec (Response pl)) (cid : ℕ) where
  abbrev pub is_executing : Task pl → Bool
  is_executing (executing _ _) = true
  is_executing _ = false

  arrived_outside :
      (req : List ℕ) (o : Result ServerError (TeeRequest pl))
      → is_executing (arrived pl req o) ≡ false
  unfolding arrived
  arrived_outside req (ok r) = refl
  arrived_outside req (err e) = refl
  arrived_outside req (panic p) = refl

  move-Guarded :
      {g g' : Bool} {a a' : Task pl} (f : ℕ → Task pl) (i : ℕ)
      → Move pl w events display h networks requests responses cid g a g' a'
      → f i ≡ a
      → Guarded is_executing g f
      → Guarded is_executing g' (update f i a')
  move-Guarded {g} f i (receive req) e inv =
      quiet-Guarded is_executing g f i _ (rw e) (arrived_outside req (check pl w req)) inv
  move-Guarded f i (lock req r) e inv = lock-Guarded is_executing f i (executing req r) refl inv
  move-Guarded {g} f i (unlock now req r) e inv =
      unlock-Guarded is_executing g f i
        (executed req (execute_inner pl h (networks now) requests responses cid r).0) (rw e) refl
        inv
  move-Guarded {g} f i (respond req o) e inv =
      quiet-Guarded is_executing g f i (responded req (ok (result_to_event pl events display o)))
        (rw e) refl inv
  move-Guarded {g} f i (leave req r) e inv = quiet-Guarded is_executing g f i gone (rw e) refl inv
  move-Guarded {g} f i (abandon req r) e inv =
      unlock-Guarded is_executing g f i gone (rw e) refl inv

  pub Reach-Guarded :
      {s : System pl}
      → Reach pl w events display h networks requests responses cid s
      → Guarded is_executing s.mutex s.tasks
  Reach-Guarded start = none-Guarded is_executing unreceived refl
  Reach-Guarded (later {s} r (step i m)) = move-Guarded s.tasks i m refl (Reach-Guarded r)

  -- The request of a task that waits or executes passed the check.
  abbrev Checked : Task pl → Type 0
  Checked (waiting req r) = check pl w req ≡ ok r
  Checked (executing req r) = check pl w req ≡ ok r
  Checked _ = Unit {0}

  arrived-Checked :
      (req : List ℕ) (o : Result ServerError (TeeRequest pl))
      → check pl w req ≡ o
      → Checked (arrived pl req o)
  unfolding arrived
  arrived-Checked req (ok r) e = e
  arrived-Checked req (err x) e = tt
  arrived-Checked req (panic x) e = tt

  move-Checked :
      {g g' : Bool} {a a' : Task pl}
      → Move pl w events display h networks requests responses cid g a g' a'
      → Checked a
      → Checked a'
  move-Checked (receive req) before = arrived-Checked req (check pl w req) refl
  move-Checked (lock req r) before = before
  move-Checked (unlock now req r) before = tt
  move-Checked (respond req o) before = tt
  move-Checked (leave req r) before = tt
  move-Checked (abandon req r) before = tt

  update-Checked :
      (f : ℕ → Task pl) (i k : ℕ) (a : Task pl)
      → Checked (f k)
      → Checked a
      → Checked (update f i a k)
  update-Checked f i k a before new = elim (Bool-cases (k == i)) [
    | inl same ↦ rw same new
    | inr other ↦ rw other before
  ]

  Reach-Checked :
      {s : System pl}
      → Reach pl w events display h networks requests responses cid s
      → (k : ℕ) → Checked (s.tasks k)
  Reach-Checked start k = tt
  Reach-Checked (later {s} r (step i {task = a} m)) k =
      update-Checked s.tasks i k a (Reach-Checked r k) (move-Checked m (Reach-Checked r i))

  -- The bytes were read as a signed request for this, whose sender may send it.
  abbrev pub Admitted : List ℕ → TeeRequest pl → Type 0
  Admitted req r =
      (request : SignedRequest pl) × (w.deserialize req ≡ ok request)
      × (authenticate pl w request ≡ ok tt)
      × (request.request ≡ r)

  check-Admitted : (req : List ℕ) (r : TeeRequest pl) → check pl w req ≡ ok r → Admitted req r
  unfolding check
  check-Admitted req r e =
      let (request, read, e') =
        (>>=-iff (map_err failed_to_deserialize_request (w.deserialize req)) _ r).0 e in
      let (_, passed, e'') =
        (>>=-iff (authenticate pl w request) (λ _. ok request.request) r).0 e' in
      (request, map_err-eq-ok failed_to_deserialize_request (w.deserialize req) read, passed, cc)

  -- However the requests to the host's `execute` have interleaved since its start, also if senders
  -- go away while they wait or while their program runs: a request that is executed, with the mutex
  -- held, was read from the bytes of its sender and passed the check of the sender, and any task
  -- that executes a request then is this one.
  pub executing_alone :
      {s : System pl}
      → Reach pl w events display h networks requests responses cid s
      → (i j : ℕ) (req req' : List ℕ) (r r' : TeeRequest pl) → s.tasks i ≡ executing req r
      → s.tasks j ≡ executing req' r'
      → Admitted req r × (j ≡ i)
  executing_alone reached i j req req' r r' inside inside' = (
    check-Admitted req r (subst Checked inside (Reach-Checked reached i)),
    (Reach-Guarded reached).alone j i (rw inside') (rw inside),
  )
