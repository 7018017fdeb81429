-- ===== src/Enclave/Tasks/Paths.antt =====
-- enclave/src/server.rs: steps of the tasks one after another.
use sp1_tee.Prelude.{ℕ, ◌≡◌, ◌==◌, ==_iff, refl, Bool, true}
use sp1_tee.Common.Communication.{Transport, Codec}
use sp1_tee.Enclave.Platform.{Platform}
use sp1_tee.Enclave.Server
use sp1_tee.Enclave.Server.{Request, Response}
use sp1_tee.Enclave.Tasks.{Task, Move, System, Step, step, Reach, later, Steps, here, next}

module _ (pl : Platform) (t : Transport) (requests : Codec (Request pl))
    (responses : Codec (Response pl)) (server : Server.Server pl) where
  abbrev Connection : Type 0
  Connection = Task pl t requests responses

  abbrev Tasks : Type 0
  Tasks = System pl t requests responses

  abbrev Leads : Tasks → Tasks → Type 0
  Leads = Steps pl t requests responses server

  pub first-Step :
      {s s₁ s₂ : Tasks} → Step pl t requests responses server s s₁ → Leads s₁ s₂ → Leads s s₂
  first-Step m here = next here m
  first-Step m (next ms m') = next (first-Step m ms) m'

  pub Reach-Steps :
      {s s' : Tasks}
      → Reach pl t requests responses server s
      → Leads s s'
      → Reach pl t requests responses server s'
  Reach-Steps r here = r
  Reach-Steps r (next ms m) = later (Reach-Steps r ms) m

  pub Steps-trans : {s₁ s₂ s₃ : Tasks} → Leads s₁ s₂ → Leads s₂ s₃ → Leads s₁ s₃
  Steps-trans ms here = ms
  Steps-trans ms (next ms' m) = next (Steps-trans ms ms') m

  -- Where some steps take the task `i`.
  abbrev pub Gets : Tasks → ℕ → Connection → Type 0
  Gets s i c = (s' : Tasks) × Leads s s' × (s'.tasks i ≡ c)

  pub move_lem :
      (s : Tasks) (i : ℕ) {g : Bool} {d : pl.Driver} {c c' : Connection}
      → s.tasks i ≡ c
      → Move pl t requests responses server s.guard s.driver c g d c'
      → Gets s i c'
  move_lem s i {g} {d} {c' = c'} e m =
      let here_i : (i == i) ≡ true = (==_iff i i).1 refl in
      let m' : Move pl t requests responses server s.guard s.driver (s.tasks i) g d c' = rw e m in
      (_, next here (step i m'), rw here_i refl)

  pub then-Gets :
      {s : Tasks} {i : ℕ} {c c' : Connection}
      → Reach pl t requests responses server s
      → Gets s i c
      → ((s' : Tasks) → Reach pl t requests responses server s' → s'.tasks i ≡ c → Gets s' i c')
      → Gets s i c'
  then-Gets r (s₁, ms, e) more =
      let (s₂, ms', e') = more s₁ (Reach-Steps r ms) e in (s₂, Steps-trans ms ms', e')
