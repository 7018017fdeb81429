-- ===== src/Host/Launch/Refresh.antt =====
-- host/src/server.rs: `spawn_attestation_task`, the loop that saves attestations for ever. Times are
-- in milliseconds; tokio's interval is a parameter, and the outcomes of the saves are given.
pub mod Timing
use sp1_tee.Prelude.{
  refl, ℕ, ◌+◌, ◌≤◌, ◌≡◌, ◌∙◌, inl, inr, Bool, Bool-cases, true, false, List, [], ◌∷◌, arith,
  ltb-cases,
}

-- `ATTESTATION_INTERVAL` and `TRY_AGAIN_INTERVAL`
abbrev pub attestation_interval : ℕ
attestation_interval = 1800000

abbrev pub try_again_interval : ℕ
try_again_interval = 5000

-- `tokio::time::interval`: made at a time, and awaited at a time until its next tick.
pub record Ticker : Type 1 where
  pub Interval : Type 0
  pub interval : (period now : ℕ) → Interval
  pub tick : Interval → (now : ℕ) → ℕ × Interval

-- What tokio documents: the first tick is at once, the next are a period apart, and one that has
-- been missed is made up for at once.
pub record TickerLaws (k : Ticker) : Type 0 where
  pub period : k.Interval → ℕ
  pub deadline : k.Interval → ℕ
  pub made_period : (p now : ℕ) → period (k.interval p now) ≡ p
  pub made_deadline : (p now : ℕ) → deadline (k.interval p now) ≡ now
  pub tick_late : (i : k.Interval) (now : ℕ) → deadline i ≤ now → (k.tick i now).0 ≡ now
  pub tick_early : (i : k.Interval) (now : ℕ) → now ≤ deadline i → (k.tick i now).0 ≡ deadline i
  pub ticked_period : (i : k.Interval) (now : ℕ) → period (k.tick i now).1 ≡ period i
  pub ticked_deadline :
      (i : k.Interval) (now : ℕ) → deadline (k.tick i now).1 ≡ deadline i + period i

-- One call of `save_attestation`: whether it succeeded, and how long it took.
pub record Save : Type 0 where
  pub succeeded : Bool
  pub duration : ℕ

module _ (k : Ticker) where
  -- When the loop goes on after a save that was started at this time.
  pub after_save : Save → (started : ℕ) → k.Interval → ℕ × k.Interval
  after_save save started i = elim save.succeeded [
    | true ↦ k.tick i (started + save.duration)
    | false ↦ (started + save.duration + try_again_interval, i)
  ]

  -- The loop: each save with the time at which it is started.
  pub saves : List Save → (now : ℕ) → k.Interval → List (ℕ × Save)
  unfolding after_save
  saves [] now i = []
  saves (s ∷ ss) now i = let (now', i') = after_save s now i in (now, s) ∷ saves ss now' i'

  pub attestation_task : (interval spawned : ℕ) → List Save → List (ℕ × Save)
  unfolding saves
  attestation_task interval spawned outcomes =
      let now = spawned + try_again_interval in saves outcomes now (k.interval interval now)
