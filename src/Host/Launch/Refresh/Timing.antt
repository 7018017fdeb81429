-- ===== src/Host/Launch/Refresh/Timing.antt =====
-- host/src/server.rs: when the loop of `spawn_attestation_task` saves attestations.
use sp1_tee.Prelude.{
  refl, ℕ, ◌+◌, ◌≤◌, ◌≡◌, ◌∙◌, inl, inr, Bool-cases, true, false, List, [], ◌∷◌, arith, ltb-cases,
}
use sp1_tee.Host.Launch.Refresh.{
  attestation_interval, try_again_interval, Ticker, TickerLaws, Save, after_save, saves,
  attestation_task,
}

-- Saves follow one another without overlap and at most this far apart.
abbrev pub Spaced : ℕ → List (ℕ × Save) → Type 0
Spaced gap [] = Unit {0}
Spaced gap (_ ∷ []) = Unit {0}
Spaced gap ((t, s) ∷ (t', s') ∷ rest) =
    (t + s.duration ≤ t') × (t' ≤ t + s.duration + gap) × Spaced gap ((t', s') ∷ rest)

-- The saves that fail between two successes take at most `budget` with the pauses after them, of
-- which `used` is spent, and every save takes at most `longest`.
abbrev pub Steady : (budget longest used : ℕ) → List Save → Type 0
Steady budget longest used [] = Unit {0}
Steady budget longest used (s ∷ ss) = elim s.succeeded [
  | true ↦ (s.duration ≤ longest) × Steady budget longest 0 ss
  | false ↦
      (s.duration ≤ longest)
      × (used + s.duration + try_again_interval ≤ budget)
      × Steady budget longest (used + s.duration + try_again_interval) ss
]

-- From `last` on, an attestation is saved again within this time each time.
abbrev pub Fresh : (limit last : ℕ) → List (ℕ × Save) → Type 0
Fresh limit last [] = Unit {0}
Fresh limit last ((t, s) ∷ rest) = elim s.succeeded [
  | true ↦ (t + s.duration ≤ last + limit) × Fresh limit (t + s.duration) rest
  | false ↦ Fresh limit last rest
]

-- Three hours, after which an attestation expires.
abbrev pub expiry : ℕ
expiry = 10800000

Fresh-mono :
    (limit limit' last : ℕ) (plan : List (ℕ × Save))
    → limit ≤ limit'
    → Fresh limit last plan
    → Fresh limit' last plan
Fresh-mono limit limit' last [] le fresh = tt
Fresh-mono limit limit' last ((t, s) ∷ rest) le fresh = elim (Bool-cases s.succeeded) [
  | inl done ↦
      let (soon, fresh') = rw done at fresh in
      rw done (omega arith, Fresh-mono limit limit' (t + s.duration) rest le fresh')
  | inr failed ↦
      let fresh' = rw failed at fresh in rw failed (Fresh-mono limit limit' last rest le fresh')
]

module _ (k : Ticker) (laws : TickerLaws k) where
  open laws use {period, deadline}

  -- A tick is awaited for at most a period.
  tick_lem :
      (i : k.Interval) (now earlier : ℕ)
      → earlier ≤ now
      → deadline i ≤ earlier + period i
      → let (now', i') = k.tick i now in
        (now ≤ now')
        × (now' ≤ now + period i)
        × (period i' ≡ period i)
        × (deadline i' ≤ now' + period i)
  tick_lem i now earlier before soon = elim (ltb-cases now (deadline i)) [
    | inl early ↦ omega (
      arith,
      laws.tick_early i now (omega arith),
      laws.ticked_period i now,
      laws.ticked_deadline i now,
    )
    | inr late ↦
        omega
          (arith, laws.tick_late i now late, laws.ticked_period i now, laws.ticked_deadline i now)
  ]

  after_failure :
      (s : Save) (now : ℕ) (i : k.Interval)
      → s.succeeded ≡ false
      → (after_save k s now i).0 ≡ now + s.duration + try_again_interval
  unfolding after_save
  after_failure s now i failed = rw failed refl

  after_save_lem :
      (s : Save) (now : ℕ) (i : k.Interval)
      → try_again_interval ≤ period i
      → deadline i ≤ now + period i
      → let (now', i') = after_save k s now i in
        (now + s.duration ≤ now')
        × (now' ≤ now + s.duration + period i)
        × (period i' ≡ period i)
        × (deadline i' ≤ now' + period i)
  unfolding after_save
  after_save_lem s now i long soon = elim (Bool-cases s.succeeded) [
    | inl done ↦ rw done (tick_lem i (now + s.duration) now (omega arith) soon)
    | inr failed ↦ rw failed (omega arith)
  ]

  saves-Spaced :
      (ss : List Save) (now gap : ℕ) (i : k.Interval)
      → period i ≡ gap
      → try_again_interval ≤ gap
      → deadline i ≤ now + gap
      → Spaced gap (saves k ss now i)
  unfolding saves
  saves-Spaced [] now gap i e long soon = tt
  saves-Spaced (s ∷ []) now gap i e long soon = tt
  saves-Spaced (s ∷ s' ∷ ss) now gap i e long soon =
      let (after, before, same, next) = after_save_lem s now i (omega arith) (omega arith) in
      (
        after,
        omega arith,
        saves-Spaced (s' ∷ ss) (after_save k s now i).0 gap (after_save k s now i).1 (same ∙ e) long
            (omega arith),
      )

  -- For an interval that ticks as tokio documents and a period of at least the five seconds between
  -- attempts: in the loop that saves attestations, whatever saves succeed and however long they
  -- take, each save starts after the one before it has ended, and at most the period after that.
  pub attestation_task-Spaced :
      (interval spawned : ℕ) (outcomes : List Save)
      → try_again_interval ≤ interval
      → Spaced interval (attestation_task k interval spawned outcomes)
  unfolding attestation_task
  attestation_task-Spaced interval spawned outcomes long =
      let now = spawned + try_again_interval in
      let i = k.interval interval now in
      saves-Spaced outcomes now interval i (laws.made_period interval now) long
        (omega (arith, laws.made_deadline interval now))

  saves-Fresh :
      (budget longest used last gap now : ℕ) (ss : List Save) (i : k.Interval)
      → period i ≡ gap
      → try_again_interval ≤ gap
      → deadline i ≤ now + gap
      → now ≤ last + gap + used
      → used ≤ budget
      → Steady budget longest used ss
      → Fresh (gap + budget + longest) last (saves k ss now i)
  unfolding saves
  saves-Fresh budget longest used last gap now [] i e long soon late spent steady = tt
  saves-Fresh budget longest used last gap now (s ∷ ss) i e long soon late spent steady =
      let (after, before, same, next) = after_save_lem s now i (omega arith) (omega arith) in
      let (now', i') = after_save k s now i in
      elim (Bool-cases s.succeeded) [
        | inl done ↦
            let (short, steady') = rw done at steady in
            rw done (
              omega arith,
              saves-Fresh budget longest 0 (now + s.duration) gap now' ss i' (omega arith) long
                  (omega arith) (omega arith) (omega arith) steady',
            )
        | inr failed ↦
            let (short, within, steady') = rw failed at steady in
            let exact = after_failure s now i failed in
            rw failed (
              saves-Fresh budget longest (used + s.duration + try_again_interval) last gap now' ss
                i' (omega arith) long (omega arith) (omega arith) within steady')
      ]

  -- For an interval that ticks as tokio documents: in the loop that saves attestations every half
  -- hour, if each save takes at most some time, the saves that fail between two that succeed take
  -- at most some time with the five seconds after each, and the two times with the half hour are at
  -- most three hours, then from the loop's start on an attestation is saved again within three
  -- hours each time, where three hours is what an attestation lasts.
  pub attestation_task-Fresh :
      (spawned budget longest : ℕ) (outcomes : List Save)
      → attestation_interval + budget + longest ≤ expiry
      → Steady budget longest 0 outcomes
      → Fresh expiry
          (spawned + try_again_interval)
          (attestation_task k attestation_interval spawned outcomes)
  unfolding attestation_task
  attestation_task-Fresh spawned budget longest outcomes within steady =
      let now = spawned + try_again_interval in
      let i = k.interval attestation_interval now in
      Fresh-mono (attestation_interval + budget + longest) expiry now (saves k outcomes now i)
        within
        (saves-Fresh budget longest 0 now attestation_interval now outcomes i
          (laws.made_period attestation_interval now) (omega arith)
          (omega (arith, laws.made_deadline attestation_interval now)) (omega arith) (omega arith)
          steady)
