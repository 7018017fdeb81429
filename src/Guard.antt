-- ===== src/Guard.antt =====
-- A mutex among tasks, of which some are in the section that it guards: what the guard and the
-- sections have to do with each other, and the steps that keep it so.
use sp1_tee.Prelude.{
  ℕ, ◌≡◌, inl, inr, ◌==◌, Bool, Bool-cases, true, false, refl, arith, if◌then◌else◌,
}

module _ {T : Type 0} where
  abbrev pub update : (ℕ → T) → ℕ → T → ℕ → T
  update f i t j = if j == i then t else f j

-- The guard is locked exactly while some task is inside, and no other is then.
pub record Guarded {T : Type 0} (inside : T → Bool) (guard : Bool) (tasks : ℕ → T) : Type 0 where
  pub held : guard ≡ true → (i : ℕ) × (inside (tasks i) ≡ true)
  pub free : guard ≡ false → (i : ℕ) → inside (tasks i) ≡ false
  pub alone : (i j : ℕ) → inside (tasks i) ≡ true → inside (tasks j) ≡ true → i ≡ j

module _ {T : Type 0} (inside : T → Bool) where
  pub none-Guarded : (t : T) → inside t ≡ false → Guarded inside false (λ _. t)
  none-Guarded t outside = record {
    held = λ e. absurd (cc);
    free = λ e i. outside;
    alone = λ i j e e'. absurd (cc);
  }

  -- A step of a task that neither takes nor gives back the guard.
  pub quiet-Guarded :
      (g : Bool) (f : ℕ → T) (i : ℕ) (t : T)
      → inside (f i) ≡ false
      → inside t ≡ false
      → Guarded inside g f
      → Guarded inside g (update f i t)
  quiet-Guarded g f i t before after inv = record {
    held = λ e. let (k, there) = inv.held e in (k, ground arith);
    free = λ e k. let none = inv.free e k in ground arith;
    alone = λ k l in_k in_l. inv.alone k l (ground arith) (ground arith);
  }

  pub lock-Guarded :
      (f : ℕ → T) (i : ℕ) (t : T)
      → inside t ≡ true
      → Guarded inside false f
      → Guarded inside true (update f i t)
  lock-Guarded f i t after inv = record {
    held = λ e. (i, ground arith);
    free = λ e k. absurd (cc);
    alone = λ k l in_k in_l.
        let none_k = inv.free refl k in let none_l = inv.free refl l in ground arith;
  }

  pub unlock-Guarded :
      (g : Bool) (f : ℕ → T) (i : ℕ) (t : T)
      → inside (f i) ≡ true
      → inside t ≡ false
      → Guarded inside g f
      → Guarded inside false (update f i t)
  unlock-Guarded g f i t before after inv = record {
    held = λ e. absurd (cc);
    free = λ e k. elim (Bool-cases (inside (f k))) [
      | inl busy ↦ let same = inv.alone k i busy before in ground arith
      | inr idle ↦ ground arith
    ];
    alone = λ k l in_k in_l. inv.alone k l (ground arith) (ground arith);
  }
