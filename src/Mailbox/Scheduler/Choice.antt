-- ===== src/Mailbox/Scheduler/Choice.antt =====
-- What the scheduler of engine/pkg/actor/mailbox/scheduler.go chooses among distinct priorities,
-- which is how the priority manager calls it.
use emberengine.Prelude.{◌≡◌, refl, List, [], ◌∷◌, ◌⊎◌, inl, inr, arith}
use emberengine.Prelude.Int.{ℤ, ◌<ℤ◌}
use emberengine.Mailbox.Scheduler.{
  Strategy, absolute, weighted, fairness, other_strategy, RatioOps, PriorityScheduler,
  same_priority, by_strategy, weighted_priority, fairness_priority, next_priority_with_ordering,
  reset_counters_if_needed,
}

-- Strictly from the highest priority (the smallest number) to the lowest.
abbrev pub IsAscending : List ℤ → Type 0
IsAscending [] = Unit
IsAscending (p ∷ []) = Unit
IsAscending (p ∷ q ∷ ps) = (p <ℤ q) × IsAscending (q ∷ ps)

same_priority_alone :
    (p : ℤ) (ps : List ℤ) → IsAscending (p ∷ ps) → same_priority p (p ∷ ps) ≡ p ∷ []
unfolding same_priority
same_priority_alone p [] h = ground arith
same_priority_alone p (q ∷ ps) h = ground arith

module _ (F : RatioOps) where
  abbrev Scheduler : Type 0
  Scheduler = PriorityScheduler F

  -- The highest priority is chosen, and the counters change at most by their reset.
  abbrev pub ChoosesHighest : Scheduler → ℤ → ℤ × Scheduler → Type 0
  ChoosesHighest ps p (chosen, ps') =
      (chosen ≡ p)
      × (ps'.strategy ≡ ps.strategy)
      × (ps'.weights ≡ ps.weights)
      × ((ps'.counters ≡ ps.counters) ⊎ (ps'.counters ≡ reset_counters_if_needed ps.counters))

  by_strategy-ChoosesHighest :
      (s : Strategy) (ps : Scheduler) (p : ℤ) (rest : List ℤ)
      → IsAscending (p ∷ rest)
      → ChoosesHighest ps p (by_strategy F s ps p rest)
  unfolding by_strategy
  by_strategy-ChoosesHighest absolute ps p rest h = (refl, refl, refl, inl refl)
  by_strategy-ChoosesHighest weighted ps p rest h =
      rw (same_priority_alone p rest h, weighted_priority) (refl, refl, refl, inr refl)
  by_strategy-ChoosesHighest fairness ps p rest h =
      rw (same_priority_alone p rest h, fairness_priority) (refl, refl, refl, inr refl)
  by_strategy-ChoosesHighest other_strategy ps p rest h = (refl, refl, refl, inl refl)

  -- Among distinct priorities every strategy, also the weighted and the fair one, chooses the
  -- highest, and counts nothing: the counters change at most by their reset.
  pub next_priority-ChoosesHighest :
      (ps : Scheduler) (p : ℤ) (rest : List ℤ)
      → IsAscending (p ∷ rest)
      → ChoosesHighest ps p (next_priority_with_ordering F ps (p ∷ rest))
  unfolding next_priority_with_ordering
  next_priority-ChoosesHighest ps p rest h = by_strategy-ChoosesHighest ps.strategy ps p rest h
