-- ===== src/Mailbox/Scheduler.antt =====
-- The priority scheduler of engine/pkg/actor/mailbox/scheduler.go. The maps are association
-- lists; a missing key reads as 0, as in Go. The code compares the ratios counter / weight as
-- float64 values: `RatioOps` stands for those.
pub mod Choice
use emberengine.Prelude.{
  ℕ, ◌+◌, ◌-◌, List, [], ◌∷◌, Bool, Option, none, some, ltb, if◌then◌else◌, ◌||◌, ◌^◌,
}
use emberengine.Prelude.Int.{ℤ, pos, negsuc, eqb_ℤ, ltb_ℤ}

pub data Strategy : Type 0 where
  absolute weighted fairness other_strategy : Strategy

abbrev pub Counters : Type 0
Counters = List (ℤ × ℕ)

-- A Go map read, `none` for a missing key.
unfoldable pub lookup {ℓ} : {V : Type ℓ} → ℤ → List (ℤ × V) → Option V
lookup p [] = none
lookup p ((q, v) ∷ m) = if eqb_ℤ q p then some v else lookup p m

abbrev counter_of : ℤ → Counters → ℕ
counter_of p c = elim (lookup p c) [ none ↦ 0 | some n ↦ n ]

-- `ps.counters[p]++`, which adds a missing key.
increment : ℤ → Counters → Counters
increment p [] = (p, 1) ∷ []
increment p ((q, n) ∷ c) = if eqb_ℤ q p then (q, n + 1) ∷ c else (q, n) ∷ increment p c

-- The largest and the smallest counter, from a start.
max_counter : ℕ → Counters → ℕ
max_counter m [] = m
max_counter m ((q, n) ∷ c) = max_counter (if ltb m n then n else m) c

min_counter : ℕ → Counters → ℕ
min_counter m [] = m
min_counter m ((q, n) ∷ c) = min_counter (if ltb n m then n else m) c

subtract_all : ℕ → Counters → Counters
subtract_all k [] = []
subtract_all k ((q, n) ∷ c) = (q, n - k) ∷ subtract_all k c

abbrev reset_threshold : ℕ
reset_threshold = 10_000_000_000

-- `resetCountersIfNeeded`. No counter is below the smallest, so the subtraction is exact.
pub reset_counters_if_needed : Counters → Counters
unfolding max_counter min_counter subtract_all
reset_counters_if_needed c =
    let m = max_counter 0 c in if ltb reset_threshold m then subtract_all (min_counter m c) c else c

-- The leading entries equal to the first, which the loop collects before its `break`.
pub same_priority : ℤ → List ℤ → List ℤ
same_priority highest [] = []
same_priority highest (p ∷ ps) = if eqb_ℤ p highest then p ∷ same_priority highest ps else []

abbrev pub no_priority : ℤ
no_priority = negsuc 0

-- The float64 operations of the weighted choice: `float64(counter) / float64(weight)`, `<`, and
-- the largest int64 as a float.
pub record RatioOps : Type 1 where
  pub Ratio : Type 0
  pub divide : ℕ → ℤ → Ratio
  pub below : Ratio → Ratio → Bool
  pub max_ratio : Ratio

module _ (F : RatioOps) where
  open F use {Ratio, divide, below, max_ratio}

  pub record PriorityScheduler : Type 0 where
    pub strategy : Strategy
    pub weights : List (ℤ × ℤ)
    pub counters : Counters

  -- The selection loop of the weighted strategy over the queues left.
  weighted_loop : PriorityScheduler → List ℤ → ℤ → Ratio → ℤ
  weighted_loop ps [] selected min_ratio = selected
  weighted_loop ps (p ∷ rest) selected min_ratio =
      let skip = weighted_loop ps rest selected min_ratio in
      elim (lookup p ps.weights) [
        | none ↦ skip
        | some weight ↦
            let ratio = divide (counter_of p ps.counters) weight in
            let take = weighted_loop ps rest p ratio in
            if ltb_ℤ (pos 0) weight
            then (if eqb_ℤ selected no_priority || below ratio min_ratio then take else skip)
            else skip
      ]

  fairness_loop : PriorityScheduler → List ℤ → ℤ → ℕ → ℤ
  fairness_loop ps [] selected min_counter = selected
  fairness_loop ps (p ∷ rest) selected min_counter =
      let counter = counter_of p ps.counters in
      let take = fairness_loop ps rest p counter in
      let skip = fairness_loop ps rest selected min_counter in
      if eqb_ℤ selected no_priority || ltb counter min_counter then take else skip

  count_selected : PriorityScheduler → ℤ → ℤ × PriorityScheduler
  count_selected ps selected =
      if eqb_ℤ selected no_priority
      then (selected, ps)
      else (selected, record ps { counters = increment selected ps.counters })

  -- `weightedPriorityWithOrdering` and `fairnessPriorityWithOrdering` of `highest ∷ rest`.
  pub weighted_priority : PriorityScheduler → ℤ → List ℤ → ℤ × PriorityScheduler
  weighted_priority ps highest rest =
      let ps' = record ps { counters = reset_counters_if_needed ps.counters } in
      elim (same_priority highest (highest ∷ rest)) [
        | [] ↦ count_selected ps' (weighted_loop ps' [] no_priority max_ratio)
        | p ∷ [] ↦ (p, ps')
        | p ∷ q ∷ more ↦ count_selected ps' (weighted_loop ps' (p ∷ q ∷ more) no_priority max_ratio)
      ]

  pub fairness_priority : PriorityScheduler → ℤ → List ℤ → ℤ × PriorityScheduler
  fairness_priority ps highest rest =
      let ps' = record ps { counters = reset_counters_if_needed ps.counters } in
      elim (same_priority highest (highest ∷ rest)) [
        | [] ↦ count_selected ps' (fairness_loop ps' [] no_priority (2 ^ 63 - 1))
        | p ∷ [] ↦ (p, ps')
        | p ∷ q ∷ more ↦
            count_selected ps' (fairness_loop ps' (p ∷ q ∷ more) no_priority (2 ^ 63 - 1))
      ]

  pub by_strategy : Strategy → PriorityScheduler → ℤ → List ℤ → ℤ × PriorityScheduler
  unfolding weighted_priority fairness_priority
  by_strategy absolute ps highest rest = (highest, ps)
  by_strategy weighted ps highest rest = weighted_priority ps highest rest
  by_strategy fairness ps highest rest = fairness_priority ps highest rest
  by_strategy other_strategy ps highest rest = (highest, ps)

  -- `NextPriorityWithOrdering`: the priority chosen, or -1.
  pub next_priority_with_ordering : PriorityScheduler → List ℤ → ℤ × PriorityScheduler
  unfolding by_strategy
  next_priority_with_ordering ps [] = (no_priority, ps)
  next_priority_with_ordering ps (highest ∷ rest) = by_strategy ps.strategy ps highest rest
