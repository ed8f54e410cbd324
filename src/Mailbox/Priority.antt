-- ===== src/Mailbox/Priority.antt =====
-- The multi-level manager of engine/pkg/actor/mailbox/queue_manager_priority.go, over any queue
-- implementation. The map of queues is an association list in the order of its keys: no operation
-- depends on the order in which Go ranges over it.
pub mod Maps
pub mod Levels
pub mod Order
use emberengine.Prelude.{ℕ, ◌+◌, List, [], ◌∷◌, Bool, true, Option, none, some, if◌then◌else◌, ◌&&◌}
use emberengine.Prelude.Int.{ℤ, eqb_ℤ}
use emberengine.Mailbox.Job.{Job, SubmitError, worker_is_full, no_available_queue, set_priority}
use emberengine.Mailbox.Queues.{QueueImpl, drain}
use emberengine.Mailbox.Scheduler.{
  RatioOps, PriorityScheduler, lookup, next_priority_with_ordering, no_priority,
}

-- A write to a key that the map has.
pub replace {ℓ} : {V : Type ℓ} → ℤ → V → List (ℤ × V) → List (ℤ × V)
replace p v [] = []
replace p v ((q, w) ∷ m) = if eqb_ℤ q p then (q, v) ∷ m else (q, w) ∷ replace p v m

module _ (I : QueueImpl Job) where
  -- One round of the loop over the priorities, with the priorities that the later rounds collect.
  abbrev pub add_busy : Option I.Q → ℤ → Option (List ℤ) → Option (List ℤ)
  add_busy (some q) p (some l) = some (if I.empty q then l else p ∷ l)
  add_busy _ _ _ = none

  -- The priorities whose queues are not empty; `none` is the panic at a nil queue.
  pub collect : List (ℤ × I.Q) → List ℤ → Option (List ℤ)
  collect qs [] = some []
  collect qs (p ∷ ps) = add_busy (lookup p qs) p (collect qs ps)

  pub total_len : List (ℤ × I.Q) → ℕ
  total_len [] = 0
  total_len ((p, q) ∷ qs) = I.len q + total_len qs

  pub all_empty : List (ℤ × I.Q) → Bool
  all_empty [] = true
  all_empty ((p, q) ∷ qs) = I.empty q && all_empty qs

  -- `DrainAll` over the priorities left, each queue with fuel of its own; `none` is a queue that
  -- is nil, or fuel that ran out.
  pub drain_levels :
      {S : Type 0} → ℕ → (Job → S → S) → List ℤ → List (ℤ × I.Q) → S → Option (S × List (ℤ × I.Q))
  drain_levels fuel handler [] qs s = some (s, qs)
  drain_levels fuel handler (p ∷ ps) qs s = elim (lookup p qs) [
    | none ↦ none
    | some q ↦ elim (drain I handler fuel q s) [
      | none ↦ none
      | some (s', q') ↦ drain_levels fuel handler ps (replace p q' qs) s'
    ]
  ]

module _ (I : QueueImpl Job) (F : RatioOps) where
  pub record PriorityQueueManager : Type 0 where
    pub queues : List (ℤ × I.Q)
    pub scheduler : PriorityScheduler F
    pub sorted_priorities : List ℤ
    pub fallback_priority : ℤ
    pub fallback_warned : Bool

  abbrev Manager : Type 0
  Manager = PriorityQueueManager

  -- `que.Push(e)` of the queue at `p`, with the job that the caller holds afterwards.
  pub push_at : Manager → ℤ → I.Q → Job → Job → Option SubmitError × Manager × Job
  push_at m p q e refused_job =
      let (pushed, q') = I.push q e in
      if pushed
      then (none, record m { queues = replace p q' m.queues }, e)
      else (some worker_is_full, record m { queues = replace p q' m.queues }, refused_job)

  -- `Submit`. A job of an unregistered priority takes the fallback priority, and gets its own
  -- back if it is refused.
  pub submit : Manager → Job → Option SubmitError × Manager × Job
  unfolding push_at
  submit m e = elim (lookup e.priority m.queues) [
    | some q ↦ push_at m e.priority q e e
    | none ↦ elim (lookup m.fallback_priority m.queues) [
      | none ↦ (some no_available_queue, m, e)
      | some q ↦
          push_at (record m { fallback_warned = true }) m.fallback_priority q
            (set_priority m.fallback_priority e) e
    ]
  ]

  pub pop_level : Manager → ℤ → Option I.Q → Option Job × Manager
  pop_level m p none = (none, m)
  pop_level m p (some q) = let (e, q') = I.pop q in (e, record m { queues = replace p q' m.queues })

  -- `NextJob` from the scheduler's answer, of which -1 stands for "none".
  pub take_chosen : Manager → ℤ → Option Job × Manager
  unfolding pop_level
  take_chosen m chosen =
      if eqb_ℤ chosen no_priority then (none, m) else pop_level m chosen (lookup chosen m.queues)

  -- `NextJob` from the priorities collected.
  pub take_from : Manager → List ℤ → Option Job × Manager
  take_from m [] = (none, m)
  take_from m (p ∷ ps) =
      let (chosen, sched) = next_priority_with_ordering F m.scheduler (p ∷ ps) in
      take_chosen (record m { scheduler = sched }) chosen

  pub next_job : Manager → Option (Option Job × Manager)
  unfolding take_from take_chosen
  next_job m = elim (collect I m.queues m.sorted_priorities) [
    | none ↦ none
    | some l ↦ some (take_from m l)
  ]

  pub get_job_len : Manager → ℕ
  unfolding total_len
  get_job_len m = total_len I m.queues

  pub is_empty : Manager → Bool
  unfolding all_empty
  is_empty m = all_empty I m.queues

  pub get_priority_queue_len : Manager → ℤ → ℕ
  get_priority_queue_len m p = elim (lookup p m.queues) [ none ↦ 0 | some q ↦ I.len q ]

  pub drain_all : {S : Type 0} → ℕ → (Job → S → S) → Manager → S → Option (S × Manager)
  unfolding drain_levels
  drain_all fuel handler m s = elim (drain_levels I fuel handler m.sorted_priorities m.queues s) [
    | none ↦ none
    | some (s', qs) ↦ some (s', record m { queues = qs })
  ]
