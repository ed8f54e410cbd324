-- ===== src/Mailbox/Tests.antt =====
-- The queue managers over the bounded queue, at concrete inputs: two slots per queue, a queue for
-- the system and one for the users, and the levels -1, 0 and 1.
use emberengine.Prelude.{ℕ, ◌≡◌, refl, List, [], ◌∷◌, false, Option, some, arith, ltb}
use emberengine.Prelude.Int.{ℤ, pos}
use emberengine.BoundedMpsc.{Queue}
use emberengine.BoundedMpsc.Bounds.{IsValid}
use emberengine.Mailbox.Job.{
  Job, other_body, event, priority_high, priority_normal, priority_urgent,
}
use emberengine.Mailbox.Queues.{QueueImpl}
use emberengine.Mailbox.Bounded.{bounded_impl}
use emberengine.Mailbox.Dual.{DualQueueManager}
use emberengine.Mailbox.Dual
use emberengine.Mailbox.Dual.Order as DualOrder
use emberengine.Mailbox.Scheduler.{
  RatioOps, PriorityScheduler, lookup, fairness, next_priority_with_ordering,
}
use emberengine.Mailbox.Scheduler.Choice.{next_priority-ChoosesHighest, ChoosesHighest}
use emberengine.Mailbox.Priority.{PriorityQueueManager}
use emberengine.Mailbox.Priority
use emberengine.Mailbox.Priority.Order as PriorityOrder

abbrev job : ℕ → ℤ → Job
job n p = record { ident = n; kind = event; priority = p; dispatcher_key = 0; body = other_body }

abbrev blank : Job
blank = job 0 (pos 0)

abbrev impl : QueueImpl Job
impl = bounded_impl blank 1

abbrev holding : Job → Queue Job
holding e = record { buffer = e ∷ blank ∷ []; mask = 1; head = 0; tail = 1; count = 1 }

holding-IsValid : (e : Job) → IsValid 1 (holding e)
holding-IsValid e = record {
  at_least_two = omega arith;
  fits_int = omega arith;
  sized = refl;
  masked = refl;
  head_word = omega arith;
  ahead = refl;
  within = omega arith;
}

abbrev urgent_job : Job
urgent_job = job 1 priority_urgent

abbrev normal_job : Job
normal_job = job 2 priority_normal

abbrev high_job : Job
high_job = job 3 priority_high

abbrev dual : DualQueueManager impl
dual = record { system_mailbox = holding urgent_job; user_mailbox = holding normal_job }

dual-IsWf : Dual.Order.IsWf impl dual
dual-IsWf = record {
  system_ok = holding-IsValid urgent_job;
  user_ok = holding-IsValid normal_job;
  system_jobs = (refl, tt);
  user_jobs = (refl, tt);
}

submit-insert_by_example :
    DualOrder.IsWf impl (Dual.submit impl dual high_job).1
    × DualOrder.Submitted impl dual high_job (Dual.submit impl dual high_job)
submit-insert_by_example = DualOrder.submit-insert_by impl dual high_job dual-IsWf

abbrev collect_jobs : Job → List Job → List Job
collect_jobs e es = e ∷ es

-- Counters compared without their weights.
abbrev plain_ratios : RatioOps
plain_ratios = record { Ratio = ℕ; divide = λ n w. n; below = ltb; max_ratio = 1_000 }

abbrev scheduler : PriorityScheduler plain_ratios
scheduler = record {
  strategy = fairness;
  weights = [];
  counters = (priority_high, 9) ∷ (priority_normal, 0) ∷ [];
}

next_priority-ChoosesHighest_example :
    ChoosesHighest plain_ratios scheduler priority_high
      (next_priority_with_ordering plain_ratios scheduler (priority_high ∷ priority_normal ∷ []))
next_priority-ChoosesHighest_example =
    next_priority-ChoosesHighest plain_ratios scheduler priority_high (priority_normal ∷ [])
      (omega arith, tt)

abbrev level_queues : List (ℤ × Queue Job)
level_queues = (priority_high, holding high_job) ∷ (priority_normal, holding normal_job) ∷ []

found_normal : lookup priority_normal level_queues ≡ some (holding normal_job)
unfolding lookup
found_normal = refl

abbrev levels : PriorityQueueManager impl plain_ratios
levels = record {
  queues = level_queues;
  scheduler = scheduler;
  sorted_priorities = priority_high ∷ priority_normal ∷ [];
  fallback_priority = priority_normal;
  fallback_warned = false;
}

levels-IsWf : PriorityOrder.IsWf impl plain_ratios levels
levels-IsWf = record {
  ordered = (omega arith, tt);
  levels = refl;
  jobs = (holding-IsValid high_job, (refl, tt), (holding-IsValid normal_job, (refl, tt), tt));
  fallback = holding normal_job;
  fallback_found = found_normal;
}

submit_lem_example :
    PriorityOrder.IsWf impl plain_ratios (Priority.submit impl plain_ratios levels urgent_job).1
    × PriorityOrder.Submitted impl plain_ratios levels urgent_job
        (Priority.submit impl plain_ratios levels urgent_job)
submit_lem_example = PriorityOrder.submit_lem impl plain_ratios levels urgent_job levels-IsWf

next_job_lem_example :
    (r : Option Job) × (m' : PriorityQueueManager impl plain_ratios) × (Priority.next_job impl
        plain_ratios levels
      ≡ some (r, m'))
    × PriorityOrder.IsWf impl plain_ratios m'
    × PriorityOrder.Next impl plain_ratios
        (high_job ∷ normal_job ∷ [])
        r
        (PriorityOrder.view impl plain_ratios m')
next_job_lem_example = PriorityOrder.next_job_lem impl plain_ratios levels levels-IsWf
