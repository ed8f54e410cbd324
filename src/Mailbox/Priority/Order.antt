-- ===== src/Mailbox/Priority/Order.antt =====
-- The multi-level manager as a stable priority queue, and where `NextJob` departs from it.
use emberengine.Prelude.{
  ◌≡◌, refl, ap, ◌∙◌, List, [], ◌∷◌, ◌++◌, true, false, Option, none, some, if◌then◌else◌,
  Bool-cases, Option-cases, inl, inr, ◌⊎◌,
}
use emberengine.Prelude.Int.{ℤ, eqb_ℤ}
use emberengine.Mailbox.Job.{Job, SubmitError, worker_is_full, set_priority, priority_high}
use emberengine.Mailbox.Queues.{QueueImpl, insert_by, pop_list}
use emberengine.Mailbox.Scheduler.{
  RatioOps, PriorityScheduler, lookup, next_priority_with_ordering, no_priority,
}
use emberengine.Mailbox.Scheduler.Choice.{IsAscending, next_priority-ChoosesHighest}
use emberengine.Mailbox.Priority.{
  PriorityQueueManager, replace, push_at, submit, collect, take_from, take_chosen, pop_level,
  next_job,
}
use emberengine.Mailbox.Priority.Levels.{
  keys, key, AllAt, AllAt-snoc, AllAt-rest, Levels, jobs_of, AllWf, lookup-AllWf, replace-AllWf,
  keys-replace, replace_self, jobs_of-push, busy, collect-busy, jobs_of-idle, FirstLevel,
  first_level, busy-IsAscending,
}

module _ (I : QueueImpl Job) (F : RatioOps) where
  -- The levels are those of the sorted priorities, and the fallback is one of them.
  pub record IsWf (m : PriorityQueueManager I F) : Type 0 where
    pub ordered : IsAscending m.sorted_priorities
    pub levels : keys m.queues ≡ m.sorted_priorities
    pub jobs : AllWf I m.queues
    pub fallback : I.Q
    pub fallback_found : lookup m.fallback_priority m.queues ≡ some fallback

  abbrev pub view : PriorityQueueManager I F → List Job
  view m = jobs_of I m.queues

  -- The job as it is queued: with the fallback priority, if its own has no queue.
  abbrev pub admitted : PriorityQueueManager I F → Job → Job
  admitted m e = elim (lookup e.priority m.queues) [
    | some q ↦ e
    | none ↦ set_priority m.fallback_priority e
  ]

  -- What a submit may do: insert the job behind all jobs not below it, or be refused and leave
  -- the jobs, and the job itself, as they were.
  abbrev pub Submitted :
      PriorityQueueManager I F → Job → Option SubmitError × PriorityQueueManager I F × Job → Type 0
  Submitted m e (r, m', e') =
      ((r ≡ none) × (e' ≡ admitted m e) × (view m' ≡ insert_by key (admitted m e) (view m)))
      ⊎ ((r ≡ some worker_is_full) × (e' ≡ e) × (m'.queues ≡ m.queues))

  lookup-replace-some :
      (p k : ℤ) (qs : Levels I) (q' : I.Q) {q : I.Q}
      → lookup k qs ≡ some q
      → (r : I.Q) × (lookup k (replace p q' qs) ≡ some r)
  unfolding lookup replace
  lookup-replace-some p k [] q' e = cc
  lookup-replace-some p k ((r, s) ∷ qs) q' {q} e = elim (Bool-cases (eqb_ℤ r p)) [
    | inl here ↦ elim (Bool-cases (eqb_ℤ r k)) [
      | inl t ↦ (q', rw (here, lookup, t))
      | inr f ↦ (q, rw (here, lookup, f) (rw f at e))
    ]
    | inr other ↦ elim (Bool-cases (eqb_ℤ r k)) [
      | inl t ↦ (s, rw (other, lookup, t))
      | inr f ↦
          let (x, h) = lookup-replace-some p k qs q' (rw f at e) in (x, rw (other, lookup, f) h)
    ]
  ]

  -- A level exchanged for one whose jobs are of its priority.
  exchanged-IsWf :
      (m : PriorityQueueManager I F) (p : ℤ) (q' : I.Q)
      → IsWf m
      → I.IsOk q'
      → AllAt p (I.contents q')
      → IsWf (record m { queues = replace p q' m.queues })
  exchanged-IsWf m p q' w ok at =
      let (x, found) = lookup-replace-some p m.fallback_priority m.queues q' w.fallback_found in
      record {
        ordered = w.ordered;
        levels = keys-replace I p m.queues q' ∙ w.levels;
        jobs = replace-AllWf I p m.queues q' w.jobs ok at;
        fallback = x;
        fallback_found = found;
      }

  push_at_lem :
      (m : PriorityQueueManager I F) (q : I.Q) (e back : Job)
      → IsWf m
      → lookup e.priority m.queues ≡ some q
      → let (r, m', e') = push_at I F m e.priority q e back in
        IsWf m'
        × (((r ≡ none) × (e' ≡ e) × (view m' ≡ insert_by key e (view m)))
            ⊎ ((r ≡ some worker_is_full) × (e' ≡ back) × (m'.queues ≡ m.queues)))
  unfolding push_at
  push_at_lem m q e back w l =
      let (ok, at) = lookup-AllWf I e.priority m.queues w.jobs l in
      elim (Bool-cases (I.push q e).0) [
        | inl t ↦
            let grown = I.push_accepted q e ok t in
            rw t (
              exchanged-IsWf m e.priority (I.push q e).1 w (I.push-IsOk q e ok)
                  (rw grown (AllAt-snoc e.priority (I.contents q) e at refl)),
              inl (
                refl,
                refl,
                jobs_of-push I e m.queues q (I.push q e).1 (rw w.levels w.ordered) w.jobs l grown,
              ),
            )
        | inr f ↦
            let same : replace e.priority (I.push q e).1 m.queues ≡ m.queues =
              ap (λ r. replace e.priority r m.queues) (I.push_refused q e ok f)
              ∙ replace_self I e.priority m.queues l in
            rw f (rw same (w, inr (refl, refl, refl)))
      ]

  pub submit_lem :
      (m : PriorityQueueManager I F) (e : Job)
      → IsWf m
      → IsWf (submit I F m e).1 × Submitted m e (submit I F m e)
  unfolding submit
  submit_lem m e w = elim (Option-cases (lookup e.priority m.queues)) [
    | inl missing ↦
        rw (missing, submit, admitted, w.fallback_found)
          (push_at_lem (record m { fallback_warned = true }) w.fallback
            (set_priority m.fallback_priority e) e
            (record {
              ordered = w.ordered;
              levels = w.levels;
              jobs = w.jobs;
              fallback = w.fallback;
              fallback_found = w.fallback_found;
            })
            w.fallback_found)
    | inr c ↦ rw (c.1, submit, admitted) (push_at_lem m c.0 e e w c.1)
  ]

  -- What `NextJob` answers of the jobs in order. The priority high is -1, which the code also uses
  -- for "no priority", so a first job of that priority is not taken.
  abbrev pub Next : List Job → Option Job → List Job → Type 0
  Next [] r rest = (r ≡ none) × (rest ≡ [])
  Next (e ∷ es) r rest =
      if eqb_ℤ e.priority priority_high
      then (r ≡ none) × (rest ≡ e ∷ es)
      else (r ≡ some e) × (rest ≡ es)

  -- The scheduler is no part of what is well-formed.
  rescheduled-IsWf :
      (m : PriorityQueueManager I F) (sched : PriorityScheduler F)
      → IsWf m
      → IsWf (record m { scheduler = sched })
  rescheduled-IsWf m sched w = record {
    ordered = w.ordered;
    levels = w.levels;
    jobs = w.jobs;
    fallback = w.fallback;
    fallback_found = w.fallback_found;
  }

  take_chosen_lem :
      (m : PriorityQueueManager I F) (p : ℤ)
      → IsWf m
      → FirstLevel I p m.queues
      → let (r, m') = take_chosen I F m p in IsWf m' × Next (view m) r (view m')
  unfolding take_chosen pop_level
  take_chosen_lem m p w f =
      let q = f.level in
      let (ok, at) = lookup-AllWf I p m.queues w.jobs f.found in
      let rest : I.contents (I.pop q).1 ≡ f.others =
        I.pop_rest q ok ∙ ap (λ l. (pop_list l).1) f.filled in
      let taken : (I.pop q).0 ≡ some f.first =
        I.pop_result q ok ∙ ap (λ l. (pop_list l).0) f.filled in
      elim (Bool-cases (eqb_ℤ p no_priority)) [
        | inl high ↦
            let is_high : eqb_ℤ f.first.priority priority_high ≡ true =
              ap (λ t. eqb_ℤ t priority_high) f.at_level ∙ high in
            rw (high, take_chosen, f.view_now, is_high) (w, (refl, refl))
        | inr low ↦
            let not_high : eqb_ℤ f.first.priority priority_high ≡ false =
              ap (λ t. eqb_ℤ t priority_high) f.at_level ∙ low in
            rw (low, take_chosen, f.found, f.view_now, not_high)
              (
                exchanged-IsWf m p (I.pop q).1 w (I.pop-IsOk q ok)
                    (rw (I.pop_rest q ok) (AllAt-rest p (I.contents q) at)),
                (taken, f.view_replaced (I.pop q).1 ∙ ap (λ l. l ++ f.later) rest),
              )
      ]

  take_from_lem :
      (m : PriorityQueueManager I F) (ps : List ℤ)
      → IsWf m
      → busy I m.queues ≡ ps
      → let (r, m') = take_from I F m ps in IsWf m' × Next (view m) r (view m')
  unfolding take_from
  take_from_lem m [] w b = (w, rw (jobs_of-idle I m.queues w.jobs b) (refl, refl))
  take_from_lem m (p ∷ ps) w b =
      let keyed : IsAscending (keys m.queues) = rw w.levels w.ordered in
      let sorted : IsAscending (p ∷ ps) = rw b at (busy-IsAscending I m.queues keyed) in
      let (chosen, sched) = next_priority_with_ordering F m.scheduler (p ∷ ps) in
      let highest : chosen ≡ p = (next_priority-ChoosesHighest F m.scheduler p ps sorted).0 in
      rw highest (
        take_chosen_lem (record m { scheduler = sched }) p (rescheduled-IsWf m sched w)
          (first_level I p ps m.queues keyed w.jobs b))

  -- `NextJob` never meets a nil queue. It takes the first of the jobs in the order of their
  -- priorities, whatever the strategy, but answers "no job", and changes no queue, when that job
  -- has the priority high.
  pub next_job_lem :
      (m : PriorityQueueManager I F)
      → IsWf m
      → (r : Option Job) × (m' : PriorityQueueManager I F) × (next_job I F m ≡ some (r, m'))
        × IsWf m'
        × Next (view m) r (view m')
  unfolding next_job
  next_job_lem m w =
      let keyed : IsAscending (keys m.queues) = rw w.levels w.ordered in
      let found : collect I m.queues m.sorted_priorities ≡ some (busy I m.queues) =
        rw (← w.levels) (collect-busy I m.queues keyed) in
      let (r, m') = take_from I F m (busy I m.queues) in
      let (w', next) = take_from_lem m (busy I m.queues) w refl in
      (r, m', rw (found, next_job), w', next)
