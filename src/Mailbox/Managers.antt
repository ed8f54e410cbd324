-- ===== src/Mailbox/Managers.antt =====
-- The queue manager interface of engine/pkg/actor/mailbox/queue_manager.go, `IQueueManager`, with
-- what the workers rely on, and the two managers that keep it.
use emberengine.Prelude.{
  ℕ, ◌≡◌, refl, ap, subst, sym, List, Bool, true, Option, none, some, ◌⊎◌, inl, inr, Option-cases,
}
use emberengine.Prelude.Int.{ℤ}
use emberengine.Mailbox.Job.{Job, SubmitError, worker_is_full}
use emberengine.Mailbox.Queues.{QueueImpl, insert_by}
use emberengine.Mailbox.Scheduler.{RatioOps, lookup}
use emberengine.Mailbox.Dual.{DualQueueManager}
use emberengine.Mailbox.Dual
use emberengine.Mailbox.Dual.Order as DualOrder
use emberengine.Mailbox.Priority.{PriorityQueueManager}
use emberengine.Mailbox.Priority
use emberengine.Mailbox.Priority.Levels.{jobs_of, key}
use emberengine.Mailbox.Priority.Order as PriorityOrder

-- `submit` also returns the job as its holder sees it afterwards. `warn` is the part of a worker's
-- `SubmitJob` that notes a fallback before it takes the worker's mutex. `admitted` is the job as
-- it is queued, and `key` the order in which jobs are taken.
pub record ManagerImpl : Type 1 where
  pub M : Type 0
  pub submit : M → Job → Option SubmitError × M × Job
  pub warn : M → Job → M
  pub get_job_len : M → ℕ
  pub IsWf : M → Type 0
  pub view : M → List Job
  pub key : Job → ℤ
  pub admitted : M → Job → Job
  pub warn-IsWf : (m : M) (e : Job) → IsWf m → IsWf (warn m e)
  pub warn_view : (m : M) (e : Job) → view (warn m e) ≡ view m
  pub warn-admitted : (m : M) (e : Job) → admitted (warn m e) e ≡ admitted m e
  pub submit-IsWf : (m : M) (e : Job) → IsWf m → IsWf (submit m e).1
  pub submit_result :
      (m : M) (e : Job)
      → IsWf m
      → (((submit m e).0 ≡ none)
          × ((submit m e).2 ≡ admitted m e)
          × (view (submit m e).1 ≡ insert_by key (admitted m e) (view m)))
        ⊎ (((submit m e).0 ≡ some worker_is_full)
            × ((submit m e).2 ≡ e)
            × (view (submit m e).1 ≡ view m))

module _ (I : QueueImpl Job) where
  pub dual_result :
      (m m' : DualQueueManager I) (e : Job) (r : Option SubmitError)
      → DualOrder.Submitted I m e (r, m')
      → ((r ≡ none)
          × (e ≡ e)
          × (DualOrder.view I m' ≡ insert_by DualOrder.band e (DualOrder.view I m)))
        ⊎ ((r ≡ some worker_is_full) × (e ≡ e) × (DualOrder.view I m' ≡ DualOrder.view I m))
  dual_result m m' e r (inl (ok, grown)) = inl (ok, refl, grown)
  dual_result m m' e r (inr (full, same)) = inr (full, refl, ap (λ t. DualOrder.view I t) same)

  abbrev pub dual_impl : ManagerImpl
  dual_impl = record {
    M = DualQueueManager I;
    submit = λ m e. let (r, m') = Dual.submit I m e in (r, m', e);
    warn = λ m e. m;
    get_job_len = Dual.get_job_len I;
    IsWf = DualOrder.IsWf I;
    view = DualOrder.view I;
    key = DualOrder.band;
    admitted = λ m e. e;
    warn-IsWf = λ m e w. w;
    warn_view = λ m e. refl;
    warn-admitted = λ m e. refl;
    submit-IsWf = λ m e w. (DualOrder.submit-insert_by I m e w).0;
    submit_result = λ m e w.
        dual_result m (Dual.submit I m e).1 e (Dual.submit I m e).0
          (DualOrder.submit-insert_by I m e w).1;
  }

module _ (I : QueueImpl Job) (F : RatioOps) where
  abbrev Manager : Type 0
  Manager = PriorityQueueManager I F

  -- The lines of `SubmitJob` about the fallback; the log is left out.
  pub warn_fallback : Manager → Job → Manager
  warn_fallback m e = elim (lookup e.priority m.queues) [
    | some q ↦ m
    | none ↦ elim (lookup m.fallback_priority m.queues) [
      | none ↦ m
      | some q ↦ record m { fallback_warned = true }
    ]
  ]

  -- The note changes the flag alone.
  pub warn_fallback_flag :
      (m : Manager) (e : Job) → (b : Bool) × (warn_fallback m e ≡ record m { fallback_warned = b })
  unfolding warn_fallback
  warn_fallback_flag m e = elim (Option-cases (lookup e.priority m.queues)) [
    | inr c ↦ (m.fallback_warned, rw (c.1, warn_fallback) refl)
    | inl missing ↦ elim (Option-cases (lookup m.fallback_priority m.queues)) [
      | inl none_there ↦ (m.fallback_warned, rw (missing, warn_fallback, none_there) refl)
      | inr c ↦ (true, rw (missing, warn_fallback, c.1) refl)
    ]
  ]

  pub warn_fallback-IsWf :
      (m : Manager) (e : Job)
      → PriorityOrder.IsWf I F m
      → PriorityOrder.IsWf I F (warn_fallback m e)
  warn_fallback-IsWf m e w =
      let (b, same) = warn_fallback_flag m e in
      subst (PriorityOrder.IsWf I F) (sym same) (record {
        ordered = w.ordered;
        levels = w.levels;
        jobs = w.jobs;
        fallback = w.fallback;
        fallback_found = w.fallback_found;
      })

  pub view-warn_fallback :
      (m : Manager) (e : Job)
      → PriorityOrder.view I F (warn_fallback m e) ≡ PriorityOrder.view I F m
  view-warn_fallback m e =
      let (b, same) = warn_fallback_flag m e in ap (λ (t : Manager). PriorityOrder.view I F t) same

  pub admitted-warn_fallback :
      (m : Manager) (e : Job)
      → PriorityOrder.admitted I F (warn_fallback m e) e ≡ PriorityOrder.admitted I F m e
  admitted-warn_fallback m e =
      let (b, same) = warn_fallback_flag m e in
      ap (λ (t : Manager). PriorityOrder.admitted I F t e) same

  pub priority_result :
      (m m' : Manager) (e e' : Job) (r : Option SubmitError)
      → PriorityOrder.Submitted I F m e (r, m', e')
      → ((r ≡ none)
          × (e' ≡ PriorityOrder.admitted I F m e)
          × (PriorityOrder.view I F m'
              ≡ insert_by key (PriorityOrder.admitted I F m e) (PriorityOrder.view I F m)))
        ⊎ ((r ≡ some worker_is_full)
            × (e' ≡ e)
            × (PriorityOrder.view I F m' ≡ PriorityOrder.view I F m))
  priority_result m m' e e' r (inl ok) = inl ok
  priority_result m m' e e' r (inr (full, same, kept)) = inr (full, same, ap (jobs_of I) kept)

  abbrev pub priority_impl : ManagerImpl
  priority_impl = record {
    M = Manager;
    submit = Priority.submit I F;
    warn = warn_fallback;
    get_job_len = Priority.get_job_len I F;
    IsWf = PriorityOrder.IsWf I F;
    view = PriorityOrder.view I F;
    key = key;
    admitted = PriorityOrder.admitted I F;
    warn-IsWf = warn_fallback-IsWf;
    warn_view = view-warn_fallback;
    warn-admitted = admitted-warn_fallback;
    submit-IsWf = λ m e w. (PriorityOrder.submit_lem I F m e w).0;
    submit_result = λ m e w.
        let (r, m', e') = Priority.submit I F m e in
        priority_result m m' e e' r (PriorityOrder.submit_lem I F m e w).1;
  }
