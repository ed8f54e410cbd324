-- ===== src/Mailbox/Worker.antt =====
-- The admission of engine/pkg/actor/mailbox/worker.go and the dispatch of worker_pool.go. What the
-- mutex of a worker protects is one step; `between` is what other goroutines do to the worker
-- between the first look at its state and that step.
pub mod Submission
pub mod Delivery
pub mod Consumer
use Prim.Native.Nat.{bit_and}
use emberengine.Prelude.{
  ℕ, ◌+◌, List, [], ◌∷◌, Bool, true, false, Option, none, some, if◌then◌else◌, ◌&&◌, ◌==◌, ltb,
  length,
}
use emberengine.Prelude.Int.{ℤ}
use emberengine.Prelude.Words.{word}
use emberengine.Mailbox.Job.{Job, SubmitError, worker_is_full, no_available_queue}
use emberengine.Mailbox.Chain.{
  MailboxError, worker_not_found, worker_closed, channel_not_init, worker_full,
  no_queue_for_priority,
}
use emberengine.Mailbox.Scheduler.{lookup}
use emberengine.Mailbox.Priority.{replace}
use emberengine.Mailbox.Managers.{ManagerImpl}
use emberengine.Mailbox.DispatchRing.{DispatchRing, get}

pub data WorkerState : Type 0 where
  running closing closed : WorkerState

abbrev pub is_running : WorkerState → Bool
is_running running = true
is_running _ = false

-- `queue_full_rejected_total` is a pointer, nil or to the pool's counter.
pub record WorkerEnv : Type 0 where
  pub queue_full_rejected_total : Option ℕ
  pub stats_enabled : Bool

abbrev pub bump : Option ℕ → Option ℕ
bump none = none
bump (some n) = some (n + 1)

abbrev pub mailbox_error : SubmitError → MailboxError
mailbox_error worker_is_full = worker_full
mailbox_error no_available_queue = no_queue_for_priority

abbrev pub count_rejection : SubmitError → WorkerEnv → WorkerEnv
count_rejection worker_is_full env = record env {
  queue_full_rejected_total = bump env.queue_full_rejected_total;
}
count_rejection no_available_queue env = env

module _ (I : ManagerImpl) where
  -- `wakes` counts the calls of the idler's `Wake`, `none` if there is no idler.
  pub record Worker : Type 0 where
    pub state : WorkerState
    pub queue_manager : Option I.M
    pub count : ℕ
    pub wakes : Option ℕ

  -- The answer, the counters shared with the pool, the worker, and the job.
  abbrev pub Answer : Type 0
  Answer = Option MailboxError × WorkerEnv × Worker × Job

  -- `queueManager.Submit` and what follows it.
  pub publish : WorkerEnv → Worker → I.M → Job → Answer
  publish env w m job =
      let (err, m', job') = I.submit m job in
      elim err [
        | some e ↦ (
          some (mailbox_error e),
          count_rejection e env,
          record w { queue_manager = some m' },
          job',
        )
        | none ↦ (
          none,
          env,
          record w {
            queue_manager = some m';
            count = if env.stats_enabled then w.count + 1 else w.count;
            wakes = bump w.wakes;
          },
          job',
        )
      ]

  -- The part of `SubmitJob` under the mutex.
  pub submit_locked : WorkerEnv → Worker → Job → Answer
  unfolding publish
  submit_locked env w job =
      if is_running w.state
      then (elim w.queue_manager [
        | none ↦ (some channel_not_init, env, w, job)
        | some m ↦ publish env w m job
      ])
      else (some worker_closed, env, w, job)

  pub warned : Worker → Job → Worker
  warned w job = elim w.queue_manager [
    | none ↦ w
    | some m ↦ record w { queue_manager = some (I.warn m job) }
  ]

  pub submit_job : (between : Worker → Worker) → WorkerEnv → Worker → Job → Answer
  unfolding submit_locked warned
  submit_job between env w job =
      if is_running w.state
      then submit_locked env (between (warned w job)) job
      else (some worker_closed, env, w, job)

  -- `BeginStop`; the state closing is not seen outside the mutex.
  pub begin_stop : Worker → Worker
  begin_stop w = if is_running w.state then record w { state = closed; wakes = bump w.wakes } else w

  pub worker_job_len : Worker → ℕ
  worker_job_len w = elim w.queue_manager [ none ↦ 0 | some m ↦ I.get_job_len m ]

  -- `sole` is the worker of the id `sole_id`, set if there is one worker only.
  pub record WorkersSnapshot : Type 0 where
    pub workers : List (ℤ × Worker)
    pub ring : DispatchRing
    pub dispatch_cnt : List (ℤ × ℕ)
    pub sole_id : Option ℤ
    pub count : ℕ

  abbrev pub only_id : List (ℤ × Worker) → Option ℤ
  only_id ((id, w) ∷ []) = some id
  only_id _ = none

  -- `publishSnapshotLocked`.
  pub publish_snapshot : List (ℤ × Worker) → DispatchRing → List (ℤ × ℕ) → WorkersSnapshot
  publish_snapshot workers ring dispatch_cnt = record {
    workers = workers;
    ring = ring;
    dispatch_cnt = dispatch_cnt;
    sole_id = only_id workers;
    count = length workers;
  }

  -- `scale_trigger` is the channel of one slot, filled or not.
  pub record WorkerPool : Type 0 where
    pub snap : Option WorkersSnapshot
    pub env : WorkerEnv
    pub stats_enabled : Bool
    pub enable_auto_scaling : Bool
    pub dispatch_sample_cnt : ℕ
    pub scale_trigger : Bool

  pub data Route : Type 0 where
    to_worker : ℤ → Worker → Route
    no_route : MailboxError → Route
    route_panic : Route

  abbrev dispatch_sample_mask : ℕ
  dispatch_sample_mask = 127

  pub count_dispatch : Bool → ℤ → WorkersSnapshot → WorkersSnapshot
  count_dispatch stats id snap =
      if stats
      then (elim (lookup id snap.dispatch_cnt) [
        | none ↦ snap
        | some n ↦ record snap { dispatch_cnt = replace id (word (n + 1)) snap.dispatch_cnt }
      ])
      else snap

  -- The sampling for the auto scaler: every 128th job looks at the worker's backlog.
  pub sample : Worker → WorkerPool → WorkerPool
  unfolding worker_job_len
  sample w p =
      let cnt = word (p.dispatch_sample_cnt + 1) in
      let due = bit_and cnt dispatch_sample_mask == 0 && ltb 0 (worker_job_len w) in
      if p.enable_auto_scaling
      then record p {
        dispatch_sample_cnt = cnt;
        scale_trigger = if due then true else p.scale_trigger;
      }
      else p

  module _ (hash : ℕ → ℕ) (jump : ℕ → ℕ → ℕ) where
    -- The choice of the worker; `route_panic` is a nil worker, or the ring's panic.
    pub route_to : WorkersSnapshot → Job → Route
    route_to snap job =
        if snap.count == 1
        then (elim snap.sole_id [
          | none ↦ route_panic
          | some id ↦ elim (lookup id snap.workers) [ none ↦ route_panic | some w ↦ to_worker id w ]
        ])
        else elim (get hash jump snap.ring job.dispatcher_key) [
          | none ↦ route_panic
          | some none ↦ no_route worker_full
          | some (some id) ↦ elim (lookup id snap.workers) [
            | none ↦ no_route worker_not_found
            | some w ↦ to_worker id w
          ]
        ]

    -- The end of `DispatchJob` with the worker chosen, which is an object of the snapshot's map.
    pub deliver :
        (Worker → Worker)
        → WorkerPool
        → WorkersSnapshot
        → ℤ
        → Worker
        → Job
        → Option MailboxError × WorkerPool × Job
    unfolding count_dispatch sample submit_job
    deliver between p snap id w job =
        let snap' = count_dispatch p.stats_enabled id snap in
        let (err, env, w', job') = submit_job between p.env w job in
        (
          err,
          record (sample w p) {
            snap = some (record snap' { workers = replace id w' snap'.workers });
            env = env;
          },
          job',
        )

    -- `DispatchJob`; `none` is a panic.
    pub dispatch_job :
        (Worker → Worker) → WorkerPool → Job → Option (Option MailboxError × WorkerPool × Job)
    unfolding route_to deliver
    dispatch_job between p job = elim p.snap [
      | none ↦ some (some worker_not_found, p, job)
      | some snap ↦
          if snap.count == 0
          then some (some worker_not_found, p, job)
          else elim (route_to snap job) [
            | route_panic ↦ none
            | no_route e ↦ some (some e, p, job)
            | to_worker id w ↦ some (deliver between p snap id w job)
          ]
    ]
