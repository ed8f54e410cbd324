-- ===== src/Mailbox/Worker/Consumer.antt =====
-- The consumer of engine/pkg/actor/mailbox/worker.go: the loop of `run`, a job that is parked
-- because the worker closes while its write waits for the lock, and the draining at the end. Others
-- submit and stop in between, so that a run is a sequence of steps, and what other goroutines do to
-- the shared state is a step too. `admitted` and `log` list the jobs that came in and what was done
-- with them. With the read-write mode on, a read is handed to the read pipeline or refused; what the
-- pipeline does with it afterwards is in ReadWrite, and a write that the pipeline hands back is left
-- out.
pub mod Replay
pub mod Orderly
pub mod Accounts
pub mod Steps
pub mod Accounting
pub mod Filled
mod Tests
use emberengine.Prelude.{
  ℕ, ◌<◌, ◌≡◌, List, [], ◌∷◌, ◌++◌, Bool, true, false, not, ◌&&◌, Option, none, some, ◌⊎◌, length,
  if◌then◌else◌, ◌+◌,
}
use emberengine.Mailbox.Job.{Job}
use emberengine.Mailbox.Queues.{is_nil}
use emberengine.Mailbox.Managers.{ManagerImpl}
use emberengine.Mailbox.Chain.{MailboxError, worker_closed, worker_full, execute_on_complete}
use emberengine.Mailbox.Post.{notify_job_discarded}
use emberengine.Mailbox.Exec.{Executor, ExecState, released, safe_exec, discard_exec}
use emberengine.Mailbox.Worker.{
  WorkerState, closed, WorkerEnv, Worker, submit_locked, warned, begin_stop,
}

abbrev pub is_closed : WorkerState → Bool
is_closed closed = true
is_closed _ = false

-- What was done with a job: `executed`, discarded with or without the unsafe mode, `replaced` by
-- another that was parked, `refused` by a full read pipeline or `sent` to it. `elsewhere` is a change
-- of the shared state by another goroutine, and `crashed` a panic of the loop.
pub data Entry (E : Type 0) : Type 0 where
  executed replaced refused sent : Job → Entry E
  discarded : Bool → Job → Entry E
  elsewhere : (E → E) → Entry E
  crashed : Entry E

abbrev pub handle_each : {S : Type 0} → (Job → S → S) → List Job → S → S
handle_each handler [] s = s
handle_each handler (e ∷ es) s = handle_each handler es (handler e s)

-- A manager with what its consumer calls. `NextJob` may hold a job back, and `DrainAll`, with more
-- fuel than jobs, hands each to the handler in order.
pub record ConsumerImpl : Type 1 where
  pub manager : ManagerImpl
  pub next_job : manager.M → Option (Option Job × manager.M)
  pub is_empty : manager.M → Bool
  pub drain_all : {S : Type 0} → ℕ → (Job → S → S) → manager.M → S → Option (S × manager.M)
  pub next_job_result :
      (m : manager.M)
      → manager.IsWf m
      → (r : Option Job) × (m' : manager.M) × (next_job m ≡ some (r, m'))
        × manager.IsWf m'
        × (((r ≡ none) × (manager.view m' ≡ manager.view m))
            ⊎ ((e : Job) × (r ≡ some e) × (manager.view m ≡ e ∷ manager.view m')))
  pub is_empty_result : (m : manager.M) → manager.IsWf m → is_empty m ≡ is_nil (manager.view m)
  pub drain_all_result :
      {S : Type 0} (fuel : ℕ) (handler : Job → S → S) (m : manager.M) (s : S)
      → manager.IsWf m
      → length (manager.view m) < fuel
      → (m' : manager.M) × (drain_all fuel handler m s
          ≡ some (handle_each handler (manager.view m) s, m'))
        × (manager.view m' ≡ [])

pub data DrainPolicy : Type 0 where
  drain_execute drain_discard : DrainPolicy

module _ (C : ConsumerImpl) {W : Type 0} (x : Executor W) where
  -- `hand` is the job taken that is not handled yet; `exec` is none after a panic.
  pub record Consumer : Type 0 where
    pub worker : Worker C.manager
    pub env : WorkerEnv
    pub hand : Option Job
    pub pending_job : Option Job
    pub exec : Option (ExecState W)
    pub admitted : List Job
    pub log : List (Entry (ExecState W))

  -- A worker as `start` leaves it.
  abbrev pub fresh : Worker C.manager → WorkerEnv → ExecState W → Consumer
  fresh w env s = record {
    worker = w;
    env = env;
    hand = none;
    pending_job = none;
    exec = some s;
    admitted = [];
    log = [];
  }

  abbrev pub then_exec :
      (Job → ExecState W → Option (ExecState W)) → Job → Option (ExecState W) → Option (ExecState W)
  then_exec f job none = none
  then_exec f job (some s) = f job s

  pub data Event : Type 0 where
    submits notes : Job → Event
    stops takes executes parks : Event
    reads : Bool → Event
    others : (ExecState W → ExecState W) → Event

  abbrev pub submitted :
      Consumer → Option MailboxError × WorkerEnv × Worker C.manager × Job → Consumer
  submitted c (none, env, w, job) = record c { worker = w; env = env; admitted = job ∷ c.admitted }
  submitted c (some e, env, w, job) = record c { worker = w; env = env }

  -- `NextJob`; a nil manager, or a nil queue that it meets, is a panic of the goroutine.
  abbrev pub after_next : Consumer → Option (Option Job × C.manager.M) → Consumer
  after_next c none = record c { exec = none; log = c.log ++ crashed ∷ [] }
  after_next c (some (r, m)) = record c {
    hand = r;
    worker = record c.worker { queue_manager = some m };
  }

  abbrev pub take_next : Consumer → Option C.manager.M → Consumer
  take_next c none = record c { exec = none; log = c.log ++ crashed ∷ [] }
  take_next c (some m) = after_next c (C.next_job m)

  -- The round of the loop, which looks at the state first.
  pub take_job : Consumer → Option Job → Consumer
  take_job c none = if is_closed c.worker.state then c else take_next c c.worker.queue_manager
  take_job c (some e) = c

  pub execute : Consumer → Option Job → Consumer
  execute c none = c
  execute c (some e) = record c {
    hand = none;
    exec = then_exec (safe_exec x) e c.exec;
    log = c.log ++ executed e ∷ [];
  }

  -- A read that the full channel of the read pipeline does not take.
  pub refuse_read : Job → ExecState W → Option (ExecState W)
  refuse_read job s =
      let mctx = x.get_middleware_context job s.world in
      let told = notify_job_discarded x.invoker job worker_full s.world in
      released x job (record s { drain_discard_total = s.drain_discard_total + 1 })
        (execute_on_complete s.chain mctx (some worker_full, none) told)

  -- `dispatchRead`: whether the channel has room is the argument.
  pub dispatch_read : Bool → Consumer → Option Job → Consumer
  dispatch_read room c none = c
  dispatch_read true c (some e) = record c { hand = none; log = c.log ++ sent e ∷ [] }
  dispatch_read false c (some e) = record c {
    hand = none;
    exec = then_exec refuse_read e c.exec;
    log = c.log ++ refused e ∷ [];
  }

  pub changed : (ExecState W → ExecState W) → Option (ExecState W) → Option (ExecState W)
  changed f none = none
  changed f (some s) = some (f s)

  -- `storePending`: a job that was parked before would be discarded.
  pub discard_old : Job → ExecState W → Option (ExecState W)
  discard_old old s = some (record s {
    world = x.invoker.release old (notify_job_discarded x.invoker old worker_closed s.world);
  })

  pub drop_old : Consumer → Option Job → Consumer
  drop_old c none = c
  drop_old c (some old) = record c {
    exec = then_exec discard_old old c.exec;
    log = c.log ++ replaced old ∷ [];
  }

  pub store_pending : Consumer → Job → Consumer
  store_pending c job = record (drop_old c c.pending_job) { pending_job = some job }

  -- The exits of `execWrite` when the worker is closed while it waits.
  pub park : Consumer → Option Job → Consumer
  park c none = c
  park c (some e) =
      if is_closed c.worker.state then record (store_pending c e) { hand = none } else c

  pub step : Event → Consumer → Consumer
  step (submits job) c = submitted c (submit_locked C.manager c.env c.worker job)
  step (notes job) c = record c { worker = warned C.manager c.worker job }
  step stops c = record c { worker = begin_stop C.manager c.worker }
  step takes c = take_job c c.hand
  step executes c = execute c c.hand
  step parks c = park c c.hand
  step (reads room) c = dispatch_read room c c.hand
  step (others f) c = record c { exec = changed f c.exec; log = c.log ++ elsewhere f ∷ [] }

  pub run : List Event → Consumer → Consumer
  run [] c = c
  run (e ∷ es) c = run es (step e c)

  -- The state of the service and the log, which the handler of the drain changes.
  abbrev pub Drain : Type 0
  Drain = Option (ExecState W) × List (Entry (ExecState W))

  pub discard_one : Bool → Job → Drain → Drain
  discard_one rw_unsafe e (s, log) =
      (then_exec (discard_exec x rw_unsafe) e s, log ++ discarded rw_unsafe e ∷ [])

  pub execute_one : Job → Drain → Drain
  execute_one e (s, log) = (then_exec (safe_exec x) e s, log ++ executed e ∷ [])

  -- The handler of the drain. After a stop that timed out the policy is to discard, and that is
  -- unsafe if the read-write mode is on and a job is left.
  pub policy_handler : Bool → Bool → DrainPolicy → Bool → Job → Drain → Drain
  policy_handler enabled true policy residual = discard_one (enabled && residual)
  policy_handler enabled false drain_discard residual = discard_one false
  policy_handler enabled false drain_execute residual = execute_one

  abbrev pub parked : Option Job → List Job
  parked none = []
  parked (some e) = e ∷ []

  abbrev pub has_pending : Option Job → Bool
  has_pending none = false
  has_pending (some e) = true

  -- The job that is parked, then the jobs of the manager.
  pub drain_pending : (Job → Drain → Drain) → Option Job → Drain → Drain
  drain_pending handler none s = s
  drain_pending handler (some e) s = handler e s

  abbrev pub drained : Consumer → Option (Drain × C.manager.M) → Option Consumer
  drained c none = none
  drained c (some ((s, log), m)) = some (record c {
    worker = record c.worker { queue_manager = some m };
    pending_job = none;
    exec = s;
    log = log;
  })

  abbrev pub drain_manager :
      ℕ → Bool → Bool → DrainPolicy → Consumer → Option C.manager.M → Option Consumer
  drain_manager fuel enabled timed_out policy c none = some c
  drain_manager fuel enabled timed_out policy c (some m) =
      let residual = if has_pending c.pending_job then true else not (C.is_empty m) in
      let handler = policy_handler enabled timed_out policy residual in
      drained c (C.drain_all fuel handler m (drain_pending handler c.pending_job (c.exec, c.log)))

  -- The deferred function of `run`; `none` is fuel that ran out.
  pub drain : ℕ → Bool → Bool → DrainPolicy → Consumer → Option Consumer
  drain fuel enabled timed_out policy c =
      drain_manager fuel enabled timed_out policy c c.worker.queue_manager
