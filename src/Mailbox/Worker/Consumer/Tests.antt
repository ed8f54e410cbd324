-- ===== src/Mailbox/Worker/Consumer/Tests.antt =====
-- A worker over a plain list of jobs, and the handling of a job that panics.
use emberengine.Prelude.{
  ℕ, ◌+◌, ◌≤◌, ◌≡◌, refl, count, take, List, [], ◌∷◌, Bool, true, false, Option, none, some, ◌⊎◌,
  inl, inr, length, arith, ◌==◌, if◌then◌else◌,
}
use emberengine.Mailbox.Job.{Job, priority_normal, event, other_body}
use emberengine.Mailbox.Queues.{insert_by, is_nil}
use emberengine.Mailbox.Chain.{
  action_continue, Middleware, MiddlewareContext, MiddlewareChain, Completion, safe_on_receive,
  safe_on_complete, receive_loop, execute_on_receive, verdict, exec_error,
}
use emberengine.Mailbox.Chain.Onion.{unwind, Ends}
use emberengine.Mailbox.Managers.{ManagerImpl}
use emberengine.Mailbox.Exec.{returned, exec_panicked, Executor, ExecState, safe_exec, discard_exec}
use emberengine.Mailbox.Exec.Discard.{discarded_world, discard_exec-ReleasedAfter}
use emberengine.Mailbox.Exec.Release.{Outcome, ReleasedAfter, safe_exec-ReleasedAfter}
use emberengine.Mailbox.Worker.{running, Worker, WorkerEnv, publish, submit_locked, begin_stop}
use emberengine.Mailbox.Worker.Consumer.{
  ConsumerImpl, handle_each, Consumer, Event, submits, stops, takes, executes, parks, reads, others,
  take_job, dispatch_read, changed, park, store_pending, drop_old, execute, step, run, drain,
  drain_execute, fresh,
}
use emberengine.Mailbox.Worker.Consumer.Orderly.{is_read, is_stray}
use emberengine.Mailbox.Worker.Consumer.Accounting.{Drained, drain-run}

abbrev list_impl : ManagerImpl
list_impl = record {
  M = List Job;
  submit = λ m e. (none, insert_by (λ j. j.priority) e m, e);
  warn = λ m e. m;
  get_job_len = λ m. length m;
  IsWf = λ m. Unit;
  view = λ m. m;
  key = λ j. j.priority;
  admitted = λ m e. e;
  warn-IsWf = λ m e w. w;
  warn_view = λ m e. refl;
  warn-admitted = λ m e. refl;
  submit-IsWf = λ m e w. w;
  submit_result = λ m e w. inl (refl, refl, refl);
}

abbrev next_of : List Job → Option (Option Job × List Job)
next_of [] = some (none, [])
next_of (e ∷ es) = some (some e, es)

next_of_result :
    (m : List Job)
    → Unit {0}
    → (r : Option Job) × (m' : List Job) × (next_of m ≡ some (r, m'))
      × Unit {0}
      × (((r ≡ none) × (m' ≡ m)) ⊎ ((e : Job) × (r ≡ some e) × (m ≡ e ∷ m')))
next_of_result [] u = (none, [], refl, tt, inl (refl, refl))
next_of_result (e ∷ es) u = (some e, es, refl, tt, inr (e, refl, refl))

abbrev list_consumer : ConsumerImpl
list_consumer = record {
  manager = list_impl;
  next_job = next_of;
  is_empty = is_nil;
  drain_all = λ fuel handler m s. some (handle_each handler m s, []);
  next_job_result = next_of_result;
  is_empty_result = λ m w. refl;
  drain_all_result = λ fuel handler m s w l. ([], refl, refl);
}

abbrev job : ℕ → Job
job n = record {
  ident = n;
  kind = event;
  priority = priority_normal;
  dispatcher_key = 0;
  body = other_body;
}

-- Notes its `OnComplete` as 20 and its cleanup as 60, with its name added.
abbrev noting : ℕ → Middleware (List ℕ)
noting name = record {
  name = name;
  on_receive = λ e w. (action_continue, w);
  on_complete = λ e end w. (false, (20 + name) ∷ w);
  on_framework_cleanup = some (λ e end w. (false, (60 + name) ∷ w));
  on_start = λ w. (false, w);
  on_stop = λ w. (false, w);
}

abbrev middlewares : List (Middleware (List ℕ))
middlewares = noting 1 ∷ noting 2 ∷ noting 3 ∷ []

abbrev context : Job → MiddlewareContext (List ℕ)
context e = record { job = e; executed = 3; middleware_snapshot = some middlewares }

-- Job 5 panics, job 6 is cancelled; `EscalateFailure` panics too.
abbrev executor : Option (Job → MiddlewareContext (List ℕ)) → Executor (List ℕ)
executor ctx = record {
  invoker = record {
    on_job_discarded = λ e err w. (true, 30 ∷ w);
    release = λ e w. 40 ∷ w;
    set_middleware_context = λ e ctx w. w;
  };
  get_middleware_context = λ e w. elim ctx [ none ↦ none | some f ↦ some (f e) ];
  cancel_reason = λ e w. if e.ident == 6 then some (exec_error 1) else none;
  execute_job =
      λ e w. (if e.ident == 5 then exec_panicked 9 else returned none, (100 + e.ident) ∷ w);
  escalate_failure = λ v e w. (true, 70 ∷ w);
}

abbrev initial : ExecState (List ℕ)
initial = record {
  chain = record { mws = noting 2 ∷ noting 3 ∷ []; panic_handler = none; taken = 1; put_back = 0 };
  drain_discard_total = 0;
  world = [];
}

-- The round over the three, and the worker's chain, which has lost the first since.
abbrev chain : MiddlewareChain (List ℕ)
chain = record { mws = middlewares; panic_handler = none; taken = 0; put_back = 0 }

safe_exec-ReleasedAfter_example :
    (n : ℕ) × (n ≤ 3)
    × Ends chain (job 5) middlewares [] n (execute_on_receive chain (job 5) []).0
    × (e : Completion) × (w : List ℕ) × Outcome (executor (some context)) (job 5) [] e w
    × (s' : ExecState (List ℕ)) × (safe_exec (executor (some context)) (job 5) initial ≡ some s')
    × (s'.drain_discard_total ≡ 0)
    × ReleasedAfter
        (executor (some context))
        (job 5)
        initial
        (execute_on_receive chain (job 5) []).1
        (unwind (safe_on_complete initial.chain (job 5) e) (take n middlewares) w)
        s'
unfolding execute_on_receive receive_loop safe_on_receive verdict
safe_exec-ReleasedAfter_example =
    safe_exec-ReleasedAfter (executor (some context)) chain [] (job 5) initial refl

discard_exec-ReleasedAfter_example :
    (n : ℕ) × (n ≤ 3)
    × Ends chain (job 5) middlewares [] n (execute_on_receive chain (job 5) []).0
    × (s' : ExecState (List ℕ)) × (discard_exec (executor (some context)) true (job 5) initial
        ≡ some s')
    × (s'.drain_discard_total ≡ 1)
    × ReleasedAfter
        (executor (some context))
        (job 5)
        initial
        (execute_on_receive chain (job 5) []).1
        (discarded_world (executor (some context)) true (job 5) initial (take n middlewares))
        s'
unfolding execute_on_receive receive_loop safe_on_receive verdict
discard_exec-ReleasedAfter_example =
    discard_exec-ReleasedAfter (executor (some context)) true chain [] (job 5) initial refl

abbrev plain : Executor (List ℕ)
plain = executor none

abbrev worker : Worker list_impl
worker = record { state = running; queue_manager = some []; count = 0; wakes = none }

abbrev env : WorkerEnv
env = record { queue_full_rejected_total = none; stats_enabled = false }

abbrev events : List (Event list_consumer plain)
events =
    submits (job 3)
    ∷ takes
    ∷ reads true
    ∷ others (λ s. record s { world = 80 ∷ s.world })
    ∷ submits (job 1)
    ∷ takes
    ∷ submits (job 2)
    ∷ submits (job 5)
    ∷ executes
    ∷ takes
    ∷ submits (job 4)
    ∷ stops
    ∷ parks
    ∷ submits (job 7)
    ∷ takes
    ∷ []

abbrev any : Job → Bool
any e = true

-- Job 3 is a read that goes to the pipeline, job 1 is executed by the loop; the closed worker refuses
-- job 7, and the draining discards the job that is parked and the two that are queued.
drain-run_example :
    (c' : Consumer list_consumer plain) × (drain list_consumer plain 3 true true drain_execute
        (run list_consumer plain events (fresh list_consumer plain worker env initial))
      ≡ some c')
    × Drained list_consumer plain any true true drain_execute initial
        (run list_consumer plain events (fresh list_consumer plain worker env initial))
        c'
    × (count is_stray
          (run list_consumer plain events (fresh list_consumer plain worker env initial)).log
        ≡ 0)
    × (count is_read
          (run list_consumer plain events (fresh list_consumer plain worker env initial)).log
        ≤ 1)
unfolding run step dispatch_read changed take_job park store_pending drop_old execute submit_locked
    publish begin_stop
drain-run_example =
    drain-run list_consumer plain any events 3 true true drain_execute worker env initial
      (job 5 ∷ job 4 ∷ []) tt refl refl refl (omega arith)
