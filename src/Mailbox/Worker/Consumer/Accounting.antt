-- ===== src/Mailbox/Worker/Consumer/Accounting.antt =====
-- Where the admitted jobs are: none is lost and none is handled twice.
use emberengine.Prelude.{
  ℕ, ◌≤◌, inl, ◌<◌, ◌≡◌, refl, sym, ap, ◌∙◌, subst, List, [], ◌∷◌, ◌++◌, map, Bool, true, false,
  not, Option, none, some, length, count, count-append, if◌then◌else◌, one_if, arith,
}
use emberengine.Mailbox.Job.{Job}
use emberengine.Mailbox.Queues.{is_nil}
use emberengine.Mailbox.Exec.{Executor, ExecState}
use emberengine.Mailbox.Worker.{WorkerEnv, Worker}
use emberengine.Mailbox.Worker.Submission.{worker_view, WorkerWf}
use emberengine.Mailbox.Worker.Consumer.{
  Entry, ConsumerImpl, fresh, DrainPolicy, drain_execute, drain_discard, Consumer, Event, run,
  Drain, parked, has_pending, drained, drain_manager, drain_pending, drain, policy_handler,
  handle_each,
}
use emberengine.Mailbox.Worker.Consumer.Accounts.{queued, Accounts, entry_passes}
use emberengine.Mailbox.Worker.Consumer.Steps.{run-Accounts}
use emberengine.Mailbox.Worker.Consumer.Orderly.{is_read, is_stray, is_reads, run-Orderly}
use emberengine.Mailbox.Worker.Consumer.Replay.{
  replay, replay-append, Replays, run-Replays, ending, handle_each-policy_handler,
}

module _ (C : ConsumerImpl) {W : Type 0} (x : Executor W) where
  drain_pending_lem :
      (handler : Job → Drain C x → Drain C x) (o : Option Job) (es : List Job) (s : Drain C x)
      → handle_each handler es (drain_pending C x handler o s)
        ≡ handle_each handler (parked C x o ++ es) s
  unfolding drain_pending
  drain_pending_lem handler none es s = refl
  drain_pending_lem handler (some e) es s = refl

  -- The jobs to drain: the one that is parked, then the queued ones in order.
  abbrev pub drain_order : Consumer C x → List Job
  drain_order c = parked C x c.pending_job ++ queued C x c

  -- No job is left. The log goes on with the ending of each job to drain, in order, the service is as
  -- the whole log leaves its first state, and the log has each admitted job once.
  abbrev pub Drained :
      (Job → Bool) → Bool → Bool → DrainPolicy → ExecState W → Consumer C x → Consumer C x → Type 0
  Drained p enabled timed_out policy s c c' =
      (queued C x c' ≡ [])
      × (c'.pending_job ≡ none)
      × (c'.log ≡ c.log ++ map (ending C x enabled timed_out policy) (drain_order c))
      × (c'.exec ≡ replay C x c'.log (some s))
      × (c'.admitted ≡ c.admitted)
      × (count (entry_passes p) c'.log ≡ count p c'.admitted)

  residual_lem :
      (o : Option Job) (es : List Job) (b : Bool)
      → b ≡ is_nil es
      → (if has_pending C x o then true else not b) ≡ not (is_nil (parked C x o ++ es))
  residual_lem none es b e = ap not e
  residual_lem (some job) es b e = refl

  ending_passes :
      (p : Job → Bool) (enabled timed_out : Bool) (policy : DrainPolicy) (e : Job)
      → entry_passes p (ending C x enabled timed_out policy e) ≡ p e
  ending_passes p enabled true policy e = refl
  ending_passes p enabled false drain_discard e = refl
  ending_passes p enabled false drain_execute e = refl

  count-ending :
      (p : Job → Bool) (enabled timed_out : Bool) (policy : DrainPolicy) (es : List Job)
      → count (entry_passes p) (map (ending C x enabled timed_out policy) es) ≡ count p es
  count-ending p enabled timed_out policy [] = refl
  count-ending p enabled timed_out policy (e ∷ es) = omega (
    arith,
    ap one_if (ending_passes p enabled timed_out policy e),
    count-ending p enabled timed_out policy es,
  )

  -- The draining of the queued jobs `es` by the handler of the policy.
  drain_all_lem :
      (enabled timed_out : Bool) (policy : DrainPolicy) (o : Option Job) (es : List Job) (b : Bool)
      (s : Option (ExecState W)) (log : List (Entry (ExecState W)))
      → b ≡ is_nil es
      → let handler =
          policy_handler C x enabled timed_out policy (if has_pending C x o then true else not b) in
        let entries = map (ending C x enabled timed_out policy) (parked C x o ++ es) in
        handle_each handler es (drain_pending C x handler o (s, log))
        ≡ (replay C x entries s, log ++ entries)
  drain_all_lem enabled timed_out policy o es b s log e =
      let residual = if has_pending C x o then true else not b in
      drain_pending_lem (policy_handler C x enabled timed_out policy residual) o es (s, log)
      ∙ handle_each-policy_handler C x enabled timed_out policy (parked C x o ++ es) residual s log
          (residual_lem o es b e)

  -- With a manager, more fuel than jobs and nothing in hand the draining ends, whatever the policy.
  pub drain-Drained :
      (p : Job → Bool) (fuel : ℕ) (enabled timed_out : Bool) (policy : DrainPolicy)
      (s : ExecState W) (c : Consumer C x) (m : C.manager.M)
      → c.worker.queue_manager ≡ some m
      → c.hand ≡ none
      → Accounts C x p c
      → Replays C x (some s) c
      → length (queued C x c) < fuel
      → (c' : Consumer C x) × (drain C x fuel enabled timed_out policy c ≡ some c')
        × Drained p enabled timed_out policy s c c'
  unfolding drain
  drain-Drained p fuel enabled timed_out policy s c m here free acc same enough =
      let M = C.manager.M in
      let wf =
        subst (λ (o : Option M). elim o [ none ↦ Unit | some m ↦ C.manager.IsWf m ]) here acc.wf in
      let before : queued C x c ≡ C.manager.view m =
        ap (λ (o : Option M). elim o [ none ↦ [] | some m ↦ C.manager.view m ]) here in
      let residual = if has_pending C x c.pending_job then true else not (C.is_empty m) in
      let handler = policy_handler C x enabled timed_out policy residual in
      let (m', drained_all, left) =
        C.drain_all_result fuel handler m (drain_pending C x handler c.pending_job (c.exec, c.log))
          wf (omega (arith, enough, ap (λ (l : List Job). length l) before)) in
      let jobs = parked C x c.pending_job ++ C.manager.view m in
      let entries = map (ending C x enabled timed_out policy) jobs in
      let c' = record c {
        worker = record c.worker { queue_manager = some m' };
        pending_job = none;
        exec = replay C x entries c.exec;
        log = c.log ++ entries;
      } in
      let ended =
        drain_all_lem enabled timed_out policy c.pending_job (C.manager.view m) (C.is_empty m)
          c.exec c.log (C.is_empty_result m wf) in
      let step : drain C x fuel enabled timed_out policy c ≡ some c' =
        ap (drain_manager C x fuel enabled timed_out policy c) here
        ∙ ap (drained C x c) (drained_all ∙ ap (λ t. some (t, m')) ended) in
      (
        c',
        step,
        (
          left,
          refl,
          ap
              (λ l.
                c.log ++ map (ending C x enabled timed_out policy) (parked C x c.pending_job ++ l))
              (sym before),
          ap (replay C x entries) same ∙ sym (replay-append C x c.log entries (some s)),
          refl,
          omega (
            arith,
            acc.sum,
            ap (count p) before,
            ap (λ h. count p (parked C x h)) free,
            count-append (entry_passes p) c.log entries,
            count-ending p enabled timed_out policy jobs,
            count-append p (parked C x c.pending_job) (C.manager.view m),
          ),
        ),
      )

  -- A new worker whose queues are empty; after any sequence of submissions, stops, steps of the loop
  -- and changes of the shared state by others that leaves a manager and no job in hand, the draining
  -- ends with more fuel than jobs queued, whatever the policy, and leaves none. Of the job that is
  -- parked and then the queued ones, in order, each is executed, or discarded where the policy is to
  -- discard or the stop timed out, then in unsafe mode if the read-write mode is on. The log tells the
  -- state of the service, as the executions, discards and changes in it make it from its first state,
  -- and for every test it has as many jobs that pass it, executed, discarded, refused as read or sent
  -- to the read pipeline, as were admitted, so that none is lost and none is handled twice. The loop
  -- before the draining discards no job and replaces none that is parked, and it refuses or sends at
  -- most one for each step in which it takes a job as a read. What the pipeline does with its reads is
  -- not meant.
  pub drain-run :
      (p : Job → Bool) (es : List (Event C x)) (fuel : ℕ) (enabled timed_out : Bool)
      (policy : DrainPolicy) (worker : Worker C.manager) (env : WorkerEnv) (s : ExecState W)
      (m : C.manager.M)
      → WorkerWf C.manager worker
      → worker_view C.manager worker ≡ []
      → (run C x es (fresh C x worker env s)).worker.queue_manager ≡ some m
      → (run C x es (fresh C x worker env s)).hand ≡ none
      → length (queued C x (run C x es (fresh C x worker env s))) < fuel
      → (c' : Consumer C x) × (drain C x fuel enabled timed_out policy
            (run C x es (fresh C x worker env s))
          ≡ some c')
        × Drained p enabled timed_out policy s (run C x es (fresh C x worker env s)) c'
        × (count is_stray (run C x es (fresh C x worker env s)).log ≡ 0)
        × (count is_read (run C x es (fresh C x worker env s)).log ≤ count (is_reads C x) es)
  drain-run p es fuel enabled timed_out policy worker env s m wf bare here free enough =
      let c = run C x es (fresh C x worker env s) in
      let accounts =
        run-Accounts C x p es (fresh C x worker env s)
          (record { wf = wf; sum = omega (arith, ap (count p) bare) }) in
      let replays = run-Replays C x es (some s) (fresh C x worker env s) refl in
      let (few, calm) =
        (run-Orderly C x 0 es (fresh C x worker env s) ((omega arith, refl), inl refl)).0 in
      let (c', ended, result) =
        drain-Drained p fuel enabled timed_out policy s c m here free accounts replays enough in
      (c', ended, result, calm, omega (arith, few))
