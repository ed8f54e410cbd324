-- ===== src/Mailbox/Worker/Submission.antt =====
-- A submission to a worker: the job is queued in its place, or refused without a trace, and refused
-- for good once the worker has begun to stop.
use emberengine.Prelude.{
  ℕ, ◌≡◌, refl, ap₂, subst, sym, List, [], Bool, true, false, Option, none, some, if◌then◌else◌,
  ◌⊎◌, inl, inr, Bool-cases, Option-cases,
}
use emberengine.Mailbox.Job.{Job}
use emberengine.Mailbox.Queues.{insert_by}
use emberengine.Mailbox.Chain.{MailboxError, worker_closed, channel_not_init}
use emberengine.Mailbox.Managers.{ManagerImpl}
use emberengine.Mailbox.Worker.{
  WorkerState, is_running, WorkerEnv, Worker, Answer, publish, submit_locked, submit_job, warned,
  begin_stop,
}

module _ (I : ManagerImpl) where
  abbrev pub worker_view : Worker I → List Job
  worker_view w = elim w.queue_manager [ none ↦ [] | some m ↦ I.view m ]

  abbrev pub WorkerWf : Worker I → Type 0
  WorkerWf w = elim w.queue_manager [ none ↦ Unit | some m ↦ I.IsWf m ]

  -- The job as the worker queues it.
  abbrev pub queued_as : Worker I → Job → Job
  queued_as w job = elim w.queue_manager [ none ↦ job | some m ↦ I.admitted m job ]

  -- Queued in its place, which only a running worker does, or refused without a trace.
  abbrev pub Handled : Worker I → Job → Answer I → Type 0
  Handled w job (err, env', w', job') =
      ((err ≡ none)
        × (is_running w.state ≡ true)
        × (job' ≡ queued_as w job)
        × (worker_view w' ≡ insert_by I.key (queued_as w job) (worker_view w)))
      ⊎ ((e : MailboxError) × (err ≡ some e) × (job' ≡ job) × (worker_view w' ≡ worker_view w))

  publish-Handled :
      (env : WorkerEnv) (w : Worker I) (m : I.M) (job : Job)
      → is_running w.state ≡ true
      → w.queue_manager ≡ some m
      → I.IsWf m
      → WorkerWf (publish I env w m job).2 × Handled w job (publish I env w m job)
  unfolding publish
  publish-Handled env w m job runs here wf = elim (I.submit_result m job wf) [
    | inl (ok, admitted, grown) ↦
        rw (ok, publish, here) (I.submit-IsWf m job wf, inl (refl, runs, admitted, grown))
    | inr (full, same, kept) ↦
        rw (full, publish, here) (I.submit-IsWf m job wf, inr (_, refl, same, kept))
  ]

  -- `submit_locked` by what it looks at.
  abbrev locked_from : WorkerEnv → Worker I → Job → Bool → Option I.M → Answer I
  locked_from env w job runs o =
      if runs
      then (elim o [ none ↦ (some channel_not_init, env, w, job) | some m ↦ publish I env w m job ])
      else (some worker_closed, env, w, job)

  pub submit_locked-Handled :
      (env : WorkerEnv) (w : Worker I) (job : Job)
      → WorkerWf w
      → WorkerWf (submit_locked I env w job).2 × Handled w job (submit_locked I env w job)
  unfolding submit_locked
  submit_locked-Handled env w job wf = elim (Bool-cases (is_running w.state)) [
    | inr stopped ↦ rw (stopped, submit_locked) (wf, inr (worker_closed, refl, refl, refl))
    | inl runs ↦ elim (Option-cases w.queue_manager) [
      | inl missing ↦
          let step : submit_locked I env w job ≡ (some channel_not_init, env, w, job) =
            ap₂ (λ r o. locked_from env w job r o) runs missing in
          subst (λ t. WorkerWf t.2 × Handled w job t) (sym step)
            (wf, inr (channel_not_init, refl, refl, refl))
      | inr c ↦
          let (m, here) = c in
          let step : submit_locked I env w job ≡ publish I env w m job =
            ap₂ (λ r o. locked_from env w job r o) runs here in
          subst (λ t. WorkerWf t.2 × Handled w job t) (sym step)
            (publish-Handled env w m job runs here (rw here at wf))
    ]
  ]

  -- What others may do to a worker meanwhile: stop it, or queue and take jobs of their own.
  abbrev pub KeepsWf : (Worker I → Worker I) → Type 0
  KeepsWf between = (w : Worker I) → WorkerWf w → WorkerWf (between w)

  pub warned-WorkerWf : (w : Worker I) (job : Job) → WorkerWf w → WorkerWf (warned I w job)
  unfolding warned
  warned-WorkerWf w job wf = elim (Option-cases w.queue_manager) [
    | inl missing ↦ rw (missing, warned) wf
    | inr c ↦ rw (c.1, warned) (I.warn-IsWf c.0 job (rw c.1 at wf))
  ]

  -- A submission while others act: it is handled by the worker as they leave it at the mutex, if it
  -- was running at the first look, and refused as closed otherwise.
  pub submit_job-Handled :
      (between : Worker I → Worker I) (env : WorkerEnv) (w : Worker I) (job : Job)
      → KeepsWf between
      → WorkerWf w
      → let answer = submit_job I between env w job in
        WorkerWf answer.2
        × (if is_running w.state
            then Handled (between (warned I w job)) job answer
            else (answer ≡ (some worker_closed, env, w, job)))
  unfolding submit_job
  submit_job-Handled between env w job keeps wf = elim (Bool-cases (is_running w.state)) [
    | inl runs ↦
        rw (runs, submit_job)
          (submit_locked-Handled env (between (warned I w job)) job
            (keeps (warned I w job) (warned-WorkerWf w job wf)))
    | inr stopped ↦ rw (stopped, submit_job) (wf, refl)
  ]

  begin_stop-halted : (w : Worker I) → is_running (begin_stop I w).state ≡ false
  unfolding begin_stop
  begin_stop-halted w = elim (Bool-cases (is_running w.state)) [
    | inl runs ↦ rw (runs, begin_stop) refl
    | inr stopped ↦ rw (stopped, begin_stop) stopped
  ]

  -- Once the worker has begun to stop, no submission is accepted, not even one that had seen it
  -- running before, and none changes its queues.
  pub submit_job-begin_stop :
      (before after : Worker I → Worker I) (env : WorkerEnv) (w : Worker I) (job : Job)
      → ((u : Worker I) → is_running u.state ≡ false → is_running (after u).state ≡ false)
      → let between : Worker I → Worker I = λ u. after (begin_stop I (before u)) in
        let (err, env', w', job') = submit_job I between env w job in
        (err ≡ some worker_closed)
        × (job' ≡ job)
        × (env' ≡ env)
        × ((w' ≡ w) ⊎ (w' ≡ between (warned I w job)))
  unfolding submit_job submit_locked begin_stop
  submit_job-begin_stop before after env w job stays =
      let between : Worker I → Worker I = λ u. after (begin_stop I (before u)) in
      let at_mutex = between (warned I w job) in
      let halted : is_running at_mutex.state ≡ false =
        stays (begin_stop I (before (warned I w job)))
          (begin_stop-halted (before (warned I w job))) in
      elim (Bool-cases (is_running w.state)) [
        | inl runs ↦
            let step : submit_job I between env w job ≡ (some worker_closed, env, at_mutex, job) =
              rw (runs, submit_job, halted, submit_locked) refl in
            rw step (refl, refl, refl, inr refl)
        | inr stopped ↦
            let step : submit_job I between env w job ≡ (some worker_closed, env, w, job) =
              rw (stopped, submit_job) refl in
            rw step (refl, refl, refl, inl refl)
      ]

  -- The note about a fallback changes nothing that is looked at here.
  abbrev pub SameWorker : Worker I → Worker I → Job → Type 0
  SameWorker u w job =
      (worker_view u ≡ worker_view w) × (queued_as u job ≡ queued_as w job) × (u.state ≡ w.state)

  warned_from :
      (state : WorkerState) (o : Option I.M) (count : ℕ) (wakes : Option ℕ) (job : Job)
      → let w : Worker I = record {
        state = state;
        queue_manager = o;
        count = count;
        wakes = wakes;
      } in
        SameWorker (warned I w job) w job
  unfolding warned
  warned_from state none count wakes job = (refl, refl, refl)
  warned_from state (some m) count wakes job = (I.warn_view m job, I.warn-admitted m job, refl)

  pub warned_same : (w : Worker I) (job : Job) → SameWorker (warned I w job) w job
  warned_same w job = warned_from w.state w.queue_manager w.count w.wakes job

  -- A submission with nobody in between.
  pub submit_job_alone :
      (env : WorkerEnv) (w : Worker I) (job : Job)
      → WorkerWf w
      → let answer = submit_job I (λ u. u) env w job in WorkerWf answer.2 × Handled w job answer
  submit_job_alone env w job wf =
      let (kept, handled) = submit_job-Handled (λ u. u) env w job (λ u v. v) wf in
      let (same_view, same_job, same_state) = warned_same w job in
      elim (Bool-cases (is_running w.state)) [
        | inl runs ↦ (kept, rw (same_view, same_job, same_state) at (rw runs at handled))
        | inr stopped ↦
            let refused : submit_job I (λ u. u) env w job ≡ (some worker_closed, env, w, job) =
              rw stopped at handled in
            rw refused (wf, inr (worker_closed, refl, refl, refl))
      ]
