-- ===== src/Mailbox/Worker/Consumer/Orderly.antt =====
-- What the loop of a worker may log before the draining.
use emberengine.Prelude.{
  ℕ, ◌+◌, ◌≤◌, ◌≡◌, refl, ap, ◌∙◌, subst, List, [], ◌∷◌, ◌++◌, Bool, true, false, Option, none,
  some, ◌⊎◌, inl, inr, one_if, count, count-append, arith, Bool-cases,
}
use emberengine.Mailbox.Job.{Job}
use emberengine.Mailbox.Exec.{Executor, ExecState}
use emberengine.Mailbox.Worker.{
  WorkerState, closed, Worker, WorkerEnv, Answer, submit_locked, warned, begin_stop, is_running,
}
use emberengine.Mailbox.Worker.Submission.{warned_same}
use emberengine.Mailbox.Worker.Consumer.{
  is_closed, Entry, executed, replaced, refused, sent, discarded, elsewhere, crashed, ConsumerImpl,
  Consumer, Event, submits, notes, stops, takes, executes, parks, reads, others, submitted,
  after_next, take_next, take_job, execute, dispatch_read, drop_old, store_pending, park, step, run,
}

-- The entries of reads, and those of jobs that are discarded or replaced as parked job.
abbrev pub is_read : {E : Type 0} → Entry E → Bool
is_read (sent e) = true
is_read (refused e) = true
is_read _ = false

abbrev pub is_stray : {E : Type 0} → Entry E → Bool
is_stray (discarded rw_unsafe e) = true
is_stray (replaced e) = true
is_stray _ = false

closed_stays : (state : WorkerState) → is_closed state ≡ true → is_running state ≡ false
closed_stays closed e = refl
closed_stays _ e = cc

module _ (C : ConsumerImpl) {W : Type 0} (x : Executor W) where
  abbrev pub is_reads : Event C x → Bool
  is_reads (reads room) = true
  is_reads _ = false

  abbrev Calm : ℕ → List (Entry (ExecState W)) → Type 0
  Calm n log = (count is_read log ≤ n) × (count is_stray log ≡ 0)

  -- Once a job is parked the worker is closed, and no job comes into hand any more.
  abbrev Last : Option Job → Option Job → Bool → Type 0
  Last pending hand ends = (pending ≡ none) ⊎ ((ends ≡ true) × (hand ≡ none))

  abbrev pub Orderly : ℕ → Consumer C x → Type 0
  Orderly n c = Calm n c.log × Last c.pending_job c.hand (is_closed c.worker.state)

  logged-Calm :
      (n k : ℕ) (log : List (Entry (ExecState W))) (entry : Entry (ExecState W))
      → is_stray entry ≡ false
      → one_if (is_read entry) ≤ k
      → Calm n log
      → Calm (n + k) (log ++ entry ∷ [])
  logged-Calm n k log entry kept few (r, s) = (
    omega (arith, r, few, count-append is_read log (entry ∷ [])),
    omega (arith, s, ap one_if kept, count-append is_stray log (entry ∷ [])),
  )

  more-Calm : (n k : ℕ) (log : List (Entry (ExecState W))) → Calm n log → Calm (n + k) log
  more-Calm n k log (r, s) = (omega (arith, r), s)

  freed : (pending hand : Option Job) (b : Bool) → Last pending hand b → Last pending none b
  freed pending hand b (inl p) = inl p
  freed pending hand b (inr (ends, h)) = inr (ends, refl)

  not_parked :
      (pending hand : Option Job) (b : Bool) → b ≡ false → Last pending hand b → pending ≡ none
  not_parked pending hand b opens (inl p) = p
  not_parked pending hand b opens (inr (ends, h)) = cc

  busy :
      (pending hand : Option Job) (b : Bool) (e : Job)
      → hand ≡ some e
      → Last pending hand b
      → pending ≡ none
  busy pending hand b e here (inl p) = p
  busy pending hand b e here (inr (ends, h)) = cc

  next-Orderly :
      (n : ℕ) (c : Consumer C x) (o : Option C.manager.M)
      → is_closed c.worker.state ≡ false
      → Orderly n c
      → Orderly (n + 0) (take_next C x c o)
  next-Orderly n c none opens (calm, last) =
      (logged-Calm n 0 c.log crashed refl (omega arith) calm, last)
  next-Orderly n c (some m) opens (calm, last) = after (C.next_job m)
    where
      after : (o : Option (Option Job × C.manager.M)) → Orderly (n + 0) (after_next C x c o)
      after none = (logged-Calm n 0 c.log crashed refl (omega arith) calm, last)
      after (some (r, m')) = (
        more-Calm n 0 c.log calm,
        inl (not_parked c.pending_job c.hand (is_closed c.worker.state) opens last),
      )

  take_job-Orderly :
      (n : ℕ) (c : Consumer C x) (o : Option Job) → Orderly n c → Orderly (n + 0) (take_job C x c o)
  unfolding take_job
  take_job-Orderly n c (some e) (calm, last) = (more-Calm n 0 c.log calm, last)
  take_job-Orderly n c none (calm, last) = elim (Bool-cases (is_closed c.worker.state)) [
    | inl closes ↦
        let same : c ≡ take_job C x c none = rw (closes, take_job) refl in
        subst (Orderly (n + 0)) same (more-Calm n 0 c.log calm, last)
    | inr opens ↦
        let same : take_next C x c c.worker.queue_manager ≡ take_job C x c none =
          rw (opens, take_job) refl in
        subst (Orderly (n + 0)) same (next-Orderly n c c.worker.queue_manager opens (calm, last))
  ]

  execute-Orderly :
      (n : ℕ) (c : Consumer C x) (o : Option Job) → Orderly n c → Orderly (n + 0) (execute C x c o)
  unfolding execute
  execute-Orderly n c none (calm, last) = (more-Calm n 0 c.log calm, last)
  execute-Orderly n c (some e) (calm, last) = (
    logged-Calm n 0 c.log (executed e) refl (omega arith) calm,
    freed c.pending_job c.hand (is_closed c.worker.state) last,
  )

  dispatch_read-Orderly :
      (n : ℕ) (room : Bool) (c : Consumer C x) (o : Option Job)
      → Orderly n c
      → Orderly (n + 1) (dispatch_read C x room c o)
  unfolding dispatch_read
  dispatch_read-Orderly n room c none (calm, last) = (more-Calm n 1 c.log calm, last)
  dispatch_read-Orderly n true c (some e) (calm, last) = (
    logged-Calm n 1 c.log (sent e) refl (omega arith) calm,
    freed c.pending_job c.hand (is_closed c.worker.state) last,
  )
  dispatch_read-Orderly n false c (some e) (calm, last) = (
    logged-Calm n 1 c.log (refused e) refl (omega arith) calm,
    freed c.pending_job c.hand (is_closed c.worker.state) last,
  )

  store_pending-Orderly :
      (n : ℕ) (c : Consumer C x) (e : Job) (o : Option Job)
      → o ≡ none
      → is_closed c.worker.state ≡ true
      → Calm n c.log
      → Orderly (n + 0) (record (drop_old C x c o) { pending_job = some e; hand = none })
  unfolding drop_old
  store_pending-Orderly n c e none bare ends calm = (more-Calm n 0 c.log calm, inr (ends, refl))
  store_pending-Orderly n c e (some old) bare ends calm = cc

  park-Orderly :
      (n : ℕ) (c : Consumer C x) (o : Option Job)
      → c.hand ≡ o
      → Orderly n c
      → Orderly (n + 0) (park C x c o)
  unfolding park store_pending
  park-Orderly n c none here (calm, last) = (more-Calm n 0 c.log calm, last)
  park-Orderly n c (some e) here (calm, last) = elim (Bool-cases (is_closed c.worker.state)) [
    | inl ends ↦
        let bare = busy c.pending_job c.hand (is_closed c.worker.state) e here last in
        let same : record (store_pending C x c e) { hand = none } ≡ park C x c (some e) =
          rw (ends, park) refl in
        subst (Orderly (n + 0)) same (store_pending-Orderly n c e c.pending_job bare ends calm)
    | inr opens ↦
        let same : c ≡ park C x c (some e) = rw (opens, park) refl in
        subst (Orderly (n + 0)) same (more-Calm n 0 c.log calm, last)
  ]

  -- A change of the worker that leaves it closed.
  closed-Last :
      (pending hand : Option Job) (b b' : Bool)
      → (b ≡ true → b' ≡ true)
      → Last pending hand b
      → Last pending hand b'
  closed-Last pending hand b b' stays (inl p) = inl p
  closed-Last pending hand b b' stays (inr (ends, h)) = inr (stays ends, h)

  submitted-Orderly :
      (n : ℕ) (c : Consumer C x) (a : Answer C.manager)
      → (is_closed c.worker.state ≡ true → is_closed a.2.state ≡ true)
      → Orderly n c
      → Orderly (n + 0) (submitted C x c a)
  submitted-Orderly n c (none, env, w, job) stays (calm, last) = (
    more-Calm n 0 c.log calm,
    closed-Last c.pending_job c.hand (is_closed c.worker.state) (is_closed w.state) stays last,
  )
  submitted-Orderly n c (some e, env, w, job) stays (calm, last) = (
    more-Calm n 0 c.log calm,
    closed-Last c.pending_job c.hand (is_closed c.worker.state) (is_closed w.state) stays last,
  )

  submit_locked_stays :
      (env : WorkerEnv) (w : Worker C.manager) (job : Job)
      → is_closed w.state ≡ true
      → is_closed (submit_locked C.manager env w job).2.state ≡ true
  unfolding submit_locked
  submit_locked_stays env w job ends = rw (closed_stays w.state ends, submit_locked) ends

  begin_stop_stays :
      (w : Worker C.manager)
      → is_closed w.state ≡ true
      → is_closed (begin_stop C.manager w).state ≡ true
  unfolding begin_stop
  begin_stop_stays w ends = rw (closed_stays w.state ends, begin_stop) ends

  step-Orderly :
      (n : ℕ) (e : Event C x) (c : Consumer C x)
      → Orderly n c
      → Orderly (n + one_if (is_reads e)) (step C x e c)
  unfolding step
  step-Orderly n (submits job) c o =
      submitted-Orderly n c (submit_locked C.manager c.env c.worker job)
        (submit_locked_stays c.env c.worker job) o
  step-Orderly n (notes job) c (calm, last) = (
    more-Calm n 0 c.log calm,
    closed-Last c.pending_job c.hand (is_closed c.worker.state)
        (is_closed (warned C.manager c.worker job).state)
        (λ ends. ap is_closed (warned_same C.manager c.worker job).2 ∙ ends) last,
  )
  step-Orderly n stops c (calm, last) = (
    more-Calm n 0 c.log calm,
    closed-Last c.pending_job c.hand (is_closed c.worker.state)
        (is_closed (begin_stop C.manager c.worker).state) (begin_stop_stays c.worker) last,
  )
  step-Orderly n takes c o = take_job-Orderly n c c.hand o
  step-Orderly n executes c o = execute-Orderly n c c.hand o
  step-Orderly n parks c o = park-Orderly n c c.hand refl o
  step-Orderly n (reads room) c o = dispatch_read-Orderly n room c c.hand o
  step-Orderly n (others f) c (calm, last) =
      (logged-Calm n 0 c.log (elsewhere f) refl (omega arith) calm, last)

  -- The loop discards no job and replaces none that is parked, and it logs at most one read for each
  -- step in which it meets one.
  pub run-Orderly :
      (n : ℕ) (es : List (Event C x)) (c : Consumer C x)
      → Orderly n c
      → Orderly (n + count is_reads es) (run C x es c)
  unfolding run
  run-Orderly n [] c (calm, last) = (more-Calm n 0 c.log calm, last)
  run-Orderly n (e ∷ es) c o =
      let later = run-Orderly (n + one_if (is_reads e)) es (step C x e c) (step-Orderly n e c o) in
      let sum : n + one_if (is_reads e) + count is_reads es ≡ n + count is_reads (e ∷ es) =
        omega arith in
      subst (λ k. Orderly k (run C x es (step C x e c))) sum later
