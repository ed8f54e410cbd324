-- ===== src/Mailbox/Worker/Consumer/Steps.antt =====
-- The steps of a worker keep its jobs accounted for.
use emberengine.Prelude.{
  true, false, ◌≡◌, refl, sym, ap, subst, List, [], ◌∷◌, Bool, Option, none, some, inl, inr, count,
  count-append, arith, Bool-cases,
}
use emberengine.Mailbox.Job.{Job}
use emberengine.Mailbox.Exec.{Executor, safe_exec}
use emberengine.Mailbox.Worker.{submit_locked, warned, begin_stop}
use emberengine.Mailbox.Worker.Submission.{submit_locked-Handled, warned-WorkerWf, warned_same}
use emberengine.Mailbox.Worker.Consumer.{
  is_closed, executed, replaced, refused, sent, elsewhere, crashed, reads, others, dispatch_read,
  refuse_read, changed, then_exec, ConsumerImpl, Consumer, Event, submits, notes, stops, takes,
  executes, parks, after_next, take_next, take_job, execute, drop_old, store_pending, park, step,
  run, parked,
}
use emberengine.Mailbox.Worker.Consumer.Accounts.{
  entry_passes, queued, Accounts, submitted-Accounts, same_jobs, begin_stop_same, logged, handed,
}

module _ (C : ConsumerImpl) {W : Type 0} (x : Executor W) where
  take_next-Accounts :
      (p : Job → Bool) (c : Consumer C x) (o : Option C.manager.M)
      → c.hand ≡ none
      → c.worker.queue_manager ≡ o
      → Accounts C x p c
      → Accounts C x p (take_next C x c o)
  take_next-Accounts p c none free here acc = logged C x p c crashed none acc refl
  take_next-Accounts p c (some m) free here acc =
      let M = C.manager.M in
      let wf =
        subst (λ (o : Option M). elim o [ none ↦ Unit | some m ↦ C.manager.IsWf m ]) here acc.wf in
      let before : count p (queued C x c) ≡ count p (C.manager.view m) =
        ap (λ (o : Option M). count p (elim o [ none ↦ [] | some m ↦ C.manager.view m ])) here in
      let nothing = ap (λ h. count p (parked C x h)) free in
      let (r, m', step, wf', moved) = C.next_job_result m wf in
      subst (λ t. Accounts C x p (after_next C x c t)) (sym step)
        (elim moved [
          | inl (no_job, same) ↦ record {
            wf = wf';
            sum = omega (
              arith,
              acc.sum,
              before,
              nothing,
              ap (count p) same,
              ap (λ h. count p (parked C x h)) no_job,
            );
          }
          | inr (e, job, first) ↦ record {
            wf = wf';
            sum = omega (
              arith,
              acc.sum,
              before,
              nothing,
              ap (count p) first,
              ap (λ h. count p (parked C x h)) job,
            );
          }
        ])

  execute-Accounts :
      (p : Job → Bool) (c : Consumer C x) (o : Option Job)
      → c.hand ≡ o
      → Accounts C x p c
      → Accounts C x p (execute C x c o)
  unfolding execute
  execute-Accounts p c none here acc = acc
  execute-Accounts p c (some e) here acc =
      handed C x p c (executed e) (then_exec C x (safe_exec x) e c.exec) e here acc refl

  dispatch_read-Accounts :
      (p : Job → Bool) (room : Bool) (c : Consumer C x) (o : Option Job)
      → c.hand ≡ o
      → Accounts C x p c
      → Accounts C x p (dispatch_read C x room c o)
  unfolding dispatch_read
  dispatch_read-Accounts p room c none here acc = acc
  dispatch_read-Accounts p true c (some e) here acc = handed C x p c (sent e) c.exec e here acc refl
  dispatch_read-Accounts p false c (some e) here acc =
      handed C x p c (refused e) (then_exec C x (refuse_read C x) e c.exec) e here acc refl

  drop_old-Accounts :
      (p : Job → Bool) (c : Consumer C x) (e : Job) (o : Option Job)
      → c.hand ≡ some e
      → c.pending_job ≡ o
      → Accounts C x p c
      → Accounts C x p (record (drop_old C x c o) { pending_job = some e; hand = none })
  unfolding drop_old
  drop_old-Accounts p c e none here old acc = record {
    wf = acc.wf;
    sum = omega (
      arith,
      acc.sum,
      ap (λ h. count p (parked C x h)) here,
      ap (λ h. count p (parked C x h)) old,
    );
  }
  drop_old-Accounts p c e (some o) here old acc = record {
    wf = acc.wf;
    sum = omega (
      arith,
      acc.sum,
      ap (λ h. count p (parked C x h)) here,
      ap (λ h. count p (parked C x h)) old,
      count-append (entry_passes p) c.log (replaced o ∷ []),
    );
  }

  park-Accounts :
      (p : Job → Bool) (c : Consumer C x) (o : Option Job)
      → c.hand ≡ o
      → Accounts C x p c
      → Accounts C x p (park C x c o)
  unfolding park store_pending
  park-Accounts p c none here acc = acc
  park-Accounts p c (some e) here acc = elim (Bool-cases (is_closed c.worker.state)) [
    | inl done ↦
        let step : park C x c (some e) ≡ record (store_pending C x c e) { hand = none } =
          rw done refl in
        subst (Accounts C x p) (sym step) (drop_old-Accounts p c e c.pending_job here refl acc)
    | inr open_yet ↦
        let step : park C x c (some e) ≡ c = rw open_yet refl in
        subst (Accounts C x p) (sym step) acc
  ]

  take_job-Accounts :
      (p : Job → Bool) (c : Consumer C x) (o : Option Job)
      → c.hand ≡ o
      → Accounts C x p c
      → Accounts C x p (take_job C x c o)
  unfolding take_job
  take_job-Accounts p c (some e) here acc = acc
  take_job-Accounts p c none here acc = elim (Bool-cases (is_closed c.worker.state)) [
    | inl done ↦
        let step : take_job C x c none ≡ c = rw done refl in subst (Accounts C x p) (sym step) acc
    | inr open_yet ↦
        let step : take_job C x c none ≡ take_next C x c c.worker.queue_manager =
          rw open_yet refl in
        subst (Accounts C x p) (sym step)
          (take_next-Accounts p c c.worker.queue_manager here refl acc)
  ]

  step-Accounts :
      (p : Job → Bool) (e : Event C x) (c : Consumer C x)
      → Accounts C x p c
      → Accounts C x p (step C x e c)
  unfolding step
  step-Accounts p (submits job) c acc =
      let (wf, handled) = submit_locked-Handled C.manager c.env c.worker job acc.wf in
      submitted-Accounts C x p c job (submit_locked C.manager c.env c.worker job) acc wf handled
  step-Accounts p (notes job) c acc =
      same_jobs C x p c (warned C.manager c.worker job) acc
        (warned-WorkerWf C.manager c.worker job acc.wf) (warned_same C.manager c.worker job).0
  step-Accounts p stops c acc =
      let (wf, same) = begin_stop_same C x c.worker acc.wf in
      same_jobs C x p c (begin_stop C.manager c.worker) acc wf same
  step-Accounts p takes c acc = take_job-Accounts p c c.hand refl acc
  step-Accounts p executes c acc = execute-Accounts p c c.hand refl acc
  step-Accounts p parks c acc = park-Accounts p c c.hand refl acc
  step-Accounts p (reads room) c acc = dispatch_read-Accounts p room c c.hand refl acc
  step-Accounts p (others f) c acc = logged C x p c (elsewhere f) (changed C x f c.exec) acc refl

  -- From a worker whose jobs are accounted for, after every sequence of submissions, stops and steps
  -- of the loop, in any order, they still are: for every test, as many admitted jobs pass it as of
  -- those of the log, in hand, parked and queued.
  pub run-Accounts :
      (p : Job → Bool) (es : List (Event C x)) (c : Consumer C x)
      → Accounts C x p c
      → Accounts C x p (run C x es c)
  unfolding run
  run-Accounts p [] c acc = acc
  run-Accounts p (e ∷ es) c acc = run-Accounts p es (step C x e c) (step-Accounts p e c acc)
