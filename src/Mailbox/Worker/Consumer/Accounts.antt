-- ===== src/Mailbox/Worker/Consumer/Accounts.antt =====
-- The accounts of a worker's jobs, and the changes that keep them.
use emberengine.Prelude.{
  ◌+◌, ◌++◌, false, ◌≡◌, refl, ap, List, [], ◌∷◌, Bool, Option, none, some, inl, inr, one_if, count,
  count-append, arith, Bool-cases,
}
use emberengine.Prelude.Int.{ℤ, leb_ℤ}
use emberengine.Mailbox.Job.{Job}
use emberengine.Mailbox.Queues.{insert_by}
use emberengine.Mailbox.Exec.{Executor, ExecState}
use emberengine.Mailbox.Worker.{Worker, Answer, begin_stop, is_running}
use emberengine.Mailbox.Worker.Submission.{worker_view, WorkerWf, queued_as, Handled}
use emberengine.Mailbox.Worker.Consumer.{
  Entry, executed, replaced, refused, sent, discarded, elsewhere, crashed, ConsumerImpl, Consumer,
  submitted, parked,
}

count-insert_by :
    (p : Job → Bool) (key : Job → ℤ) (e : Job) (es : List Job)
    → count p (insert_by key e es) ≡ one_if (p e) + count p es
count-insert_by p key e [] = refl
count-insert_by p key e (x ∷ xs) = elim (Bool-cases (leb_ℤ (key x) (key e))) [
  | inl l ↦ rw l (omega (arith, count-insert_by p key e xs))
  | inr l ↦ rw l refl
]

-- The entries of a log of the jobs that pass a test.
abbrev pub entry_passes : {E : Type 0} → (Job → Bool) → Entry E → Bool
entry_passes p (executed e) = p e
entry_passes p (replaced e) = p e
entry_passes p (refused e) = p e
entry_passes p (sent e) = p e
entry_passes p (discarded rw_unsafe e) = p e
entry_passes p (elsewhere f) = false
entry_passes p crashed = false

module _ (C : ConsumerImpl) {W : Type 0} (x : Executor W) where
  abbrev pub queued : Consumer C x → List Job
  queued c = worker_view C.manager c.worker

  -- The admitted jobs are those of the log, in hand, parked and queued.
  pub record Accounts (p : Job → Bool) (c : Consumer C x) : Type 0 where
    pub wf : WorkerWf C.manager c.worker
    pub sum :
        count p c.admitted
        ≡ count (entry_passes p) c.log
          + count p (parked C x c.hand)
          + count p (parked C x c.pending_job)
          + count p (queued c)

  pub submitted-Accounts :
      (p : Job → Bool) (c : Consumer C x) (job : Job) (a : Answer C.manager)
      → Accounts p c
      → WorkerWf C.manager a.2
      → Handled C.manager c.worker job a
      → Accounts p (submitted C x c a)
  submitted-Accounts p c job (none, env, w, job') acc wf (inl (_, runs, same, grown)) = record {
    wf = wf;
    sum =
        let more = ap (count p) grown in
        let one = ap (λ e. one_if (p e)) same in
        omega (
          arith,
          acc.sum,
          more,
          one,
          count-insert_by p C.manager.key (queued_as C.manager c.worker job) (queued c),
        );
  }
  submitted-Accounts p c job (none, env, w, job') acc wf (inr (e, no_error, _, kept)) =
      absurd (cc no_error)
  submitted-Accounts p c job (some e, env, w, job') acc wf (inl (error, _, _, _)) =
      absurd (cc error)
  submitted-Accounts p c job (some e, env, w, job') acc wf (inr (e', error, same, kept)) = record {
    wf = wf;
    sum = omega (arith, acc.sum, ap (count p) kept);
  }

  -- A change of the worker that leaves its jobs.
  pub same_jobs :
      (p : Job → Bool) (c : Consumer C x) (w : Worker C.manager)
      → Accounts p c
      → WorkerWf C.manager w
      → worker_view C.manager w ≡ queued c
      → Accounts p (record c { worker = w })
  same_jobs p c w acc wf e = record { wf = wf; sum = omega (arith, acc.sum, ap (count p) e) }

  pub begin_stop_same :
      (w : Worker C.manager)
      → WorkerWf C.manager w
      → WorkerWf C.manager (begin_stop C.manager w)
        × (worker_view C.manager (begin_stop C.manager w) ≡ worker_view C.manager w)
  unfolding begin_stop
  begin_stop_same w wf = elim (Bool-cases (is_running w.state)) [
    | inl runs ↦ rw (runs, begin_stop) (wf, refl)
    | inr stopped ↦ rw (stopped, begin_stop) (wf, refl)
  ]

  -- An entry of no job, and one of the job in hand.
  pub logged :
      (p : Job → Bool) (c : Consumer C x) (entry : Entry (ExecState W)) (s : Option (ExecState W))
      → Accounts p c
      → entry_passes p entry ≡ false
      → Accounts p (record c { exec = s; log = c.log ++ entry ∷ [] })
  logged p c entry s acc no_job = record {
    wf = acc.wf;
    sum =
        omega (arith, acc.sum, count-append (entry_passes p) c.log (entry ∷ []), ap one_if no_job);
  }

  pub handed :
      (p : Job → Bool) (c : Consumer C x) (entry : Entry (ExecState W)) (s : Option (ExecState W))
      (e : Job)
      → c.hand ≡ some e
      → Accounts p c
      → entry_passes p entry ≡ p e
      → Accounts p (record c { hand = none; exec = s; log = c.log ++ entry ∷ [] })
  handed p c entry s e here acc same = record {
    wf = acc.wf;
    sum = omega (
      arith,
      acc.sum,
      ap (λ h. count p (parked C x h)) here,
      count-append (entry_passes p) c.log (entry ∷ []),
      ap one_if same,
    );
  }
