-- ===== src/Mailbox/Worker/Delivery.antt =====
-- What becomes of a job that is dispatched: it is queued at one worker, or refused, with every
-- queue as it was.
use emberengine.Prelude.{
  ℕ, ◌≡◌, refl, ap, ap₂, sym, ◌∙◌, List, [], ◌∷◌, Bool, true, false, Option, none, some,
  if◌then◌else◌, ◌⊎◌, inl, inr, Bool-cases, Option-cases, ◌==◌, length, ◌<◌, ◌^◌, arith,
}
use emberengine.Prelude.Int.{ℤ, eqb_ℤ_refl}
use emberengine.Mailbox.Job.{Job}
use emberengine.Mailbox.Queues.{insert_by}
use emberengine.Mailbox.Chain.{MailboxError, worker_full, worker_not_found}
use emberengine.Mailbox.Scheduler.{lookup}
use emberengine.Mailbox.Priority.{replace}
use emberengine.Mailbox.Priority.Maps.{
  map_values, lookup-map_values, map_values-replace, map_values-replace_same, AllValues,
  lookup-AllValues,
}
use emberengine.Mailbox.Managers.{ManagerImpl}
use emberengine.Mailbox.DispatchRing.{IsGrowing, get_total}
use emberengine.Mailbox.Worker.{
  is_running, Worker, submit_job, WorkersSnapshot, WorkerPool, Route, to_worker, no_route,
  route_panic, route_to, count_dispatch, deliver, dispatch_job, only_id,
}
use emberengine.Mailbox.Worker.Submission.{worker_view, WorkerWf, queued_as, submit_job_alone}

module _ (I : ManagerImpl) where
  abbrev pub views_of : WorkerPool I → List (ℤ × List Job)
  views_of p = elim p.snap [ none ↦ [] | some snap ↦ map_values (worker_view I) snap.workers ]

  -- A snapshot as `publishSnapshotLocked` makes it, of workers with well-formed queues.
  abbrev pub SnapshotWf : WorkersSnapshot I → Type 0
  SnapshotWf snap =
      AllValues (WorkerWf I) snap.workers
      × (length snap.ring.sorted_ids < 2 ^ 31)
      × (snap.count ≡ length snap.workers)
      × (snap.sole_id ≡ only_id I snap.workers)

  abbrev pub PoolWf : WorkerPool I → Type 0
  PoolWf p = elim p.snap [ none ↦ Unit | some snap ↦ SnapshotWf snap ]

  -- Queued at one running worker of the pool, in its place, or refused with every queue unchanged.
  abbrev pub Dispatched : WorkerPool I → Job → Option MailboxError × WorkerPool I × Job → Type 0
  Dispatched p job (err, p', job') =
      ((id : ℤ) × (w : Worker I) × (err ≡ none)
        × (is_running w.state ≡ true)
        × (job' ≡ queued_as I w job)
        × (lookup id (views_of p) ≡ some (worker_view I w))
        × (views_of p'
            ≡ replace id (insert_by I.key (queued_as I w job) (worker_view I w)) (views_of p)))
      ⊎ ((e : MailboxError) × (err ≡ some e) × (job' ≡ job) × (views_of p' ≡ views_of p))

  count_dispatch_same :
      (stats : Bool) (id : ℤ) (snap : WorkersSnapshot I)
      → let snap' = count_dispatch I stats id snap in
        (snap'.workers ≡ snap.workers)
        × (snap'.ring ≡ snap.ring)
        × (snap'.count ≡ snap.count)
        × (snap'.sole_id ≡ snap.sole_id)
  unfolding count_dispatch
  count_dispatch_same false id snap = (refl, refl, refl, refl)
  count_dispatch_same true id snap = elim (Option-cases (lookup id snap.dispatch_cnt)) [
    | inl missing ↦ rw (missing, count_dispatch) (refl, refl, refl, refl)
    | inr c ↦ rw (c.1, count_dispatch) (refl, refl, refl, refl)
  ]

  deliver-Dispatched :
      (hash : ℕ → ℕ) (jump : ℕ → ℕ → ℕ) (p : WorkerPool I) (snap : WorkersSnapshot I) (id : ℤ)
      (w : Worker I) (job : Job)
      → p.snap ≡ some snap
      → AllValues (WorkerWf I) snap.workers
      → lookup id snap.workers ≡ some w
      → Dispatched p job (deliver I hash jump (λ u. u) p snap id w job)
  unfolding deliver
  deliver-Dispatched hash jump p snap id w job here wf found =
      let (err, env, w', job') = submit_job I (λ u. u) p.env w job in
      let (kept, handled) =
        submit_job_alone I p.env w job (lookup-AllValues (WorkerWf I) id snap.workers wf found) in
      let before : views_of p ≡ map_values (worker_view I) snap.workers =
        ap (λ o. elim o [ none ↦ [] | some s ↦ map_values (worker_view I) s.workers ]) here in
      let workers' = (count_dispatch_same p.stats_enabled id snap).0 in
      let after = ap (λ l. map_values (worker_view I) (replace id w' l)) workers' in
      elim handled [
        | inl (ok, runs, same, grown) ↦ inl (
          id,
          w,
          ok,
          runs,
          same,
          ap (lookup id) before ∙ lookup-map_values (worker_view I) id snap.workers found,
          after
              ∙ map_values-replace (worker_view I) id w' snap.workers
              ∙ ap₂ (λ v l. replace id v l) grown (sym before),
        )
        | inr (e, failed, same, unchanged) ↦ inr (
          e,
          failed,
          same,
          after
              ∙ map_values-replace_same (worker_view I) id w' snap.workers found unchanged
              ∙ sym before,
        )
      ]

  sole_found :
      (ws : List (ℤ × Worker I))
      → length ws ≡ 1
      → (id : ℤ) × (w : Worker I) × (only_id I ws ≡ some id) × (lookup id ws ≡ some w)
  unfolding lookup
  sole_found [] e = absurd (omega (arith, e))
  sole_found ((id, w) ∷ []) e = (id, w, refl, rw (eqb_ℤ_refl id) refl)
  sole_found (a ∷ b ∷ ws) e = absurd (omega (arith, e))

  -- The worker chosen is one of the pool's, and the choice never meets a nil worker.
  abbrev pub RoutedWell : WorkersSnapshot I → Route I → Type 0
  RoutedWell snap r =
      ((id : ℤ) × (w : Worker I) × (r ≡ to_worker id w) × (lookup id snap.workers ≡ some w))
      ⊎ ((e : MailboxError) × (r ≡ no_route e))

  route_to-RoutedWell :
      (hash : ℕ → ℕ) (jump : ℕ → ℕ → ℕ)
      → IsGrowing hash jump
      → (snap : WorkersSnapshot I) (job : Job) → SnapshotWf snap
      → RoutedWell snap (route_to I hash jump snap job)
  unfolding route_to
  route_to-RoutedWell hash jump g snap job (wf, small, counted, sole) =
      elim (Bool-cases (snap.count == 1)) [
        | inl one ↦
            let single : snap.count ≡ 1 = ground arith in
            let (id, w, only, found) = sole_found snap.workers (sym counted ∙ single) in
            inl (id, w, rw (one, route_to, sole ∙ only, found) refl, found)
        | inr more ↦
            let (o, answer) = get_total hash jump g snap.ring job.dispatcher_key small in
            elim (Option-cases o) [
              | inl missing ↦ inr (worker_full, rw (more, route_to, answer ∙ ap some missing) refl)
              | inr (id, e) ↦ elim (Option-cases (lookup id snap.workers)) [
                | inl unknown ↦
                    inr (worker_not_found, rw (more, route_to, answer ∙ ap some e, unknown) refl)
                | inr (w, found) ↦
                    inl (id, w, rw (more, route_to, answer ∙ ap some e, found) refl, found)
              ]
            ]
      ]

  -- `dispatch_job` by the snapshot that it loads.
  abbrev dispatched_from :
      (ℕ → ℕ)
      → (ℕ → ℕ → ℕ)
      → WorkerPool I
      → Job
      → Option (WorkersSnapshot I)
      → Option (Option MailboxError × WorkerPool I × Job)
  dispatched_from hash jump p job o = elim o [
    | none ↦ some (some worker_not_found, p, job)
    | some snap ↦
        if snap.count == 0
        then some (some worker_not_found, p, job)
        else elim (route_to I hash jump snap job) [
          | route_panic ↦ none
          | no_route e ↦ some (some e, p, job)
          | to_worker id w ↦ some (deliver I hash jump (λ u. u) p snap id w job)
        ]
  ]

  -- `DispatchJob` on a pool at rest never panics, if the float step of the jump hash does not
  -- shrink. It queues the job, in its place, at one running worker of the pool, or it returns an
  -- error and every queue is as it was.
  pub dispatch_job-Dispatched :
      (hash : ℕ → ℕ) (jump : ℕ → ℕ → ℕ)
      → IsGrowing hash jump
      → (p : WorkerPool I) (job : Job) → PoolWf p
      → (answer : Option MailboxError × WorkerPool I × Job) × (dispatch_job I hash jump
            (λ u. u)
            p
            job
          ≡ some answer)
        × Dispatched p job answer
  unfolding dispatch_job
  dispatch_job-Dispatched hash jump g p job wf = elim (Option-cases p.snap) [
    | inl missing ↦
        let step : dispatch_job I hash jump (λ u. u) p job ≡ some (some worker_not_found, p, job) =
          ap (dispatched_from hash jump p job) missing in
        ((some worker_not_found, p, job), step, inr (worker_not_found, refl, refl, refl))
    | inr (snap, here) ↦
        let by_snap : dispatch_job I hash jump (λ u. u) p job
            ≡ dispatched_from hash jump p job (some snap) =
          ap (dispatched_from hash jump p job) here in
        elim (Bool-cases (snap.count == 0)) [
          | inl idle ↦ (
            (some worker_not_found, p, job),
            by_snap ∙ rw idle refl,
            inr (worker_not_found, refl, refl, refl),
          )
          | inr busy ↦
              let wf' : SnapshotWf snap = rw here at wf in
              elim (route_to-RoutedWell hash jump g snap job wf') [
                | inl (id, w, r, found) ↦ (
                  deliver I hash jump (λ u. u) p snap id w job,
                  by_snap ∙ rw (busy, r) refl,
                  deliver-Dispatched hash jump p snap id w job here wf'.0 found,
                )
                | inr (e, r) ↦
                    ((some e, p, job), by_snap ∙ rw (busy, r) refl, inr (e, refl, refl, refl))
              ]
        ]
  ]
