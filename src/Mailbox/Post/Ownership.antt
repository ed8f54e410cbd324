-- ===== src/Mailbox/Post/Ownership.antt =====
-- Who owns a job after `PostJob`: one worker's queue, or nobody, after the callbacks in their order
-- and one release.
use emberengine.Prelude.{
  ℕ, ◌+◌, ◌≡◌, ◌≤◌, refl, ap, subst, ◌∙◌, Bool, true, false, Option, none, some, ◌⊎◌, inl, inr,
  Bool-cases, length, take,
}
use emberengine.Mailbox.Job.{Job}
use emberengine.Mailbox.Chain.{
  MailboxError, mailbox_suspended, MiddlewareContext, MiddlewareChain, MiddlewareResult,
  continue_result, reject_result, execute_on_receive,
}
use emberengine.Mailbox.Chain.Onion.{wind, execute_on_receive-Wound}
use emberengine.Mailbox.Managers.{ManagerImpl}
use emberengine.Mailbox.DispatchRing.{IsGrowing}
use emberengine.Mailbox.Worker.{WorkerPool, dispatch_job}
use emberengine.Mailbox.Worker.Delivery.{PoolWf, Dispatched, dispatch_job-Dispatched, views_of}
use emberengine.Mailbox.Post.{
  Mailbox, PostAnswer, reject_reason, notify_job_discarded, discard_received, post_received,
  post_accepted, post_suspended, refuses, counted, post_job,
}
use emberengine.Mailbox.Post.Discard.{Open, Discarded, discard_received-Discarded}

module _ {I : ManagerImpl} {W : Type 0} where
  -- What became of a job that the mailbox, not suspended for it, gave to its middlewares, of which
  -- `n` saw it and left the world `w`: rejected by them and discarded; queued, with its context set;
  -- or refused by the dispatch, and discarded with every queue as it was.
  abbrev pub Settled : Mailbox I W → Job → ℕ → W → PostAnswer (Mailbox I W) W → Type 0
  Settled mb job n w (err, mb', w', job') =
      let c = mb.middleware_chain in
      ((e : MailboxError) × Discarded mb c job n e w (err, mb', w', job'))
      ⊎ ((ctx : Option (MiddlewareContext W)) × (err ≡ none)
          × Dispatched I mb.worker_pool job (none, mb'.worker_pool, job')
          × (w' ≡ mb.invoker.set_middleware_context job ctx w)
          × Open c n job ctx mb'.middleware_chain)
      ⊎ ((ctx : Option (MiddlewareContext W)) × (e : MailboxError) × (p : WorkerPool I) × (views_of
              I p
            ≡ views_of I mb.worker_pool)
          × Discarded (record mb { worker_pool = p }) c job n e
              (mb.invoker.set_middleware_context job ctx w) (err, mb', w', job'))

  module _ (hash : ℕ → ℕ) (jump : ℕ → ℕ → ℕ) (g : IsGrowing hash jump) where
    received_cases :
        (mb : Mailbox I W) (c1 : MiddlewareChain W) (n : ℕ) (ctx : Option (MiddlewareContext W))
        (job : Job) (w : W)
        → Open mb.middleware_chain n job ctx c1
        → (err : Option MailboxError) (p : WorkerPool I) (job' : Job)
        → dispatch_job I hash jump (λ u. u) mb.worker_pool job ≡ some (err, p, job')
        → Dispatched I mb.worker_pool job (err, p, job')
        → (answer : PostAnswer (Mailbox I W) W) × (post_received hash jump (λ u. u) mb c1 ctx job w
            ≡ some answer)
          × Settled mb job n w answer
    unfolding post_received
    received_cases mb c1 n ctx job w opened none p job' step d =
        let w' = mb.invoker.set_middleware_context job ctx w in
        (
          (none, record mb { worker_pool = p; middleware_chain = c1 }, w', job'),
          rw (step, post_received) refl,
          inr (inl (ctx, refl, d, refl, opened)),
        )
    received_cases mb c1 n ctx job w opened (some e) p job' step (inl queued) =
        let none_at : some e ≡ none = queued.2 in cc
    received_cases mb c1 n ctx job w opened (some e) p job' step (inr (e', failed, same, kept)) =
        let w' = mb.invoker.set_middleware_context job ctx w in
        let mb2 : Mailbox I W = record mb {
          worker_pool = p;
          metrics = record mb.metrics {
            dispatch_failed_total = mb.metrics.dispatch_failed_total + 1;
          };
        } in
        let step' : dispatch_job I hash jump (λ u. u) mb.worker_pool job ≡ some (some e, p, job) =
          step ∙ ap (λ j. some (some e, p, j)) same in
        let (answer, done, discarded) =
          discard_received-Discarded mb2 mb.middleware_chain c1 n ctx job e w' opened in
        (answer, rw (step', post_received) done, inr (inr (ctx, e, p, kept, discarded)))

    received-Settled :
        (mb : Mailbox I W) (c1 : MiddlewareChain W) (n : ℕ) (ctx : Option (MiddlewareContext W))
        (job : Job) (w : W)
        → PoolWf I mb.worker_pool
        → Open mb.middleware_chain n job ctx c1
        → (answer : PostAnswer (Mailbox I W) W) × (post_received hash jump (λ u. u) mb c1 ctx job w
            ≡ some answer)
          × Settled mb job n w answer
    received-Settled mb c1 n ctx job w wf opened =
        let (r, step, d) = dispatch_job-Dispatched I hash jump g mb.worker_pool job wf in
        received_cases mb c1 n ctx job w opened r.0 r.1 r.2 step d

    -- `post_accepted` from what the middlewares answered.
    abbrev accepted_from :
        Mailbox I W
        → Job
        → MiddlewareResult
        → Option (MiddlewareContext W)
        → MiddlewareChain W
        → W
        → Option (PostAnswer (Mailbox I W) W)
    accepted_from mb job result ctx c1 w' = elim result [
      | reject_result err ↦
          discard_received
            (record mb {
              metrics = record mb.metrics { rejected_total = mb.metrics.rejected_total + 1 };
            })
            c1 ctx job (reject_reason err) w'
      | continue_result ↦ post_received hash jump (λ u. u) mb c1 ctx job w'
    ]

    accepted_cases :
        (mb : Mailbox I W) (c1 : MiddlewareChain W) (n : ℕ) (ctx : Option (MiddlewareContext W))
        (job : Job) (w : W) (result : MiddlewareResult)
        → PoolWf I mb.worker_pool
        → Open mb.middleware_chain n job ctx c1
        → (answer : PostAnswer (Mailbox I W) W) × (accepted_from mb job result ctx c1 w
            ≡ some answer)
          × Settled mb job n w answer
    accepted_cases mb c1 n ctx job w continue_result wf opened =
        received-Settled mb c1 n ctx job w wf opened
    accepted_cases mb c1 n ctx job w (reject_result err) wf opened =
        let mb2 : Mailbox I W = record mb {
          metrics = record mb.metrics { rejected_total = mb.metrics.rejected_total + 1 };
        } in
        let (answer, done, discarded) =
          discard_received-Discarded mb2 mb.middleware_chain c1 n ctx job (reject_reason err) w
            opened in
        (answer, done, inl (reject_reason err, discarded))

    -- Discarded unseen because the mailbox is suspended and its policy refuses the job, or given to
    -- the first middlewares, in order, and settled.
    abbrev pub Posted : Mailbox I W → Job → W → PostAnswer (Mailbox I W) W → Type 0
    Posted mb job w (err, mb', w', job') =
        ((mb.suspended ≡ true)
          × (mb.suspend_policy job ≡ some false)
          × (err ≡ some mailbox_suspended)
          × (mb'.worker_pool ≡ mb.worker_pool)
          × (mb'.middleware_chain ≡ mb.middleware_chain)
          × (w' ≡ mb.invoker.release job (notify_job_discarded mb.invoker job mailbox_suspended w))
          × (job' ≡ job))
        ⊎ ((n : ℕ) × (n ≤ length mb.middleware_chain.mws)
            × ((mb.suspended ≡ false) ⊎ (mb.suspend_policy job ≡ some true))
            × Settled mb job n (wind mb.middleware_chain job (take n mb.middleware_chain.mws) w)
                (err, mb', w', job'))

    accepted-Settled :
        (mb : Mailbox I W) (job : Job) (w : W)
        → PoolWf I mb.worker_pool
        → (n : ℕ) × (answer : PostAnswer (Mailbox I W) W) × (n ≤ length mb.middleware_chain.mws)
          × (post_accepted hash jump (λ u. u) mb job w ≡ some answer)
          × Settled mb job n
              (wind mb.middleware_chain job (take n mb.middleware_chain.mws) w)
              answer
    unfolding post_accepted
    accepted-Settled mb job w wf =
        let (result, ctx, c1, w1) = execute_on_receive mb.middleware_chain job w in
        let (n, l, winds, ends, opened) = execute_on_receive-Wound mb.middleware_chain job w in
        let (answer, done, settled) = accepted_cases mb c1 n ctx job w1 result wf opened in
        (n, answer, l, done, subst (λ v. Settled mb job n v answer) winds settled)

    refuses_cases :
        (mb : Mailbox I W) (job : Job) {b : Bool}
        → mb.suspend_policy job ≡ some b
        → ((refuses mb job ≡ some true)
            × (mb.suspended ≡ true)
            × (mb.suspend_policy job ≡ some false))
          ⊎ ((refuses mb job ≡ some false)
              × ((mb.suspended ≡ false) ⊎ (mb.suspend_policy job ≡ some true)))
    unfolding refuses
    refuses_cases mb job {b = true} e = elim (Bool-cases mb.suspended) [
      | inl t ↦ inr (rw (t, refuses, e) refl, inr e)
      | inr f ↦ inr (rw (f, refuses) refl, inl f)
    ]
    refuses_cases mb job {b = false} e = elim (Bool-cases mb.suspended) [
      | inl t ↦ inl (rw (t, refuses, e) refl, t, e)
      | inr f ↦ inr (rw (f, refuses) refl, inl f)
    ]

    -- `PostJob`, with a policy that answers, a pool at rest and a float step of the jump hash that
    -- does not shrink, never panics. It returns no error
    -- if and only if the job is then queued, once, in its place, at one running worker. Otherwise
    -- every queue is as it was, and the service has learnt of the job, the middlewares that saw it,
    -- and only those, have completed it, the last one first, and then it was released, once.
    pub post_job-Posted :
        (mb : Mailbox I W) (job : Job) (w : W) {b : Bool}
        → PoolWf I mb.worker_pool
        → mb.suspend_policy job ≡ some b
        → (answer : PostAnswer (Mailbox I W) W) × (post_job hash jump (λ u. u) mb job w
            ≡ some answer)
          × Posted mb job w answer
    unfolding post_job post_suspended
    post_job-Posted mb job w wf policy = elim (refuses_cases (counted mb) job policy) [
      | inl (refused, suspended, says) ↦ (
        post_suspended (counted mb) job w,
        rw (refused, post_job) refl,
        inl (suspended, says, refl, refl, refl, refl, refl),
      )
      | inr (passes, why) ↦
          let (n, answer, l, done, settled) = accepted-Settled (counted mb) job w wf in
          (answer, rw (passes, post_job) done, inr (n, l, why, settled))
    ]
