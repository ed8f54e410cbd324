-- ===== src/Mailbox/Post.antt =====
-- The mailbox of engine/pkg/actor/mailbox/mailbox.go: suspension and `PostJob`. The callbacks of
-- the service and the methods of the pooled job act on the world `W`; logs are left out.
pub mod Discard
pub mod Ownership
mod Tests
use emberengine.Prelude.{ℕ, ◌+◌, Bool, true, false, Option, none, some, if◌then◌else◌, not}
use emberengine.Mailbox.Job.{Job}
use emberengine.Mailbox.Suspend.{SuspendPolicy}
use emberengine.Mailbox.Chain.{
  MailboxError, mailbox_suspended, middleware_rejected, MiddlewareContext, MiddlewareChain,
  continue_result, reject_result, execute_on_receive, execute_on_complete,
}
use emberengine.Mailbox.Managers.{ManagerImpl}
use emberengine.Mailbox.Worker.{Worker, WorkerPool, dispatch_job}

-- `on_job_discarded` tells whether it panicked.
pub record Invoker (W : Type 0) : Type 0 where
  pub on_job_discarded : Job → MailboxError → W → Bool × W
  pub release : Job → W → W
  pub set_middleware_context : Job → Option (MiddlewareContext W) → W → W

pub record Metrics : Type 0 where
  pub post_total : ℕ
  pub suspended_total : ℕ
  pub rejected_total : ℕ
  pub dispatch_failed_total : ℕ

pub record Mailbox (I : ManagerImpl) (W : Type 0) : Type 0 where
  pub suspended : Bool
  pub suspend_policy : SuspendPolicy
  pub worker_pool : WorkerPool I
  pub middleware_chain : MiddlewareChain W
  pub invoker : Invoker W
  pub metrics : Metrics

-- The answer, the mailbox, the world, and the job as its poster left it.
abbrev pub PostAnswer : Type 0 → Type 0 → Type 0
PostAnswer B V = Option MailboxError × B × V × Job

abbrev pub reject_reason : Option MailboxError → MailboxError
reject_reason none = middleware_rejected
reject_reason (some e) = e

-- `notifyJobDiscarded`, which recovers from a panic of the callback.
pub notify_job_discarded : {W : Type 0} → Invoker W → Job → MailboxError → W → W
notify_job_discarded inv job reason w = (inv.on_job_discarded job reason w).1

module _ {I : ManagerImpl} {W : Type 0} where
  -- `suspended.CompareAndSwap(false, true)`, and back.
  pub suspend : Mailbox I W → Bool × Mailbox I W
  suspend mb = (not mb.suspended, record mb { suspended = true })

  pub resume : Mailbox I W → Bool × Mailbox I W
  resume mb = (mb.suspended, record mb { suspended = false })

  -- `isSuspended() && !ShouldAllow(job)`.
  pub refuses : Mailbox I W → Job → Option Bool
  refuses mb job =
      if mb.suspended
      then (elim (mb.suspend_policy job) [ none ↦ none | some b ↦ some (not b) ])
      else some false

  -- `OnJobDiscarded`, `ExecuteOnComplete`, `Release`, in this order.
  pub discard_received :
      Mailbox I W
      → MiddlewareChain W
      → Option (MiddlewareContext W)
      → Job
      → MailboxError
      → W
      → Option (PostAnswer (Mailbox I W) W)
  unfolding notify_job_discarded
  discard_received mb c mctx job reason w =
      elim (execute_on_complete c mctx (some reason, none)
        (notify_job_discarded mb.invoker job reason w)) [
          | none ↦ none
          | some (c', w') ↦
              some
                (some reason, record mb { middleware_chain = c' }, mb.invoker.release job w', job)
        ]

  -- `PostJob` from a `Continue` of the middlewares.
  pub post_received :
      (ℕ → ℕ)
      → (ℕ → ℕ → ℕ)
      → (Worker I → Worker I)
      → Mailbox I W
      → MiddlewareChain W
      → Option (MiddlewareContext W)
      → Job
      → W
      → Option (PostAnswer (Mailbox I W) W)
  unfolding discard_received
  post_received hash jump between mb c mctx job w =
      let w' = mb.invoker.set_middleware_context job mctx w in
      elim (dispatch_job I hash jump between mb.worker_pool job) [
        | none ↦ none
        | some (none, p, job') ↦
            some (none, record mb { worker_pool = p; middleware_chain = c }, w', job')
        | some (some e, p, job') ↦
            discard_received
              (record mb {
                worker_pool = p;
                metrics = record mb.metrics {
                  dispatch_failed_total = mb.metrics.dispatch_failed_total + 1;
                };
              })
              c mctx job' e w'
      ]

  pub post_accepted :
      (ℕ → ℕ)
      → (ℕ → ℕ → ℕ)
      → (Worker I → Worker I)
      → Mailbox I W
      → Job
      → W
      → Option (PostAnswer (Mailbox I W) W)
  unfolding post_received discard_received
  post_accepted hash jump between mb job w =
      let (result, mctx, c, w') = execute_on_receive mb.middleware_chain job w in
      elim result [
        | reject_result err ↦
            discard_received
              (record mb {
                metrics = record mb.metrics { rejected_total = mb.metrics.rejected_total + 1 };
              })
              c mctx job (reject_reason err) w'
        | continue_result ↦ post_received hash jump between mb c mctx job w'
      ]

  -- `discardJob` of a suspended mailbox: no middleware has seen the job.
  pub post_suspended : Mailbox I W → Job → W → PostAnswer (Mailbox I W) W
  unfolding notify_job_discarded
  post_suspended mb job w = (
    some mailbox_suspended,
    record mb { metrics = record mb.metrics { suspended_total = mb.metrics.suspended_total + 1 } },
    mb.invoker.release job (notify_job_discarded mb.invoker job mailbox_suspended w),
    job,
  )

  abbrev pub counted : Mailbox I W → Mailbox I W
  counted mb = record mb { metrics = record mb.metrics { post_total = mb.metrics.post_total + 1 } }

  -- `PostJob`; `none` is a panic of a policy, of the chain's own code, or of the dispatch.
  pub post_job :
      (ℕ → ℕ)
      → (ℕ → ℕ → ℕ)
      → (Worker I → Worker I)
      → Mailbox I W
      → Job
      → W
      → Option (PostAnswer (Mailbox I W) W)
  unfolding post_accepted post_suspended refuses
  post_job hash jump between mb job w = elim (refuses (counted mb) job) [
    | none ↦ none
    | some true ↦ some (post_suspended (counted mb) job w)
    | some false ↦ post_accepted hash jump between (counted mb) job w
  ]
