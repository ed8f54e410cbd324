-- ===== src/Mailbox/Exec.antt =====
-- The handling of one job by a worker: `safeExecInternal` and `discardExec` of
-- engine/pkg/actor/mailbox/worker.go. The callbacks of the service and the methods of the pooled job
-- act on the world `W`. The watchdog only counts and logs, and is left out with the durations.
pub mod Release
pub mod Discard
use emberengine.Prelude.{ℕ, ◌+◌, Bool, Option, none, some, if◌then◌else◌}
use emberengine.Mailbox.Job.{Job}
use emberengine.Mailbox.Chain.{
  MailboxError, mailbox_not_running, Completion, MiddlewareContext, MiddlewareChain,
  execute_on_complete, execute_framework_cleanup,
}
use emberengine.Mailbox.Post.{Invoker, notify_job_discarded}

-- What `ExecuteJob` does: return an error or nil, or panic.
pub data Executed : Type 0 where
  returned : Option MailboxError → Executed
  exec_panicked : ℕ → Executed

-- `cancel_reason` is `ctx.Err()` of a job that asks to be cancelled and whose context is done.
-- `escalate_failure` tells whether it panicked.
pub record Executor (W : Type 0) : Type 0 where
  pub invoker : Invoker W
  pub get_middleware_context : Job → W → Option (MiddlewareContext W)
  pub cancel_reason : Job → W → Option MailboxError
  pub execute_job : Job → W → Executed × W
  pub escalate_failure : ℕ → Job → W → Bool × W

pub record ExecState (W : Type 0) : Type 0 where
  pub chain : MiddlewareChain W
  pub drain_discard_total : ℕ
  pub world : W

module _ {W : Type 0} where
  -- The deferred recover: a panic of the job is handed to `EscalateFailure`, which is guarded.
  pub escalated : Executor W → Job → Executed × W → Completion × W
  escalated x job (returned err, w) = ((err, none), w)
  escalated x job (exec_panicked v, w) = ((none, some v), (x.escalate_failure v job w).1)

  -- The body: a cancelled job is not executed.
  pub exec_body : Executor W → Job → W → Completion × W
  exec_body x job w = elim (x.cancel_reason job w) [
    | some err ↦ ((some err, none), notify_job_discarded x.invoker job err w)
    | none ↦ escalated x job (x.execute_job job w)
  ]

  -- The end of both: the chain is left, then the job is released.
  pub released :
      Executor W → Job → ExecState W → Option (MiddlewareChain W × W) → Option (ExecState W)
  released x job s none = none
  released x job s (some (c, w)) = some (record s { chain = c; world = x.invoker.release job w })

  -- `none` is a panic of the chain's own code.
  pub safe_exec : Executor W → Job → ExecState W → Option (ExecState W)
  safe_exec x job s =
      let mctx = x.get_middleware_context job s.world in
      let (completion, w) = exec_body x job s.world in
      released x job s (execute_on_complete s.chain mctx completion w)

  -- In unsafe mode neither the service nor `OnComplete` is called.
  pub discard_exec : Executor W → Bool → Job → ExecState W → Option (ExecState W)
  discard_exec x rw_unsafe job s =
      let mctx = x.get_middleware_context job s.world in
      let counted = record s { drain_discard_total = s.drain_discard_total + 1 } in
      let told = notify_job_discarded x.invoker job mailbox_not_running s.world in
      if rw_unsafe
      then released x job counted
          (execute_framework_cleanup s.chain mctx (some mailbox_not_running, none) s.world)
      else released x job counted
          (execute_on_complete s.chain mctx (some mailbox_not_running, none) told)
