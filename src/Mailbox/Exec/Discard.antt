-- ===== src/Mailbox/Exec/Discard.antt =====
-- A job that is discarded is counted, leaves its middlewares and is released, once.
use emberengine.Prelude.{ℕ, ◌+◌, ◌≤◌, ◌≡◌, refl, Bool, true, false, none, some, take, length, List}
use emberengine.Mailbox.Job.{Job}
use emberengine.Mailbox.Chain.{
  mailbox_not_running, Completion, Middleware, MiddlewareChain, safe_on_complete,
  safe_framework_cleanup, execute_on_receive, execute_on_complete, execute_framework_cleanup,
}
use emberengine.Mailbox.Chain.Onion.{unwind, Ends}
use emberengine.Mailbox.Post.{notify_job_discarded}
use emberengine.Mailbox.Exec.{Executor, ExecState, discard_exec}
use emberengine.Mailbox.Exec.Release.{
  ReleasedAfter, complete-LeftBy, cleanup-LeftBy, released-ReleasedAfter, round-ContextOk,
}

module _ {W : Type 0} where
  -- The world after the middlewares `ms` of a discarded job have seen its end. In unsafe mode the
  -- service does not learn of it, and only their cleanup is called.
  abbrev pub discarded_world : Executor W → Bool → Job → ExecState W → List (Middleware W) → W
  discarded_world x true job s ms =
      unwind (safe_framework_cleanup s.chain job (some mailbox_not_running, none)) ms s.world
  discarded_world x false job s ms =
      unwind (safe_on_complete s.chain job (some mailbox_not_running, none)) ms
        (notify_job_discarded x.invoker job mailbox_not_running s.world)

  -- A job whose context is that of a round of `ExecuteOnReceive` over any chain, also if the
  -- worker's has changed since, is discarded without a panic, and counted. The service learns of it
  -- and then `OnComplete` is called, or in unsafe mode the framework cleanup alone, with the error that
  -- the mailbox is not running, on just the middlewares that `OnReceive` was called on in that round,
  -- the last one first. The context goes back to its pool once, and the job is released as the last
  -- act, without having been executed.
  pub discard_exec-ReleasedAfter :
      (x : Executor W) (rw_unsafe : Bool) (c : MiddlewareChain W) (w0 : W) (job : Job)
      (s : ExecState W)
      → x.get_middleware_context job s.world ≡ (execute_on_receive c job w0).1
      → (n : ℕ) × (n ≤ length c.mws)
        × Ends c job c.mws w0 n (execute_on_receive c job w0).0
        × (s' : ExecState W) × (discard_exec x rw_unsafe job s ≡ some s')
        × (s'.drain_discard_total ≡ s.drain_discard_total + 1)
        × ReleasedAfter x job s
            (execute_on_receive c job w0).1
            (discarded_world x rw_unsafe job s (take n c.mws))
            s'
  unfolding discard_exec
  discard_exec-ReleasedAfter x true c w0 job s same =
      let (n, l, ends, ok) = round-ContextOk c job w0 in
      let mctx = (execute_on_receive c job w0).1 in
      let e : Completion = (some mailbox_not_running, none) in
      let (s', done, total, after) =
        released-ReleasedAfter x job s
          (record s { drain_discard_total = s.drain_discard_total + 1 })
          (safe_framework_cleanup s.chain job e) c.mws n s.world mctx
          (execute_framework_cleanup s.chain mctx e s.world) refl
          (cleanup-LeftBy s.chain job c.mws n mctx e s.world ok) in
      (n, l, ends, s', rw same done, total, after)
  discard_exec-ReleasedAfter x false c w0 job s same =
      let (n, l, ends, ok) = round-ContextOk c job w0 in
      let mctx = (execute_on_receive c job w0).1 in
      let e : Completion = (some mailbox_not_running, none) in
      let w = notify_job_discarded x.invoker job mailbox_not_running s.world in
      let (s', done, total, after) =
        released-ReleasedAfter x job s
          (record s { drain_discard_total = s.drain_discard_total + 1 })
          (safe_on_complete s.chain job e) c.mws n w mctx (execute_on_complete s.chain mctx e w)
          refl (complete-LeftBy s.chain job c.mws n mctx e w ok) in
      (n, l, ends, s', rw same done, total, after)
