-- ===== src/Mailbox/Exec/Release.antt =====
-- Every way through the handling of a job leaves the middlewares and releases the job, once.
use emberengine.Prelude.{
  ℕ, ◌+◌, ◌≤◌, ◌≡◌, refl, sym, ap, ◌∙◌, subst, arith, Option, none, some, inl, inr, take, length,
  List, [], Option-cases,
}
use emberengine.Mailbox.Job.{Job}
use emberengine.Mailbox.Chain.{
  MailboxError, Completion, Middleware, MiddlewareContext, MiddlewareChain, safe_on_complete,
  safe_framework_cleanup, execute_on_receive, execute_on_complete, execute_framework_cleanup,
}
use emberengine.Mailbox.Chain.Onion.{
  unwind, Ends, Closes, execute_on_receive-Wound, execute_on_complete-none,
  execute_framework_cleanup-none,
}
use emberengine.Mailbox.Post.{notify_job_discarded}
use emberengine.Mailbox.Exec.{
  Executed, returned, exec_panicked, Executor, ExecState, escalated, exec_body, released, safe_exec,
}

module _ {W : Type 0} where
  -- The job's context, if it has one, is of a round of `ExecuteOnReceive` that called the first `n`
  -- of `ms`; without a context none were called.
  abbrev pub ContextOk : Job → List (Middleware W) → ℕ → Option (MiddlewareContext W) → Type 0
  ContextOk job ms n none = n ≡ 0
  ContextOk job ms n (some mc) = Closes job ms n mc

  abbrev pub given_back : Option (MiddlewareContext W) → ℕ
  given_back none = 0
  given_back (some mc) = 1

  -- The chain went the way of `act` over the `n` middlewares, from the world `w`.
  abbrev pub LeftBy :
      MiddlewareChain W
      → (Middleware W → W → W)
      → List (Middleware W)
      → ℕ
      → W
      → Option (MiddlewareContext W)
      → Option (MiddlewareChain W × W)
      → Type 0
  LeftBy c act ms n w none o = o ≡ some (c, unwind act (take n ms) w)
  LeftBy c act ms n w (some mc) o =
      o ≡ some (record c { put_back = c.put_back + 1 }, unwind act (take n ms) w)

  no_round :
      (c : MiddlewareChain W) (act : Middleware W → W → W) (ms : List (Middleware W)) (n : ℕ)
      (w : W)
      → n ≡ 0
      → LeftBy c act ms n w none (some (c, w))
  no_round c act ms n w e = ap (λ k. some (c, unwind act (take k ms) w)) (sym e)

  pub complete-LeftBy :
      (c : MiddlewareChain W) (job : Job) (ms : List (Middleware W)) (n : ℕ)
      (mctx : Option (MiddlewareContext W)) (e : Completion) (w : W)
      → ContextOk job ms n mctx
      → LeftBy c (safe_on_complete c job e) ms n w mctx (execute_on_complete c mctx e w)
  complete-LeftBy c job ms n none e w ok =
      execute_on_complete-none c e w ∙ no_round c (safe_on_complete c job e) ms n w ok
  complete-LeftBy c job ms n (some mc) e w ok = (ok c e w).0

  pub cleanup-LeftBy :
      (c : MiddlewareChain W) (job : Job) (ms : List (Middleware W)) (n : ℕ)
      (mctx : Option (MiddlewareContext W)) (e : Completion) (w : W)
      → ContextOk job ms n mctx
      → LeftBy c (safe_framework_cleanup c job e) ms n w mctx (execute_framework_cleanup c mctx e w)
  cleanup-LeftBy c job ms n none e w ok =
      execute_framework_cleanup-none c e w ∙ no_round c (safe_framework_cleanup c job e) ms n w ok
  cleanup-LeftBy c job ms n (some mc) e w ok = (ok c e w).1

  -- The job was released as the last act, and the chain has the middlewares it had, with the context
  -- given back if there was one.
  abbrev pub ReleasedAfter :
      Executor W → Job → ExecState W → Option (MiddlewareContext W) → W → ExecState W → Type 0
  ReleasedAfter x job s mctx w s' =
      (s'.world ≡ x.invoker.release job w)
      × (s'.chain.mws ≡ s.chain.mws)
      × (s'.chain.put_back ≡ s.chain.put_back + given_back mctx)

  pub released-ReleasedAfter :
      (x : Executor W) (job : Job) (s t : ExecState W) (act : Middleware W → W → W)
      (ms : List (Middleware W)) (n : ℕ) (w : W) (mctx : Option (MiddlewareContext W))
      (o : Option (MiddlewareChain W × W))
      → t.chain ≡ s.chain
      → LeftBy s.chain act ms n w mctx o
      → (s' : ExecState W) × (released x job t o ≡ some s')
        × (s'.drain_discard_total ≡ t.drain_discard_total)
        × ReleasedAfter x job s mctx (unwind act (take n ms) w) s'
  unfolding released
  released-ReleasedAfter x job s t act ms n w none o same left = (
    record t { chain = s.chain; world = x.invoker.release job (unwind act (take n ms) w) },
    rw left refl,
    refl,
    (refl, refl, omega arith),
  )
  released-ReleasedAfter x job s t act ms n w (some mc) o same left = (
    record t {
      chain = record s.chain { put_back = s.chain.put_back + 1 };
      world = x.invoker.release job (unwind act (take n ms) w);
    },
    rw left refl,
    refl,
    (refl, refl, refl),
  )

  -- How a job can end, and the world then: cancelled before it starts, the service learning of it
  -- with the reason; executed, with what `ExecuteJob` returned; or with a panic, whose value goes to
  -- `EscalateFailure`.
  pub data Outcome (x : Executor W) (job : Job) (w : W) : Completion → W → Type 0 where
    cancelled :
        (err : MailboxError)
        → x.cancel_reason job w ≡ some err
        → Outcome x job w (some err, none) (notify_job_discarded x.invoker job err w)
    finished :
        (err : Option MailboxError) (w' : W)
        → x.cancel_reason job w ≡ none
        → x.execute_job job w ≡ (returned err, w')
        → Outcome x job w (err, none) w'
    failed :
        (v : ℕ) (w' : W)
        → x.cancel_reason job w ≡ none
        → x.execute_job job w ≡ (exec_panicked v, w')
        → Outcome x job w (none, some v) (x.escalate_failure v job w').1

  escalated-Outcome :
      (x : Executor W) (job : Job) (w : W) (r : Executed × W)
      → x.cancel_reason job w ≡ none
      → x.execute_job job w ≡ r
      → Outcome x job w (escalated x job r).0 (escalated x job r).1
  unfolding escalated
  escalated-Outcome x job w (returned err, w') runs e = finished err w' runs e
  escalated-Outcome x job w (exec_panicked v, w') runs e = failed v w' runs e

  exec_body-Outcome :
      (x : Executor W) (job : Job) (w : W)
      → Outcome x job w (exec_body x job w).0 (exec_body x job w).1
  unfolding exec_body
  exec_body-Outcome x job w = elim (Option-cases (x.cancel_reason job w)) [
    | inl runs ↦
        let same : escalated x job (x.execute_job job w) ≡ exec_body x job w =
          rw (runs, exec_body) refl in
        subst (λ r. Outcome x job w r.0 r.1) same
          (escalated-Outcome x job w (x.execute_job job w) runs refl)
    | inr (err, stop) ↦
        let same : ((some err, none), notify_job_discarded x.invoker job err w)
            ≡ exec_body x job w =
          rw (stop, exec_body) refl in
        subst (λ r. Outcome x job w r.0 r.1) same (cancelled err stop)
  ]

  wound_context :
      (c : MiddlewareChain W) (job : Job) (n : ℕ) (ctx : Option (MiddlewareContext W))
      (c' : MiddlewareChain W)
      → n ≤ length c.mws
      → elim ctx as (λ t. Type 0) [
        | none ↦ (c.mws ≡ []) × (c' ≡ c)
        | some mc ↦ (c' ≡ record c { taken = c.taken + 1 }) × Closes job c.mws n mc
      ]
      → ContextOk job c.mws n ctx
  wound_context c job n none c' l (bare, same) =
      omega (arith, l, ap (λ (ms : List (Middleware W)). length ms) bare)
  wound_context c job n (some mc) c' l (same, closing) = closing

  -- The context that a round of `ExecuteOnReceive` gives is in order.
  pub round-ContextOk :
      (c : MiddlewareChain W) (job : Job) (w : W)
      → (n : ℕ) × (n ≤ length c.mws)
        × Ends c job c.mws w n (execute_on_receive c job w).0
        × ContextOk job c.mws n (execute_on_receive c job w).1
  round-ContextOk c job w =
      let (n, l, _, ends, ctx) = execute_on_receive-Wound c job w in
      (n, l, ends, wound_context c job n (execute_on_receive c job w).1 _ l ctx)

  -- A job whose context is that of a round of `ExecuteOnReceive` over any chain, also if the
  -- worker's has changed since: it is cancelled and not executed, or executed and returns, or panics
  -- and is escalated. However it ends, its handling ends without a panic: `OnComplete` is called with
  -- just this outcome on just the middlewares that `OnReceive` was called on in that round, the last
  -- one first, the context goes back to its pool once, and the job is released as the last act.
  pub safe_exec-ReleasedAfter :
      (x : Executor W) (c : MiddlewareChain W) (w0 : W) (job : Job) (s : ExecState W)
      → x.get_middleware_context job s.world ≡ (execute_on_receive c job w0).1
      → (n : ℕ) × (n ≤ length c.mws)
        × Ends c job c.mws w0 n (execute_on_receive c job w0).0
        × (e : Completion) × (w : W) × Outcome x job s.world e w
        × (s' : ExecState W) × (safe_exec x job s ≡ some s')
        × (s'.drain_discard_total ≡ s.drain_discard_total)
        × ReleasedAfter x job s
            (execute_on_receive c job w0).1
            (unwind (safe_on_complete s.chain job e) (take n c.mws) w)
            s'
  unfolding safe_exec
  safe_exec-ReleasedAfter x c w0 job s same =
      let (n, l, ends, ok) = round-ContextOk c job w0 in
      let mctx = (execute_on_receive c job w0).1 in
      let (e, w) = exec_body x job s.world in
      let (s', done, total, after) =
        released-ReleasedAfter x job s s (safe_on_complete s.chain job e) c.mws n w mctx
          (execute_on_complete s.chain mctx e w) refl
          (complete-LeftBy s.chain job c.mws n mctx e w ok) in
      (n, l, ends, e, w, exec_body-Outcome x job s.world, s', rw same done, total, after)
