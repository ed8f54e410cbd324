-- ===== src/Mailbox/Chain.antt =====
-- The middleware chain of engine/pkg/actor/mailbox/middleware_chain.go. A middleware acts on a
-- world `W`, which also holds the data of the middleware contexts. `none` is a panic of the chain
-- itself, of which an index out of range would be one.
pub mod Onion
use emberengine.Prelude.{
  ℕ, zero, suc, ◌+◌, List, [], ◌∷◌, ◌++◌, Bool, true, false, Option, none, some, if◌then◌else◌,
  ◌==◌, leb, length,
}
use emberengine.Mailbox.Job.{Job}

-- The errors that a mailbox hands on, the texts left out.
pub data MailboxError : Type 0 where
  mailbox_suspended middleware_rejected worker_not_found worker_closed channel_not_init :
      MailboxError
  worker_full no_queue_for_priority mailbox_not_running : MailboxError
  reject_error middleware_panic exec_error : ℕ → MailboxError

-- The error and the panic value that a finished job hands to the middlewares.
abbrev pub Completion : Type 0
Completion = Option MailboxError × Option ℕ

-- What `OnReceive` does: return an action, of which an undefined one is taken for `Continue`, or
-- panic.
pub data Received : Type 0 where
  action_continue action_skip action_other panicked : Received
  action_reject : Option MailboxError → Received

-- `dto.MiddlewareResult` as the chain returns it.
pub data MiddlewareResult : Type 0 where
  continue_result : MiddlewareResult
  reject_result : Option MailboxError → MiddlewareResult

pub data Phase : Type 0 where
  on_receive_phase on_complete_phase on_cleanup_phase on_start_phase on_stop_phase : Phase

-- The methods of a middleware. Those that return nothing tell whether they panicked; the cleanup
-- is there if the middleware implements it.
pub record Middleware (W : Type 0) : Type 0 where
  pub name : ℕ
  pub on_receive : Job → W → Received × W
  pub on_complete : Job → Completion → W → Bool × W
  pub on_framework_cleanup : Option (Job → Completion → W → Bool × W)
  pub on_start : W → Bool × W
  pub on_stop : W → Bool × W

-- `executed` counts the middlewares whose `OnReceive` ran.
pub record MiddlewareContext (W : Type 0) : Type 0 where
  pub job : Job
  pub executed : ℕ
  pub middleware_snapshot : Option (List (Middleware W))

-- `taken` and `put_back` count the contexts of the pool. The handler for panics is nil or acts on
-- the world.
pub record MiddlewareChain (W : Type 0) : Type 0 where
  pub mws : List (Middleware W)
  pub panic_handler : Option (Phase → ℕ → W → W)
  pub taken : ℕ
  pub put_back : ℕ

pub has_panicked : Received → Bool
has_panicked panicked = true
has_panicked _ = false

-- What the switch makes of an action: go on (`none`), or return.
unfoldable pub verdict : ℕ → Received → Option MiddlewareResult
verdict name panicked = some (reject_result (some (middleware_panic name)))
verdict name (action_reject err) = some (reject_result err)
verdict name action_skip = some continue_result
verdict name action_continue = none
verdict name action_other = none

module _ {W : Type 0} where
  pub add : MiddlewareChain W → Middleware W → MiddlewareChain W
  add c m = record c { mws = c.mws ++ m ∷ [] }

  -- The list without the first middleware of the name.
  pub without : ℕ → List (Middleware W) → Option (List (Middleware W))
  without name [] = none
  without name (m ∷ ms) =
      let rest = without name ms in
      if m.name == name then some ms else elim rest [ none ↦ none | some ms' ↦ some (m ∷ ms') ]

  pub remove : MiddlewareChain W → ℕ → Bool × MiddlewareChain W
  unfolding without
  remove c name = elim (without name c.mws) [
    | none ↦ (false, c)
    | some ms ↦ (true, record c { mws = ms })
  ]

  pub handle_panic : MiddlewareChain W → Phase → Middleware W → W → W
  handle_panic c phase m w = elim c.panic_handler [
    | none ↦ w
    | some handler ↦ handler phase m.name w
  ]

  -- The deferred recover: the handler runs if the call panicked.
  pub recovered : MiddlewareChain W → Phase → Middleware W → Bool × W → W
  unfolding handle_panic
  recovered c phase m (failed, w) = if failed then handle_panic c phase m w else w

  -- `safeOnReceive`: what was received, and the world after the handler for a panic.
  unfoldable pub safe_on_receive : MiddlewareChain W → Middleware W → Job → W → Received × W
  unfolding recovered has_panicked
  safe_on_receive c m job w =
      let (r, w') = m.on_receive job w in (r, recovered c on_receive_phase m (has_panicked r, w'))

  pub safe_on_complete : MiddlewareChain W → Job → Completion → Middleware W → W → W
  unfolding recovered
  safe_on_complete c job err m w = recovered c on_complete_phase m (m.on_complete job err w)

  -- A middleware that declares no cleanup is passed over.
  pub safe_framework_cleanup : MiddlewareChain W → Job → Completion → Middleware W → W → W
  unfolding recovered
  safe_framework_cleanup c job err m w = elim m.on_framework_cleanup [
    | none ↦ w
    | some cleanup ↦ recovered c on_cleanup_phase m (cleanup job err w)
  ]

  -- The loop of `ExecuteOnReceive` from middleware `i`: the result, `executed`, and the world.
  unfoldable pub receive_loop :
      MiddlewareChain W → Job → ℕ → List (Middleware W) → W → MiddlewareResult × ℕ × W
  unfolding safe_on_receive verdict
  receive_loop c job i [] w = (continue_result, i, w)
  receive_loop c job i (m ∷ ms) w =
      let (r, w') = safe_on_receive c m job w in
      let later = receive_loop c job (i + 1) ms w' in
      elim (verdict m.name r) [ some result ↦ (result, i + 1, w') | none ↦ later ]

  -- `ExecuteOnReceive`; without middlewares there is no context.
  unfoldable pub execute_on_receive :
      MiddlewareChain W
      → Job
      → W
      → MiddlewareResult × Option (MiddlewareContext W) × MiddlewareChain W × W
  unfolding receive_loop
  execute_on_receive c job w = elim c.mws [
    | [] ↦ (continue_result, none, c, w)
    | m ∷ ms ↦
        let (result, executed, w') = receive_loop c job 0 (m ∷ ms) w in
        (
          result,
          some (record { job = job; executed = executed; middleware_snapshot = some (m ∷ ms) }),
          record c { taken = c.taken + 1 },
          w',
        )
  ]

  pub at_index : List (Middleware W) → ℕ → Option (Middleware W)
  at_index [] i = none
  at_index (m ∷ ms) zero = some m
  at_index (m ∷ ms) (suc i) = at_index ms i

  -- `for i := end - 1; i >= 0; i--`.
  pub run_down : (Middleware W → W → W) → ℕ → List (Middleware W) → W → Option W
  unfolding at_index
  run_down act zero ms w = some w
  run_down act (suc i) ms w = elim (at_index ms i) [
    | none ↦ none
    | some m ↦ run_down act i ms (act m w)
  ]

  abbrev snapshot_of : MiddlewareChain W → MiddlewareContext W → List (Middleware W)
  snapshot_of c mc = elim mc.middleware_snapshot [ none ↦ c.mws | some ms ↦ ms ]

  abbrev end_of : MiddlewareContext W → List (Middleware W) → ℕ
  end_of mc ms = if leb mc.executed (length ms) then mc.executed else length ms

  -- What `ExecuteOnComplete` and `ExecuteFrameworkCleanup` share; the context goes back to the pool.
  pub execute_down :
      MiddlewareChain W
      → (Middleware W → W → W)
      → MiddlewareContext W
      → W
      → Option (MiddlewareChain W × W)
  unfolding run_down
  execute_down c act mc w =
      elim (run_down act (end_of mc (snapshot_of c mc)) (snapshot_of c mc) w) [
        | none ↦ none
        | some w' ↦ some (record c { put_back = c.put_back + 1 }, w')
      ]

  pub execute_on_complete :
      MiddlewareChain W
      → Option (MiddlewareContext W)
      → Completion
      → W
      → Option (MiddlewareChain W × W)
  unfolding execute_down safe_on_complete
  execute_on_complete c none err w = some (c, w)
  execute_on_complete c (some mc) err w = execute_down c (safe_on_complete c mc.job err) mc w

  pub execute_framework_cleanup :
      MiddlewareChain W
      → Option (MiddlewareContext W)
      → Completion
      → W
      → Option (MiddlewareChain W × W)
  unfolding execute_down safe_framework_cleanup
  execute_framework_cleanup c none err w = some (c, w)
  execute_framework_cleanup c (some mc) err w =
      execute_down c (safe_framework_cleanup c mc.job err) mc w

  pub start_loop : MiddlewareChain W → List (Middleware W) → W → W
  unfolding recovered
  start_loop c [] w = w
  start_loop c (m ∷ ms) w = start_loop c ms (recovered c on_start_phase m (m.on_start w))

  pub start : MiddlewareChain W → W → W
  unfolding start_loop
  start c w = start_loop c c.mws w

  pub stop : MiddlewareChain W → W → Option W
  unfolding run_down recovered
  stop c w = run_down (λ m w. recovered c on_stop_phase m (m.on_stop w)) (length c.mws) c.mws w
