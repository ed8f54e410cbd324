-- ===== src/Mailbox/Dual.antt =====
-- The two-queue manager of engine/pkg/actor/mailbox/queue_manager_dual.go, over any queue
-- implementation.
pub mod Order
use emberengine.Prelude.{ℕ, ◌+◌, Bool, Option, none, some, if◌then◌else◌, ◌&&◌}
use emberengine.Prelude.Int.{ltb_ℤ}
use emberengine.Mailbox.Job.{Job, SubmitError, worker_is_full, priority_normal}
use emberengine.Mailbox.Queues.{QueueImpl, drain}

module _ (I : QueueImpl Job) where
  pub record DualQueueManager : Type 0 where
    pub system_mailbox : I.Q
    pub user_mailbox : I.Q

  abbrev Manager : Type 0
  Manager = DualQueueManager

  pub submit : Manager → Job → Option SubmitError × Manager
  submit m e =
      if ltb_ℤ e.priority priority_normal
      then (let (pushed, q) = I.push m.system_mailbox e in
          (if pushed then none else some worker_is_full, record m { system_mailbox = q }))
      else (let (pushed, q) = I.push m.user_mailbox e in
          (if pushed then none else some worker_is_full, record m { user_mailbox = q }))

  -- A pop that finds nothing leaves the state that the queue returns.
  next_user : Manager → Option Job × Manager
  next_user m = let (e, q) = I.pop m.user_mailbox in (e, record m { user_mailbox = q })

  pub next_job : Manager → Option Job × Manager
  unfolding next_user
  next_job m =
      let (e, q) = I.pop m.system_mailbox in
      elim e [
        | some x ↦ (some x, record m { system_mailbox = q })
        | none ↦ next_user (record m { system_mailbox = q })
      ]

  pub get_job_len : Manager → ℕ
  get_job_len m = I.len m.system_mailbox + I.len m.user_mailbox

  pub is_empty : Manager → Bool
  is_empty m = I.empty m.system_mailbox && I.empty m.user_mailbox

  -- `DrainAll`, each loop with fuel of its own: the system queue first.
  pub drain_all : {S : Type 0} → ℕ → (Job → S → S) → Manager → S → Option (S × Manager)
  drain_all fuel handler m s = elim (drain I handler fuel m.system_mailbox s) [
    | none ↦ none
    | some (s', sys) ↦ elim (drain I handler fuel m.user_mailbox s') [
      | none ↦ none
      | some (s'', user) ↦ some (s'', record { system_mailbox = sys; user_mailbox = user })
    ]
  ]
