-- ===== src/Mailbox/Job.antt =====
-- Mailbox jobs: engine/pkg/actor/mailbox/job/job.go and job_factory.go, with the priorities and
-- types of engine/pkg/def/priority.go and engine/pkg/def/mailbox.go.
use emberengine.Prelude.{ℕ, Option, none, some, Bool}
use emberengine.Prelude.Int.{ℤ, pos, negsuc}

pub data JobType : Type 0 where
  none_type rpc event timer concurrent_callback sys_ctl : JobType

-- The smaller number is the higher priority.
abbrev pub priority_sys : ℤ
priority_sys = negsuc 2

abbrev pub priority_urgent : ℤ
priority_urgent = negsuc 1

abbrev pub priority_high : ℤ
priority_high = negsuc 0

abbrev pub priority_normal : ℤ
priority_normal = pos 0

-- The concrete job type behind the interface: an `RpcJob` with its envelope (nil, or with its
-- data: nil, or whether it is a reply), or another one.
pub data Body : Type 0 where
  rpc_body : Option (Option Bool) → Body
  other_body : Body

-- `ident` is the identity of the object, which the pools and the releases are about.
pub record Job : Type 0 where
  pub ident : ℕ
  pub kind : JobType
  pub priority : ℤ
  pub dispatcher_key : ℕ
  pub body : Body

abbrev pub set_priority : ℤ → Job → Job
set_priority p job = record job { priority = p }

-- `GetJobPayloadAs[IEnvelope]` of a job of type Rpc: the getter registered for the type asserts
-- `*RpcJob`; `none` is the panic of a failed assertion.
unfoldable pub get_envelope : Body → Option (Option (Option Bool))
get_envelope (rpc_body e) = some e
get_envelope other_body = none

-- The errors of `Submit`: `ErrMailboxWorkerIsFull`, and that of a manager with no queue to take
-- the job.
pub data SubmitError : Type 0 where
  worker_is_full no_available_queue : SubmitError
