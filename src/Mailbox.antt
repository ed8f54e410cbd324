-- ===== src/Mailbox.antt =====
-- The mailbox of engine/pkg/actor/mailbox.
pub mod Job
pub mod Queues
pub mod Bounded
pub mod Dual
pub mod Scheduler
pub mod Priority
pub mod Managers
pub mod Suspend
pub mod Chain
pub mod DispatchRing
pub mod Worker
pub mod ExecWrite
pub mod ReadWrite
pub mod Post
pub mod Exec
pub mod QueueSpec
mod Tests
