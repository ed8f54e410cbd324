-- ===== src/Mailbox/ExecWrite.antt =====
-- What the goroutines of a worker share, and `execWrite` and `storePending` of
-- engine/pkg/actor/mailbox/worker.go, a shared access at a time. Where a loop waits there is no step.
use emberengine.Prelude.{
  ℕ, suc, ◌-◌, ◌≤◌, ◌<◌, ◌≡◌, ◌⊎◌, List, [], ◌∷◌, ◌++◌, Bool, true, false, Option, none, some,
}
use emberengine.Mailbox.Job.{Job}

-- What `SetRWEnabled(false)` has done: nothing, BeginDisable, waitReadPipelinesDrained, Disable.
pub data Control : Type 0 where
  resting begun drained switched : Control

-- What the goroutines share. `mu` is held by `readers`, or by a `writer`; `other_readers` and
-- `other_writer` are its holders from the other workers. `in_flight` are the reads whose goroutine
-- has not ended, `taken` the jobs that the loop has got and `over` those executed or being discarded.
pub record Shared : Type 0 where
  pub closed : Bool
  pub enabled : Bool
  pub disabling : Bool
  pub control : Control
  pub read_ch : List Job
  pub reads_dispatched : ℕ
  pub reads_launched : ℕ
  pub write_requested : ℕ
  pub readers : ℕ
  pub writer : Bool
  pub other_readers : ℕ
  pub other_writer : Bool
  pub in_flight : List Job
  pub pending_job : Option Job
  pub taken : List Job
  pub over : List Job

-- Where `execWrite` stands: it waits for the reads before it, wants the lock, executes, or has
-- unlocked.
pub data Write : Type 0 where
  waits : Job → ℕ → Write
  wants : Job → Write
  writes : Job → Write
  unlocked : Write

abbrev pub parked : Option Job → List Job
parked none = []
parked (some e) = e ∷ []

-- `storePending`: a job that was parked before is discarded.
abbrev pub store_pending : Job → Shared → Shared
store_pending job s = record s { pending_job = some job; over = parked s.pending_job ++ s.over }

-- `execWrite`; `none` is its return.
pub data WriteMove (s : Shared) : Write → Shared → Option Write → Type 0 where
  requests :
      {job : Job} {target : ℕ}
      → target ≤ s.reads_launched
      → WriteMove s
          (waits job target)
          (record s { write_requested = suc s.write_requested })
          (some (wants job))
  locks :
      {job : Job}
      → s.writer ≡ false
      → s.readers ≡ 0
      → WriteMove s (wants job) (record s { writer = true }) (some (writes job))
  executes :
      {job : Job}
      → WriteMove s (writes job) (record s { writer = false; over = job ∷ s.over }) (some unlocked)
  lowers : WriteMove s unlocked (record s { write_requested = s.write_requested - 1 }) none
  stores_early :
      {job : Job} {target : ℕ}
      → s.closed ≡ true
      → s.reads_launched < target
      → WriteMove s (waits job target) (store_pending job s) none
  stores_late :
      {job : Job}
      → s.closed ≡ true
      → (s.writer ≡ true) ⊎ (0 < s.readers)
      → WriteMove s
          (wants job)
          (store_pending job (record s { write_requested = s.write_requested - 1 }))
          none
