-- ===== src/Mailbox/ReadWrite.antt =====
-- Reads and writes of one worker: `execWithRW`, `dispatchRead` and `launchRead` of
-- engine/pkg/actor/mailbox/worker.go, with the lock of rw_controller.go that the workers of a service
-- share and `SetRWEnabled` of worker_pool.go, a shared access at a time. Where a loop waits there is
-- no step. The mode of a job is a parameter. The semaphore of the reads is left open: a read may find
-- a token or not. The draining after the loop is in Worker/Consumer.
pub mod Places
pub mod Order
pub mod Switch
pub mod Progress
mod Tests
use emberengine.Prelude.{
  ℕ, suc, ◌-◌, ◌≤◌, ◌<◌, ◌≡◌, ◌⊎◌, List, [], ◌∷◌, ◌++◌, Bool, true, false, not, ◌&&◌, ◌||◌, Option,
  none, some, length,
}
use emberengine.Mailbox.Job.{Job}
pub use emberengine.Mailbox.ExecWrite.{
  Shared, Control, resting, begun, drained, switched, parked, store_pending, Write, waits, wants,
  writes, unlocked, WriteMove, requests, locks, executes, lowers, stores_early, stores_late,
}

-- Where the loop of `run` stands: at its head, before `NextJob`, with a job before its tests of the
-- mode, in `execWithRW`, in `dispatchRead` before and after it has counted, in `execWrite`, in
-- `safeExec`, or behind the loop.
pub data Main : Type 0 where
  head looking gone : Main
  fetched routed reading counted serial : Job → Main
  writing : Write → Main

abbrev pub returns : Option Write → Main
returns none = head
returns (some w) = writing w

module _ (is_read : Job → Bool) (capacity : ℕ) where
  pub data MainMove (s : Shared) : Main → Shared → Main → Type 0 where
    looks : s.closed ≡ false → MainMove s head s looking
    exits : s.closed ≡ true → MainMove s head s gone
    starves : MainMove s looking s head
    takes : (job : Job) → MainMove s looking (record s { taken = job ∷ s.taken }) (fetched job)
    routes :
        {job : Job} → (s.enabled || s.disabling) ≡ true → MainMove s (fetched job) s (routed job)
    runs_serially :
        {job : Job} → (s.enabled || s.disabling) ≡ false → MainMove s (fetched job) s (serial job)
    ends : {job : Job} → MainMove s (serial job) (record s { over = job ∷ s.over }) head
    reads :
        {job : Job}
        → (is_read job && s.enabled && not s.disabling) ≡ true
        → MainMove s (routed job) s (reading job)
    writes_job :
        {job : Job}
        → (is_read job && s.enabled && not s.disabling) ≡ false
        → MainMove s (routed job) s (writing (waits job s.reads_dispatched))
    counts :
        {job : Job}
        → MainMove s
            (reading job)
            (record s { reads_dispatched = suc s.reads_dispatched })
            (counted job)
    sends :
        {job : Job}
        → length s.read_ch < capacity
        → MainMove s (counted job) (record s { read_ch = s.read_ch ++ job ∷ [] }) head
    drops :
        {job : Job}
        → capacity ≤ length s.read_ch
        → MainMove s
            (counted job)
            (record s { reads_launched = suc s.reads_launched; over = job ∷ s.over })
            head
    goes_on :
        {w : Write} {s' : Shared} {w' : Option Write}
        → WriteMove s w s' w'
        → MainMove s (writing w) s' (returns w')

-- Where the read pipeline stands: before it receives, before the first gate, between the gates,
-- behind them, with the read lock, without it again because the mode is off, or in `execWrite`.
pub data Pipe : Type 0 where
  listens : Pipe
  gated passed cleared holding degraded : Job → Pipe
  rewriting : Write → Pipe

abbrev pub listens_after : Option Write → Pipe
listens_after none = listens
listens_after (some w) = rewriting w

pub data PipeMove (s : Shared) : Pipe → Shared → Pipe → Type 0 where
  receives :
      {job : Job} {rest : List Job}
      → s.read_ch ≡ job ∷ rest
      → PipeMove s listens (record s { read_ch = rest }) (gated job)
  expires :
      {job : Job}
      → s.closed ≡ true
      → PipeMove s
          (gated job)
          (record s { reads_launched = suc s.reads_launched; over = job ∷ s.over })
          listens
  passes : {job : Job} → s.write_requested ≡ 0 → PipeMove s (gated job) s (passed job)
  lacks_token : {job : Job} → PipeMove s (passed job) s (gated job)
  gets_token : {job : Job} → PipeMove s (passed job) s (cleared job)
  read_locks :
      {job : Job}
      → s.writer ≡ false
      → PipeMove s (cleared job) (record s { readers = suc s.readers }) (holding job)
  launches :
      {job : Job}
      → s.enabled ≡ true
      → PipeMove s
          (holding job)
          (record s { reads_launched = suc s.reads_launched; in_flight = job ∷ s.in_flight })
          listens
  degrades :
      {job : Job}
      → s.enabled ≡ false
      → PipeMove s (holding job) (record s { readers = s.readers - 1 }) (degraded job)
  rewrites :
      {job : Job}
      → PipeMove s
          (degraded job)
          (record s { reads_launched = suc s.reads_launched })
          (rewriting (waits job s.reads_dispatched))
  rewrites_on :
      {w : Write} {s' : Shared} {w' : Option Write}
      → WriteMove s w s' w'
      → PipeMove s (rewriting w) s' (listens_after w')

-- What the goroutines of the reads, the other workers, BeginStop and SetRWEnabled do, but for the
-- store of `enabled` in Disable. SetRWEnabled gives up when it has waited too long.
pub data OtherMove (s : Shared) : Shared → Type 0 where
  finishes :
      (xs ys : List Job) (job : Job)
      → s.in_flight ≡ xs ++ job ∷ ys
      → OtherMove s
          (record s { in_flight = xs ++ ys; readers = s.readers - 1; over = job ∷ s.over })
  other_read_locks :
      s.writer ≡ false
      → OtherMove s (record s { readers = suc s.readers; other_readers = suc s.other_readers })
  other_read_unlocks :
      0 < s.other_readers
      → OtherMove s (record s { readers = s.readers - 1; other_readers = s.other_readers - 1 })
  other_locks :
      s.writer ≡ false
      → s.readers ≡ 0
      → OtherMove s (record s { writer = true; other_writer = true })
  other_unlocks :
      s.other_writer ≡ true → OtherMove s (record s { writer = false; other_writer = false })
  closes : OtherMove s (record s { closed = true })
  begins :
      s.control ≡ resting
      → s.enabled ≡ true
      → OtherMove s (record s { disabling = true; control = begun })
  drains :
      s.control ≡ begun
      → s.reads_dispatched ≤ s.reads_launched
      → OtherMove s (record s { control = drained })
  gives_up :
      (s.control ≡ begun) ⊎ (s.control ≡ drained)
      → OtherMove s (record s { disabling = false; control = resting })
  rolls_back :
      s.control ≡ switched
      → OtherMove s (record s { enabled = true; disabling = false; control = resting })
  succeeds :
      s.control ≡ switched
      → s.in_flight ≡ []
      → OtherMove s (record s { disabling = false; control = resting })

-- The store of Disable, under the lock.
abbrev pub disable : Shared → Shared
disable s = record s { enabled = false; control = switched }

abbrev pub CanDisable : Shared → Type 0
CanDisable s = (s.control ≡ drained) × (s.writer ≡ false) × (s.readers ≡ 0)

pub record Rw : Type 0 where
  pub main : Main
  pub pipe : Pipe
  pub shared : Shared

-- A worker that starts in the mode.
abbrev pub start : Rw
start = record {
  main = head;
  pipe = listens;
  shared = record {
    closed = false;
    enabled = true;
    disabling = false;
    control = resting;
    read_ch = [];
    reads_dispatched = 0;
    reads_launched = 0;
    write_requested = 0;
    readers = 0;
    writer = false;
    other_readers = 0;
    other_writer = false;
    in_flight = [];
    pending_job = none;
    taken = [];
    over = [];
  };
}

module _ (is_read : Job → Bool) (capacity : ℕ) where
  pub data Step : Rw → Rw → Type 0 where
    by_main :
        {m m' : Main} {p : Pipe} {s s' : Shared}
        → MainMove is_read capacity s m s' m'
        → Step
            (record { main = m; pipe = p; shared = s })
            (record { main = m'; pipe = p; shared = s' })
    by_pipe :
        {m : Main} {p p' : Pipe} {s s' : Shared}
        → PipeMove s p s' p'
        → Step
            (record { main = m; pipe = p; shared = s })
            (record { main = m; pipe = p'; shared = s' })
    by_other :
        {m : Main} {p : Pipe} {s s' : Shared}
        → OtherMove s s'
        → Step
            (record { main = m; pipe = p; shared = s })
            (record { main = m; pipe = p; shared = s' })

  -- Any number of steps.
  pub data Steps (r : Rw) : Rw → Type 0 where
    rest : Steps r r
    then : {t u : Rw} → Steps r t → Step t u → Steps r u
