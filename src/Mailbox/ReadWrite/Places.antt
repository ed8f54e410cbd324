-- ===== src/Mailbox/ReadWrite/Places.antt =====
-- Where the jobs and the lock are as long as the mode is on.
pub mod Loop
pub mod Pipeline
use emberengine.Prelude.{
  one_if, count, ℕ, ◌+◌, ◌≡◌, ◌⊎◌, List, [], ◌∷◌, Bool, true, false, ◌&&◌, ◌||◌, Option, none, some,
  length,
}
use emberengine.Mailbox.Job.{Job}
use emberengine.Mailbox.ReadWrite.{
  Shared, Write, waits, wants, writes, unlocked, parked, Main, head, looking, gone, fetched, routed,
  reading, counted, serial, writing, Pipe, listens, gated, passed, cleared, holding, degraded,
  rewriting,
}

abbrev pub write_job : Write → List Job
write_job (waits job t) = job ∷ []
write_job (wants job) = job ∷ []
write_job (writes job) = job ∷ []
write_job unlocked = []

abbrev pub main_job : Main → List Job
main_job head = []
main_job looking = []
main_job gone = []
main_job (fetched job) = job ∷ []
main_job (routed job) = job ∷ []
main_job (reading job) = job ∷ []
main_job (counted job) = job ∷ []
main_job (serial job) = job ∷ []
main_job (writing w) = write_job w

-- The job that the loop is about to send to the pipeline.
abbrev pub main_read : Main → List Job
main_read (reading job) = job ∷ []
main_read (counted job) = job ∷ []
main_read _ = []

-- A read that is counted and not sent.
abbrev pub main_ahead : Main → ℕ
main_ahead (counted job) = 1
main_ahead _ = 0

-- Whether the loop has the lock.
abbrev pub main_locks : Main → ℕ
main_locks (writing (writes job)) = 1
main_locks _ = 0

-- The places of the loop where the mode is on and no job is parked.
abbrev pub is_serial : Main → Bool
is_serial (serial job) = true
is_serial _ = false

abbrev pub stands : Main → Bool
stands head = true
stands gone = true
stands _ = false

abbrev pub pipe_job : Pipe → List Job
pipe_job listens = []
pipe_job (gated job) = job ∷ []
pipe_job (passed job) = job ∷ []
pipe_job (cleared job) = job ∷ []
pipe_job (holding job) = job ∷ []
pipe_job (degraded job) = job ∷ []
pipe_job (rewriting w) = write_job w

abbrev pub pipe_holds : Pipe → ℕ
pipe_holds (holding job) = 1
pipe_holds _ = 0

abbrev pub is_degraded : Pipe → Bool
is_degraded (degraded job) = true
is_degraded (rewriting w) = true
is_degraded _ = false

-- What a write has waited for, with the reads launched and dispatched.
abbrev pub WriteReady : Write → ℕ → ℕ → Type 0
WriteReady (waits job t) l d = t ≡ d
WriteReady _ l d = l ≡ d

abbrev pub MainReady : Main → ℕ → ℕ → Type 0
MainReady (writing w) l d = WriteReady w l d
MainReady _ l d = true ≡ true

abbrev pub none_parked : Option Job → Bool
none_parked none = true
none_parked (some e) = false

-- The reads that are counted.
pub record Counts (m : Main) (p : Pipe) (s : Shared) : Type 0 where
  pub on : s.enabled ≡ true
  pub not_serial : is_serial m ≡ false
  pub not_degraded : is_degraded p ≡ false
  pub launched :
      s.reads_launched + length s.read_ch + length (pipe_job p) + main_ahead m ≡ s.reads_dispatched
  pub ready : MainReady m s.reads_launched s.reads_dispatched
  pub vacant : (none_parked s.pending_job || (s.closed && stands m)) ≡ true

-- Who has the lock.
pub record Locks (m : Main) (p : Pipe) (s : Shared) : Type 0 where
  pub shares : s.readers ≡ s.other_readers + length s.in_flight + pipe_holds p
  pub owner : one_if s.writer ≡ one_if s.other_writer + main_locks m
  pub excludes : (s.writer ≡ false) ⊎ (s.readers ≡ 0)

-- Where the jobs are, as far as they pass a test.
pub record Placed (q : Job → Bool) (m : Main) (p : Pipe) (s : Shared) : Type 0 where
  pub sum :
      count q s.taken
      ≡ count q s.over
        + count q s.in_flight
        + count q (pipe_job p)
        + count q s.read_ch
        + count q (main_job m)
        + count q (parked s.pending_job)

-- What the pipeline has are reads, so that none of it passes a test for writes.
pub record OnlyReads (is_write : Job → Bool) (m : Main) (p : Pipe) (s : Shared) : Type 0 where
  pub flying : count is_write s.in_flight ≡ 0
  pub piped : count is_write (pipe_job p) ≡ 0
  pub sent : count is_write s.read_ch ≡ 0
  pub sending : count is_write (main_read m) ≡ 0
