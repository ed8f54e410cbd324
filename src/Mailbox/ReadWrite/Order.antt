-- ===== src/Mailbox/ReadWrite/Order.antt =====
-- In which order the reads and the writes of a worker run.
use emberengine.Prelude.{
  one_if, count, ℕ, ◌+◌, ◌≡◌, ◌⊎◌, inl, inr, refl, ap, List, [], ◌∷◌, Bool, true, false, not, ◌&&◌,
  ◌||◌, none, some, Option, length, arith,
}
use emberengine.Mailbox.Job.{Job}
use emberengine.Mailbox.ReadWrite.{
  Shared, writes, parked, Main, looking, writing, Pipe, Rw, start, Step, by_main, by_pipe, by_other,
  Steps, rest, then,
}
use emberengine.Mailbox.ReadWrite.Places.{pipe_job, none_parked, Counts, Locks, Placed, OnlyReads}
use emberengine.Mailbox.ReadWrite.Places.Loop.{main-Counts, main-Locks, main-Placed, main-OnlyReads}
use emberengine.Mailbox.ReadWrite.Places.Pipeline.{
  pipe-Counts, pipe-Locks, pipe-Placed, pipe-OnlyReads, other-Counts, other-Locks, other-Placed,
  other-OnlyReads,
}

-- No reader has the lock.
abbrev pub NoReads : Shared → Type 0
NoReads s = (s.in_flight ≡ []) × (s.other_readers ≡ 0)

-- While a write executes, every other job taken is over and no other worker has the lock. When the
-- loop asks for a job, every write taken is over.
pub OrderedAt : (Job → Bool) → Main → Shared → Type 0
OrderedAt is_read (writing (writes job)) s =
    NoReads s
    × (s.other_writer ≡ false)
    × ((q : Job → Bool) → count q s.taken ≡ count q s.over + one_if (q job))
OrderedAt is_read looking s =
    (q : Job → Bool)
    → count (λ e. q e && not (is_read e)) s.taken ≡ count (λ e. q e && not (is_read e)) s.over
OrderedAt is_read _ s = true ≡ true

pub Ordered : (Job → Bool) → Rw → Type 0
Ordered is_read r =
    ((r.shared.writer ≡ false) ⊎ NoReads r.shared) × OrderedAt is_read r.main r.shared

pub record Inv (is_read : Job → Bool) (r : Rw) : Type 0 where
  pub counts : Counts r.main r.pipe r.shared
  pub locks : Locks r.main r.pipe r.shared
  placed : (q : Job → Bool) → Placed q r.main r.pipe r.shared
  only_reads : (q : Job → Bool) → OnlyReads (λ e. q e && not (is_read e)) r.main r.pipe r.shared

start-Inv : (is_read : Job → Bool) → Inv is_read start
start-Inv is_read = record {
  counts = record {
    on = refl;
    not_serial = refl;
    not_degraded = refl;
    launched = refl;
    ready = refl;
    vacant = refl;
  };
  locks = record { shares = refl; owner = refl; excludes = inl refl };
  placed = λ q. record { sum = refl };
  only_reads = λ q. record { flying = refl; piped = refl; sent = refl; sending = refl };
}

module _ {is_read : Job → Bool} {capacity : ℕ} where
  Step-Inv : {r t : Rw} → Step is_read capacity r t → Inv is_read r → Inv is_read t
  Step-Inv (by_main mv) i = record {
    counts = main-Counts is_read capacity mv i.counts;
    locks = main-Locks is_read capacity mv i.locks;
    placed = λ q. main-Placed is_read capacity mv (i.placed q);
    only_reads =
        λ q. main-OnlyReads is_read capacity (λ e h. ground (arith, h)) mv (i.only_reads q);
  }
  Step-Inv (by_pipe mv) i = record {
    counts = pipe-Counts mv i.counts;
    locks = pipe-Locks mv i.counts i.locks;
    placed = λ q. pipe-Placed mv i.counts (i.placed q);
    only_reads = λ q. pipe-OnlyReads mv i.counts (i.only_reads q);
  }
  Step-Inv (by_other mv) i = record {
    counts = other-Counts mv i.counts;
    locks = other-Locks mv i.locks;
    placed = λ q. other-Placed mv (i.placed q);
    only_reads = λ q. other-OnlyReads mv (i.only_reads q);
  }

  pub Steps-Inv : {r : Rw} → Steps is_read capacity start r → Inv is_read r
  Steps-Inv rest = start-Inv is_read
  Steps-Inv (then st mv) = Step-Inv mv (Steps-Inv st)

nil_if_empty : (l : List Job) → length l ≡ 0 → l ≡ []
nil_if_empty [] h = refl
nil_if_empty (x ∷ xs) h = absurd (omega (arith, h))

locked_reads : (m : Main) (p : Pipe) (s : Shared) → Locks m p s → s.readers ≡ 0 → NoReads s
locked_reads m p s i z =
    (nil_if_empty s.in_flight (omega (arith, i.shares, z)), omega (arith, i.shares, z))

excluded : (m : Main) (p : Pipe) (s : Shared) → Locks m p s → (s.writer ≡ false) ⊎ NoReads s
excluded m p s i = elim i.excludes [ inl f ↦ inl f | inr z ↦ inr (locked_reads m p s i z) ]

count-empty : (q : Job → Bool) (l : List Job) → length l ≡ 0 → count q l ≡ 0
count-empty q [] h = refl
count-empty q (x ∷ xs) h = absurd (omega (arith, h))

count-parked :
    (q : Job → Bool) (o : Option Job) (c : Bool)
    → (none_parked o || (c && false)) ≡ true
    → count q (parked o) ≡ 0
count-parked q none c h = refl
count-parked q (some e) c h = absurd (ground (arith, h))

module _ {is_read : Job → Bool} where
  at_write :
      (job : Job) (p : Pipe) (s : Shared)
      → Inv is_read (record { main = writing (writes job); pipe = p; shared = s })
      → OrderedAt is_read (writing (writes job)) s
  unfolding OrderedAt
  at_write job p s i =
      let z : s.readers ≡ 0 = ground (arith, i.locks.owner, i.locks.excludes) in
      let (idle, alone) = locked_reads (writing (writes job)) p s i.locks z in
      (
        (idle, alone),
        ground (arith, i.locks.owner),
        λ q. omega (
          arith,
          (i.placed q).sum,
          ap (count q) idle,
          count-empty q s.read_ch (omega (arith, i.counts.launched, i.counts.ready)),
          count-empty q (pipe_job p) (omega (arith, i.counts.launched, i.counts.ready)),
          count-parked q s.pending_job s.closed i.counts.vacant,
        ),
      )

  at_next :
      (p : Pipe) (s : Shared)
      → Inv is_read (record { main = looking; pipe = p; shared = s })
      → OrderedAt is_read looking s
  unfolding OrderedAt
  at_next p s i = λ q.
      let w = λ (e : Job). q e && not (is_read e) in
      let kept = i.only_reads q in
      omega (
        arith,
        (i.placed w).sum,
        kept.flying,
        kept.piped,
        kept.sent,
        count-parked w s.pending_job s.closed i.counts.vacant,
      )

  at_place :
      (m : Main) (p : Pipe) (s : Shared)
      → Inv is_read (record { main = m; pipe = p; shared = s })
      → OrderedAt is_read m s
  unfolding OrderedAt
  at_place (writing (writes job)) p s i = at_write job p s i
  at_place looking p s i = at_next p s i
  at_place _ p s i = refl

-- In any interleaving of a worker's loop, its read pipeline, the goroutines of its reads, the
-- other workers, BeginStop and SetRWEnabled, as long as the mode stays on: the lock has no reader
-- while it has a writer; while a write executes, no other worker has the lock and every other job
-- that the worker has taken is over, executed or discarded; and when the loop asks for its next
-- job, every write that it has taken is over.
pub run-Ordered :
    (is_read : Job → Bool) (capacity : ℕ) (r : Rw)
    → Steps is_read capacity start r
    → Ordered is_read r
unfolding Ordered
run-Ordered is_read capacity r st =
    let i = Steps-Inv st in
    (excluded r.main r.pipe r.shared i.locks, at_place r.main r.pipe r.shared i)
