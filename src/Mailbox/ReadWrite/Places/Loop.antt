-- ===== src/Mailbox/ReadWrite/Places/Loop.antt =====
-- The moves of the loop keep the places.
use emberengine.Prelude.{
  count-append, ℕ, ◌≡◌, inl, inr, refl, [], ◌∷◌, Bool, true, false, ◌||◌, Option, length-append,
  arith,
}
use emberengine.Mailbox.Job.{Job}
use emberengine.Mailbox.ReadWrite.{
  Shared, Write, WriteMove, requests, locks, executes, lowers, stores_early, stores_late, parked,
  Main, writing, returns, MainMove, looks, runs_serially, reads, sends, Pipe, goes_on,
}
use emberengine.Mailbox.ReadWrite.Places.{Counts, Locks, Placed, OnlyReads}

module _ (is_read : Job → Bool) (capacity : ℕ) where
  write-Locks :
      {w : Write} {w' : Option Write} {p : Pipe} {s s' : Shared}
      → WriteMove s w s' w'
      → Locks (writing w) p s
      → Locks (returns w') p s'
  write-Locks (locks f z) i = record {
    shares = i.shares;
    owner = ground (arith, f, i.owner);
    excludes = inr z;
  }
  write-Locks executes i = record {
    shares = i.shares;
    owner = ground (arith, i.owner);
    excludes = inl refl;
  }
  write-Locks _ i = record { shares = i.shares; owner = i.owner; excludes = i.excludes }

  pub main-Locks :
      {m m' : Main} {p : Pipe} {s s' : Shared}
      → MainMove is_read capacity s m s' m'
      → Locks m p s
      → Locks m' p s'
  main-Locks (goes_on mv) i = write-Locks mv i
  main-Locks _ i = record { shares = i.shares; owner = i.owner; excludes = i.excludes }

  -- A job is parked only by a worker that is closed.
  abbrev Closing : {w : Write} {s s' : Shared} {w' : Option Write} → WriteMove s w s' w' → Type 0
  Closing {s} (stores_early _ _) = s.closed ≡ true
  Closing {s} (stores_late _ _) = s.closed ≡ true
  Closing _ = true ≡ true

  closing : {w : Write} {s s' : Shared} {w' : Option Write} (mv : WriteMove s w s' w') → Closing mv
  closing (stores_early c l) = c
  closing (stores_late c l) = c
  closing _ = refl

  write-Counts :
      {w : Write} {w' : Option Write} {p : Pipe} {s s' : Shared}
      → WriteMove s w s' w'
      → Counts (writing w) p s
      → Counts (returns w') p s'
  write-Counts (requests e) i = record {
    on = i.on;
    not_serial = refl;
    not_degraded = i.not_degraded;
    launched = i.launched;
    ready = omega (arith, e, i.ready, i.launched);
    vacant = i.vacant;
  }
  write-Counts mv i = record {
    on = i.on;
    not_serial = refl;
    not_degraded = i.not_degraded;
    launched = i.launched;
    ready = ground (arith, i.ready);
    vacant = ground (arith, i.vacant, closing mv);
  }

  -- The premises of a move that its counts need.
  abbrev Guard : {m m' : Main} {s s' : Shared} → MainMove is_read capacity s m s' m' → Type 0
  Guard {s} (looks _) = s.closed ≡ false
  Guard {s} (runs_serially _) = (s.enabled || s.disabling) ≡ false
  Guard _ = true ≡ true

  guard : {m m' : Main} {s s' : Shared} (mv : MainMove is_read capacity s m s' m') → Guard mv
  guard (looks g) = g
  guard (runs_serially g) = g
  guard _ = refl

  pub main-Counts :
      {m m' : Main} {p : Pipe} {s s' : Shared}
      → MainMove is_read capacity s m s' m'
      → Counts m p s
      → Counts m' p s'
  main-Counts (goes_on mv) i = write-Counts mv i
  main-Counts {m} {p} {s} (sends {job} room) i = record {
    on = i.on;
    not_serial = refl;
    not_degraded = i.not_degraded;
    launched = omega (arith, i.launched, length-append s.read_ch (job ∷ []));
    ready = refl;
    vacant = ground (arith, i.vacant);
  }
  main-Counts mv i = record {
    on = i.on;
    not_serial = ground (arith, i.on, i.not_serial, guard mv);
    not_degraded = i.not_degraded;
    launched = ground (arith, i.launched);
    ready = ground (arith, i.ready);
    vacant = ground (arith, i.vacant, guard mv);
  }

  write-Placed :
      {w : Write} {w' : Option Write} {p : Pipe} {s s' : Shared} {q : Job → Bool}
      → WriteMove s w s' w'
      → Placed q (writing w) p s
      → Placed q (returns w') p s'
  write-Placed {s} {q} (stores_early c l) i = record {
    sum = omega (arith, i.sum, count-append q (parked s.pending_job) s.over);
  }
  write-Placed {s} {q} (stores_late c l) i = record {
    sum = omega (arith, i.sum, count-append q (parked s.pending_job) s.over);
  }
  write-Placed mv i = record { sum = omega (arith, i.sum) }

  pub main-Placed :
      {m m' : Main} {p : Pipe} {s s' : Shared} {q : Job → Bool}
      → MainMove is_read capacity s m s' m'
      → Placed q m p s
      → Placed q m' p s'
  main-Placed (goes_on mv) i = write-Placed mv i
  main-Placed {s} {q} (sends {job} room) i = record {
    sum = omega (arith, i.sum, count-append q s.read_ch (job ∷ []));
  }
  main-Placed mv i = record { sum = omega (arith, i.sum) }

  write-OnlyReads :
      {w : Write} {w' : Option Write} {p : Pipe} {s s' : Shared} {is_write : Job → Bool}
      → WriteMove s w s' w'
      → OnlyReads is_write (writing w) p s
      → OnlyReads is_write (returns w') p s'
  write-OnlyReads lowers i = record {
    flying = i.flying;
    piped = i.piped;
    sent = i.sent;
    sending = refl;
  }
  write-OnlyReads mv i = record {
    flying = ground (arith, i.flying);
    piped = i.piped;
    sent = ground (arith, i.sent);
    sending = refl;
  }

  pub main-OnlyReads :
      {m m' : Main} {p : Pipe} {s s' : Shared} {is_write : Job → Bool}
      → ((e : Job) → is_read e ≡ true → is_write e ≡ false)
      → MainMove is_read capacity s m s' m'
      → OnlyReads is_write m p s
      → OnlyReads is_write m' p s'
  main-OnlyReads h (goes_on mv) i = write-OnlyReads mv i
  main-OnlyReads {s} {is_write} h (reads {job} r) i = record {
    flying = i.flying;
    piped = i.piped;
    sent = i.sent;
    sending = rw (h job (ground (arith, r))) refl;
  }
  main-OnlyReads {s} {is_write} h (sends {job} room) i = record {
    flying = i.flying;
    piped = i.piped;
    sent = omega (arith, i.sent, i.sending, count-append is_write s.read_ch (job ∷ []));
    sending = refl;
  }
  main-OnlyReads h mv i = record {
    flying = ground (arith, i.flying);
    piped = i.piped;
    sent = ground (arith, i.sent);
    sending = ground (arith, i.sending);
  }
