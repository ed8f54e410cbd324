-- ===== src/Mailbox/ReadWrite/Places/Pipeline.antt =====
-- The moves of the pipeline and of the others keep the places.
use emberengine.Prelude.{
  true, ◌≡◌, count, count-append, ℕ, suc, ◌<◌, inl, inr, refl, ap, ◌∷◌, Bool, length, length-append,
  arith,
}
use emberengine.Mailbox.Job.{Job}
use emberengine.Mailbox.ReadWrite.{
  Shared, waits, wants, writes, unlocked, Main, writing, Pipe, PipeMove, receives, expires,
  read_locks, launches, rewrites_on, degrades, rewrites, OtherMove, finishes, other_read_locks,
  other_read_unlocks, other_locks, other_unlocks, closes, rolls_back,
}
use emberengine.Mailbox.ReadWrite.Places.{MainReady, Counts, Locks, Placed, OnlyReads}

-- As long as the mode is on, no read is degraded.
abbrev Launching : {p p' : Pipe} {s s' : Shared} → PipeMove s p s' p' → Type 0
Launching (degrades _) = ⊥
Launching rewrites = ⊥
Launching (rewrites_on _) = ⊥
Launching _ = true ≡ true

launching :
    {m : Main} {p p' : Pipe} {s s' : Shared} (mv : PipeMove s p s' p') → Counts m p s → Launching mv
launching (degrades off) c = ground (arith, off, c.on)
launching rewrites c = ground (arith, c.not_degraded)
launching (rewrites_on mv) c = ground (arith, c.not_degraded)
launching _ c = refl

launched_more : (m : Main) (l d : ℕ) → l < d → MainReady m l d → MainReady m (suc l) d
launched_more (writing (waits job t)) l d h r = r
launched_more (writing (wants job)) l d h r = absurd (omega (arith, h, r))
launched_more (writing (writes job)) l d h r = absurd (omega (arith, h, r))
launched_more (writing unlocked) l d h r = absurd (omega (arith, h, r))
launched_more _ l d h r = refl

pub pipe-Counts :
    {m : Main} {p p' : Pipe} {s s' : Shared} → PipeMove s p s' p' → Counts m p s → Counts m p' s'
pipe-Counts (receives e) i = record {
  on = i.on;
  not_serial = i.not_serial;
  not_degraded = refl;
  launched = omega (arith, i.launched, ap length e);
  ready = i.ready;
  vacant = i.vacant;
}
pipe-Counts {m} {s} (expires c) i = record {
  on = i.on;
  not_serial = i.not_serial;
  not_degraded = refl;
  launched = omega (arith, i.launched);
  ready = launched_more m s.reads_launched s.reads_dispatched (omega (arith, i.launched)) i.ready;
  vacant = i.vacant;
}
pipe-Counts {m} {s} (launches c) i = record {
  on = i.on;
  not_serial = i.not_serial;
  not_degraded = refl;
  launched = omega (arith, i.launched);
  ready = launched_more m s.reads_launched s.reads_dispatched (omega (arith, i.launched)) i.ready;
  vacant = i.vacant;
}
pipe-Counts mv i = record {
  on = ground (arith, i.on, launching mv i);
  not_serial = ground (arith, i.not_serial, launching mv i);
  not_degraded = ground (arith, i.not_degraded, launching mv i);
  launched = ground (arith, i.launched, launching mv i);
  ready = ground (arith, i.ready, launching mv i);
  vacant = ground (arith, i.vacant, launching mv i);
}

pub pipe-Locks :
    {m : Main} {p p' : Pipe} {s s' : Shared}
    → PipeMove s p s' p'
    → Counts m p s
    → Locks m p s
    → Locks m p' s'
pipe-Locks (read_locks f) c i = record {
  shares = omega (arith, i.shares);
  owner = i.owner;
  excludes = inl f;
}
pipe-Locks mv c i = record {
  shares = ground (arith, i.shares, launching mv c);
  owner = ground (arith, i.owner, launching mv c);
  excludes = ground (arith, i.excludes, launching mv c);
}

pub pipe-Placed :
    {m : Main} {p p' : Pipe} {s s' : Shared} {q : Job → Bool}
    → PipeMove s p s' p'
    → Counts m p s
    → Placed q m p s
    → Placed q m p' s'
pipe-Placed {q} (receives e) c i = record { sum = omega (arith, i.sum, ap (count q) e) }
pipe-Placed mv c i = record { sum = ground (arith, i.sum, launching mv c) }

pub pipe-OnlyReads :
    {m : Main} {p p' : Pipe} {s s' : Shared} {is_write : Job → Bool}
    → PipeMove s p s' p'
    → Counts m p s
    → OnlyReads is_write m p s
    → OnlyReads is_write m p' s'
pipe-OnlyReads {is_write} (receives e) c i = record {
  flying = i.flying;
  piped = omega (arith, i.sent, ap (count is_write) e);
  sent = omega (arith, i.sent, ap (count is_write) e);
  sending = i.sending;
}
pipe-OnlyReads mv c i = record {
  flying = ground (arith, i.flying, i.piped, launching mv c);
  piped = ground (arith, i.piped, launching mv c);
  sent = ground (arith, i.sent, launching mv c);
  sending = ground (arith, i.sending, launching mv c);
}

pub other-Counts :
    {m : Main} {p : Pipe} {s s' : Shared} → OtherMove s s' → Counts m p s → Counts m p s'
other-Counts {m} {s} closes i = record {
  on = i.on;
  not_serial = i.not_serial;
  not_degraded = i.not_degraded;
  launched = i.launched;
  ready = i.ready;
  vacant = ground (arith, i.vacant);
}
other-Counts (rolls_back c) i = record {
  on = refl;
  not_serial = i.not_serial;
  not_degraded = i.not_degraded;
  launched = i.launched;
  ready = i.ready;
  vacant = i.vacant;
}
other-Counts mv i = record {
  on = i.on;
  not_serial = i.not_serial;
  not_degraded = i.not_degraded;
  launched = i.launched;
  ready = i.ready;
  vacant = i.vacant;
}

pub other-Locks :
    {m : Main} {p : Pipe} {s s' : Shared} → OtherMove s s' → Locks m p s → Locks m p s'
other-Locks (finishes xs ys job e) i = record {
  shares = omega (arith, i.shares, ap length e, length-append xs (job ∷ ys), length-append xs ys);
  owner = i.owner;
  excludes = ground (arith, i.excludes);
}
other-Locks (other_read_locks f) i = record {
  shares = omega (arith, i.shares);
  owner = i.owner;
  excludes = inl f;
}
other-Locks (other_read_unlocks f) i = record {
  shares = omega (arith, i.shares, f);
  owner = i.owner;
  excludes = ground (arith, i.excludes);
}
other-Locks (other_locks f z) i = record {
  shares = i.shares;
  owner = ground (arith, i.owner, f);
  excludes = inr z;
}
other-Locks (other_unlocks f) i = record {
  shares = i.shares;
  owner = ground (arith, f, i.owner);
  excludes = inl refl;
}
other-Locks mv i = record { shares = i.shares; owner = i.owner; excludes = i.excludes }

pub other-Placed :
    {m : Main} {p : Pipe} {s s' : Shared} {q : Job → Bool}
    → OtherMove s s'
    → Placed q m p s
    → Placed q m p s'
other-Placed {q} (finishes xs ys job e) i = record {
  sum = omega (arith, i.sum, ap (count q) e, count-append q xs (job ∷ ys), count-append q xs ys);
}
other-Placed mv i = record { sum = i.sum }

pub other-OnlyReads :
    {m : Main} {p : Pipe} {s s' : Shared} {is_write : Job → Bool}
    → OtherMove s s'
    → OnlyReads is_write m p s
    → OnlyReads is_write m p s'
other-OnlyReads {is_write} (finishes xs ys job e) i = record {
  flying = omega (
    arith,
    i.flying,
    ap (count is_write) e,
    count-append is_write xs (job ∷ ys),
    count-append is_write xs ys,
  );
  piped = i.piped;
  sent = i.sent;
  sending = i.sending;
}
other-OnlyReads mv i = record {
  flying = i.flying;
  piped = i.piped;
  sent = i.sent;
  sending = i.sending;
}
