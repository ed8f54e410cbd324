-- ===== src/Mailbox/ReadWrite/Progress.antt =====
-- A write that waits can go on.
use emberengine.Prelude.{
  ℕ, ◌≡◌, refl, ap, ◌∙◌, List, [], ◌∷◌, Bool, true, false, Option, length, arith,
}
use emberengine.Mailbox.Job.{Job}
use emberengine.Mailbox.ReadWrite.{
  Shared, Write, waits, wants, writes, unlocked, WriteMove, requests, locks, Main, writing, returns,
  MainMove, goes_on, Pipe, listens, gated, passed, cleared, holding, degraded, rewriting, PipeMove,
  rewrites_on, receives, passes, gets_token, read_locks, launches, OtherMove, finishes, Rw, start,
  Step, by_main, by_pipe, by_other, Steps, rest, then,
}
use emberengine.Mailbox.ReadWrite.Places.{is_degraded, Counts}
use emberengine.Mailbox.ReadWrite.Order.{Inv, Steps-Inv}

-- Whether the loop has raised `writeRequested`.
abbrev raised : Main → ℕ
raised (writing (wants job)) = 1
raised (writing (writes job)) = 1
raised (writing unlocked) = 1
raised _ = 0

abbrev IsRaised : Main → Shared → Type 0
IsRaised m s = s.write_requested ≡ raised m

write-IsRaised :
    {w : Write} {w' : Option Write} {s s' : Shared}
    → WriteMove s w s' w'
    → IsRaised (writing w) s
    → IsRaised (returns w') s'
write-IsRaised (requests e) h = omega (arith, h)
write-IsRaised mv h = omega (arith, h)

pipe-IsRaised :
    {m : Main} {p p' : Pipe} {s s' : Shared}
    → PipeMove s p s' p'
    → Counts m p s
    → IsRaised m s
    → IsRaised m s'
pipe-IsRaised (rewrites_on mv) c h = absurd (ground (arith, c.not_degraded))
pipe-IsRaised mv c h = h

other-IsRaised : (m : Main) {s s' : Shared} → OtherMove s s' → IsRaised m s → IsRaised m s'
other-IsRaised m (finishes xs ys job e) h = h
other-IsRaised m mv h = h

module _ {is_read : Job → Bool} {capacity : ℕ} where
  main-IsRaised :
      {m m' : Main} {s s' : Shared}
      → MainMove is_read capacity s m s' m'
      → IsRaised m s
      → IsRaised m' s'
  main-IsRaised (goes_on mv) h = write-IsRaised mv h
  main-IsRaised mv h = h

  Step-IsRaised :
      {r t : Rw}
      → Step is_read capacity r t
      → Inv is_read r
      → IsRaised r.main r.shared
      → IsRaised t.main t.shared
  Step-IsRaised (by_main mv) i h = main-IsRaised mv h
  Step-IsRaised (by_pipe mv) i h = pipe-IsRaised mv i.counts h
  Step-IsRaised {r} (by_other mv) i h = other-IsRaised r.main mv h

  Steps-IsRaised : {r : Rw} → Steps is_read capacity start r → IsRaised r.main r.shared
  Steps-IsRaised rest = refl
  Steps-IsRaised (then st mv) = Step-IsRaised mv (Steps-Inv st) (Steps-IsRaised st)

  and_then :
      {r t u : Rw}
      → Steps is_read capacity r t
      → Steps is_read capacity t u
      → Steps is_read capacity r u
  and_then st rest = st
  and_then st (then su mv) = then (and_then st su) mv

abbrev at : Main → Pipe → Shared → Rw
at m p s = record { main = m; pipe = p; shared = s }

-- Nothing is in the way of a read, and no other worker has the lock.
record IsFree (s : Shared) : Type 0 where
  on : s.enabled ≡ true
  no_write : s.write_requested ≡ 0
  no_writer : s.writer ≡ false
  no_others : s.other_readers ≡ 0

same-IsFree :
    (s s' : Shared)
    → IsFree s
    → s'.enabled ≡ s.enabled
    → s'.write_requested ≡ s.write_requested
    → s'.writer ≡ s.writer
    → s'.other_readers ≡ s.other_readers
    → IsFree s'
same-IsFree s s' f a b c d = record {
  on = a ∙ f.on;
  no_write = b ∙ f.no_write;
  no_writer = c ∙ f.no_writer;
  no_others = d ∙ f.no_others;
}

module _ (is_read : Job → Bool) (capacity : ℕ) (m : Main) (r : Rw) where
  -- The state is reached with the pipeline at its head and these reads sent.
  abbrev Emptied : List Job → Type 0
  Emptied l = (s : Shared) × Steps is_read capacity r (at m listens s) × IsFree s × (s.read_ch ≡ l)

  from_holding :
      (job : Job) (s : Shared)
      → Steps is_read capacity r (at m (holding job) s)
      → IsFree s
      → Emptied s.read_ch
  from_holding job s st f =
      (_, then st (by_pipe (launches f.on)), same-IsFree s _ f refl refl refl refl, refl)

  from_cleared :
      (job : Job) (s : Shared)
      → Steps is_read capacity r (at m (cleared job) s)
      → IsFree s
      → Emptied s.read_ch
  from_cleared job s st f =
      from_holding job _ (then st (by_pipe (read_locks f.no_writer)))
        (same-IsFree s _ f refl refl refl refl)

  from_passed :
      (job : Job) (s : Shared)
      → Steps is_read capacity r (at m (passed job) s)
      → IsFree s
      → Emptied s.read_ch
  from_passed job s st f = from_cleared job s (then st (by_pipe gets_token)) f

  from_gated :
      (job : Job) (s : Shared)
      → Steps is_read capacity r (at m (gated job) s)
      → IsFree s
      → Emptied s.read_ch
  from_gated job s st f = from_passed job s (then st (by_pipe (passes f.no_write))) f

  from_place :
      (p : Pipe) (s : Shared)
      → is_degraded p ≡ false
      → Steps is_read capacity r (at m p s)
      → IsFree s
      → Emptied s.read_ch
  from_place listens s h st f = (s, st, f, refl)
  from_place (gated job) s h st f = from_gated job s st f
  from_place (passed job) s h st f = from_passed job s st f
  from_place (cleared job) s h st f = from_cleared job s st f
  from_place (holding job) s h st f = from_holding job s st f
  from_place (degraded job) s h st f = absurd (ground (arith, h))
  from_place (rewriting w) s h st f = absurd (ground (arith, h))

  -- The pipeline launches what is sent.
  all_launched :
      (l : List Job) (s : Shared)
      → s.read_ch ≡ l
      → Steps is_read capacity r (at m listens s)
      → IsFree s
      → Emptied []
  all_launched [] s e st f = (s, st, f, e)
  all_launched (job ∷ jobs) s e st f =
      let (s', st', f', e') =
        from_gated job (record s { read_ch = jobs }) (then st (by_pipe (receives e)))
          (same-IsFree s _ f refl refl refl refl) in
      all_launched jobs s' e' st' f'

  abbrev Landed : Type 0
  Landed =
      (s : Shared) × Steps is_read capacity r (at m listens s)
      × IsFree s
      × (s.read_ch ≡ [])
      × (s.in_flight ≡ [])

  -- The reads end.
  all_landed :
      (l : List Job) (s : Shared)
      → s.in_flight ≡ l
      → s.read_ch ≡ []
      → Steps is_read capacity r (at m listens s)
      → IsFree s
      → Landed
  all_landed [] s e none_sent st f = (s, st, f, none_sent, e)
  all_landed (job ∷ jobs) s e none_sent st f =
      all_landed jobs _ refl none_sent (then st (by_other (finishes [] jobs job e)))
        (same-IsFree s _ f refl refl refl refl)

  all_done :
      (p : Pipe) (s : Shared)
      → is_degraded p ≡ false
      → Steps is_read capacity r (at m p s)
      → IsFree s
      → Landed
  all_done p s h st f =
      let (s1, st1, f1, e1) = from_place p s h st f in
      let (s2, st2, f2, e2) = all_launched s.read_ch s1 e1 st1 f1 in
      all_landed s2.in_flight s2 refl e2 st2 f2

-- In every state that is reached with the mode on and where no other worker has the lock, a write
-- that waits for the reads before it can go on: there are steps, in which each read finds a token
-- of the semaphore, to a state where it has the lock and executes.
pub waits-locks :
    (is_read : Job → Bool) (capacity : ℕ) (job : Job) (target : ℕ) (p : Pipe) (s : Shared)
    → Steps is_read capacity start (at (writing (waits job target)) p s)
    → s.other_readers ≡ 0
    → s.other_writer ≡ false
    → (s' : Shared) × Steps is_read capacity
        (at (writing (waits job target)) p s)
        (at (writing (writes job)) listens s')
waits-locks is_read capacity job target p s st no_readers no_writer =
    let i = Steps-Inv st in
    let m = writing (waits job target) in
    let (s', st', f, sent, flying) =
      all_done is_read capacity m (at m p s) p s i.counts.not_degraded rest (record {
        on = i.counts.on;
        no_write = Steps-IsRaised st;
        no_writer = ground (arith, no_writer, i.locks.owner);
        no_others = no_readers;
      }) in
    let i' = Steps-Inv (and_then st st') in
    (
      _,
      then
          (then st' (
            by_main (
              goes_on
                (requests (omega (arith, i'.counts.launched, i'.counts.ready, ap length sent))))))
          (by_main (
            goes_on
              (locks f.no_writer (omega (arith, i'.locks.shares, f.no_others, ap length flying))))),
    )
