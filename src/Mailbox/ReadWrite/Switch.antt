-- ===== src/Mailbox/ReadWrite/Switch.antt =====
-- SetRWEnabled(false) amid the dispatch of a read.
use emberengine.Prelude.{
  ℕ, suc, ◌-◌, ◌<◌, ◌≡◌, refl, ap, [], ◌∷◌, ◌++◌, Bool, true, false, length, arith,
}
use emberengine.Mailbox.Job.{Job}
use emberengine.Mailbox.ReadWrite.{
  Shared, resting, drained, writes, requests, locks, Main, looking, reading, serial, looks, takes,
  routes, runs_serially, reads, counts, sends, Pipe, listens, degraded, rewriting, receives, passes,
  gets_token, read_locks, degrades, rewrites, rewrites_on, begins, drains, succeeds, disable,
  CanDisable, Rw, by_main, by_pipe, by_other, Steps, rest, then,
}

-- The mode is on, and nothing is on its way: no read is sent or executed, nobody has the lock, and
-- no SetRWEnabled runs.
pub record IsQuiet (s : Shared) : Type 0 where
  pub running : s.closed ≡ false
  pub on : s.enabled ≡ true
  pub kept : s.disabling ≡ false
  pub alone : s.control ≡ resting
  pub nothing_sent : s.read_ch ≡ []
  pub caught_up : s.reads_launched ≡ s.reads_dispatched
  pub no_write : s.write_requested ≡ 0
  pub no_readers : s.readers ≡ 0
  pub no_writer : s.writer ≡ false
  pub none_flying : s.in_flight ≡ []

-- Where SetRWEnabled stands before its store, with the read in the hands of the loop.
abbrev pub before_store : Job → Shared → Rw
before_store r s = record {
  main = reading r;
  pipe = listens;
  shared = record s { taken = r ∷ s.taken; disabling = true; control = drained };
}

abbrev at : Main → Pipe → Shared → Rw
at m p s = record { main = m; pipe = p; shared = s }

-- What SetRWEnabled leaves when it has returned without an error.
abbrev returned : Job → Shared → Shared
returned r s = record (disable (before_store r s).shared) { disabling = false; control = resting }

abbrev sent_on : Job → Job → Shared → Shared
sent_on r e s = record (returned r s) {
  reads_dispatched = suc s.reads_dispatched;
  read_ch = s.read_ch ++ r ∷ [];
  taken = e ∷ r ∷ s.taken;
}

-- The pipeline behind the read lock, which it has given back.
abbrev degraded_at : Job → Job → Shared → Shared
degraded_at r e s = record (sent_on r e s) { read_ch = []; readers = suc s.readers - 1 }

abbrev both_run : Job → Job → Shared → Shared
both_run r e s = record (degraded_at r e s) {
  reads_launched = suc s.reads_launched;
  write_requested = suc s.write_requested;
  writer = true;
}

module _ {is_read : Job → Bool} {capacity : ℕ} where
  drained_amid :
      (r : Job) (s : Shared)
      → is_read r ≡ true
      → IsQuiet s
      → Steps is_read capacity (at looking listens s) (before_store r s)
  drained_amid r s h q =
      then
        (then
          (then (then (then rest (by_main (takes r))) (by_main (routes (rw (q.on) refl))))
            (by_main (reads (rw (h, q.on, q.kept) refl))))
          (by_other (begins q.alone q.on)))
        (by_other (drains refl (omega (arith, q.caught_up))))

  loop_goes_on :
      (r e : Job) (s : Shared)
      → length s.read_ch < capacity
      → IsQuiet s
      → Steps is_read capacity
          (at (reading r) listens (disable (before_store r s).shared))
          (at (serial e) listens (sent_on r e s))
  loop_goes_on r e s room q =
      then
        (then
          (then
            (then (then (then rest (by_other (succeeds refl q.none_flying))) (by_main counts))
              (by_main (sends room)))
            (by_main (looks q.running)))
          (by_main (takes e)))
        (by_main (runs_serially refl))

  pipe_degrades :
      (r e : Job) (s : Shared)
      → IsQuiet s
      → {t : Rw} → Steps is_read capacity t (at (serial e) listens (sent_on r e s))
      → Steps is_read capacity t (at (serial e) (degraded r) (degraded_at r e s))
  pipe_degrades r e s q st =
      then
        (then
          (then
            (then (then st (by_pipe (receives (ap (λ l. l ++ r ∷ []) q.nothing_sent))))
              (by_pipe (passes q.no_write)))
            (by_pipe gets_token))
          (by_pipe (read_locks q.no_writer)))
        (by_pipe (degrades refl))

  pipe_writes :
      (r e : Job) (s : Shared)
      → IsQuiet s
      → {t : Rw} → Steps is_read capacity t (at (serial e) (degraded r) (degraded_at r e s))
      → Steps is_read capacity t (at (serial e) (rewriting (writes r)) (both_run r e s))
  pipe_writes r e s q st =
      then
        (then (then st (by_pipe rewrites))
          (by_pipe (rewrites_on (requests (omega (arith, q.caught_up))))))
        (by_pipe (rewrites_on (locks q.no_writer (omega (arith, q.no_readers)))))

  -- When a worker with the mode on and nothing on its way asks for a job, and the channel of the
  -- reads has room, there are steps in which it takes a read, SetRWEnabled(false) runs to its
  -- successful end, and then the pipeline executes the read under the lock while the loop executes
  -- the next job without it.
  pub disable-overlap :
      (r e : Job) (s : Shared)
      → is_read r ≡ true
      → length s.read_ch < capacity
      → IsQuiet s
      → (t u : Rw) × Steps is_read capacity (at looking listens s) t
        × CanDisable t.shared
        × Steps is_read capacity (record t { shared = disable t.shared }) u
        × (u.shared.control ≡ resting)
        × (u.main ≡ serial e)
        × (u.pipe ≡ rewriting (writes r))
  disable-overlap r e s h room q = (
    before_store r s,
    at (serial e) (rewriting (writes r)) (both_run r e s),
    drained_amid r s h q,
    (refl, q.no_writer, q.no_readers),
    pipe_writes r e s q (pipe_degrades r e s q (loop_goes_on r e s room q)),
    refl,
    refl,
    refl,
  )
