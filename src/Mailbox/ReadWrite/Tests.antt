-- ===== src/Mailbox/ReadWrite/Tests.antt =====
-- A worker that takes a read and then a write. The jobs with an odd identity are reads.
use emberengine.Prelude.{◌≡◌, refl, ℕ, ◌%◌, ◌==◌, [], ◌∷◌, Bool, true, arith}
use emberengine.Prelude.Int.{pos}
use emberengine.Mailbox.Job.{Job, event, other_body}
use emberengine.Mailbox.ReadWrite.{
  Shared, resting, requests, locks, waits, writes, head, looking, serial, writing, looks, takes,
  routes, reads, writes_job, counts, sends, goes_on, listens, rewriting, receives, passes,
  gets_token, read_locks, launches, finishes, disable, CanDisable, Rw, start, by_main, by_pipe,
  by_other, Steps, rest, then,
}
use emberengine.Mailbox.ReadWrite.Order.{Ordered, run-Ordered}
use emberengine.Mailbox.ReadWrite.Switch.{IsQuiet, disable-overlap}
use emberengine.Mailbox.ReadWrite.Progress.{waits-locks}

abbrev job : ℕ → Job
job n = record { ident = n; kind = event; priority = pos 0; dispatcher_key = 7; body = other_body }

abbrev odd : Job → Bool
odd e = e.ident % 2 == 1

abbrev read_launched : Steps odd 256 start (record {
  main = head;
  pipe = listens;
  shared = record start.shared {
    reads_dispatched = 1;
    reads_launched = 1;
    readers = 1;
    in_flight = job 1 ∷ [];
    taken = job 1 ∷ [];
  };
})
read_launched =
    then
      (then
        (then
          (then
            (then
              (then
                (then
                  (then
                    (then (then (then rest (by_main (looks refl))) (by_main (takes (job 1))))
                      (by_main (routes refl)))
                    (by_main (reads refl)))
                  (by_main counts))
                (by_main (sends (omega arith))))
              (by_pipe (receives refl)))
            (by_pipe (passes refl)))
          (by_pipe gets_token))
        (by_pipe (read_locks refl)))
      (by_pipe (launches refl))

abbrev executing : Rw
executing = record {
  main = writing (writes (job 2));
  pipe = listens;
  shared = record start.shared {
    reads_dispatched = 1;
    reads_launched = 1;
    write_requested = 1;
    writer = true;
    taken = job 2 ∷ job 1 ∷ [];
    over = job 1 ∷ [];
  };
}

write_executes : Steps odd 256 start executing
write_executes =
    then
      (then
        (then
          (then
            (then (then (then read_launched (by_main (looks refl))) (by_main (takes (job 2))))
              (by_main (routes refl)))
            (by_main (writes_job refl)))
          (by_main (goes_on (requests (omega arith)))))
        (by_other (finishes [] [] (job 1) refl)))
      (by_main (goes_on (locks refl refl)))

abbrev waiting : Rw
waiting = record {
  main = writing (waits (job 2) 1);
  pipe = listens;
  shared = record start.shared {
    reads_dispatched = 1;
    taken = job 2 ∷ job 1 ∷ [];
    read_ch = job 1 ∷ [];
  };
}

-- The read is sent, and the pipeline has not received it.
write_waits : Steps odd 256 start waiting
write_waits =
    then
      (then
        (then
          (then
            (then
              (then
                (then
                  (then (then (then rest (by_main (looks refl))) (by_main (takes (job 1))))
                    (by_main (routes refl)))
                  (by_main (reads refl)))
                (by_main counts))
              (by_main (sends (omega arith))))
            (by_main (looks refl)))
          (by_main (takes (job 2))))
        (by_main (routes refl)))
      (by_main (writes_job refl))

waits-locks_example :
    (s : Shared) × Steps odd 256 waiting
      (record { main = writing (writes (job 2)); pipe = listens; shared = s })
waits-locks_example = waits-locks odd 256 (job 2) 1 listens waiting.shared write_waits refl refl

run-Ordered_example : Ordered odd executing
run-Ordered_example = run-Ordered odd 256 executing write_executes

start-IsQuiet : IsQuiet start.shared
start-IsQuiet = record {
  running = refl;
  on = refl;
  kept = refl;
  alone = refl;
  nothing_sent = refl;
  caught_up = refl;
  no_write = refl;
  no_readers = refl;
  no_writer = refl;
  none_flying = refl;
}

disable-overlap_example :
    (t u : Rw) × Steps odd 256 (record start { main = looking }) t
    × CanDisable t.shared
    × Steps odd 256 (record t { shared = disable t.shared }) u
    × (u.shared.control ≡ resting)
    × (u.main ≡ serial (job 2))
    × (u.pipe ≡ rewriting (writes (job 1)))
disable-overlap_example =
    disable-overlap (job 1) (job 2) start.shared refl (omega arith) start-IsQuiet
