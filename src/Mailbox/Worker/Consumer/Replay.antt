-- ===== src/Mailbox/Worker/Consumer/Replay.antt =====
-- The log of a worker against the state of its service: what stands in the log is what was done.
use emberengine.Prelude.{
  ◌≡◌, refl, sym, ap, ◌∙◌, List, [], ◌∷◌, ◌++◌, map, append_assoc, append-nil, Bool, true, false,
  not, Option, none, some, Bool-cases, inl, inr,
}
use emberengine.Mailbox.Job.{Job}
use emberengine.Mailbox.Queues.{is_nil}
use emberengine.Mailbox.Chain.{worker_closed}
use emberengine.Mailbox.Post.{notify_job_discarded}
use emberengine.Mailbox.Exec.{Executor, ExecState, safe_exec, discard_exec}
use emberengine.Mailbox.Worker.{submit_locked, Answer}
use emberengine.Mailbox.Worker.Consumer.{
  is_closed, Entry, executed, replaced, refused, sent, discarded, elsewhere, crashed, refuse_read,
  ConsumerImpl, Consumer, Event, submits, notes, stops, takes, executes, parks, reads, others,
  submitted, then_exec, after_next, take_next, take_job, execute, dispatch_read, discard_old,
  drop_old, store_pending, park, step, run, changed, DrainPolicy, drain_execute, drain_discard,
  handle_each, policy_handler, discard_one, execute_one,
}

module _ (C : ConsumerImpl) {W : Type 0} (x : Executor W) where
  -- What an entry says was done to the state; `none` is a panic.
  abbrev pub done : Entry (ExecState W) → ExecState W → Option (ExecState W)
  done (executed e) s = safe_exec x e s
  done (discarded rw_unsafe e) s = discard_exec x rw_unsafe e s
  done (replaced e) s = some (record s {
    world = x.invoker.release e (notify_job_discarded x.invoker e worker_closed s.world);
  })
  done (refused e) s = refuse_read C x e s
  done (sent e) s = some s
  done (elsewhere f) s = some (f s)
  done crashed s = none

  abbrev pub also_done : Entry (ExecState W) → Option (ExecState W) → Option (ExecState W)
  also_done entry none = none
  also_done entry (some s) = done entry s

  abbrev pub replay : List (Entry (ExecState W)) → Option (ExecState W) → Option (ExecState W)
  replay [] s = s
  replay (entry ∷ log) s = replay log (also_done entry s)

  pub replay-append :
      (log log' : List (Entry (ExecState W))) (s : Option (ExecState W))
      → replay (log ++ log') s ≡ replay log' (replay log s)
  replay-append [] log' s = refl
  replay-append (entry ∷ log) log' s = replay-append log log' (also_done entry s)

  abbrev pub Replays : Option (ExecState W) → Consumer C x → Type 0
  Replays s c = c.exec ≡ replay c.log s

  -- One entry more, with what it says.
  one_more :
      (s : Option (ExecState W)) (c : Consumer C x) (entry : Entry (ExecState W))
      (t : Option (ExecState W))
      → Replays s c
      → also_done entry c.exec ≡ t
      → t ≡ replay (c.log ++ entry ∷ []) s
  one_more s c entry t same next =
      sym next ∙ ap (also_done entry) same ∙ sym (replay-append c.log (entry ∷ []) s)

  crashes : (s : Option (ExecState W)) → also_done crashed s ≡ none
  crashes none = refl
  crashes (some s) = refl

  next-Replays :
      (s : Option (ExecState W)) (c : Consumer C x) (o : Option C.manager.M)
      → Replays s c
      → Replays s (take_next C x c o)
  next-Replays s c none same = one_more s c crashed none same (crashes c.exec)
  next-Replays s c (some m) same = after (C.next_job m)
    where
      after : (o : Option (Option Job × C.manager.M)) → Replays s (after_next C x c o)
      after none = one_more s c crashed none same (crashes c.exec)
      after (some (r, m')) = same

  take_job-Replays :
      (s : Option (ExecState W)) (c : Consumer C x) (o : Option Job)
      → Replays s c
      → Replays s (take_job C x c o)
  unfolding take_job
  take_job-Replays s c (some e) same = same
  take_job-Replays s c none same = elim (Bool-cases (is_closed c.worker.state)) [
    | inl closes ↦ rw (closes, take_job) same
    | inr opens ↦ rw (opens, take_job) (next-Replays s c c.worker.queue_manager same)
  ]

  submitted-Replays :
      (s : Option (ExecState W)) (c : Consumer C x) (a : Answer C.manager)
      → Replays s c
      → Replays s (submitted C x c a)
  submitted-Replays s c (none, env, w, job) same = same
  submitted-Replays s c (some e, env, w, job) same = same

  as_logged :
      (entry : Entry (ExecState W)) (f : Job → ExecState W → Option (ExecState W)) (e : Job)
      (o : Option (ExecState W))
      → ((s : ExecState W) → done entry s ≡ f e s)
      → also_done entry o ≡ then_exec C x f e o
  as_logged entry f e none same = refl
  as_logged entry f e (some s) same = same s

  execute-Replays :
      (s : Option (ExecState W)) (c : Consumer C x) (o : Option Job)
      → Replays s c
      → Replays s (execute C x c o)
  unfolding execute
  execute-Replays s c none same = same
  execute-Replays s c (some e) same =
      one_more s c (executed e) (then_exec C x (safe_exec x) e c.exec) same
        (as_logged (executed e) (safe_exec x) e c.exec (λ t. refl))

  dispatch_read-Replays :
      (s : Option (ExecState W)) (room : Bool) (c : Consumer C x) (o : Option Job)
      → Replays s c
      → Replays s (dispatch_read C x room c o)
  unfolding dispatch_read
  dispatch_read-Replays s room c none same = same
  dispatch_read-Replays s true c (some e) same =
      one_more s c (sent e) c.exec same (nothing_done c.exec)
    where
      nothing_done : (o : Option (ExecState W)) → also_done (sent e) o ≡ o
      nothing_done none = refl
      nothing_done (some t) = refl
  dispatch_read-Replays s false c (some e) same =
      one_more s c (refused e) (then_exec C x (refuse_read C x) e c.exec) same
        (as_logged (refused e) (refuse_read C x) e c.exec (λ t. refl))

  store_pending-Replays :
      (s : Option (ExecState W)) (c : Consumer C x) (e : Job) (o : Option Job)
      → Replays s c
      → Replays s (record (drop_old C x c o) { pending_job = some e; hand = none })
  unfolding drop_old discard_old
  store_pending-Replays s c e none same = same
  store_pending-Replays s c e (some old) same =
      one_more s c (replaced old) (then_exec C x (discard_old C x) old c.exec) same
        (as_logged (replaced old) (discard_old C x) old c.exec (λ t. refl))

  park-Replays :
      (s : Option (ExecState W)) (c : Consumer C x) (o : Option Job)
      → Replays s c
      → Replays s (park C x c o)
  unfolding park store_pending
  park-Replays s c none same = same
  park-Replays s c (some e) same = elim (Bool-cases (is_closed c.worker.state)) [
    | inl closes ↦ rw (closes, park) (store_pending-Replays s c e c.pending_job same)
    | inr opens ↦ rw (opens, park) same
  ]

  changed_lem :
      (f : ExecState W → ExecState W) (o : Option (ExecState W))
      → also_done (elsewhere f) o ≡ changed C x f o
  unfolding changed
  changed_lem f none = refl
  changed_lem f (some s) = refl

  step-Replays :
      (e : Event C x) (s : Option (ExecState W)) (c : Consumer C x)
      → Replays s c
      → Replays s (step C x e c)
  unfolding step
  step-Replays (submits job) s c same =
      submitted-Replays s c (submit_locked C.manager c.env c.worker job) same
  step-Replays (notes job) s c same = same
  step-Replays stops s c same = same
  step-Replays takes s c same = take_job-Replays s c c.hand same
  step-Replays executes s c same = execute-Replays s c c.hand same
  step-Replays parks s c same = park-Replays s c c.hand same
  step-Replays (reads room) s c same = dispatch_read-Replays s room c c.hand same
  step-Replays (others f) s c same =
      one_more s c (elsewhere f) (changed C x f c.exec) same (changed_lem f c.exec)

  -- After every sequence of steps the state of the service is what the log says was done.
  pub run-Replays :
      (es : List (Event C x)) (s : Option (ExecState W)) (c : Consumer C x)
      → Replays s c
      → Replays s (run C x es c)
  unfolding run
  run-Replays [] s c same = same
  run-Replays (e ∷ es) s c same = run-Replays es s (step C x e c) (step-Replays e s c same)

  -- What the draining does with a job: after a stop that timed out, and where the policy is to
  -- discard, it is discarded, in unsafe mode if the read-write mode is on and the stop timed out;
  -- else it is executed.
  abbrev pub ending : Bool → Bool → DrainPolicy → Job → Entry (ExecState W)
  ending enabled true policy e = discarded enabled e
  ending enabled false drain_discard e = discarded false e
  ending enabled false drain_execute e = executed e

  one_ending :
      (enabled timed_out : Bool) (policy : DrainPolicy) (e : Job) (o : Option (ExecState W))
      (log : List (Entry (ExecState W)))
      → policy_handler C x enabled timed_out policy true e (o, log) ≡ (
        also_done (ending enabled timed_out policy e) o,
        log ++ ending enabled timed_out policy e ∷ [],
      )
  unfolding policy_handler discard_one execute_one
  one_ending true true policy e none log = refl
  one_ending true true policy e (some s) log = refl
  one_ending false true policy e none log = refl
  one_ending false true policy e (some s) log = refl
  one_ending enabled false drain_discard e none log = refl
  one_ending enabled false drain_discard e (some s) log = refl
  one_ending enabled false drain_execute e none log = refl
  one_ending enabled false drain_execute e (some s) log = refl

  endings :
      (enabled timed_out : Bool) (policy : DrainPolicy) (es : List Job) (o : Option (ExecState W))
      (log : List (Entry (ExecState W)))
      → handle_each (policy_handler C x enabled timed_out policy true) es (o, log) ≡ (
        replay (map (ending enabled timed_out policy) es) o,
        log ++ map (ending enabled timed_out policy) es,
      )
  endings enabled timed_out policy [] o log = ap (λ l. (o, l)) (sym (append-nil log))
  endings enabled timed_out policy (e ∷ es) o log =
      let entry = ending enabled timed_out policy e in
      ap (handle_each (policy_handler C x enabled timed_out policy true) es)
        (one_ending enabled timed_out policy e o log)
      ∙ endings enabled timed_out policy es (also_done entry o) (log ++ entry ∷ [])
      ∙ ap (λ l. (replay (map (ending enabled timed_out policy) es) (also_done entry o), l))
          (append_assoc log (entry ∷ []) (map (ending enabled timed_out policy) es))

  -- The handler that is told whether a job is left.
  pub handle_each-policy_handler :
      (enabled timed_out : Bool) (policy : DrainPolicy) (es : List Job) (residual : Bool)
      (o : Option (ExecState W)) (log : List (Entry (ExecState W)))
      → residual ≡ not (is_nil es)
      → handle_each (policy_handler C x enabled timed_out policy residual) es (o, log) ≡ (
        replay (map (ending enabled timed_out policy) es) o,
        log ++ map (ending enabled timed_out policy) es,
      )
  handle_each-policy_handler enabled timed_out policy [] residual o log told =
      ap (λ l. (o, l)) (sym (append-nil log))
  handle_each-policy_handler enabled timed_out policy (e ∷ es) residual o log told =
      ap (λ b. handle_each (policy_handler C x enabled timed_out policy b) (e ∷ es) (o, log)) told
      ∙ endings enabled timed_out policy (e ∷ es) o log
