-- ===== src/Mailbox/Dual/Order.antt =====
-- The two-queue manager is a stable priority queue with two bands: system jobs before user jobs,
-- and each band first in, first out.
use emberengine.Prelude.{
  ℕ, ◌+◌, ◌≡◌, refl, ap, ap₂, ◌∙◌, List, [], ◌∷◌, ◌++◌, Bool, true, false, Option, none, some,
  length, arith, if◌then◌else◌, ◌<◌, inl, inr, length-append, ◌&&◌, sym, append_assoc, append-nil,
  ◌⊎◌,
}
use emberengine.Prelude.Int.{ℤ, pos, ltb_ℤ, ◌≤ℤ◌}
use emberengine.Mailbox.Job.{Job, SubmitError, worker_is_full, priority_normal}
use emberengine.Mailbox.Queues.{
  QueueImpl, drain_lem, handle_all, handle_all-append, insert_by, insert_by_between, AllAtMost,
  AllAbove, is_nil, is_nil-append, pop_list,
}
use emberengine.Mailbox.Dual.{DualQueueManager, submit, next_job, get_job_len, is_empty, drain_all}

-- 0 for the system band, 1 for the user band.
abbrev pub band : Job → ℤ
band e = if ltb_ℤ e.priority priority_normal then pos 0 else pos 1

abbrev pub AllSystem : List Job → Type 0
AllSystem [] = Unit
AllSystem (e ∷ es) = (ltb_ℤ e.priority priority_normal ≡ true) × AllSystem es

abbrev pub AllUser : List Job → Type 0
AllUser [] = Unit
AllUser (e ∷ es) = (ltb_ℤ e.priority priority_normal ≡ false) × AllUser es

AllSystem-snoc :
    (xs : List Job) (e : Job)
    → AllSystem xs
    → ltb_ℤ e.priority priority_normal ≡ true
    → AllSystem (xs ++ e ∷ [])
AllSystem-snoc [] e h p = (p, tt)
AllSystem-snoc (x ∷ xs) e h p = (h.0, AllSystem-snoc xs e h.1 p)

AllUser-snoc :
    (xs : List Job) (e : Job)
    → AllUser xs
    → ltb_ℤ e.priority priority_normal ≡ false
    → AllUser (xs ++ e ∷ [])
AllUser-snoc [] e h p = (p, tt)
AllUser-snoc (x ∷ xs) e h p = (h.0, AllUser-snoc xs e h.1 p)

AllSystem-rest : (xs : List Job) → AllSystem xs → AllSystem (pop_list xs).1
AllSystem-rest [] h = tt
AllSystem-rest (x ∷ xs) h = h.1

AllUser-rest : (xs : List Job) → AllUser xs → AllUser (pop_list xs).1
AllUser-rest [] h = tt
AllUser-rest (x ∷ xs) h = h.1

system_at_most : (k : ℤ) (xs : List Job) → pos 0 ≤ℤ k → AllSystem xs → AllAtMost band k xs
system_at_most k [] p h = tt
system_at_most k (x ∷ xs) p h = (ground arith, system_at_most k xs p h.1)

user_at_most : (xs : List Job) → AllUser xs → AllAtMost band (pos 1) xs
user_at_most [] h = tt
user_at_most (x ∷ xs) h = (ground arith, user_at_most xs h.1)

user_above : (xs : List Job) → AllUser xs → AllAbove band (pos 0) xs
user_above [] h = tt
user_above (x ∷ xs) h = (ground arith, user_above xs h.1)

AllAtMost-append :
    (k : ℤ) (xs ys : List Job)
    → AllAtMost band k xs
    → AllAtMost band k ys
    → AllAtMost band k (xs ++ ys)
AllAtMost-append k [] ys h g = g
AllAtMost-append k (x ∷ xs) ys h g = (h.0, AllAtMost-append k xs ys h.1 g)

insert_system :
    (e : Job) (xs ys : List Job)
    → ltb_ℤ e.priority priority_normal ≡ true
    → AllSystem xs
    → AllUser ys
    → insert_by band e (xs ++ ys) ≡ xs ++ e ∷ ys
insert_system e xs ys h hs hu =
    let b : band e ≡ pos 0 = rw h in
    insert_by_between band e xs ys (rw b (system_at_most (pos 0) xs (omega arith) hs))
      (rw b (user_above ys hu))

insert_user :
    (e : Job) (xs ys : List Job)
    → ltb_ℤ e.priority priority_normal ≡ false
    → AllSystem xs
    → AllUser ys
    → insert_by band e (xs ++ ys) ≡ xs ++ (ys ++ e ∷ [])
insert_user e xs ys h hs hu =
    let b : band e ≡ pos 1 = rw h in
    ap (insert_by band e) (sym (append-nil (xs ++ ys)))
    ∙ insert_by_between band e (xs ++ ys) []
        (rw b (
          AllAtMost-append (pos 1) xs ys (system_at_most (pos 1) xs (omega arith) hs)
            (user_at_most ys hu)))
        tt
    ∙ append_assoc xs ys (e ∷ [])

module _ (I : QueueImpl Job) where
  pub record IsWf (m : DualQueueManager I) : Type 0 where
    pub system_ok : I.IsOk m.system_mailbox
    pub user_ok : I.IsOk m.user_mailbox
    pub system_jobs : AllSystem (I.contents m.system_mailbox)
    pub user_jobs : AllUser (I.contents m.user_mailbox)

  -- The jobs in the order in which they will be taken.
  abbrev pub view : DualQueueManager I → List Job
  view m = I.contents m.system_mailbox ++ I.contents m.user_mailbox

  -- What a submit may do: be refused without a trace, or insert behind the jobs of its band.
  abbrev pub Submitted : DualQueueManager I → Job → Option SubmitError × DualQueueManager I → Type 0
  Submitted m e (r, m') =
      ((r ≡ none) × (view m' ≡ insert_by band e (view m))) ⊎ ((r ≡ some worker_is_full) × (m' ≡ m))

  -- The queues after a push, by the queue that the job belongs to and the answer.
  submit_cases :
      (m : DualQueueManager I) (e : Job) (b p : Bool)
      → ltb_ℤ e.priority priority_normal ≡ b
      → (I.push (if b then m.system_mailbox else m.user_mailbox) e).0 ≡ p
      → IsWf m
      → IsWf (submit I m e).1 × Submitted m e (submit I m e)
  unfolding submit
  submit_cases m e true true h p w =
      let grown = I.push_accepted m.system_mailbox e w.system_ok p in
      let sorted_in =
        ap (λ t. t ++ I.contents m.user_mailbox) grown
        ∙ append_assoc (I.contents m.system_mailbox) (e ∷ []) (I.contents m.user_mailbox)
        ∙ sym (
            insert_system e (I.contents m.system_mailbox) (I.contents m.user_mailbox) h
              w.system_jobs w.user_jobs) in
      rw (h, p)
        (
          record {
            system_ok = I.push-IsOk m.system_mailbox e w.system_ok;
            user_ok = w.user_ok;
            system_jobs = rw grown (AllSystem-snoc (I.contents m.system_mailbox) e w.system_jobs h);
            user_jobs = w.user_jobs;
          },
          inl (refl, sorted_in),
        )
  submit_cases m e true false h p w =
      let same = I.push_refused m.system_mailbox e w.system_ok p in
      rw (h, p, same) (w, inr (refl, refl))
  submit_cases m e false true h p w =
      let grown = I.push_accepted m.user_mailbox e w.user_ok p in
      let sorted_in =
        ap (λ t. I.contents m.system_mailbox ++ t) grown
        ∙ sym (
            insert_user e (I.contents m.system_mailbox) (I.contents m.user_mailbox) h w.system_jobs
              w.user_jobs) in
      rw (h, p)
        (
          record {
            system_ok = w.system_ok;
            user_ok = I.push-IsOk m.user_mailbox e w.user_ok;
            system_jobs = w.system_jobs;
            user_jobs = rw grown (AllUser-snoc (I.contents m.user_mailbox) e w.user_jobs h);
          },
          inl (refl, sorted_in),
        )
  submit_cases m e false false h p w =
      let same = I.push_refused m.user_mailbox e w.user_ok p in
      rw (h, p, same) (w, inr (refl, refl))

  -- A submit is refused because a queue is full, and then changes nothing, or it puts the job
  -- behind all jobs of its band and those of the system band; the manager stays well-formed.
  pub submit-insert_by :
      (m : DualQueueManager I) (e : Job)
      → IsWf m
      → IsWf (submit I m e).1 × Submitted m e (submit I m e)
  submit-insert_by m e w =
      submit_cases m e (ltb_ℤ e.priority priority_normal)
        (I.push (if ltb_ℤ e.priority priority_normal then m.system_mailbox else m.user_mailbox) e).0
        refl refl w

  next_job_cases :
      (m : DualQueueManager I) (xs : List Job)
      → IsWf m
      → I.contents m.system_mailbox ≡ xs
      → ((next_job I m).0 ≡ (pop_list (xs ++ I.contents m.user_mailbox)).0)
        × (view (next_job I m).1 ≡ (pop_list (xs ++ I.contents m.user_mailbox)).1)
        × IsWf (next_job I m).1
  unfolding next_job
  next_job_cases m [] w e =
      let missing = I.pop_result m.system_mailbox w.system_ok ∙ ap (λ l. (pop_list l).0) e in
      let rest = I.pop_rest m.system_mailbox w.system_ok ∙ ap (λ l. (pop_list l).1) e in
      rw (missing, next_job)
        (
          I.pop_result m.user_mailbox w.user_ok,
          ap₂ ◌++◌ rest (I.pop_rest m.user_mailbox w.user_ok),
          record {
            system_ok = I.pop-IsOk m.system_mailbox w.system_ok;
            user_ok = I.pop-IsOk m.user_mailbox w.user_ok;
            system_jobs = rw rest tt;
            user_jobs =
                rw (I.pop_rest m.user_mailbox w.user_ok)
                  (AllUser-rest (I.contents m.user_mailbox) w.user_jobs);
          },
        )
  next_job_cases m (x ∷ xs) w e =
      let taken = I.pop_result m.system_mailbox w.system_ok ∙ ap (λ l. (pop_list l).0) e in
      let rest = I.pop_rest m.system_mailbox w.system_ok ∙ ap (λ l. (pop_list l).1) e in
      rw (taken, next_job)
        (
          refl,
          ap (λ t. t ++ I.contents m.user_mailbox) rest,
          record {
            system_ok = I.pop-IsOk m.system_mailbox w.system_ok;
            user_ok = w.user_ok;
            system_jobs =
                rw (I.pop_rest m.system_mailbox w.system_ok)
                  (AllSystem-rest (I.contents m.system_mailbox) w.system_jobs);
            user_jobs = w.user_jobs;
          },
        )

  -- `NextJob` takes the first job of the view, and finds none only if the view is empty.
  pub next_job-pop_list :
      (m : DualQueueManager I)
      → IsWf m
      → ((next_job I m).0 ≡ (pop_list (view m)).0)
        × (view (next_job I m).1 ≡ (pop_list (view m)).1)
        × IsWf (next_job I m).1
  next_job-pop_list m w = next_job_cases m (I.contents m.system_mailbox) w refl

  -- `GetJobLen` is the number of jobs of the view, and `IsEmpty` tells whether it has none.
  pub get_job_len-length :
      (m : DualQueueManager I)
      → IsWf m
      → (get_job_len I m ≡ length (view m)) × (is_empty I m ≡ is_nil (view m))
  unfolding get_job_len is_empty
  get_job_len-length m w = (
    ap₂ ◌+◌ (I.len_result m.system_mailbox w.system_ok) (I.len_result m.user_mailbox w.user_ok)
        ∙ sym (length-append (I.contents m.system_mailbox) (I.contents m.user_mailbox)),
    ap₂ ◌&&◌ (I.empty_result m.system_mailbox w.system_ok) (I.empty_result m.user_mailbox w.user_ok)
        ∙ is_nil-append (I.contents m.system_mailbox) (I.contents m.user_mailbox),
  )

  -- `DrainAll` hands the handler every job of the view once, in order, and leaves no job.
  pub drain_all-handle_all :
      {S : Type 0} (fuel : ℕ) (handler : Job → S → S) (m : DualQueueManager I) (s : S)
      → IsWf m
      → length (view m) < fuel
      → (m' : DualQueueManager I) × (drain_all I fuel handler m s
          ≡ some (handle_all I handler (view m) s, m'))
        × (view m' ≡ [])
  unfolding drain_all
  drain_all-handle_all fuel handler m s w l =
      let sys = I.contents m.system_mailbox in
      let user = I.contents m.user_mailbox in
      let total = length-append sys user in
      let (q, drained, q_nil, q_ok) =
        drain_lem I handler fuel m.system_mailbox s sys w.system_ok refl (omega arith) in
      let (r, drained', r_nil, r_ok) =
        drain_lem I handler fuel m.user_mailbox (handle_all I handler sys s) user w.user_ok refl
          (omega arith) in
      (
        record { system_mailbox = q; user_mailbox = r },
        rw (drained, drain_all, drained', handle_all-append I handler sys user s),
        ap₂ ◌++◌ q_nil r_nil,
      )
