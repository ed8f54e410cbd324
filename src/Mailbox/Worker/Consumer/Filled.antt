-- ===== src/Mailbox/Worker/Consumer/Filled.antt =====
-- The two-queue manager is one that a worker can consume.
use emberengine.Prelude.{◌≡◌, refl, sym, ap, ◌∙◌, List, [], ◌∷◌, Option, none, some, ◌⊎◌, inl, inr}
use emberengine.Mailbox.Job.{Job}
use emberengine.Mailbox.Queues.{QueueImpl, handle_all, pop_list}
use emberengine.Mailbox.Managers.{dual_impl}
use emberengine.Mailbox.Dual.{next_job, drain_all, is_empty}
use emberengine.Mailbox.Dual.Order.{
  view, next_job-pop_list, drain_all-handle_all, get_job_len-length,
}
use emberengine.Mailbox.Worker.Consumer.{ConsumerImpl, handle_each}

module _ (I : QueueImpl Job) where
  pub popped :
      (es es' : List Job) (r : Option Job)
      → r ≡ (pop_list es).0
      → es' ≡ (pop_list es).1
      → ((r ≡ none) × (es' ≡ es)) ⊎ ((e : Job) × (r ≡ some e) × (es ≡ e ∷ es'))
  popped [] es' r a b = inl (a, b)
  popped (e ∷ es) es' r a b = inr (e, a, ap (λ t. e ∷ t) (sym b))

  pub handle_all-each :
      {S : Type 0} (handler : Job → S → S) (es : List Job) (s : S)
      → handle_all I handler es s ≡ handle_each handler es s
  handle_all-each handler [] s = refl
  handle_all-each handler (e ∷ es) s = handle_all-each handler es (handler e s)

  abbrev pub dual_consumer : ConsumerImpl
  dual_consumer = record {
    manager = dual_impl I;
    next_job = λ m. some (next_job I m);
    is_empty = is_empty I;
    drain_all = drain_all I;
    next_job_result = λ m w.
        let (first, rest, wf) = next_job-pop_list I m w in
        (
          (next_job I m).0,
          (next_job I m).1,
          refl,
          wf,
          popped (view I m) (view I (next_job I m).1) (next_job I m).0 first rest,
        );
    is_empty_result = λ m w. (get_job_len-length I m w).1;
    drain_all_result = λ fuel handler m s w enough.
        let (m', ended, left) = drain_all-handle_all I fuel handler m s w enough in
        (m', ended ∙ ap (λ t. some (t, m')) (handle_all-each handler (view I m) s), left);
  }
