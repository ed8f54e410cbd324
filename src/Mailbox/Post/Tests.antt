-- ===== src/Mailbox/Post/Tests.antt =====
-- Suspension, the middleware chain, the dispatch and `PostJob` at concrete inputs: a pool of one
-- worker with a two-queue manager, and a world that is the list of the calls, the last one first.
use emberengine.Prelude.{
  ℕ, ◌+◌, ◌-◌, ◌*◌, ◌/◌, ◌^◌, ◌≡◌, refl, List, [], ◌∷◌, true, false, Option, some, none, arith, ◌⊎◌,
}
use emberengine.Prelude.Int.{ℤ, pos}
use emberengine.BoundedMpsc.{Queue}
use emberengine.BoundedMpsc.Bounds.{IsValid}
use emberengine.Mailbox.Job.{
  Job, other_body, rpc_body, event, rpc, get_envelope, priority_high, priority_normal,
}
use emberengine.Mailbox.Bounded.{bounded_impl}
use emberengine.Mailbox.Managers.{ManagerImpl, dual_impl}
use emberengine.Mailbox.Suspend.{default_should_allow, CompositeSuspendPolicy, IsTyped, reply_rule}
use emberengine.Mailbox.Chain.{
  MailboxError, reject_error, worker_closed, Received, action_continue, action_reject, Middleware,
  MiddlewareChain, execute_on_receive,
}
use emberengine.Mailbox.Chain.Onion.{Wound, execute_on_receive-Wound}
use emberengine.Mailbox.DispatchRing.{DispatchRing, IsGrowing, get, get-Routed, Routed}
use emberengine.Mailbox.Worker.{
  running, Worker, WorkerEnv, WorkerPool, submit_job, begin_stop, dispatch_job, warned,
}
use emberengine.Mailbox.Worker.Submission.{WorkerWf, submit_job-begin_stop}
use emberengine.Mailbox.Worker.Delivery.{PoolWf, Dispatched, dispatch_job-Dispatched}
use emberengine.Mailbox.Post.{Mailbox, PostAnswer, post_job}
use emberengine.Mailbox.Post.Ownership.{Posted, post_job-Posted}

abbrev job : ℕ → ℤ → Job
job n p = record { ident = n; kind = event; priority = p; dispatcher_key = 7; body = other_body }

abbrev reply_job : Job
reply_job = record {
  ident = 5;
  kind = rpc;
  priority = priority_normal;
  dispatcher_key = 0;
  body = rpc_body (some (some true));
}

reply_job-IsTyped : IsTyped reply_job
unfolding reply_rule get_envelope
reply_job-IsTyped = (true, refl)

abbrev policies : CompositeSuspendPolicy
policies = record { policies = some (default_should_allow ∷ []) }

abbrev World : Type 0
World = List ℕ

-- Notes its calls: 10 for `OnReceive`, 20 for `OnComplete`, with its name added.
abbrev noting : ℕ → Received → Middleware World
noting name r = record {
  name = name;
  on_receive = λ e w. (r, (10 + name) ∷ w);
  on_complete = λ e err w. (false, (20 + name) ∷ w);
  on_framework_cleanup = none;
  on_start = λ w. (false, w);
  on_stop = λ w. (false, w);
}

abbrev chain : MiddlewareChain World
chain = record {
  mws =
      noting 1 action_continue
      ∷ noting 2 (action_reject (some (reject_error 4)))
      ∷ noting 3 action_continue
      ∷ [];
  panic_handler = none;
  taken = 0;
  put_back = 0;
}

execute_on_receive-Wound_example :
    Wound chain (job 1 priority_normal) [] (execute_on_receive chain (job 1 priority_normal) [])
execute_on_receive-Wound_example = execute_on_receive-Wound chain (job 1 priority_normal) []

-- The product with the ratio of 2^31 and the divisor, rounded down.
abbrev jump : ℕ → ℕ → ℕ
jump x d = x + x * (2 ^ 31 / d - 1)

abbrev hash : ℕ → ℕ
hash key = key

jump-IsGrowing : IsGrowing hash jump
jump-IsGrowing x d l one most = omega arith

abbrev ring : DispatchRing
ring = record { sorted_ids = pos 0 ∷ pos 3 ∷ [] }

get-Routed_example : Routed hash jump ring.sorted_ids (get hash jump ring 12)
get-Routed_example = get-Routed hash jump jump-IsGrowing ring 12 (omega arith)

abbrev blank : Job
blank = job 0 priority_normal

abbrev impl : ManagerImpl
impl = dual_impl (bounded_impl blank 1)

abbrev empty_queue : Queue Job
empty_queue = record { buffer = blank ∷ blank ∷ []; mask = 1; head = 0; tail = 0; count = 0 }

empty_queue-IsValid : IsValid 1 empty_queue
empty_queue-IsValid = record {
  at_least_two = omega arith;
  fits_int = omega arith;
  sized = refl;
  masked = refl;
  head_word = omega arith;
  ahead = refl;
  within = omega arith;
}

abbrev worker : Worker impl
worker = record {
  state = running;
  queue_manager = some (record { system_mailbox = empty_queue; user_mailbox = empty_queue });
  count = 0;
  wakes = some 0;
}

worker-WorkerWf : WorkerWf impl worker
worker-WorkerWf = record {
  system_ok = empty_queue-IsValid;
  user_ok = empty_queue-IsValid;
  system_jobs = tt;
  user_jobs = tt;
}

abbrev env : WorkerEnv
env = record { queue_full_rejected_total = some 0; stats_enabled = true }

submit_job-begin_stop_example :
    let (err, env', w', job') =
      submit_job impl (begin_stop impl) env worker (job 1 priority_high) in
    (err ≡ some worker_closed)
    × (job' ≡ job 1 priority_high)
    × (env' ≡ env)
    × ((w' ≡ worker) ⊎ (w' ≡ begin_stop impl (warned impl worker (job 1 priority_high))))
submit_job-begin_stop_example =
    submit_job-begin_stop impl (λ u. u) (λ u. u) env worker (job 1 priority_high) (λ u h. h)

abbrev pool : WorkerPool impl
pool = record {
  snap = some (record {
    workers = (pos 0, worker) ∷ [];
    ring = record { sorted_ids = pos 0 ∷ [] };
    dispatch_cnt = [];
    sole_id = some (pos 0);
    count = 1;
  });
  env = env;
  stats_enabled = true;
  enable_auto_scaling = true;
  dispatch_sample_cnt = 0;
  scale_trigger = false;
}

pool-PoolWf : PoolWf impl pool
pool-PoolWf = ((worker-WorkerWf, tt), omega arith, refl, refl)

dispatch_job-Dispatched_example :
    (answer : Option MailboxError × WorkerPool impl × Job) × (dispatch_job impl hash jump
        (λ u. u)
        pool
        (job 1 priority_high)
      ≡ some answer)
    × Dispatched impl pool (job 1 priority_high) answer
dispatch_job-Dispatched_example =
    dispatch_job-Dispatched impl hash jump jump-IsGrowing pool (job 1 priority_high) pool-PoolWf

abbrev mailbox : Mailbox impl World
mailbox = record {
  suspended = true;
  suspend_policy = λ e. some true;
  worker_pool = pool;
  middleware_chain = chain;
  invoker = record {
    on_job_discarded = λ e err w. (true, 30 ∷ w);
    release = λ e w. 40 ∷ w;
    set_middleware_context = λ e ctx w. 50 ∷ w;
  };
  metrics = record {
    post_total = 0;
    suspended_total = 0;
    rejected_total = 0;
    dispatch_failed_total = 0;
  };
}

post_job-Posted_example :
    (answer : PostAnswer (Mailbox impl World) World) × (post_job hash jump
        (λ u. u)
        mailbox
        (job 1 priority_high)
        []
      ≡ some answer)
    × Posted hash jump jump-IsGrowing mailbox (job 1 priority_high) [] answer
post_job-Posted_example =
    post_job-Posted hash jump jump-IsGrowing mailbox (job 1 priority_high) [] pool-PoolWf refl
