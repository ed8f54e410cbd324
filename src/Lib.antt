-- ===== src/Lib.antt =====
-- emberengine: models of the engine's core and the theorems about them.
--
-- The core is the mailbox of a service (engine/pkg/actor/mailbox). A caller hands a job to
-- `Mailbox.PostJob` (mailbox.go). A suspended mailbox asks its policy (suspend_policy.go); the job
-- passes the middlewares (middleware_chain.go); the worker pool (worker_pool.go) finds a worker by
-- the dispatch ring (dispatch_ring.go) and the worker (worker.go) queues the job with its queue
-- manager (queue_manager_dual.go, or queue_manager_priority.go with scheduler.go), whose queues are
-- bounded (engine/pkg/utils/boundedmpsc/queue.go) or unbounded.
--
-- Files and what they model, by the names of the code in snake case:
--   Prelude, Circular, Fifo  shared lemmas; windows of circular buffers; the abstract queue.
--   BoundedMpsc              the bounded queue: `New`, `Push`, `Pop`, `PopBatch`, `Empty`, `Len`,
--                            `Cap`. Every method holds the mutex, so it is one function. Bounds has
--                            the invariant, Refine the view as a list, Batch the batch.
--   Mailbox/Job              the fields of a job, its priorities and its payload access.
--   Mailbox/Queues           the queue interface as a record of operations and laws; Bounded fills
--                            it with the bounded queue.
--   Mailbox/Dual             the two-queue manager; Dual/Order its order.
--   Mailbox/Scheduler        the three strategies; the float64 ratios are a parameter.
--   Mailbox/Priority         the multi-level manager; Maps, Levels and Order its lemmas. Its map of
--                            queues is an association list.
--   Mailbox/Managers         the manager interface as a record of operations and laws, filled by
--                            both managers.
--   Mailbox/Suspend          the suspend policies.
--   Mailbox/Chain            the middleware chain, for arbitrary middlewares; Chain/Onion the order
--                            of their calls. A panic of a middleware is a value.
--   Mailbox/DispatchRing     the ring and the jump hash; xxhash and the float64 step are parameters.
--   Mailbox/Worker           `SubmitJob`, `BeginStop` and `DispatchJob`. What holds a mutex is one
--                            step; what other goroutines do before it is a parameter.
--   Mailbox/Post             `PostJob`, `Suspend`, `Resume`. The callbacks of the service and the
--                            methods of the pooled job act on an abstract world.
--   Scaling                  the auto scaler (scaler.go) and its strategies (strategy.go), with the
--                            int32 wrap; the float64 factors are parameters. Limits has its bounds.
--   Breaker                  engine/pkg/utils/circuitbreaker/breaker.go, with the clock as an
--                            argument and each method split behind its first load of the state.
--   Mailbox/QueueSpec        the storage budget at the end of `normalizeQueueSpec` (worker_pool.go);
--                            the sizes in memory are parameters.
--   Bytespool                engine/pkg/utils/bytespool/bytespool.go. Sizes and Reuse have the sizes of
--                            its buffers, Session a client's calls.
--   Frame                    the frames of engine/pkg/utils/network/tcp_msg.go, over Bytespool. Copy has
--                            the parts of a frame, Init the limits that the initialisers of the
--                            connections leave, RoundTrip and Total the theorems.
--   Mailbox/Exec             the handling of one job, `safeExecInternal` and `discardExec` (worker.go);
--                            Exec/Release and Exec/Discard its end.
--   Mailbox/Worker/Consumer  the loop of a worker and its draining, as steps among submissions and
--                            stops. Accounts, Steps and Accounting have its jobs, Replay and Orderly
--                            its log, Filled the two-queue manager as a consumer's. What becomes of
--                            a read sent to the read pipeline is not in it.
--   Mailbox/ReadWrite        `execWithRW`, `dispatchRead`, `launchRead` and, in Mailbox/ExecWrite,
--                            `execWrite` (worker.go), the lock
--                            of rw_controller.go and `SetRWEnabled` (worker_pool.go), as step relations
--                            on what the goroutines share. Places has where the jobs and the lock are,
--                            Order and Progress the reads and writes, Switch the end of the mode.
--   Mpsc                     engine/pkg/utils/mpsc/deque.go, as the steps of its producers and its
--                            consumer. Chains has the linked nodes, Order the theorem.
--   Deque                    engine/pkg/utils/queue/deque.go. View has the list that it shows, Resize
--                            its buffer, Refine and Calls the calls, Access, Search and Clear the other
--                            operations, Order the refinement, Rotate and Turn its rotation.
--   Throttle                 the token bucket and the sliding window of engine/pkg/event/throttle.go,
--                            with the wrap of an int64 and the clock as an argument. Calls has the
--                            calls of a bucket, Refill, Bucket and Starved what it lets through,
--                            Windows and Sliding the same of a window; Manager the throttle manager
--                            and the classes of events (category.go), Manager/Apart its limiters.
--   HashRing                 engine/pkg/utils/hashring/hashring.go. Search has the node of a hash, Keys
--                            the order of the nodes, Served what Get answers, Removal and Moves what
--                            Remove changes, Session the calls, Doubled a node that stands twice.
--   Repository               engine/pkg/cluster/endpoints/repository/repository.go. Index has what the
--                            indexes hold, Agree the services they hold, Session the calls, Race an
--                            AddWithMeta amid a Remove; Selector is selector.go, with Selector/Query.
--   Errorx                   the errors of engine/pkg/utils/errorx/errorx.go, how they print and their
--                            codes; a panic is `none`. Wire is wire.go, with fmt and protobuf as
--                            parameters; Wire/RoundTrip has what a peer reads, Wire/Depth the limit.
--   (the Tests files)        the theorems applied at concrete inputs.
--
-- Go's machine integers keep their wrap-around where a counter runs on (`word`); indices and
-- lengths are natural numbers, and so are the uint64 counts of the reads, one for each read since
-- the start. Loops that are not structural run on fuel: draining a queue takes one unit per job
-- and one more, the jump hash one round per bucket and one more, and the theorems say that this is
-- enough.
--
-- Not modelled: the resizing of the pool itself, the construction from configurations, the built-in
-- middlewares, Insert and Remove of the deque, BatchPop of the unbounded queue, and the parts
-- of the engine around the mailbox: cluster, rpc, gate and database modules, which are mostly
-- input and output. Logs are left out everywhere.
pub mod Prelude
pub mod Circular
pub mod Fifo
pub mod BoundedMpsc
pub mod Mailbox
pub mod Breaker
pub mod Scaling
pub mod Throttle
pub mod HashRing
pub mod Repository
pub mod Bytespool
pub mod Frame
pub mod Mpsc
pub mod Deque
pub mod Errorx
