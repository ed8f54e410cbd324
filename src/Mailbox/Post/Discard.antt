-- ===== src/Mailbox/Post/Discard.antt =====
-- How a job that the middlewares have seen is discarded.
use emberengine.Prelude.{ℕ, ◌+◌, ◌≡◌, refl, ap, sym, [], Option, none, some, take, arith}
use emberengine.Mailbox.Job.{Job}
use emberengine.Mailbox.Chain.{MailboxError, MiddlewareContext, MiddlewareChain, safe_on_complete}
use emberengine.Mailbox.Chain.Onion.{
  unwind, Closes, execute_on_complete-none, unwind_none, safe_on_complete_taken,
}
use emberengine.Mailbox.Managers.{ManagerImpl}
use emberengine.Mailbox.Post.{Mailbox, PostAnswer, notify_job_discarded, discard_received}

-- The chain as a round leaves it, and the context that it hands out.
abbrev pub Open :
    {W : Type 0}
    → MiddlewareChain W
    → ℕ
    → Job
    → Option (MiddlewareContext W)
    → MiddlewareChain W
    → Type 0
Open c n job ctx c1 = elim ctx [
  | none ↦ (c.mws ≡ []) × (c1 ≡ c)
  | some mc ↦ (c1 ≡ record c { taken = c.taken + 1 }) × Closes job c.mws n mc
]

module _ {I : ManagerImpl} {W : Type 0} where
  -- `discard_received` after a round: the service learns of the job, the middlewares that saw it
  -- complete it, the last one first, and it is released, once and last.
  abbrev pub Discarded :
      Mailbox I W
      → MiddlewareChain W
      → Job
      → ℕ
      → MailboxError
      → W
      → PostAnswer (Mailbox I W) W
      → Type 0
  Discarded mb c job n e w (err, mb', w', job') =
      (err ≡ some e)
      × (mb'.worker_pool ≡ mb.worker_pool)
      × (job' ≡ job)
      × (w'
          ≡ mb.invoker.release job (
              unwind (safe_on_complete c job (some e, none)) (take n c.mws)
                (notify_job_discarded mb.invoker job e w)))
      × (mb'.middleware_chain.mws ≡ c.mws)
      × (mb'.middleware_chain.taken + c.put_back ≡ c.taken + mb'.middleware_chain.put_back)

  discard-with_context :
      (mb : Mailbox I W) (c : MiddlewareChain W) (n : ℕ) (mc : MiddlewareContext W) (job : Job)
      (e : MailboxError) (w : W)
      → Closes job c.mws n mc
      → (answer : PostAnswer (Mailbox I W) W) × (discard_received mb
            (record c { taken = c.taken + 1 })
            (some mc)
            job
            e
            w
          ≡ some answer)
        × Discarded mb c job n e w answer
  unfolding discard_received
  discard-with_context mb c n mc job e w closes =
      let c1 : MiddlewareChain W = record c { taken = c.taken + 1 } in
      let told = notify_job_discarded mb.invoker job e w in
      let done = (closes c1 (some e, none) told).0 in
      let end = unwind (safe_on_complete c1 job (some e, none)) (take n c.mws) told in
      let c2 : MiddlewareChain W = record c1 { put_back = c1.put_back + 1 } in
      (
        (some e, record mb { middleware_chain = c2 }, mb.invoker.release job end, job),
        rw (done, discard_received) refl,
        (
          refl,
          refl,
          refl,
          ap (λ act. mb.invoker.release job (unwind act (take n c.mws) told))
              (safe_on_complete_taken c (c.taken + 1) job (some e, none)),
          refl,
          omega arith,
        ),
      )

  discard-no_context :
      (mb : Mailbox I W) (c : MiddlewareChain W) (n : ℕ) (job : Job) (e : MailboxError) (w : W)
      → c.mws ≡ []
      → (answer : PostAnswer (Mailbox I W) W) × (discard_received mb c none job e w ≡ some answer)
        × Discarded mb c job n e w answer
  unfolding discard_received
  discard-no_context mb c n job e w bare =
      let told = notify_job_discarded mb.invoker job e w in
      (
        (some e, record mb { middleware_chain = c }, mb.invoker.release job told, job),
        rw (execute_on_complete-none c (some e, none) told, discard_received) refl,
        (
          refl,
          refl,
          refl,
          ap (mb.invoker.release job)
              (sym (unwind_none (safe_on_complete c job (some e, none)) n c.mws told bare)),
          refl,
          omega arith,
        ),
      )

  pub discard_received-Discarded :
      (mb : Mailbox I W) (c c1 : MiddlewareChain W) (n : ℕ) (ctx : Option (MiddlewareContext W))
      (job : Job) (e : MailboxError) (w : W)
      → Open c n job ctx c1
      → (answer : PostAnswer (Mailbox I W) W) × (discard_received mb c1 ctx job e w ≡ some answer)
        × Discarded mb c job n e w answer
  discard_received-Discarded mb c c1 n none job e w (bare, same) =
      rw same (discard-no_context mb c n job e w bare)
  discard_received-Discarded mb c c1 n (some mc) job e w (grown, closes) =
      rw grown (discard-with_context mb c n mc job e w closes)
