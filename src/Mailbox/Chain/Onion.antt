-- ===== src/Mailbox/Chain/Onion.antt =====
-- The order of the calls of a middleware chain: the first middlewares see the job in order, up to
-- one that ends the round, and the same ones see its end in the reverse order.
use emberengine.Prelude.{
  ℕ, zero, suc, ◌+◌, ◌≤◌, ◌≡◌, refl, ap, subst, ◌∙◌, sym, List, [], ◌∷◌, ◌++◌, true, Option, none,
  some, ◌⊎◌, inl, inr, length, take, arith, leb, Option-cases,
}
use emberengine.Mailbox.Job.{Job}
use emberengine.Mailbox.Chain.{
  Completion, Phase, Middleware, MiddlewareContext, MiddlewareChain, MiddlewareResult,
  continue_result, verdict, safe_on_receive, receive_loop, execute_on_receive, at_index, run_down,
  execute_down, execute_on_complete, safe_on_complete, recovered, handle_panic,
  execute_framework_cleanup, safe_framework_cleanup,
}

module _ {W : Type 0} where
  -- The world after `OnReceive` of all of the middlewares, in order.
  abbrev pub wind : MiddlewareChain W → Job → List (Middleware W) → W → W
  wind c job [] w = w
  wind c job (m ∷ ms) w = wind c job ms (safe_on_receive c m job w).1

  -- The world after an action of all of the middlewares, the last one first.
  abbrev pub unwind : (Middleware W → W → W) → List (Middleware W) → W → W
  unwind act [] w = w
  unwind act (m ∷ ms) w = act m (unwind act ms w)

  -- All of the middlewares let the job pass.
  abbrev pub AllPass : MiddlewareChain W → Job → List (Middleware W) → W → Type 0
  AllPass c job [] w = Unit
  AllPass c job (m ∷ ms) w =
      let (r, w') = safe_on_receive c m job w in (verdict m.name r ≡ none) × AllPass c job ms w'

  -- All pass and the result is to continue, or one ends the round with the result, and it is the
  -- last of those that were called.
  abbrev pub Ends :
      MiddlewareChain W → Job → List (Middleware W) → W → ℕ → MiddlewareResult → Type 0
  Ends c job ms w n result =
      ((n ≡ length ms) × (result ≡ continue_result) × AllPass c job ms w)
      ⊎ ((before : List (Middleware W)) × (m : Middleware W) × (after : List (Middleware W)) × (ms
            ≡ before ++ m ∷ after)
          × (n ≡ suc (length before))
          × AllPass c job before w
          × (verdict m.name (safe_on_receive c m job (wind c job before w)).0 ≡ some result))

  -- What a round over the middlewares from number `i` does.
  abbrev pub Round :
      MiddlewareChain W → Job → ℕ → List (Middleware W) → W → MiddlewareResult × ℕ × W → Type 0
  Round c job i ms w (result, executed, w') =
      (n : ℕ) × (executed ≡ i + n)
      × (n ≤ length ms)
      × (w' ≡ wind c job (take n ms) w)
      × Ends c job ms w n result

  further :
      (c : MiddlewareChain W) (job : Job) (m : Middleware W) (ms : List (Middleware W)) (w : W)
      (n : ℕ) (result : MiddlewareResult)
      → verdict m.name (safe_on_receive c m job w).0 ≡ none
      → Ends c job ms (safe_on_receive c m job w).1 n result
      → Ends c job (m ∷ ms) w (suc n) result
  further c job m ms w n result v (inl (e, r, p)) = inl (ap suc e, r, (v, p))
  further c job m ms w n result v (inr (before, x, after, e, k, p, stop)) =
      inr (m ∷ before, x, after, ap (λ l. m ∷ l) e, ap suc k, (v, p), stop)

  pub receive_loop-Round :
      (c : MiddlewareChain W) (job : Job) (i : ℕ) (ms : List (Middleware W)) (w : W)
      → Round c job i ms w (receive_loop c job i ms w)
  unfolding receive_loop
  receive_loop-Round c job i [] w = (0, omega arith, omega arith, refl, inl (refl, refl, tt))
  receive_loop-Round c job i (m ∷ ms) w =
      let (r, w') = safe_on_receive c m job w in
      elim (Option-cases (verdict m.name r)) [
        | inl pass ↦
            let later = receive_loop c job (i + 1) ms w' in
            let step : receive_loop c job i (m ∷ ms) w ≡ later = rw (pass, receive_loop) refl in
            let (n, executed, l, winds, ends) = receive_loop-Round c job (i + 1) ms w' in
            subst (Round c job i (m ∷ ms) w) (sym step) (
              suc n,
              omega (arith, executed),
              omega arith,
              winds,
              further c job m ms w n later.0 pass ends,
            )
        | inr (result, stop) ↦
            let step : receive_loop c job i (m ∷ ms) w ≡ (result, i + 1, w') =
              rw (stop, receive_loop) refl in
            subst (Round c job i (m ∷ ms) w) (sym step)
              (1, refl, omega arith, refl, inr ([], m, ms, refl, refl, tt, stop))
      ]

  -- The elements below an index, and the one at it.
  take-at_index :
      (i : ℕ) (ms : List (Middleware W))
      → suc i ≤ length ms
      → (m : Middleware W) × (at_index ms i ≡ some m) × (take (suc i) ms ≡ take i ms ++ m ∷ [])
  unfolding at_index
  take-at_index i [] l = absurd (omega arith)
  take-at_index zero (m ∷ ms) l = (m, refl, refl)
  take-at_index (suc i) (m ∷ ms) l =
      let (x, e, t) = take-at_index i ms (omega arith) in (x, e, ap (λ l. m ∷ l) t)

  unwind-snoc :
      (act : Middleware W → W → W) (ms : List (Middleware W)) (m : Middleware W) (w : W)
      → unwind act (ms ++ m ∷ []) w ≡ unwind act ms (act m w)
  unwind-snoc act [] m w = refl
  unwind-snoc act (x ∷ ms) m w = ap (act x) (unwind-snoc act ms m w)

  -- The downward loop never leaves the list.
  pub run_down-unwind :
      (act : Middleware W → W → W) (n : ℕ) (ms : List (Middleware W)) (w : W)
      → n ≤ length ms
      → run_down act n ms w ≡ some (unwind act (take n ms) w)
  unfolding run_down
  run_down-unwind act zero ms w l = refl
  run_down-unwind act (suc n) ms w l =
      let (m, found, split) = take-at_index n ms l in
      rw (found, run_down)
        (run_down-unwind act n ms (act m w) (omega arith)
          ∙ ap some (sym (unwind-snoc act (take n ms) m w) ∙ ap (λ l. unwind act l w) (sym split)))

  -- The chain with one context more given back, and the world after the actions.
  abbrev Unwound :
      MiddlewareChain W
      → (Middleware W → W → W)
      → List (Middleware W)
      → W
      → Option (MiddlewareChain W × W)
      → Type 0
  Unwound c act ms w o = o ≡ some (record c { put_back = c.put_back + 1 }, unwind act ms w)

  execute_down-Unwound :
      (c : MiddlewareChain W) (act : Middleware W → W → W) (job : Job) (n : ℕ)
      (ms : List (Middleware W)) (w : W)
      → n ≤ length ms
      → Unwound c act
          (take n ms)
          w
          (execute_down c act (record { job = job; executed = n; middleware_snapshot = some ms }) w)
  unfolding execute_down
  execute_down-Unwound c act job n ms w l =
      let small : leb n (length ms) ≡ true = ground arith in
      rw (small, execute_down, run_down-unwind act n ms w l) refl

  -- What is known of a context: the number of middlewares called, and that both ways out of the
  -- chain, whatever was added to it or removed from it meanwhile, go through just these, the last
  -- one first, and give the context back once.
  abbrev pub Closes : Job → List (Middleware W) → ℕ → MiddlewareContext W → Type 0
  Closes job ms n mc =
      (c : MiddlewareChain W) (err : Completion) (w : W)
      → Unwound c (safe_on_complete c job err) (take n ms) w (execute_on_complete c (some mc) err w)
        × Unwound c (safe_framework_cleanup c job err) (take n ms) w
            (execute_framework_cleanup c (some mc) err w)

  pub closes :
      (job : Job) (n : ℕ) (ms : List (Middleware W))
      → n ≤ length ms
      → Closes job ms n (record { job = job; executed = n; middleware_snapshot = some ms })
  unfolding execute_on_complete execute_framework_cleanup
  closes job n ms l c err w = (
    execute_down-Unwound c (safe_on_complete c job err) job n ms w l,
    execute_down-Unwound c (safe_framework_cleanup c job err) job n ms w l,
  )

  -- A round over a chain: it takes a context unless the chain is empty.
  abbrev pub Wound :
      MiddlewareChain W
      → Job
      → W
      → MiddlewareResult × Option (MiddlewareContext W) × MiddlewareChain W × W
      → Type 0
  Wound c job w (result, ctx, c', w') =
      (n : ℕ) × (n ≤ length c.mws)
      × (w' ≡ wind c job (take n c.mws) w)
      × Ends c job c.mws w n result
      × (elim ctx [
        | none ↦ (c.mws ≡ []) × (c' ≡ c)
        | some mc ↦ (c' ≡ record c { taken = c.taken + 1 }) × Closes job c.mws n mc
      ])

  fields-Wound :
      (ms : List (Middleware W)) (handler : Option (Phase → ℕ → W → W)) (taken put_back : ℕ)
      (job : Job) (w : W)
      → let c : MiddlewareChain W = record {
        mws = ms;
        panic_handler = handler;
        taken = taken;
        put_back = put_back;
      } in
        Wound c job w (execute_on_receive c job w)
  unfolding execute_on_receive
  fields-Wound [] handler taken put_back job w =
      (0, omega arith, refl, inl (refl, refl, tt), (refl, refl))
  fields-Wound (m ∷ ms) handler taken put_back job w =
      let c : MiddlewareChain W = record {
        mws = m ∷ ms;
        panic_handler = handler;
        taken = taken;
        put_back = put_back;
      } in
      let (n, counted, l, winds, ends) = receive_loop-Round c job 0 (m ∷ ms) w in
      let (result, executed, w') = receive_loop c job 0 (m ∷ ms) w in
      let same : n ≡ executed = omega (arith, counted) in
      (
        n,
        l,
        winds,
        ends,
        (
          refl,
          subst
              (λ k.
                Closes job (m ∷ ms) n
                  (record { job = job; executed = k; middleware_snapshot = some (m ∷ ms) }))
              same (closes job n (m ∷ ms) l),
        ),
      )

  -- `OnReceive` is called on the first middlewares, in order, up to one that rejects, skips or
  -- panics, and its verdict is the result, or on all, and the result is to continue. `OnComplete`
  -- and the framework cleanup are called on those that were called, the rejecting one included,
  -- in the reverse order, also if the chain has changed since; neither ends in an index out of
  -- range, and each gives the context back once.
  pub execute_on_receive-Wound :
      (c : MiddlewareChain W) (job : Job) (w : W) → Wound c job w (execute_on_receive c job w)
  execute_on_receive-Wound c job w = fields-Wound c.mws c.panic_handler c.taken c.put_back job w

  -- Without a context there is nothing to complete.
  pub execute_on_complete-none :
      (c : MiddlewareChain W) (err : Completion) (w : W)
      → execute_on_complete c none err w ≡ some (c, w)
  unfolding execute_on_complete
  execute_on_complete-none c err w = refl

  pub execute_framework_cleanup-none :
      (c : MiddlewareChain W) (err : Completion) (w : W)
      → execute_framework_cleanup c none err w ≡ some (c, w)
  unfolding execute_framework_cleanup
  execute_framework_cleanup-none c err w = refl

  pub safe_on_complete_taken :
      (c : MiddlewareChain W) (n : ℕ) (job : Job) (err : Completion)
      → safe_on_complete (record c { taken = n }) job err ≡ safe_on_complete c job err
  unfolding safe_on_complete recovered handle_panic
  safe_on_complete_taken c n job err = refl

  take_none : (n : ℕ) → take {A = Middleware W} n [] ≡ []
  take_none zero = refl
  take_none (suc n) = refl

  pub unwind_none :
      (act : Middleware W → W → W) (n : ℕ) (ms : List (Middleware W)) (w : W)
      → ms ≡ []
      → unwind act (take n ms) w ≡ w
  unwind_none act n ms w e =
      ap (λ l. unwind act (take n l) w) e ∙ ap (λ l. unwind act l w) (take_none n)
