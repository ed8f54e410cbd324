-- ===== src/Mpsc/Order.antt =====
-- The queue is first in, first out in the order of the swaps, whatever the interleaving.
use native.Mathlib.Decide.{ℕ_discrete}
use emberengine.Prelude.{
  ℕ, suc, ◌+◌, ◌≡◌, refl, sym, ap, ap₂, ◌∙◌, subst, ◌⊎◌, inl, inr, List, [], ◌∷◌, ◌++◌, Bool, true,
  false, Option, none, some, ltb, arith, Bool-cases, length, length-append, append_assoc,
}
use emberengine.Prelude.Words.{word}
use emberengine.Mpsc.{
  Queue, update, Event, swaps, links, counts, pops, new, swap, link, count, pop_next, pop, is_none,
  is_empty, step, run,
}
use emberengine.Mpsc.Chains.{
  update_same, update_ne, NotIn, Distinct, ChainOk, AllUsed, NotIn-free, ChainOk_congr, NotIn-head,
  ChainOk-swap, ChainOk-link, Distinct-append, NotIn-front, AllUsed-congr, AllUsed-append, values,
  values-update, values-append,
}

module _ {A : Type 0} where
  -- The nodes behind the tail are `rest`: they hold what was pushed and not popped. Links are held
  -- only in the chain, and the nodes of the chain are not free.
  pub record IsValid (q : Queue A) (rest : List ℕ) : Type 0 where
    pub chain : ChainOk q.next q.holds q.head q.tail rest
    pub distinct : Distinct (q.tail ∷ rest)
    pub used : AllUsed q.is_free (q.tail ∷ rest)
    pub off : (i : ℕ) → NotIn i (q.tail ∷ rest) → q.holds i ≡ none
    pub fifo : q.pushed ≡ q.popped ++ values q.val rest
    pub len_ok : word (q.len + q.started) ≡ word (length rest + q.counted)

  new-IsValid : (zero_val : A) → IsValid (new zero_val) []
  unfolding new
  new-IsValid zero_val = record {
    chain = (refl, refl, refl);
    distinct = (tt, tt);
    used = (refl, tt);
    off = λ i out. refl;
    fifo = refl;
    len_ok = refl;
  }

  swap-IsValid :
      (x : A) (n : ℕ) (q : Queue A) (rest : List ℕ)
      → IsValid q rest
      → (rest' : List ℕ) × IsValid (swap x n q) rest'
  unfolding swap
  swap-IsValid x n q rest v = elim (Bool-cases (q.is_free n)) [
    | inr busy ↦
        let step : swap x n q ≡ q = rw busy refl in (rest, subst (λ t. IsValid t rest) (sym step) v)
    | inl free ↦
        let out = NotIn-free q.is_free n (q.tail ∷ rest) free v.used in
        let q' = record q {
          head = n;
          next = update q.next n none;
          val = update q.val n x;
          is_free = update q.is_free n false;
          holds = update q.holds q.head (some n);
          started = q.started + 1;
          pushed = q.pushed ++ x ∷ [];
        } in
        let step : swap x n q ≡ q' = rw free refl in
        (
          rest ++ n ∷ [],
          subst (λ t. IsValid t (rest ++ n ∷ [])) (sym step)
              (record {
                chain =
                    ChainOk-swap q.next q.holds q.head q.tail n rest v.chain v.distinct out
                      (v.off n out);
                distinct = Distinct-append (q.tail ∷ rest) n v.distinct out;
                used =
                    AllUsed-append (update q.is_free n false) (q.tail ∷ rest) n
                      (AllUsed-congr q.is_free (update q.is_free n false) n (q.tail ∷ rest) out
                        (λ i. update_ne q.is_free n i false) v.used)
                      (update_same q.is_free n false);
                off = λ i i_out.
                    let front = NotIn-front i (q.tail ∷ rest) n i_out in
                    update_ne q.holds q.head i (some n)
                      (NotIn-head q.next q.holds q.head q.tail i rest v.chain front)
                    ∙ v.off i front;
                fifo =
                    ap (λ t. t ++ x ∷ []) v.fifo
                    ∙ append_assoc q.popped (values q.val rest) (x ∷ [])
                    ∙ ap (λ t. q.popped ++ t)
                        (ap₂ (λ a b. a ++ b ∷ []) (sym (values-update q.val n x rest out.1))
                            (sym (update_same q.val n x))
                          ∙ sym (values-append (update q.val n x) rest n));
                len_ok = omega (arith, v.len_ok, length-append rest (n ∷ []));
              }),
        )
  ]

  link-IsValid :
      (a : ℕ) (o : Option ℕ) (q : Queue A) (rest : List ℕ)
      → q.holds a ≡ o
      → IsValid q rest
      → IsValid (link a o q) rest
  unfolding link
  link-IsValid a none q rest held v = v
  link-IsValid a (some n) q rest held v = record {
    chain = ChainOk-link q.next q.holds q.head q.tail a n rest v.chain v.distinct held;
    distinct = v.distinct;
    used = v.used;
    off = λ i out.
        update_ne q.holds a i none (λ e. cc (ap q.holds e, v.off i out, held)) ∙ v.off i out;
    fifo = v.fifo;
    len_ok = v.len_ok;
  }

  count-IsValid : (q : Queue A) (rest : List ℕ) → IsValid q rest → IsValid (count q) rest
  unfolding count
  count-IsValid q rest v = elim (Bool-cases (ltb q.counted q.linked)) [
    | inr none_left ↦
        let step : count q ≡ q = rw none_left refl in subst (λ t. IsValid t rest) (sym step) v
    | inl some_left ↦
        let step : count q ≡ record q { len = word (q.len + 1); counted = q.counted + 1 } =
          rw some_left refl in
        subst (λ t. IsValid t rest) (sym step)
          (record {
            chain = v.chain;
            distinct = v.distinct;
            used = v.used;
            off = v.off;
            fifo = v.fifo;
            len_ok = omega (arith, v.len_ok);
          })
  ]

  -- A pop of the first node behind the tail.
  pop_first-IsValid :
      (zero_val : A) (q : Queue A) (b : ℕ) (rest : List ℕ)
      → q.holds q.tail ≡ none
      → IsValid q (b ∷ rest)
      → IsValid (pop_next zero_val (some b) q).1 rest
  unfolding pop_next
  pop_first-IsValid zero_val q b rest free v = record {
    chain =
        ChainOk_congr q.next (update q.next q.tail none) q.holds q.holds q.head b rest q.tail
          v.distinct.0 (λ i. update_ne q.next q.tail i none) (λ i ne. refl) v.chain.1;
    distinct = v.distinct.1;
    used =
        AllUsed-congr q.is_free (update q.is_free q.tail true) q.tail (b ∷ rest) v.distinct.0
          (λ i. update_ne q.is_free q.tail i true) v.used.1;
    off = λ i out. elim (ℕ_discrete i q.tail) [
      | yes e ↦ ap q.holds e ∙ free
      | no ne ↦ v.off i (ne, out)
    ];
    fifo =
        v.fifo
        ∙ sym (append_assoc q.popped (q.val b ∷ []) (values q.val rest))
        ∙ ap (λ t. (q.popped ++ q.val b ∷ []) ++ t)
            (sym (values-update q.val q.tail zero_val rest v.distinct.0.1));
    len_ok = omega (arith, v.len_ok);
  }

  -- What `Pop` meets behind the tail: nothing, a node whose link is held, or the first node.
  pop_next-IsValid :
      (zero_val : A) (o : Option ℕ) (q : Queue A) (rest : List ℕ)
      → q.next q.tail ≡ o
      → IsValid q rest
      → (rest' : List ℕ) × IsValid (pop_next zero_val o q).1 rest'
  unfolding pop_next
  pop_next-IsValid zero_val none q rest here v = (rest, v)
  pop_next-IsValid zero_val (some m) q [] here v = absurd (cc (here, v.chain.1))
  pop_next-IsValid zero_val (some m) q (b ∷ rest) here v = elim v.chain.0 [
    | inr (p, held) ↦ absurd (cc (here, p))
    | inl (p, free) ↦
        let same : b ≡ m = ap (λ o. elim o [ none ↦ b | some k ↦ k ]) (sym p ∙ here) in
        (
          rest,
          subst (λ k. IsValid (pop_next zero_val (some k) q).1 rest) same
              (pop_first-IsValid zero_val q b rest free v),
        )
  ]

  step-IsValid :
      (zero_val : A) (e : Event A) (q : Queue A) (rest : List ℕ)
      → IsValid q rest
      → (rest' : List ℕ) × IsValid (step zero_val e q) rest'
  unfolding step pop
  step-IsValid zero_val (swaps x n) q rest v = swap-IsValid x n q rest v
  step-IsValid zero_val (links a) q rest v = (rest, link-IsValid a (q.holds a) q rest refl v)
  step-IsValid zero_val counts q rest v = (rest, count-IsValid q rest v)
  step-IsValid zero_val pops q rest v = pop_next-IsValid zero_val (q.next q.tail) q rest refl v

  run-IsValid :
      (zero_val : A) (es : List (Event A)) (q : Queue A) (rest : List ℕ)
      → IsValid q rest
      → (rest' : List ℕ) × IsValid (run zero_val es q) rest'
  unfolding run
  run-IsValid zero_val [] q rest v = (rest, v)
  run-IsValid zero_val (e ∷ es) q rest v =
      let (rest', v') = step-IsValid zero_val e q rest v in
      run-IsValid zero_val es (step zero_val e q) rest' v'

  -- What a pop answers is the oldest value that was pushed and not popped, or none where there is
  -- none or the producer of the oldest has not linked its node.
  abbrev pub Popped : List A → Queue A → Option A × Queue A → Type 0
  Popped [] q (r, q') = (r ≡ none) × (q' ≡ q)
  Popped (x ∷ xs) q (r, q') =
      ((r ≡ some x) × (q'.popped ≡ q.popped ++ x ∷ []))
      ⊎ ((r ≡ none) × (q' ≡ q) × ((n : ℕ) × (q.holds q.tail ≡ some n)))

  pop-Popped :
      (zero_val : A) (q : Queue A) (rest : List ℕ)
      → IsValid q rest
      → Popped (values q.val rest) q (pop zero_val q)
  unfolding pop pop_next
  pop-Popped zero_val q [] v =
      let step : pop zero_val q ≡ (none, q) = ap (λ o. pop_next zero_val o q) v.chain.1 in
      subst (Popped [] q) (sym step) (refl, refl)
  pop-Popped zero_val q (b ∷ rest) v = elim v.chain.0 [
    | inl (p, free) ↦
        subst (Popped (values q.val (b ∷ rest)) q) (sym (ap (λ o. pop_next zero_val o q) p))
          (inl (refl, refl))
    | inr (p, held) ↦
        subst (Popped (values q.val (b ∷ rest)) q) (sym (ap (λ o. pop_next zero_val o q) p))
          (inr (refl, refl, (b, held)))
  ]

  abbrev pub answers_none : Option A → Bool
  answers_none none = true
  answers_none (some x) = false

  empty_from :
      (zero_val : A) (o : Option ℕ) (q : Queue A)
      → is_none o ≡ answers_none (pop_next zero_val o q).0
  unfolding pop_next
  empty_from zero_val none q = refl
  empty_from zero_val (some m) q = refl

  is_empty-pop : (zero_val : A) (q : Queue A) → is_empty q ≡ answers_none (pop zero_val q).0
  unfolding is_empty pop
  is_empty-pop zero_val q = empty_from zero_val (q.next q.tail) q

  length-values : (f : ℕ → A) (xs : List ℕ) → length (values f xs) ≡ length xs
  length-values f [] = refl
  length-values f (x ∷ xs) = ap suc (length-values f xs)

  -- What is true between any two steps, with the values `left` in the queue.
  abbrev pub FirstInFirstOut : A → Queue A → List A → Type 0
  FirstInFirstOut zero_val q left =
      (q.pushed ≡ q.popped ++ left)
      × Popped left q (pop zero_val q)
      × (is_empty q ≡ answers_none (pop zero_val q).0)
      × (word (q.len + q.started) ≡ word (length left + q.counted))

  -- After any interleaving of swaps, links, counts and pops, from the new queue and whichever free
  -- nodes the pool gives, the values popped are the first of those pushed, in the order of the swaps,
  -- once each. The next pop answers the oldest value not popped yet, or none where there is none or
  -- the push of the oldest has not linked its node; `Empty` tells whether it answers none. `Len`
  -- is the number of values not popped, less the pushes that are not counted yet, modulo 2^64.
  pub run-FirstInFirstOut :
      (zero_val : A) (es : List (Event A))
      → (left : List A) × FirstInFirstOut zero_val (run zero_val es (new zero_val)) left
  run-FirstInFirstOut zero_val es =
      let q = run zero_val es (new zero_val) in
      let (rest, v) = run-IsValid zero_val es (new zero_val) [] (new-IsValid zero_val) in
      (
        values q.val rest,
        (
          v.fifo,
          pop-Popped zero_val q rest v,
          is_empty-pop zero_val q,
          v.len_ok ∙ ap (λ n. word (n + q.counted)) (sym (length-values q.val rest)),
        ),
      )
