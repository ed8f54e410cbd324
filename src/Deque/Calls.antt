-- ===== src/Deque/Calls.antt =====
-- The calls of a deque and of a list, answer by answer.
use emberengine.Prelude.{
  ℕ, zero, suc, ◌+◌, ◌≡◌, refl, sym, ap, ◌∙◌, subst, List, [], ◌∷◌, ◌++◌, leb, if◌then◌else◌, arith,
  length, get_or, set, Bool, ◌⊎◌, inl, inr, Option, none, some,
}
use emberengine.Prelude.Int.{ℤ, pos, negsuc}
use emberengine.Circular.{length-window}
use emberengine.Deque.{
  Deque, push_back, push_front, drop_front, drop_back, shrink_if_excess, pop_front, pop_back, front,
  back, at_index, set_index, clear, index, r_index, set_min_capacity, prev,
}
use emberengine.Deque.View.{view, Ring, drop_front_lem, drop_back_lem}
use emberengine.Deque.Refine.{IsValid, no_cells, shrink_lem}

-- The calls; an index is not negative.
pub data Call (A : Type 0) : Type 0 where
  pushes_back pushes_front : A → Call A
  pops_front pops_back reads_front reads_back clears : Call A
  reads limits : ℕ → Call A
  finds finds_last : (A → Bool) → Call A
  writes : ℕ → A → Call A

-- A panic, nothing to say, a value, or an index.
pub data Answer (A : Type 0) : Type 0 where
  panic nothing : Answer A
  value : A → Answer A
  position : ℤ → Answer A

module _ {A : Type 0} where
  abbrev pub popped {ℓ} : {S : Type ℓ} → S → Option (A × S) → Answer A × S
  popped s none = (panic, s)
  popped s (some (x, s')) = (value x, s')

  abbrev pub read : Option A → Answer A
  read none = panic
  read (some x) = value x

  abbrev pub written {ℓ} : {S : Type ℓ} → S → Option S → Answer A × S
  written s none = (panic, s)
  written s (some s') = (nothing, s')

  -- The list: its last element and the rest.
  abbrev pub keep_first : A → Option (A × List A) → Option (A × List A)
  keep_first x none = some (x, [])
  keep_first x (some (y, ys)) = some (y, x ∷ ys)

  abbrev pub unsnoc : List A → Option (A × List A)
  unsnoc [] = none
  unsnoc (x ∷ xs) = keep_first x (unsnoc xs)

  abbrev pub uncons : List A → Option (A × List A)
  uncons [] = none
  uncons (x ∷ xs) = some (x, xs)

  abbrev pub first_of : Option (A × List A) → Option A
  first_of none = none
  first_of (some (x, xs)) = some x

  -- The index of the first element, counted from `i`, that satisfies the test.
  unfoldable pub list_index : (A → Bool) → List A → ℕ → ℤ
  list_index f [] i = negsuc 0
  list_index f (x ∷ xs) i = if f x then pos i else list_index f xs (i + 1)

  pub unsnoc-append : (xs : List A) (y : A) → unsnoc (xs ++ y ∷ []) ≡ some (y, xs)
  unsnoc-append [] y = refl
  unsnoc-append (x ∷ xs) y = ap (keep_first x) (unsnoc-append xs y)

module _ {A : Type 0} (blank : A) where
  -- The greatest index below `n` with an element that satisfies the test.
  unfoldable pub list_r_index : (A → Bool) → List A → ℕ → ℤ
  list_r_index f l zero = negsuc 0
  list_r_index f l (suc n) = if f (get_or l n blank) then pos n else list_r_index f l n

  unfoldable pub list_call : Call A → List A → Answer A × List A
  list_call (pushes_back x) l = (nothing, l ++ x ∷ [])
  list_call (pushes_front x) l = (nothing, x ∷ l)
  list_call pops_front l = popped l (uncons l)
  list_call pops_back l = popped l (unsnoc l)
  list_call reads_front l = (read (first_of (uncons l)), l)
  list_call reads_back l = (read (first_of (unsnoc l)), l)
  list_call (reads i) l = if leb (length l) i then (panic, l) else (value (get_or l i blank), l)
  list_call clears l = (nothing, [])
  list_call (limits n) l = (nothing, l)
  list_call (finds f) l = (position (list_index f l 0), l)
  list_call (finds_last f) l = (position (list_r_index f l (length l)), l)
  list_call (writes i x) l = if leb (length l) i then (panic, l) else (nothing, set l i x)

  unfoldable pub call : Call A → Deque A → Answer A × Deque A
  call (pushes_back x) q = (nothing, push_back blank x q)
  call (pushes_front x) q = (nothing, push_front blank x q)
  call pops_front q = popped q (pop_front blank q)
  call pops_back q = popped q (pop_back blank q)
  call reads_front q = (read (front blank q), q)
  call reads_back q = (read (back blank q), q)
  call (reads i) q = (read (at_index blank q i), q)
  call (writes i x) q = written q (set_index blank q i x)
  call clears q = written q (clear blank q)
  call (limits n) q = (nothing, set_min_capacity blank n q)
  call (finds f) q = (position (index blank f q), q)
  call (finds_last f) q = (position (r_index blank f q), q)

  unfoldable pub list_run : List (Call A) → List A → List (Answer A)
  list_run [] l = []
  list_run (c ∷ cs) l = let (r, l') = list_call c l in r ∷ list_run cs l'

  unfoldable pub run : List (Call A) → Deque A → List (Answer A)
  run [] q = []
  run (c ∷ cs) q = let (r, q') = call c q in r ∷ run cs q'

  -- The same answer, and the deque after it is valid and shows the list after it.
  abbrev pub Same : Answer A × Deque A → Answer A × List A → Type 0
  Same (r, q) (r', l) = (r ≡ r') × IsValid blank q × (view blank q ≡ l)

  pub length-view : (q : Deque A) → length (view blank q) ≡ q.count
  length-view q = length-window blank q.buf (length q.buf) q.head q.count

  pub empty_view : (q : Deque A) → q.count ≡ 0 → view blank q ≡ []
  empty_view q e = no_cells blank q.buf (length q.buf) q.head q.count e

  -- A deque with an element is a ring.
  pub filled : (q : Deque A) (n : ℕ) → IsValid blank q → q.count ≡ suc n → (k : ℕ) × Ring blank k q
  filled q n (inl r) e = r
  filled q n (inr b) e = absurd (omega (arith, b.no_count, e))

  pub count_cases : (n : ℕ) → (n ≡ 0) ⊎ ((m : ℕ) × (n ≡ suc m))
  count_cases zero = inl refl
  count_cases (suc m) = inr (m, refl)

  pub pop_front-Same :
      (q : Deque A)
      → IsValid blank q
      → Same (call pops_front q) (list_call pops_front (view blank q))
  unfolding call list_call pop_front
  pop_front-Same q v = elim (count_cases q.count) [
    | inl none_left ↦
        let step : pop_front blank q ≡ none = ground (arith, none_left) in
        subst (λ o. Same (popped q o) (popped (view blank q) (uncons (view blank q)))) (sym step)
          (subst (λ l. Same (panic, q) (popped l (uncons l))) (sym (empty_view q none_left))
            (refl, v, empty_view q none_left))
    | inr (n, e) ↦
        let (k, r) = filled q n v e in
        let (r', shown) = drop_front_lem blank k n q r e in
        let (v', same) = shrink_lem blank k (drop_front blank q) r' in
        let x = get_or q.buf q.head blank in
        let step : pop_front blank q ≡ some (x, shrink_if_excess blank (drop_front blank q)) =
          ground (arith, e) in
        subst (λ o. Same (popped q o) (popped (view blank q) (uncons (view blank q)))) (sym step)
          (subst
            (λ l. Same (value x, shrink_if_excess blank (drop_front blank q)) (popped l (uncons l)))
            (sym shown) (refl, v', same))
  ]

  pub pop_back-Same :
      (q : Deque A) → IsValid blank q → Same (call pops_back q) (list_call pops_back (view blank q))
  unfolding call list_call pop_back
  pop_back-Same q v = elim (count_cases q.count) [
    | inl none_left ↦
        let step : pop_back blank q ≡ none = ground (arith, none_left) in
        subst (λ o. Same (popped q o) (popped (view blank q) (unsnoc (view blank q)))) (sym step)
          (subst (λ l. Same (panic, q) (popped l (unsnoc l))) (sym (empty_view q none_left))
            (refl, v, empty_view q none_left))
    | inr (n, e) ↦
        let (k, r) = filled q n v e in
        let (r', shown) = drop_back_lem blank k n q r e in
        let (v', same) = shrink_lem blank k (drop_back blank q) r' in
        let x = get_or q.buf (prev q q.tail) blank in
        let rest = view blank (drop_back blank q) in
        let step : pop_back blank q ≡ some (x, shrink_if_excess blank (drop_back blank q)) =
          ground (arith, e) in
        subst (λ o. Same (popped q o) (popped (view blank q) (unsnoc (view blank q)))) (sym step)
          (subst
            (λ u.
              Same (value x, shrink_if_excess blank (drop_back blank q)) (popped (view blank q) u))
            (sym (ap unsnoc shown ∙ unsnoc-append rest x)) (refl, v', same))
  ]
