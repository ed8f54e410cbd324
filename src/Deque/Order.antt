-- ===== src/Deque/Order.antt =====
-- No sequence of calls tells the deque from a list.
use native.Mathlib.Nat.{mod-eq_of_lt, pow-zero}
use emberengine.Prelude.{
  ℕ, zero, suc, ◌-◌, ◌%◌, ◌^◌, ◌≡◌, refl, sym, ap, ap₂, ◌∙◌, subst, List, [], ◌∷◌, Bool, true,
  false, ◌==◌, ltb, leb, if◌then◌else◌, arith, length, length-replicate, replicate, Bool-cases, inl,
  inr,
}
use emberengine.Deque.{Deque, min_capacity, bits_len, round_up_to_power_of_two_int, new}
use emberengine.Deque.View.{view, pow_pos}
use emberengine.Deque.Refine.{IsValid, push_back_lem, push_front_lem}
use emberengine.Deque.Clear.{clear_lem}
use emberengine.Deque.Search.{index_lem, r_index_lem, set_min_capacity_lem}
use emberengine.Deque.Calls.{
  Call, pushes_back, pushes_front, pops_front, pops_back, reads_front, reads_back, reads, writes,
  clears, limits, finds, finds_last, nothing, position, written, list_call, call, list_run, run,
  Same, pop_front-Same, pop_back-Same,
}
use emberengine.Deque.Access.{front-Same, back-Same, reads-Same, writes-Same}

module _ {A : Type 0} (blank : A) where
  call-Same :
      (c : Call A) (q : Deque A)
      → IsValid blank q
      → Same blank (call blank c q) (list_call blank c (view blank q))
  unfolding call list_call
  call-Same (pushes_back x) q v = let (v', shown) = push_back_lem blank x q v in (refl, v', shown)
  call-Same (pushes_front x) q v = let (v', shown) = push_front_lem blank x q v in (refl, v', shown)
  call-Same pops_front q v = pop_front-Same blank q v
  call-Same pops_back q v = pop_back-Same blank q v
  call-Same reads_front q v = front-Same blank q v
  call-Same reads_back q v = back-Same blank q v
  call-Same (reads i) q v = reads-Same blank i q v
  call-Same (writes i x) q v = writes-Same blank i x q v
  call-Same clears q v =
      let (q', step, v', shown) = clear_lem blank q v in
      subst (λ o. Same blank (written q o) (nothing, [])) (sym step) (refl, v', shown)
  call-Same (limits n) q v = let (v', shown) = set_min_capacity_lem blank n q v in (refl, v', shown)
  call-Same (finds f) q v = (ap position (index_lem blank f q v), v, refl)
  call-Same (finds_last f) q v = (ap position (r_index_lem blank f q v), v, refl)

  run-list_run :
      (cs : List (Call A)) (q : Deque A)
      → IsValid blank q
      → run blank cs q ≡ list_run blank cs (view blank q)
  unfolding run list_run
  run-list_run [] q v = refl
  run-list_run (c ∷ cs) q v =
      let (answer, v', shown) = call-Same c q v in
      ap₂ ◌∷◌ answer (run-list_run cs (call blank c q).1 v' ∙ ap (list_run blank cs) shown)

  power_of_two : (v : ℕ) → (j : ℕ) × (round_up_to_power_of_two_int v ≡ 2 ^ j)
  unfolding round_up_to_power_of_two_int
  power_of_two v = elim (Bool-cases (leb v 1)) [
    | inl small ↦ (0, rw small (sym (pow-zero 2)))
    | inr more ↦ elim (Bool-cases (leb (2 ^ 62) v)) [
      | inl big ↦ (62, rw (more, big) refl)
      | inr fits ↦ (bits_len v (v - 1), rw (more, fits) refl)
    ]
  ]

  either_power :
      (b : Bool) (m n : ℕ)
      → ((j : ℕ) × (m ≡ 2 ^ j))
      → ((j : ℕ) × (n ≡ 2 ^ j))
      → (j : ℕ) × ((if b then m else n) ≡ 2 ^ j)
  either_power true m n p q = p
  either_power false m n p q = q

  new_from :
      (capacity size least : ℕ)
      → ((j : ℕ) × (size ≡ 2 ^ j))
      → ((j : ℕ) × (least ≡ 2 ^ j))
      → IsValid blank (record {
        buf = if capacity == 0 then [] else replicate size blank;
        head = 0;
        tail = 0;
        count = 0;
        min_cap = least;
      })
  new_from zero size least (i, e) (j, f) = inr (record {
    no_buf = refl;
    no_count = refl;
    at_start = refl;
    ends_there = refl;
    least = (j, ground (arith, f, pow_pos j));
  })
  new_from (suc n) size least (i, e) (j, f) =
      let some : (suc n == 0) ≡ false = ground arith in
      inl (
        i,
        record {
          sized =
              ap (λ b. length (if b then [] else replicate size blank)) some
              ∙ length-replicate size blank
              ∙ e;
          head_in = pow_pos i;
          fits = omega arith;
          tail_at = sym (mod-eq_of_lt (pow_pos i)) ∙ ap (λ t. t % 2 ^ i) (omega arith);
          least = (j, f);
        },
      )

  new_lem :
      (capacity minimum : ℕ)
      → IsValid blank (new blank capacity minimum) × (view blank (new blank capacity minimum) ≡ [])
  unfolding new
  new_lem capacity minimum =
      let sixteen : (j : ℕ) × (min_capacity ≡ 2 ^ j) = (4, refl) in
      let least =
        if ltb min_capacity minimum then round_up_to_power_of_two_int minimum else min_capacity in
      let least_power =
        either_power (ltb min_capacity minimum) (round_up_to_power_of_two_int minimum) min_capacity
          (power_of_two minimum) sixteen in
      (
        new_from capacity
            (if ltb least capacity then round_up_to_power_of_two_int capacity else least) least
            (either_power (ltb least capacity) (round_up_to_power_of_two_int capacity) least
              (power_of_two capacity) least_power)
            least_power,
        refl,
      )

  -- Whatever sizes a deque is made with, no sequence of pushes and pops at both ends, of reads,
  -- writes and searches from either end, of clearing, and of setting the least capacity tells it from
  -- a list that is empty at first: it gives the same values and indices and panics at the same calls,
  -- through every growing and shrinking of its buffer.
  pub run-new :
      (cs : List (Call A)) (capacity minimum : ℕ)
      → run blank cs (new blank capacity minimum) ≡ list_run blank cs []
  run-new cs capacity minimum =
      let (v, shown) = new_lem capacity minimum in
      run-list_run cs (new blank capacity minimum) v ∙ ap (list_run blank cs) shown
