-- ===== src/Deque/Search.antt =====
-- `Index`, `RIndex` and `SetMinCapacity` of the deque, on the list that it shows.
use Prim.Native.Nat.{bit_and}
use emberengine.Prelude.{
  ℕ, zero, suc, ◌+◌, ◌-◌, ◌%◌, ◌^◌, ◌≤◌, ◌≡◌, refl, sym, ap, ap₂, ◌∙◌, length, get_or, Bool,
  Bool-cases, ◌&&◌, ltb, if◌then◌else◌, arith, inl, inr,
}
use emberengine.Prelude.Int.{ℤ, pos}
use emberengine.Prelude.Bits.{bit_and_mask}
use emberengine.Circular.{window, get_or-window}
use emberengine.Deque.{
  Deque, min_capacity, minimum_of, place, index_loop, index, r_index_loop, r_index,
  set_min_capacity,
}
use emberengine.Deque.View.{view, view_lem, pow_pos}
use emberengine.Deque.Refine.{IsValid}
use emberengine.Deque.Calls.{list_index, list_r_index, length-view, count_cases, filled}

module _ {A : Type 0} (blank : A) where
  index_loop_lem :
      (f : A → Bool) (q : Deque A) (k n i : ℕ)
      → length q.buf ≡ 2 ^ k
      → index_loop blank f q n i ≡ list_index f (window blank q.buf (2 ^ k) (q.head + i) n) i
  unfolding index_loop list_index
  index_loop_lem f q k zero i e = refl
  index_loop_lem f q k (suc n) i e =
      let here : place q i ≡ (q.head + i) % 2 ^ k =
        ap (λ c. bit_and (q.head + i) (c - 1)) e ∙ bit_and_mask k (q.head + i) in
      ap₂ (λ (x : A) (r : ℤ). if f x then pos i else r) (ap (λ t. get_or q.buf t blank) here)
        (index_loop_lem f q k n (i + 1) e
          ∙ ap (λ h. list_index f (window blank q.buf (2 ^ k) h n) (i + 1)) {x = q.head + (i + 1)}
              {y = q.head + i + 1} (omega arith))

  pub index_lem :
      (f : A → Bool) (q : Deque A)
      → IsValid blank q
      → index blank f q ≡ list_index f (view blank q) 0
  unfolding index list_index
  index_lem f q v = elim (count_cases blank q.count) [
    | inl none_left ↦ rw none_left refl
    | inr (n, e) ↦
        let (k, r) = filled blank q n v e in
        let some_left : index blank f q ≡ index_loop blank f q q.count 0 = ground (arith, e) in
        some_left
        ∙ index_loop_lem f q k q.count 0 r.sized
        ∙ ap (λ h. list_index f (window blank q.buf (2 ^ k) h q.count) 0) {x = q.head + 0}
            {y = q.head} (omega arith)
        ∙ ap (λ l. list_index f l 0) (sym (view_lem blank k q r.sized))
  ]

  r_index_loop_lem :
      (f : A → Bool) (q : Deque A) (k n : ℕ)
      → length q.buf ≡ 2 ^ k
      → n ≤ q.count
      → r_index_loop blank f q n
        ≡ list_r_index blank f (window blank q.buf (2 ^ k) q.head q.count) n
  unfolding r_index_loop list_r_index
  r_index_loop_lem f q k zero e l = refl
  r_index_loop_lem f q k (suc n) e l =
      let here : place q n ≡ (q.head + n) % 2 ^ k =
        ap (λ c. bit_and (q.head + n) (c - 1)) e ∙ bit_and_mask k (q.head + n) in
      ap₂ (λ (x : A) (r : ℤ). if f x then pos n else r)
        (ap (λ t. get_or q.buf t blank) here
          ∙ sym (get_or-window blank q.buf (2 ^ k) q.head q.count n (omega arith)))
        (r_index_loop_lem f q k n e (omega arith))

  pub r_index_lem :
      (f : A → Bool) (q : Deque A)
      → IsValid blank q
      → r_index blank f q ≡ list_r_index blank f (view blank q) (length (view blank q))
  unfolding r_index list_r_index
  r_index_lem f q v = elim (count_cases blank q.count) [
    | inl none_left ↦ rw none_left refl
    | inr (n, e) ↦
        let (k, r) = filled blank q n v e in
        let some_left : r_index blank f q ≡ r_index_loop blank f q q.count = ground (arith, e) in
        some_left
        ∙ r_index_loop_lem f q k q.count r.sized (omega arith)
        ∙ ap₂ (list_r_index blank f) (sym (view_lem blank k q r.sized)) (sym (length-view blank q))
  ]

  -- The least capacity says nothing of the elements.
  limited : (j : ℕ) (q : Deque A) → IsValid blank q → IsValid blank (record q { min_cap = 2 ^ j })
  limited j q (inl (k, r)) = inl (
    k,
    record {
      sized = r.sized;
      head_in = r.head_in;
      fits = r.fits;
      tail_at = r.tail_at;
      least = (j, refl);
    },
  )
  limited j q (inr b) =
      let powered : minimum_of blank (record q { min_cap = 2 ^ j }) ≡ 2 ^ j =
        ground (arith, pow_pos j) in
      inr (record {
        no_buf = b.no_buf;
        no_count = b.no_count;
        at_start = b.at_start;
        ends_there = b.ends_there;
        least = (j, powered);
      })

  pub set_min_capacity_lem :
      (n : ℕ) (q : Deque A)
      → IsValid blank q
      → IsValid blank (set_min_capacity blank n q)
        × (view blank (set_min_capacity blank n q) ≡ view blank q)
  unfolding set_min_capacity
  set_min_capacity_lem n q v = elim (Bool-cases (ltb n 63 && ltb min_capacity (2 ^ n))) [
    | inl t ↦ rw t (limited n q v, refl)
    | inr s ↦ rw s (limited 4 q v, refl)
  ]
