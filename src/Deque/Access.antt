-- ===== src/Deque/Access.antt =====
-- The reads and writes of a deque, and those of the list that it shows.
use native.Mathlib.Nat.{mod-lt}
use emberengine.Prelude.{
  ℕ, zero, suc, ◌+◌, ◌-◌, ◌%◌, ◌^◌, ◌≤◌, ◌<◌, ◌≡◌, refl, sym, ap, ap₂, ◌∙◌, subst, List, ◌∷◌, leb,
  arith, length, get_or, set, get_or-set_self, get_or-set_ne, length-set, Bool-cases, inl, inr,
  none, some,
}
use Prim.Native.Nat.{bit_and}
use emberengine.Prelude.Bits.{bit_and_mask}
use emberengine.Circular.{window, mod-add-ne, window-set_head, get_or-window}
use emberengine.Deque.{Deque, front, back, at_index, set_index, drop_back, prev, place}
use emberengine.Deque.View.{view, Ring, view_lem, drop_front_lem, drop_back_lem}
use emberengine.Deque.Refine.{IsValid}
use emberengine.Deque.Calls.{
  reads_front, reads_back, reads, writes, panic, nothing, value, read, written, unsnoc,
  unsnoc-append, uncons, first_of, list_call, call, Same, length-view, empty_view, filled,
  count_cases,
}

module _ {A : Type 0} (blank : A) where
  pub front-Same :
      (q : Deque A)
      → IsValid blank q
      → Same blank (call blank reads_front q) (list_call blank reads_front (view blank q))
  unfolding call list_call front
  front-Same q v = elim (count_cases blank q.count) [
    | inl none_left ↦
        let step : front blank q ≡ none = ground (arith, none_left) in
        (
          ap read (step ∙ ap (λ l. first_of (uncons l)) (sym (empty_view blank q none_left))),
          v,
          refl,
        )
    | inr (n, e) ↦
        let (k, r) = filled blank q n v e in
        let step : front blank q ≡ some (get_or q.buf q.head blank) = ground (arith, e) in
        (
          ap read (step ∙ ap (λ l. first_of (uncons l)) (sym (drop_front_lem blank k n q r e).1)),
          v,
          refl,
        )
  ]

  pub back-Same :
      (q : Deque A)
      → IsValid blank q
      → Same blank (call blank reads_back q) (list_call blank reads_back (view blank q))
  unfolding call list_call back
  back-Same q v = elim (count_cases blank q.count) [
    | inl none_left ↦
        let step : back blank q ≡ none = ground (arith, none_left) in
        (
          ap read (step ∙ ap (λ l. first_of (unsnoc l)) (sym (empty_view blank q none_left))),
          v,
          refl,
        )
    | inr (n, e) ↦
        let (k, r) = filled blank q n v e in
        let x = get_or q.buf (prev q q.tail) blank in
        let step : back blank q ≡ some x = ground (arith, e) in
        (
          ap read (
              step
              ∙ ap first_of (
                  sym (
                    ap unsnoc (drop_back_lem blank k n q r e).1
                    ∙ unsnoc-append (view blank (drop_back blank q)) x))),
          v,
          refl,
        )
  ]

  -- A write at a place of the window.
  window-set_at :
      (b : List A) (c h n i : ℕ) (x : A)
      → length b ≡ c
      → n ≤ c
      → i < n
      → window blank (set b ((h + i) % c) x) c h n ≡ set (window blank b c h n) i x
  window-set_at b c h zero i x e l m = absurd (omega arith)
  window-set_at b c h (suc n) zero x e l m =
      ap (λ t. window blank (set b (t % c) x) c h (suc n)) {x = h + 0} {y = h} (omega arith)
      ∙ ap₂ ◌∷◌
          (get_or-set_self b (h % c) x blank (omega (arith, e, mod-lt h {m = c} (omega arith))))
          (window-set_head blank b c h n x (omega arith))
  window-set_at b c h (suc n) (suc i) x e l m =
      ap₂ ◌∷◌
        (get_or-set_ne b ((h + suc i) % c) (h % c) x blank
          (mod-add-ne c h (suc i) (omega arith) (omega arith)))
        (ap (λ t. window blank (set b (t % c) x) c (h + 1) n) {x = h + suc i} {y = h + 1 + i}
            (omega arith)
          ∙ window-set_at b c (h + 1) n i x e (omega arith) (omega arith))

  -- An index within the count, of a valid deque.
  at_place :
      (q : Deque A) (i : ℕ)
      → IsValid blank q
      → i < q.count
      → (k : ℕ) × Ring blank k q × (place q i ≡ (q.head + i) % 2 ^ k)
  at_place q i (inr b) l = absurd (omega (arith, b.no_count, l))
  at_place q i (inl (k, r)) l =
      (k, r, ap (λ c. bit_and (q.head + i) (c - 1)) r.sized ∙ bit_and_mask k (q.head + i))

  pub reads-Same :
      (i : ℕ) (q : Deque A)
      → IsValid blank q
      → Same blank (call blank (reads i) q) (list_call blank (reads i) (view blank q))
  unfolding call list_call at_index
  reads-Same i q v = elim (Bool-cases (leb q.count i)) [
    | inl out ↦
        let step : list_call blank (reads i) (view blank q) ≡ (panic, view blank q) =
          ground (arith, out, length-view blank q) in
        subst (Same blank (call blank (reads i) q)) (sym step) (rw out (refl, v, refl))
    | inr within ↦
        let (k, r, here) = at_place q i v (ground (arith, within)) in
        let step : list_call blank (reads i) (view blank q)
            ≡ (value (get_or (view blank q) i blank), view blank q) =
          ground (arith, within, length-view blank q) in
        let found : get_or (view blank q) i blank ≡ get_or q.buf (place q i) blank =
          ap (λ l. get_or l i blank) (view_lem blank k q r.sized)
          ∙ get_or-window blank q.buf (2 ^ k) q.head q.count i (ground (arith, within))
          ∙ ap (λ t. get_or q.buf t blank) (sym here) in
        subst (Same blank (call blank (reads i) q)) (sym step)
          (rw within (ap value (sym found), v, refl))
  ]

  set_index_lem :
      (k i : ℕ) (x : A) (q : Deque A)
      → Ring blank k q
      → i < q.count
      → place q i ≡ (q.head + i) % 2 ^ k
      → IsValid blank (record q { buf = set q.buf (place q i) x })
        × (view blank (record q { buf = set q.buf (place q i) x }) ≡ set (view blank q) i x)
  set_index_lem k i x q r l here =
      let sized : length (set q.buf (place q i) x) ≡ 2 ^ k =
        length-set q.buf (place q i) x ∙ r.sized in
      (
        inl (
          k,
          record {
            sized = sized;
            head_in = r.head_in;
            fits = r.fits;
            tail_at = r.tail_at;
            least = r.least;
          },
        ),
        ap (λ c. window blank (set q.buf (place q i) x) c q.head q.count) sized
            ∙ ap (λ t. window blank (set q.buf t x) (2 ^ k) q.head q.count) here
            ∙ window-set_at q.buf (2 ^ k) q.head q.count i x r.sized r.fits l
            ∙ ap (λ w. set w i x) (sym (view_lem blank k q r.sized)),
      )

  pub writes-Same :
      (i : ℕ) (x : A) (q : Deque A)
      → IsValid blank q
      → Same blank (call blank (writes i x) q) (list_call blank (writes i x) (view blank q))
  unfolding call list_call set_index
  writes-Same i x q v = elim (Bool-cases (leb q.count i)) [
    | inl out ↦
        let step : list_call blank (writes i x) (view blank q) ≡ (panic, view blank q) =
          ground (arith, out, length-view blank q) in
        let here : set_index blank q i x ≡ none = rw out refl in
        subst (Same blank (call blank (writes i x) q)) (sym step)
          (subst (λ o. Same blank (written q o) (panic, view blank q)) (sym here) (refl, v, refl))
    | inr within ↦
        let (k, r, here) = at_place q i v (ground (arith, within)) in
        let q' = record q { buf = set q.buf (place q i) x } in
        let step : list_call blank (writes i x) (view blank q) ≡ (nothing, set (view blank q) i x) =
          ground (arith, within, length-view blank q) in
        let done : set_index blank q i x ≡ some q' = rw within refl in
        let (v', shown) = set_index_lem k i x q r (ground (arith, within)) here in
        subst (Same blank (call blank (writes i x) q)) (sym step) (
          subst (λ o. Same blank (written q o) (nothing, set (view blank q) i x)) (sym done)
            (refl, v', shown))
  ]
