-- ===== src/Deque/Refine.antt =====
-- No sequence of calls tells the deque from a list.
use native.Mathlib.Nat.{pow-zero, pow-suc, mod-eq_of_lt}
use emberengine.Prelude.{
  ℕ, zero, suc, ◌*◌, ◌%◌, ◌^◌, ◌<◌, ◌≡◌, refl, sym, ap, ◌∙◌, subst, List, [], ◌∷◌, ◌++◌, ◌==◌,
  ==_iff, ltb, ◌&&◌, arith, length, replicate, length-replicate, Bool-cases, ◌⊎◌, inl, inr,
}
use emberengine.Circular.{window}
use emberengine.Deque.{
  Deque, resize, minimum_of, grow_if_full, shrink_if_excess, push_back, push_front,
}
use emberengine.Deque.View.{view, Ring, pow_pos, put_back_lem, put_front_lem}
use emberengine.Deque.Resize.{resize_lem}

module _ {A : Type 0} (blank : A) where
  -- A deque that has no buffer yet.
  pub record Bare (q : Deque A) : Type 0 where
    pub no_buf : q.buf ≡ []
    pub no_count : q.count ≡ 0
    pub at_start : q.head ≡ 0
    pub ends_there : q.tail ≡ 0
    pub least : (j : ℕ) × (minimum_of blank q ≡ 2 ^ j)

  abbrev pub IsValid : Deque A → Type 0
  IsValid q = ((k : ℕ) × Ring blank k q) ⊎ Bare q

  -- Room for one more, and the same list.
  abbrev Roomy : Deque A → Deque A → Type 0
  Roomy q q' = (k : ℕ) × Ring blank k q' × (q'.count < 2 ^ k) × (view blank q' ≡ view blank q)

  pub no_cells : (b : List A) (c h n : ℕ) → n ≡ 0 → window blank b c h n ≡ []
  no_cells b c h n e = ap (window blank b c h) e

  grow-Bare : (q : Deque A) → Bare q → Roomy q (grow_if_full blank q)
  unfolding grow_if_full
  grow-Bare q b =
      let (j, least) = b.least in
      let m = minimum_of blank q in
      let empty : length q.buf ≡ 0 = ap (λ (l : List A). length l) b.no_buf in
      let q' = record q { buf = replicate m blank; min_cap = m } in
      let step : grow_if_full blank q ≡ q' = ground (arith, empty, b.no_count) in
      subst (Roomy q) (sym step) (
        j,
        record {
          sized = length-replicate m blank ∙ least;
          head_in = omega (arith, b.at_start, pow_pos j);
          fits = omega (arith, b.no_count);
          tail_at =
              b.ends_there
              ∙ sym (mod-eq_of_lt (pow_pos j))
              ∙ ap (λ i. i % 2 ^ j) (omega (arith, b.at_start, b.no_count));
          least = (j, least);
        },
        omega (arith, b.no_count, pow_pos j),
        no_cells q'.buf (length q'.buf) q.head q.count b.no_count
            ∙ sym (no_cells q.buf (length q.buf) q.head q.count b.no_count),
      )

  grow_full :
      (k : ℕ) (q : Deque A)
      → Ring blank k q
      → q.count ≡ length q.buf
      → Roomy q (grow_if_full blank q)
  unfolding grow_if_full resize
  grow_full k q r e =
      let some : 0 < q.count = omega (arith, e, r.sized, pow_pos k) in
      let step : grow_if_full blank q ≡ resize blank q = ground (arith, e, some) in
      let (r', same) =
        resize_lem blank k (suc k) q r some (omega (arith, e, r.sized, pow-suc 2 k)) in
      subst (Roomy q) (sym step)
        (suc k, r', omega (arith, e, r.sized, pow-suc 2 k, pow_pos k), same)

  grow_lem : (q : Deque A) → IsValid q → Roomy q (grow_if_full blank q)
  unfolding grow_if_full
  grow_lem q (inr b) = grow-Bare q b
  grow_lem q (inl (k, r)) = elim (Bool-cases (q.count == length q.buf)) [
    | inl full ↦ grow_full k q r ((==_iff q.count (length q.buf)).0 full)
    | inr room ↦
        let step : grow_if_full blank q ≡ q = rw room refl in
        subst (Roomy q) (sym step) (k, r, ground (arith, r.fits, r.sized), refl)
  ]

  halved : (k n : ℕ) → n * 4 ≡ 2 ^ k → (j : ℕ) × (n * 2 ≡ 2 ^ j)
  halved zero n e = absurd (omega (arith, e, pow-zero 2))
  halved (suc k) n e = (k, omega (arith, e, pow-suc 2 k))

  pub shrink_lem :
      (k : ℕ) (q : Deque A)
      → Ring blank k q
      → IsValid (shrink_if_excess blank q) × (view blank (shrink_if_excess blank q) ≡ view blank q)
  unfolding shrink_if_excess
  shrink_lem k q r =
      elim (Bool-cases (ltb q.min_cap (length q.buf) && (q.count * 4 == length q.buf))) [
        | inr keep ↦
            let step : shrink_if_excess blank q ≡ q = rw keep refl in
            subst (λ t. IsValid t × (view blank t ≡ view blank q)) (sym step) (inl (k, r), refl)
        | inl excess ↦
            let quarter : q.count * 4 ≡ length q.buf = ground (arith, excess) in
            let (j, half) = halved k q.count (quarter ∙ r.sized) in
            let step : shrink_if_excess blank q ≡ resize blank q = rw excess refl in
            let (r', same) = resize_lem blank k j q r (omega (arith, half, pow_pos j)) half in
            subst (λ t. IsValid t × (view blank t ≡ view blank q)) (sym step) (inl (j, r'), same)
      ]

  pub push_back_lem :
      (x : A) (q : Deque A)
      → IsValid q
      → IsValid (push_back blank x q) × (view blank (push_back blank x q) ≡ view blank q ++ x ∷ [])
  unfolding push_back
  push_back_lem x q v =
      let (k, r, room, same) = grow_lem q v in
      let (r', grown) = put_back_lem blank k x (grow_if_full blank q) r room in
      (inl (k, r'), grown ∙ ap (λ l. l ++ x ∷ []) same)

  pub push_front_lem :
      (x : A) (q : Deque A)
      → IsValid q
      → IsValid (push_front blank x q) × (view blank (push_front blank x q) ≡ x ∷ view blank q)
  unfolding push_front
  push_front_lem x q v =
      let (k, r, room, same) = grow_lem q v in
      let (r', grown) = put_front_lem blank k x (grow_if_full blank q) r room in
      (inl (k, r'), grown ∙ ap (λ l. x ∷ l) same)
