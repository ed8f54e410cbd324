-- ===== src/Deque/Clear.antt =====
-- `Clear` of the deque: the rounds of its loop, and the list afterwards.
use native.Mathlib.Nat.{mod-add-mod, mod-eq_of_lt, mod-lt, mod-eq-sub-mod}
use native.Mathlib.Decide.{dec_lt}
use emberengine.Prelude.{
  ℕ, zero, suc, ◌+◌, ◌%◌, ◌^◌, ◌≤◌, ◌<◌, ◌≡◌, ◌≢◌, refl, sym, ap, ◌∙◌, List, [], length, set,
  length-set, some, arith, inl, inr,
}
use emberengine.Circular.{mod-add-ne}
use emberengine.Deque.{Deque, next, clear_loop, cleared, clear}
use emberengine.Deque.View.{view, Ring, next_lem, pow_pos}
use emberengine.Deque.Refine.{IsValid}

module _ {A : Type 0} (blank : A) where
  -- With the tail `n` places on, less than a round, `n` rounds are enough.
  clear_loop_lem :
      (fuel n k : ℕ) (q : Deque A) (h : ℕ) (b : List A)
      → length q.buf ≡ 2 ^ k
      → h < 2 ^ k
      → n < 2 ^ k
      → q.tail ≡ (h + n) % 2 ^ k
      → n ≤ fuel
      → (b' : List A) × (clear_loop blank fuel q h b ≡ some b') × (length b' ≡ length b)
  unfolding clear_loop
  clear_loop_lem zero zero k q h b e l m t f =
      let here : h ≡ q.tail = sym (mod-eq_of_lt l) ∙ ap (λ i. i % 2 ^ k) (omega arith) ∙ sym t in
      (b, ground (arith, here), refl)
  clear_loop_lem zero (suc n) k q h b e l m t f = absurd (omega arith)
  clear_loop_lem (suc fuel) zero k q h b e l m t f =
      let here : h ≡ q.tail = sym (mod-eq_of_lt l) ∙ ap (λ i. i % 2 ^ k) (omega arith) ∙ sym t in
      (b, ground (arith, here), refl)
  clear_loop_lem (suc fuel) (suc n) k q h b e l m t f =
      let c = 2 ^ k in
      let away : h ≢ q.tail =
        λ same. mod-add-ne c h (suc n) (omega arith) m (sym t ∙ sym same ∙ sym (mod-eq_of_lt l)) in
      let next_at = next_lem blank k q h e in
      let t' : q.tail ≡ (next q h + n) % c =
        t
        ∙ ap (λ i. i % c) {x = h + suc n} {y = h + 1 + n} (omega arith)
        ∙ sym (mod-add-mod (h + 1) c n)
        ∙ ap (λ i. (i + n) % c) (sym next_at) in
      let (b', ended, len) =
        clear_loop_lem fuel n k q (next q h) (set b h blank) e
          (omega (arith, next_at, mod-lt (h + 1) {m = c} (pow_pos k))) (omega arith) t'
          (omega arith) in
      (b', ground (arith, away, ended), len ∙ length-set b h blank)

  abbrev pub Cleared : Deque A → Type 0
  Cleared q = (q' : Deque A) × (clear blank q ≡ some q') × IsValid blank q' × (view blank q' ≡ [])

  clear_laps :
      (k n : ℕ) (q : Deque A)
      → Ring blank k q
      → n < 2 ^ k
      → q.tail ≡ (q.head + n) % 2 ^ k
      → n ≤ length q.buf
      → Cleared q
  unfolding clear
  clear_laps k n q r small t fuel =
      let (b, ended, len) =
        clear_loop_lem (length q.buf) n k q q.head q.buf r.sized r.head_in small t fuel in
      let q' = record q { buf = b; head = 0; tail = 0; count = 0 } in
      (
        q',
        ap (cleared blank q) ended,
        inl (
          k,
          record {
            sized = len ∙ r.sized;
            head_in = pow_pos k;
            fits = omega arith;
            tail_at = sym (mod-eq_of_lt (pow_pos k)) ∙ ap (λ i. i % 2 ^ k) (omega arith);
            least = r.least;
          },
        ),
        refl,
      )

  -- A full buffer has its head at its tail, and the loop has no round.
  pub clear_lem : (q : Deque A) → IsValid blank q → Cleared q
  unfolding clear clear_loop
  clear_lem q (inr bare) =
      let empty : length q.buf ≡ 0 = ap (λ (l : List A). length l) bare.no_buf in
      let q' = record q { head = 0; tail = 0; count = 0 } in
      let meets : q.head ≡ q.tail = bare.at_start ∙ sym bare.ends_there in
      let no_round : clear_loop blank zero q q.head q.buf ≡ some q.buf = ground (arith, meets) in
      (
        q',
        ap (λ f. cleared blank q (clear_loop blank f q q.head q.buf)) empty
            ∙ ap (cleared blank q) no_round,
        inr (record {
          no_buf = bare.no_buf;
          no_count = refl;
          at_start = refl;
          ends_there = refl;
          least = bare.least;
        }),
        refl,
      )
  clear_lem q (inl (k, r)) = elim (dec_lt q.count (2 ^ k)) [
    | yes room ↦ clear_laps k q.count q r room r.tail_at (omega (arith, r.sized, r.fits))
    | no full ↦
        clear_laps k 0 q r (pow_pos k)
          (r.tail_at
            ∙ ap (λ i. (q.head + i) % 2 ^ k) {x = q.count} {y = 2 ^ k} (omega (arith, r.fits))
            ∙ mod-eq-sub-mod {n = q.head + 2 ^ k} {m = 2 ^ k} (omega arith)
            ∙ ap (λ i. i % 2 ^ k) (omega arith))
          (omega arith)
  ]
