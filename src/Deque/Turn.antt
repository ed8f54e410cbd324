-- ===== src/Deque/Turn.antt =====
-- `Rotate` rotates the list.
use native.Mathlib.Nat.{mod-eq_of_lt, mod-lt, mod-mod, mod-eq-sub-mod}
use native.Mathlib.Decide.{ℕ_discrete, dec_lt}
use Prim.Native.Nat.{bit_and}
use emberengine.Prelude.{
  ℕ, zero, suc, ◌+◌, ◌-◌, ◌%◌, ◌^◌, ◌≤◌, ◌<◌, ◌≡◌, ◌≢◌, refl, sym, ap, ap₂, ◌∙◌, subst, List, [],
  ◌∷◌, ◌++◌, ◌==◌, ==_iff, leb, arith, length, append-nil, length-append, Bool-cases, inl, inr,
}
use emberengine.Prelude.Int.{ℤ, pos, negsuc}
use emberengine.Prelude.Bits.{bit_and_mask}
use emberengine.Circular.{window, window_congr, take-window, drop-window}
use emberengine.Deque.{
  Deque, step_front, step_back, rotate_loop, turned, rotate_front, rotate_back, rotate,
}
use emberengine.Deque.View.{view, Ring, view_lem, pow_pos}
use emberengine.Deque.Resize.{window-append}
use emberengine.Deque.Refine.{IsValid}
use emberengine.Deque.Calls.{length-view}
use emberengine.Deque.Rotate.{
  turn, offset, turn_front, turn_short, turn-length, Loose, tail_ne, step_front_lem, step_back_lem,
}

module _ {A : Type 0} (blank : A) where
  -- Valid, and showing the list turned by `n`.
  abbrev pub TurnedBy : ℕ → Deque A → Deque A → Type 0
  TurnedBy n q q' = IsValid blank q' × (view blank q' ≡ turn n (view blank q))

  unmoved :
      (n : ℕ) (q : Deque A)
      → IsValid blank q
      → turn n (view blank q) ≡ view blank q
      → TurnedBy n q q
  unmoved n q v e = (v, sym e)

  front_loop :
      (n k : ℕ) (q : Deque A)
      → Loose blank k q
      → n ≤ q.count
      → TurnedBy n q (rotate_loop blank (step_front blank) n q)
  unfolding rotate_loop
  front_loop zero k q s l = (inl (k, s.ring), sym (append-nil (view blank q)))
  front_loop (suc n) k q s l =
      let (s', same, (x, xs, shown, shown')) = step_front_lem blank k q s in
      let len : q.count ≡ suc (length xs) =
        sym (length-view blank q) ∙ ap (λ (l : List A). length l) shown in
      let (v, turned_n) = front_loop n k (step_front blank q) s' (omega (arith, same, l)) in
      (
        v,
        turned_n
            ∙ ap (turn n) shown'
            ∙ turn_front n x xs (omega (arith, len, l))
            ∙ ap (turn (suc n)) (sym shown),
      )

  back_loop :
      (n k : ℕ) (q : Deque A)
      → Loose blank k q
      → n ≤ q.count
      → TurnedBy (q.count - n) q (rotate_loop blank (step_back blank) n q)
  unfolding rotate_loop
  back_loop zero k q s l = (
    inl (k, s.ring),
    sym (
        ap (λ m. turn m (view blank q)) (omega (arith, length-view blank q))
        ∙ turn-length (view blank q)),
  )
  back_loop (suc n) k q s l =
      let (s', same, (x, xs, shown, shown')) = step_back_lem blank k q s in
      let len : q.count ≡ suc (length xs) =
        sym (length-view blank q)
        ∙ ap (λ (l : List A). length l) shown
        ∙ omega (arith, length-append xs (x ∷ [])) in
      let (v, turned_n) = back_loop n k (step_back blank q) s' (omega (arith, same, l)) in
      (
        v,
        turned_n
            ∙ ap₂ turn {x = (step_back blank q).count - n} {y = suc (length xs - n)}
                (omega (arith, same, len, l)) shown'
            ∙ sym (turn_front (length xs - n) x xs (omega arith))
            ∙ ap₂ turn (omega (arith, len, l)) (sym shown),
      )

  -- A full buffer only moves its head.
  turned_lem :
      (k m : ℕ) (q : Deque A)
      → Ring blank k q
      → q.count ≡ 2 ^ k
      → m ≤ q.count
      → TurnedBy m q (turned blank q (q.head + m))
  turned_lem k m q r full l =
      let c = 2 ^ k in
      let h : bit_and (q.head + m) (length q.buf - 1) ≡ (q.head + m) % c =
        ap (λ d. bit_and (q.head + m) (d - 1)) r.sized ∙ bit_and_mask k (q.head + m) in
      let around : (i : ℕ) → (i + c) % c ≡ i % c =
        λ i. mod-eq-sub-mod {n = i + c} {m = c} (omega arith) ∙ ap (λ j. j % c) (omega arith) in
      let once : (h' : ℕ) → h' < c → h' ≡ (h' + q.count) % c = λ h' small.
        sym (mod-eq_of_lt small) ∙ sym (around h') ∙ ap (λ i. (h' + i) % c) (sym full) in
      let h_in : (q.head + m) % c < c = mod-lt (q.head + m) (pow_pos k) in
      (
        inl (
          k,
          record {
            sized = r.sized;
            head_in = omega (arith, h, h_in);
            fits = r.fits;
            tail_at = once (bit_and (q.head + m) (length q.buf - 1)) (omega (arith, h, h_in));
            least = r.least;
          },
        ),
        ap₂ (λ d i. window blank q.buf d i q.count) r.sized h
            ∙ window_congr blank q.buf c ((q.head + m) % c) (q.head + m) q.count
                (mod-mod (q.head + m) c)
            ∙ ap (window blank q.buf c (q.head + m)) {x = q.count} {y = q.count - m + m}
                (omega (arith, l))
            ∙ window-append blank q.buf c (q.head + m) (q.count - m) m
            ∙ ap₂ ◌++◌ (sym (drop-window blank q.buf c q.head m q.count l)) (
                window_congr blank q.buf c (q.head + m + (q.count - m)) q.head m (
                  ap (λ i. i % c) {x = q.head + m + (q.count - m)} {y = q.head + c}
                    (omega (arith, l, full))
                  ∙ around q.head)
                ∙ sym (take-window blank q.buf c q.head m q.count l))
            ∙ ap (turn m) (sym (view_lem blank k q r.sized)),
      )

  -- A ring whose head and tail meet is full, if it has an element.
  meets : (k : ℕ) (q : Deque A) → Ring blank k q → 0 < q.count → q.head ≡ q.tail → q.count ≡ 2 ^ k
  meets k q r some e = elim (dec_lt q.count (2 ^ k)) [
    | yes room ↦ absurd (tail_ne blank k q (record { ring = r; some = some; room = room }) (sym e))
    | no full ↦ omega (arith, r.fits)
  ]

  parts : (k : ℕ) (q : Deque A) → Ring blank k q → 0 < q.count → q.head ≢ q.tail → Loose blank k q
  parts k q r some ne = record {
    ring = r;
    some = some;
    room = elim (dec_lt q.count (2 ^ k)) [
      | yes room ↦ room
      | no full ↦ absurd (
          ne (
            sym (
              r.tail_at
              ∙ ap (λ i. (q.head + i) % 2 ^ k) {x = q.count} {y = 2 ^ k} (omega (arith, r.fits))
              ∙ mod-eq-sub-mod {n = q.head + 2 ^ k} {m = 2 ^ k} (omega arith)
              ∙ mod-eq_of_lt (omega (arith, r.head_in))
              ∙ omega arith)))
    ];
  }

  rotate_front_lem :
      (n k : ℕ) (q : Deque A)
      → Ring blank k q
      → 0 < q.count
      → n ≤ q.count
      → TurnedBy n q (rotate_front blank n q)
  unfolding rotate_front
  rotate_front_lem n k q r some l = elim (ℕ_discrete q.head q.tail) [
    | yes e ↦
        let step : rotate_front blank n q ≡ turned blank q (q.head + n) = ground (arith, e) in
        subst (TurnedBy n q) (sym step) (turned_lem k n q r (meets k q r some e) l)
    | no ne ↦
        let step : rotate_front blank n q ≡ rotate_loop blank (step_front blank) n q =
          ground (arith, ne) in
        subst (TurnedBy n q) (sym step) (front_loop n k q (parts k q r some ne) l)
  ]

  rotate_back_lem :
      (n k : ℕ) (q : Deque A)
      → Ring blank k q
      → 0 < q.count
      → n ≤ q.count
      → TurnedBy (q.count - n) q (rotate_back blank n q)
  unfolding rotate_back
  rotate_back_lem n k q r some l = elim (ℕ_discrete q.head q.tail) [
    | yes e ↦
        let full = meets k q r some e in
        let step : rotate_back blank n q ≡ turned blank q (q.head + (q.count - n)) =
          ground (arith, e, full, r.sized, l) in
        subst (TurnedBy (q.count - n) q) (sym step)
          (turned_lem k (q.count - n) q r full (omega arith))
    | no ne ↦
        let step : rotate_back blank n q ≡ rotate_loop blank (step_back blank) n q =
          ground (arith, ne) in
        subst (TurnedBy (q.count - n) q) (sym step) (back_loop n k q (parts k q r some ne) l)
  ]

  short : (n : ℕ) (q : Deque A) → IsValid blank q → q.count ≤ 1 → TurnedBy n q q
  short n q v l =
      unmoved n q v (turn_short n (view blank q) (omega (arith, length-view blank q, l)))

  whole : (n : ℕ) (q : Deque A) → IsValid blank q → n ≡ q.count → TurnedBy n q q
  whole n q v e = unmoved n q v (
      ap (λ m. turn m (view blank q)) (omega (arith, e, length-view blank q))
      ∙ turn-length (view blank q))

  ring_of : (q : Deque A) → IsValid blank q → 1 < q.count → (k : ℕ) × Ring blank k q
  ring_of q (inl r) l = r
  ring_of q (inr b) l = absurd (omega (arith, b.no_count, l))

  -- `Rotate` of a valid deque, by any number, leaves it valid, and the list is then the one from the
  -- place on that the number has modulo the length, followed by what was before that place; a negative
  -- number counts from the back. Nothing is resized, so this holds of full and partly filled buffers.
  pub rotate-TurnedBy :
      (z : ℤ) (q : Deque A) → IsValid blank q → TurnedBy (offset z q.count) q (rotate blank z q)
  unfolding rotate
  rotate-TurnedBy (pos n) q v = elim (Bool-cases (leb q.count 1)) [
    | inl few ↦
        let step : rotate blank (pos n) q ≡ q = rw few refl in
        subst (TurnedBy (n % q.count) q) (sym step) (short (n % q.count) q v (ground (arith, few)))
    | inr many ↦ elim (Bool-cases (n % q.count == 0)) [
      | inl still ↦
          let step : rotate blank (pos n) q ≡ q = rw (many, still) refl in
          let none_left : n % q.count ≡ 0 = (==_iff (n % q.count) 0).0 still in
          subst (TurnedBy (n % q.count) q) (sym step) (
            unmoved (n % q.count) q v
              (ap (λ m. turn m (view blank q)) none_left ∙ append-nil (view blank q)))
      | inr moves ↦
          let more : 1 < q.count = ground (arith, many) in
          let (k, r) = ring_of q v more in
          let step : rotate blank (pos n) q ≡ rotate_front blank (n % q.count) q =
            rw (many, moves) refl in
          subst (TurnedBy (n % q.count) q) (sym step) (
            rotate_front_lem (n % q.count) k q r (omega (arith, more))
              (omega (arith, mod-lt n {m = q.count} (omega (arith, more)))))
    ]
  ]
  rotate-TurnedBy (negsuc n) q v = elim (Bool-cases (leb q.count 1)) [
    | inl few ↦
        let step : rotate blank (negsuc n) q ≡ q = rw few refl in
        subst (TurnedBy (offset (negsuc n) q.count) q) (sym step)
          (short (offset (negsuc n) q.count) q v (ground (arith, few)))
    | inr many ↦ elim (Bool-cases (suc n % q.count == 0)) [
      | inl still ↦
          let step : rotate blank (negsuc n) q ≡ q = rw (many, still) refl in
          let none_left : suc n % q.count ≡ 0 = (==_iff (suc n % q.count) 0).0 still in
          subst (TurnedBy (offset (negsuc n) q.count) q) (sym step)
            (whole (offset (negsuc n) q.count) q v (omega (arith, none_left)))
      | inr moves ↦
          let more : 1 < q.count = ground (arith, many) in
          let (k, r) = ring_of q v more in
          let step : rotate blank (negsuc n) q ≡ rotate_back blank (suc n % q.count) q =
            rw (many, moves) refl in
          subst (TurnedBy (offset (negsuc n) q.count) q) (sym step) (
            rotate_back_lem (suc n % q.count) k q r (omega (arith, more))
              (omega (arith, mod-lt (suc n) {m = q.count} (omega (arith, more)))))
    ]
  ]
