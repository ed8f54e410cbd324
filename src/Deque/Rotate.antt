-- ===== src/Deque/Rotate.antt =====
-- `Rotate` rotates the list.
use native.Mathlib.Nat.{mod-eq_of_lt, mod-lt}
use Prim.Native.Nat.{bit_and}
use emberengine.Prelude.{
  ℕ, zero, suc, ◌+◌, ◌-◌, ◌%◌, ◌^◌, ◌≤◌, ◌<◌, ◌≡◌, ◌≢◌, refl, sym, ap, ap₂, ◌∙◌, subst, List, [],
  ◌∷◌, ◌++◌, arith, length, get_or, set, length-set, take, drop, take-append_front,
  drop-append_front, take-append, drop-append, append_assoc, append-nil,
}
use emberengine.Prelude.Int.{ℤ, pos, negsuc}
use emberengine.Circular.{mod-add-ne}
use emberengine.Deque.{
  Deque, next, prev, put_back, put_front, drop_front, drop_back, step_front, step_back,
}
use emberengine.Deque.View.{
  view, Ring, pow_pos, prev_lem, put_back_lem, put_front_lem, drop_front_lem, drop_back_lem,
}

-- How far the list turns, of `c` elements.
abbrev pub offset : ℤ → ℕ → ℕ
offset (pos n) c = n % c
offset (negsuc n) c = c - suc n % c

module _ {A : Type 0} where
  -- The list from place `n` on, then its first `n`.
  abbrev pub turn : ℕ → List A → List A
  turn n l = drop n l ++ take n l

  pub turn_front :
      (n : ℕ) (x : A) (xs : List A) → n ≤ length xs → turn n (xs ++ x ∷ []) ≡ turn (suc n) (x ∷ xs)
  turn_front n x xs l =
      ap₂ ◌++◌ (drop-append_front n xs (x ∷ []) l) (take-append_front n xs (x ∷ []) l)
      ∙ append_assoc (drop n xs) (x ∷ []) (take n xs)

  drop_nil : (n : ℕ) → drop {A = A} n [] ≡ []
  drop_nil zero = refl
  drop_nil (suc n) = refl

  take_nil : (n : ℕ) → take {A = A} n [] ≡ []
  take_nil zero = refl
  take_nil (suc n) = refl

  pub turn_short : (n : ℕ) (l : List A) → length l ≤ 1 → turn n l ≡ l
  turn_short n [] s = ap₂ ◌++◌ (drop_nil n) (take_nil n)
  turn_short zero (x ∷ []) s = refl
  turn_short (suc n) (x ∷ []) s = ap₂ (λ a b. a ++ x ∷ b) (drop_nil n) (take_nil n)
  turn_short n (x ∷ y ∷ l) s = absurd (omega arith)

  pub turn-length : (l : List A) → turn (length l) l ≡ l
  turn-length l =
      ap₂ ◌++◌ (ap (drop (length l)) (sym (append-nil l)) ∙ drop-append l [])
        (ap (take (length l)) (sym (append-nil l)) ∙ take-append l [])

  set_commute : (b : List A) (i j : ℕ) (x y : A) → i ≢ j → set (set b i x) j y ≡ set (set b j y) i x
  set_commute [] i j x y ne = refl
  set_commute (z ∷ b) zero zero x y ne = absurd (ne refl)
  set_commute (z ∷ b) zero (suc j) x y ne = refl
  set_commute (z ∷ b) (suc i) zero x y ne = refl
  set_commute (z ∷ b) (suc i) (suc j) x y ne =
      ap (λ t. z ∷ t) (set_commute b i j x y (λ e. ne (ap suc e)))

module _ {A : Type 0} (blank : A) where
  -- A deque with an element and a free cell.
  pub record Loose (k : ℕ) (q : Deque A) : Type 0 where
    pub ring : Ring blank k q
    pub some : 0 < q.count
    pub room : q.count < 2 ^ k

  pub tail_ne : (k : ℕ) (q : Deque A) → Loose k q → q.tail ≢ q.head
  tail_ne k q s e =
      mod-add-ne (2 ^ k) q.head q.count s.some s.room
        (sym s.ring.tail_at ∙ e ∙ sym (mod-eq_of_lt s.ring.head_in))

  abbrev pub FrontToBack : ℕ → Deque A → Deque A → Type 0
  FrontToBack k q q' =
      Loose k q'
      × (q'.count ≡ q.count)
      × ((x : A) × (xs : List A) × (view blank q ≡ x ∷ xs) × (view blank q' ≡ xs ++ x ∷ []))

  -- A round is a pop and a push without the resizing.
  pub step_front_lem : (k : ℕ) (q : Deque A) → Loose k q → FrontToBack k q (step_front blank q)
  unfolding step_front drop_front put_back next
  step_front_lem k q s =
      let x = get_or q.buf q.head blank in
      let less : q.count ≡ suc (q.count - 1) = omega (arith, s.some) in
      let (r, shown) = drop_front_lem blank k (q.count - 1) q s.ring less in
      let q1 = drop_front blank q in
      let (r', shown') = put_back_lem blank k x q1 r (omega (arith, s.room)) in
      let made =
        λ (b : List A) (t n : ℕ). record q { buf = b; head = next q q.head; tail = t; count = n } in
      let same : put_back blank x q1 ≡ step_front blank q =
        ap₂ (λ b t. made b t (q.count - 1 + 1))
          (set_commute q.buf q.head q.tail blank x (λ e. tail_ne k q s (sym e)))
          (ap (λ c. bit_and (q.tail + 1) (c - 1)) (length-set q.buf q.head blank))
        ∙ ap (made (set (set q.buf q.tail x) q.head blank) (next q q.tail))
            (omega (arith, s.some)) in
      subst (FrontToBack k q) same (
        record { ring = r'; some = omega arith; room = omega (arith, s.room, s.some) },
        omega (arith, s.some),
        (x, view blank q1, shown, shown'),
      )

  prev-length : (p q : Deque A) (i : ℕ) → length p.buf ≡ length q.buf → prev p i ≡ prev q i
  unfolding prev
  prev-length p q zero e = ap (λ c. c - 1) e
  prev-length p q (suc i) e = ap (λ c. bit_and i (c - 1)) e

  abbrev pub BackToFront : ℕ → Deque A → Deque A → Type 0
  BackToFront k q q' =
      Loose k q'
      × (q'.count ≡ q.count)
      × ((x : A) × (xs : List A) × (view blank q ≡ xs ++ x ∷ []) × (view blank q' ≡ x ∷ xs))

  prev_ne : (k : ℕ) (q : Deque A) → Loose k q → prev q q.head ≢ prev q q.tail
  prev_ne k q s e =
      let (h_in, h_next) = prev_lem blank k q q.head s.ring.sized s.ring.head_in in
      let tail_in : q.tail < 2 ^ k =
        omega (arith, s.ring.tail_at, mod-lt (q.head + q.count) {m = 2 ^ k} (pow_pos k)) in
      let (t_in, t_next) = prev_lem blank k q q.tail s.ring.sized tail_in in
      tail_ne k q s (sym t_next ∙ ap (λ i. (i + 1) % 2 ^ k) (sym e) ∙ h_next)

  pub step_back_lem : (k : ℕ) (q : Deque A) → Loose k q → BackToFront k q (step_back blank q)
  unfolding step_back drop_back put_front
  step_back_lem k q s =
      let x = get_or q.buf (prev q q.tail) blank in
      let less : q.count ≡ suc (q.count - 1) = omega (arith, s.some) in
      let (r, shown) = drop_back_lem blank k (q.count - 1) q s.ring less in
      let q1 = drop_back blank q in
      let (r', shown') = put_front_lem blank k x q1 r (omega (arith, s.room)) in
      let made =
        λ (b : List A) (h n : ℕ). record q { buf = b; head = h; tail = prev q q.tail; count = n } in
      let back : prev q1 q.head ≡ prev q q.head =
        prev-length q1 q q.head (length-set q.buf (prev q q.tail) blank) in
      let same : put_front blank x q1 ≡ step_back blank q =
        ap (λ h. made (set q1.buf h x) h (q.count - 1 + 1)) back
        ∙ ap (λ b. made b (prev q q.head) (q.count - 1 + 1))
            (set_commute q.buf (prev q q.tail) (prev q q.head) blank x (λ e. prev_ne k q s (sym e)))
        ∙ ap (made (set (set q.buf (prev q q.head) x) (prev q q.tail) blank) (prev q q.head))
            (omega (arith, s.some)) in
      subst (BackToFront k q) same (
        record { ring = r'; some = omega arith; room = omega (arith, s.room, s.some) },
        omega (arith, s.some),
        (x, view blank q1, shown, shown'),
      )
