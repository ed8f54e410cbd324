-- ===== src/Mailbox/Queues.antt =====
-- The queue interface of engine/pkg/actor/mailbox/queue_manager.go, with what its users rely on,
-- and the two views of a manager's content.
use emberengine.Prelude.{
  ℕ, suc, zero, ◌≡◌, refl, ap, ◌∙◌, List, [], ◌∷◌, ◌++◌, Bool, true, false, Option, none, some,
  length, arith, if◌then◌else◌, ◌&&◌, ◌<◌, ◌⊎◌, inl, inr,
}
use emberengine.Prelude.Int.{ℤ, leb_ℤ, ◌≤ℤ◌, ◌<ℤ◌}

abbrev pub is_nil {ℓ} : {A : Type ℓ} → List A → Bool
is_nil [] = true
is_nil (x ∷ xs) = false

pub List-cases {ℓ} :
    {A : Type ℓ} (xs : List A) → (xs ≡ []) ⊎ ((x : A) × (ys : List A) × (xs ≡ x ∷ ys))
List-cases [] = inl refl
List-cases (x ∷ xs) = inr (x, xs, refl)

pub is_nil-append {ℓ} : {A : Type ℓ} (xs ys : List A) → (is_nil xs && is_nil ys) ≡ is_nil (xs ++ ys)
is_nil-append [] ys = refl
is_nil-append (x ∷ xs) ys = refl

abbrev pub pop_list {ℓ} : {A : Type ℓ} → List A → Option A × List A
pop_list [] = (none, [])
pop_list (x ∷ xs) = (some x, xs)

-- `queue[T]`, an implementation with its invariant and the list that it holds. A refused push
-- changes nothing, an accepted one appends; a pop takes the oldest.
pub record QueueImpl (A : Type 0) : Type 1 where
  pub Q : Type 0
  pub push : Q → A → Bool × Q
  pub pop : Q → Option A × Q
  pub empty : Q → Bool
  pub len : Q → ℕ
  pub IsOk : Q → Type 0
  pub contents : Q → List A
  pub push-IsOk : (q : Q) (x : A) → IsOk q → IsOk (push q x).1
  pub pop-IsOk : (q : Q) → IsOk q → IsOk (pop q).1
  pub push_refused : (q : Q) (x : A) → IsOk q → (push q x).0 ≡ false → (push q x).1 ≡ q
  pub push_accepted :
      (q : Q) (x : A) → IsOk q → (push q x).0 ≡ true → contents (push q x).1 ≡ contents q ++ x ∷ []
  pub pop_result : (q : Q) → IsOk q → (pop q).0 ≡ (pop_list (contents q)).0
  pub pop_rest : (q : Q) → IsOk q → contents (pop q).1 ≡ (pop_list (contents q)).1
  pub empty_result : (q : Q) → IsOk q → empty q ≡ is_nil (contents q)
  pub len_result : (q : Q) → IsOk q → len q ≡ length (contents q)

-- Insertion behind everything whose key is not above the new one's: a stable priority queue.
module _ {A : Type 0} (key : A → ℤ) where
  abbrev pub insert_by : A → List A → List A
  insert_by x [] = x ∷ []
  insert_by x (y ∷ ys) = if leb_ℤ (key y) (key x) then y ∷ insert_by x ys else x ∷ y ∷ ys

  abbrev pub AllAtMost : ℤ → List A → Type 0
  AllAtMost k [] = Unit
  AllAtMost k (y ∷ ys) = (key y ≤ℤ k) × AllAtMost k ys

  abbrev pub AllAbove : ℤ → List A → Type 0
  AllAbove k [] = Unit
  AllAbove k (y ∷ ys) = (k <ℤ key y) × AllAbove k ys

  insert_by_above : (x : A) (ys : List A) → AllAbove (key x) ys → insert_by x ys ≡ x ∷ ys
  insert_by_above x [] h = refl
  insert_by_above x (y ∷ ys) h = ground arith

  pub insert_by_past :
      (x : A) (xs ys : List A)
      → AllAtMost (key x) xs
      → insert_by x (xs ++ ys) ≡ xs ++ insert_by x ys
  insert_by_past x [] ys h = refl
  insert_by_past x (y ∷ xs) ys h = ground (arith, insert_by_past x xs ys h.1)

  pub insert_by_between :
      (x : A) (xs ys : List A)
      → AllAtMost (key x) xs
      → AllAbove (key x) ys
      → insert_by x (xs ++ ys) ≡ xs ++ x ∷ ys
  insert_by_between x [] ys h a = insert_by_above x ys a
  insert_by_between x (y ∷ xs) ys h a = ground (arith, insert_by_between x xs ys h.1 a)

-- `for !que.Empty() { if e, ok := que.Pop(); ok { handler(e) } }` on fuel; the handler acts on a
-- state of its own. `none` means that the fuel ran out.
module _ {A : Type 0} (I : QueueImpl A) {S : Type 0} (handler : A → S → S) where
  abbrev handle : Option A → S → S
  handle none s = s
  handle (some e) s = handler e s

  unfoldable pub drain : ℕ → I.Q → S → Option (S × I.Q)
  drain zero q s = none
  drain (suc fuel) q s =
      let (e, q') = I.pop q in
      let rest = drain fuel q' (handle e s) in if I.empty q then some (s, q) else rest

  abbrev pub handle_all : List A → S → S
  handle_all [] s = s
  handle_all (e ∷ es) s = handle_all es (handler e s)

  pub handle_all-append :
      (xs ys : List A) (s : S) → handle_all (xs ++ ys) s ≡ handle_all ys (handle_all xs s)
  handle_all-append [] ys s = refl
  handle_all-append (x ∷ xs) ys s = handle_all-append xs ys (handler x s)

  -- With fuel above the length, the handler sees every element once, oldest first, and the queue
  -- ends empty.
  pub drain_lem :
      (fuel : ℕ) (q : I.Q) (s : S) (es : List A)
      → I.IsOk q
      → I.contents q ≡ es
      → length es < fuel
      → (q' : I.Q) × (drain fuel q s ≡ some (handle_all es s, q'))
        × (I.contents q' ≡ [])
        × I.IsOk q'
  unfolding drain
  drain_lem zero q s es k e l = elim l [ ]
  drain_lem (suc fuel) q s [] k e l =
      let done : I.empty q ≡ true = I.empty_result q k ∙ ap is_nil e in (q, rw done, e, k)
  drain_lem (suc fuel) q s (x ∷ es) k e l =
      let more : I.empty q ≡ false = I.empty_result q k ∙ ap is_nil e in
      let taken : (I.pop q).0 ≡ some x = I.pop_result q k ∙ ap (λ l. (pop_list l).0) e in
      rw (more, taken)
        (drain_lem fuel (I.pop q).1 (handler x s) es (I.pop-IsOk q k)
          (I.pop_rest q k ∙ ap (λ l. (pop_list l).1) e) (omega arith))
