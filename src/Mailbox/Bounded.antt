-- ===== src/Mailbox/Bounded.antt =====
-- The bounded backend of engine/pkg/actor/mailbox/queue_manager.go, `newQueue` with a capacity:
-- the queue of engine/pkg/utils/boundedmpsc/queue.go as the managers use it.
use emberengine.Prelude.{
  ℕ, ◌^◌, ◌≡◌, refl, ap, ◌∙◌, List, [], ◌∷◌, ◌++◌, Bool, true, arith, length, ◌==◌,
}
use emberengine.BoundedMpsc.{Queue, push, pop, is_empty, len}
use emberengine.BoundedMpsc.Bounds.{IsValid, push-IsValid, pop-IsValid}
use emberengine.BoundedMpsc.Refine.{
  contents, length-contents, push_refines, pop_refines, push_refused, is_empty_lem, len_lem,
}
use emberengine.Fifo
use emberengine.Mailbox.Queues.{QueueImpl, is_nil, pop_list}

module _ {A : Type 0} (blank : A) where
  pub accepted_push :
      (c : ℕ) (xs : List A) (x : A) {r : Bool} {ys : List A}
      → (r, ys) ≡ Fifo.push c xs x
      → r ≡ true
      → ys ≡ xs ++ x ∷ []
  accepted_push c xs x e t = ground arith

  pub pop-eq-pop_list : (xs : List A) → Fifo.pop xs ≡ pop_list xs
  pop-eq-pop_list [] = refl
  pop-eq-pop_list (x ∷ xs) = refl

  pub empty-is_nil : (n : ℕ) (xs : List A) → length xs ≡ n → (n == 0) ≡ is_nil xs
  empty-is_nil n [] e = ground arith
  empty-is_nil n (x ∷ xs) e = ground arith

  -- The queue of `2 ^ k` slots keeps every promise that the managers rely on.
  abbrev pub bounded_impl : ℕ → QueueImpl A
  bounded_impl k = record {
    Q = Queue A;
    push = push;
    pop = pop blank;
    empty = is_empty;
    len = len;
    IsOk = IsValid k;
    contents = contents blank;
    push-IsOk = λ q x v. push-IsValid v x;
    pop-IsOk = λ q v. pop-IsValid v blank;
    push_refused = λ q x v e. push_refused blank q x e;
    push_accepted =
        λ q x v e. accepted_push (2 ^ k) (contents blank q) x (push_refines blank x v) e;
    pop_result = λ q v. ap (λ p. p.0) (pop_refines blank v ∙ pop-eq-pop_list (contents blank q));
    pop_rest = λ q v. ap (λ p. p.1) (pop_refines blank v ∙ pop-eq-pop_list (contents blank q));
    empty_result = λ q v.
        is_empty_lem blank q ∙ empty-is_nil q.count (contents blank q) (length-contents blank q);
    len_result = λ q v. len_lem blank q;
  }
