-- ===== src/BoundedMpsc/Refine.antt =====
-- The bounded queue of engine/pkg/utils/boundedmpsc/queue.go holds a list, oldest first, and
-- behaves as the abstract bounded queue of that list.
use Prim.Native.Nat.{bit_and}
use emberengine.Prelude.{
  ℕ, zero, suc, ◌+◌, ◌-◌, ◌%◌, ◌^◌, ◌≤◌, ◌≡◌, refl, ap, ap₂, ◌∙◌, sym, List, [], ◌∷◌, Bool, true,
  false, Option, none, arith, length, get_or, set, ◌==◌, ◌≢◌,
}
use emberengine.Prelude.Bits.{mod_pow-mod_pow}
use emberengine.Prelude.{length-set}
use emberengine.Circular.{window, length-window, window_congr, window-set_past, window-set_head}
use emberengine.Fifo
use emberengine.Fifo.{Op, put, get}
use emberengine.BoundedMpsc.{Queue, push, pop, is_empty, len}
use emberengine.BoundedMpsc.Bounds.{IsValid, head_slot, tail_slot, push-IsValid, pop-IsValid}

module _ {A : Type 0} (blank : A) where
  abbrev pub contents : Queue A → List A
  contents q = window blank q.buffer (length q.buffer) q.head q.count

  pub length-contents : (q : Queue A) → length (contents q) ≡ q.count
  length-contents q = length-window blank q.buffer (length q.buffer) q.head q.count

  -- A window from a counter that has wrapped.
  pub window-word :
      (k w : ℕ) (b : List A) (h n : ℕ)
      → k ≤ w
      → window blank b (2 ^ k) (h % 2 ^ w) n ≡ window blank b (2 ^ k) h n
  window-word k w b h n l = window_congr blank b (2 ^ k) (h % 2 ^ w) h n (mod_pow-mod_pow k w h l)

  -- `window` matches on `suc`, the code tests `count == 0`.
  window_of_ne_zero :
      (b : List A) (c h n : ℕ)
      → n ≢ 0
      → window blank b c h n ≡ get_or b (h % c) blank ∷ window blank b c (h + 1) (n - 1)
  window_of_ne_zero b c h zero p = absurd (p refl)
  window_of_ne_zero b c h (suc n) p = ap (λ m. window blank b c h (suc m)) (omega arith)

  -- `Push` answers as the bounded queue does, and appends.
  pub push_refines :
      {k : ℕ} {q : Queue A} (x : A)
      → IsValid k q
      → ((push q x).0, contents (push q x).1) ≡ Fifo.push (2 ^ k) (contents q) x
  unfolding push
  push_refines {k} {q} x v = ground (
    arith,
    v,
    length-contents q,
    tail_slot v,
    length-set q.buffer (bit_and q.tail q.mask) x,
    window-set_past blank q.buffer (2 ^ k) q.head q.count x,
  )

  pub pop_refines :
      {k : ℕ} {q : Queue A}
      → IsValid k q
      → ((pop blank q).0, contents (pop blank q).1) ≡ Fifo.pop (contents q)
  unfolding pop
  pop_refines {k} {q} v = ground (
    arith,
    v,
    head_slot v,
    length-set q.buffer (bit_and q.head q.mask) blank,
    window_of_ne_zero q.buffer (2 ^ k) q.head q.count,
    window-set_head blank q.buffer (2 ^ k) q.head (q.count - 1) blank,
    window-word k 64 (set q.buffer (q.head % 2 ^ k) blank) (q.head + 1) (q.count - 1),
  )

  pub push_refused : (q : Queue A) (x : A) → (push q x).0 ≡ false → (push q x).1 ≡ q
  unfolding push
  push_refused q x e = ground arith

  pub is_empty_lem : (q : Queue A) → is_empty q ≡ (q.count == 0)
  unfolding is_empty
  is_empty_lem q = refl

  pub len_lem : (q : Queue A) → len q ≡ length (contents q)
  unfolding len
  len_lem q = sym (length-contents q)

  -- What a client sees of a sequence of calls.
  unfoldable pub run : Queue A → List (Op A) → List (Bool × Option A)
  run q [] = []
  run q (put x ∷ ops) = ((push q x).0, none) ∷ run (push q x).1 ops
  run q (get ∷ ops) = (true, (pop blank q).0) ∷ run (pop blank q).1 ops

  -- No sequence of calls tells a valid queue from the bounded list of its contents.
  pub run_refines :
      {k : ℕ} (ops : List (Op A)) {q : Queue A}
      → IsValid k q
      → run q ops ≡ Fifo.run (2 ^ k) (contents q) ops
  unfolding run Fifo.run
  run_refines [] v = refl
  run_refines {k} (put x ∷ ops) {q} v =
      ap₂ ◌∷◌ (ap (λ p. (p.0, none)) (push_refines x v))
        (run_refines ops (push-IsValid v x) ∙ ap (λ p. Fifo.run (2 ^ k) p.1 ops) (push_refines x v))
  run_refines {k} (get ∷ ops) {q} v =
      ap₂ ◌∷◌ (ap (λ p. (true, p.0)) (pop_refines v))
        (run_refines ops (pop-IsValid v blank) ∙ ap (λ p. Fifo.run (2 ^ k) p.1 ops) (pop_refines v))
