-- ===== src/Fifo.antt =====
-- The abstract queue: a list, oldest first, that may be bounded.
use emberengine.Prelude.{
  ℕ, List, [], ◌∷◌, ◌++◌, Bool, true, false, Option, none, some, length, ◌==◌, if◌then◌else◌,
}

pub data Op (A : Type 0) : Type 0 where
  put : A → Op A
  get : Op A

module _ {A : Type 0} where
  abbrev pub pop : List A → Option A × List A
  pop [] = (none, [])
  pop (x ∷ xs) = (some x, xs)

  -- A queue of at most `c` elements refuses one more.
  abbrev pub push : ℕ → List A → A → Bool × List A
  push c xs x = if length xs == c then (false, xs) else (true, xs ++ x ∷ [])

  -- What a client sees of a sequence of calls: acceptance, or the element taken.

  unfoldable pub run : ℕ → List A → List (Op A) → List (Bool × Option A)
  run c xs [] = []
  run c xs (put x ∷ ops) = ((push c xs x).0, none) ∷ run c (push c xs x).1 ops
  run c xs (get ∷ ops) = (true, (pop xs).0) ∷ run c (pop xs).1 ops
