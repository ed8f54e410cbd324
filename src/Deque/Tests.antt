-- ===== src/Deque/Tests.antt =====
-- A deque of numbers.
use emberengine.Prelude.{ℕ, ◌≡◌, ◌==◌, refl, arith, inl, List, [], ◌∷◌}
use emberengine.Prelude.Int.{pos, negsuc}
use emberengine.Deque.{Deque, new, rotate}
use emberengine.Deque.Refine.{IsValid}
use emberengine.Deque.Turn.{TurnedBy, rotate-TurnedBy}
use emberengine.Deque.Calls.{
  Call, pushes_back, pushes_front, pops_front, pops_back, reads, writes, finds, finds_last, limits,
  clears, reads_front, panic, nothing, value, position, list_index, list_r_index, run, list_run,
  list_call,
}
use emberengine.Deque.Order.{run-new}

abbrev calls : List (Call ℕ)
calls =
    pushes_back 1
    ∷ pushes_back 2
    ∷ pushes_front 3
    ∷ writes 1 7
    ∷ reads 1
    ∷ reads 3
    ∷ finds (λ x. x == 7)
    ∷ finds_last (λ x. x == 9)
    ∷ limits 7
    ∷ pops_back
    ∷ pops_front
    ∷ pops_front
    ∷ pops_front
    ∷ clears
    ∷ reads_front
    ∷ []

run-new_example :
    run 0 calls (new 0 0 20)
    ≡ nothing
      ∷ nothing
      ∷ nothing
      ∷ nothing
      ∷ value 7
      ∷ panic
      ∷ position (pos 1)
      ∷ position (negsuc 0)
      ∷ nothing
      ∷ value 2
      ∷ value 3
      ∷ value 7
      ∷ panic
      ∷ nothing
      ∷ panic
      ∷ []
unfolding list_run list_call list_index list_r_index
run-new_example = run-new 0 calls 0 20

-- Three elements that go round the end of the buffer.
abbrev around : Deque ℕ
around = record { buf = 3 ∷ 0 ∷ 1 ∷ 2 ∷ []; head = 2; tail = 1; count = 3; min_cap = 4 }

around-IsValid : IsValid 0 around
around-IsValid = inl (
  2,
  record {
    sized = refl;
    head_in = omega arith;
    fits = omega arith;
    tail_at = refl;
    least = (2, refl);
  },
)

rotate-TurnedBy_example : TurnedBy 0 2 around (rotate 0 (negsuc 3) around)
rotate-TurnedBy_example = rotate-TurnedBy 0 (negsuc 3) around around-IsValid
