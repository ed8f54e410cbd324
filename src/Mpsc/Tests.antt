-- ===== src/Mpsc/Tests.antt =====
-- Two producers and a consumer.
use emberengine.Prelude.{ℕ, ◌≡◌, refl, List, [], ◌∷◌}
use emberengine.Mpsc.{
  Event, swaps, links, counts, pops, new, swap, link, count, pop_next, pop, step, run,
}
use emberengine.Mpsc.Order.{FirstInFirstOut, run-FirstInFirstOut}

-- The producer of 7 swaps first and links last: the pop before that answers none, also for 8.
abbrev events : List (Event ℕ)
events =
    swaps 7 1
    ∷ swaps 8 2
    ∷ links 1
    ∷ counts
    ∷ pops
    ∷ links 0
    ∷ pops
    ∷ counts
    ∷ swaps 9 0
    ∷ pops
    ∷ []

popped_in_order : (run 0 events (new 0)).popped ≡ 7 ∷ 8 ∷ []
unfolding run step new swap link count pop pop_next
popped_in_order = refl

run-FirstInFirstOut_example : (left : List ℕ) × FirstInFirstOut 0 (run 0 events (new 0)) left
run-FirstInFirstOut_example = run-FirstInFirstOut 0 events
