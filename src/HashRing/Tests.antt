-- ===== src/HashRing/Tests.antt =====
-- A ring of numbers, with a hash that is given for each key.
use Prim.Native.String.{String}
use text.Mathlib.Text.{◌==◌ as str_eq}
use emberengine.Prelude.{ℕ, ◌≡◌, ◌==◌, refl, arith, List, [], ◌∷◌, none, if◌then◌else◌}
use emberengine.Prelude.Int.{pos, int64}
use emberengine.Prelude.Dict.{nat_eq}
use emberengine.HashRing.{HashRing, new_hash_ring, hash_event, add, add_loop, ints, remove, get}
use emberengine.HashRing.Served.{IsWf, Served}
use emberengine.HashRing.Moves.{Dropped, remove-Dropped}
use emberengine.HashRing.Session.{Call, adds, removes, Apart, run, run-Served}
use emberengine.HashRing.Search.{Sorted}
use emberengine.HashRing.Doubled.{get-remove_doubled}

abbrev sum64 : String → ℕ
sum64 s = if str_eq s "a" then 10 else if str_eq s "b" then 20 else if str_eq s "c" then 30 else 15

-- The formatted key of the one replica.
abbrev virtual_node_key : ℕ → ℕ → String
virtual_node_key key i = if key == 1 then "a" else if key == 2 then "b" else "c"

abbrev calls : List (Call ℕ)
calls = adds 1 ∷ adds 3 ∷ adds 2 ∷ removes 3 ∷ []

calls-Apart : Apart sum64 virtual_node_key 0 calls (new_hash_ring 1)
unfolding hash_event new_hash_ring add add_loop ints int64
calls-Apart =
    ((tt, tt), (((ground arith, tt), tt), (((ground arith, (ground arith, tt)), tt), (tt, tt))))

run-Served_example :
    IsWf (run sum64 virtual_node_key 0 calls (new_hash_ring 1))
    × Served sum64 "x" (run sum64 virtual_node_key 0 calls (new_hash_ring 1))
run-Served_example = run-Served sum64 virtual_node_key 0 1 calls "x" calls-Apart

abbrev ring : HashRing ℕ
ring = record { nodes = pos 10 ∷ pos 20 ∷ []; ring = (pos 10, 1) ∷ (pos 20, 2) ∷ []; replicas = 1 }

remove-Dropped_example : Dropped 0 (λ a. a == 1) sum64 "x" ring (remove 0 1 ring)
remove-Dropped_example =
    remove-Dropped 0 1 sum64 "x" ring (omega arith, ((1, refl), ((2, refl), tt)))

-- Two replicas, and Add of 1 twice.
abbrev two_keys : ℕ → ℕ → String
two_keys key i = if key == 1 then (if i == 0 then "a" else "c") else if i == 0 then "b" else "d"

abbrev doubled : HashRing ℕ
doubled = add sum64 two_keys 1 (add sum64 two_keys 2 (add sum64 two_keys 1 (new_hash_ring 2)))

get-remove_doubled_example : get sum64 "c" (remove 0 1 doubled) ≡ none
unfolding hash_event new_hash_ring add add_loop ints int64
get-remove_doubled_example =
    let in_order : Sorted (pos 10 ∷ pos 10 ∷ pos 15 ∷ pos 20 ∷ pos 30 ∷ pos 30 ∷ []) =
      ground arith in
    get-remove_doubled 0 1 sum64 "c" doubled (pos 30) (pos 10 ∷ pos 10 ∷ pos 15 ∷ pos 20 ∷ []) []
      in_order refl refl refl refl (ground arith) refl
