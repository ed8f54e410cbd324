-- ===== src/HashRing.antt =====
-- The ring of virtual nodes of engine/pkg/utils/hashring/hashring.go. Every method runs under the mutex
-- and is one function on the state. xxhash and the formatting of a virtual node's key are parameters.
pub mod Search
pub mod Keys
pub mod Removal
pub mod Served
pub mod Moves
pub mod Session
pub mod Doubled
mod Tests
use Prim.Native.String.{String}
use text.Mathlib.Text.{◌==◌ as str_eq}
use emberengine.Prelude.{
  ℕ, zero, suc, ◌+◌, ◌/◌, List, [], ◌∷◌, ◌++◌, Bool, Option, none, some, ltb, ◌==◌, if◌then◌else◌,
  length, get_or,
}
use emberengine.Prelude.Int.{ℤ, pos, leb_ℤ, eqb_ℤ, int64}
use emberengine.Prelude.Dict.{Eq, Dict, lookup, insert, erase, int_eq}

-- `hashEvent`, the sum of 64 bits read as an int.
pub hash_event : (String → ℕ) → String → ℤ
hash_event sum64 key = if str_eq key "" then pos 0 else int64 (pos (sum64 key))

abbrev pub insert_sorted : ℤ → List ℤ → List ℤ
insert_sorted x [] = x ∷ []
insert_sorted x (y ∷ ys) = if leb_ℤ x y then x ∷ y ∷ ys else y ∷ insert_sorted x ys

-- `sort.Ints`
pub ints : List ℤ → List ℤ
ints [] = []
ints (x ∷ xs) = insert_sorted x (ints xs)

-- The loop of `sort.Search`, on fuel: the least index of `i` to `j` at which the test holds, or `j`.
pub search_loop : ℕ → (ℕ → Bool) → ℕ → ℕ → ℕ
search_loop zero test i j = i
search_loop (suc fuel) test i j =
    let h = (i + j) / 2 in
    let upper = search_loop fuel test (h + 1) j in
    let lower = search_loop fuel test i h in
    let rest = if test h then lower else upper in if ltb i j then rest else i

abbrev pub wrap : ℕ → ℕ → ℕ
wrap n idx = if idx == n then 0 else idx

-- The index that `Get` looks at.
pub index_of : ℤ → List ℤ → ℕ
index_of hash ns = wrap (length ns) (
    if eqb_ℤ hash (pos 0)
    then 0
    else search_loop (length ns) (λ i. leb_ℤ hash (get_or ns i (pos 0))) 0 (length ns))

pub record HashRing (A : Type 0) : Type 0 where
  pub nodes : List ℤ
  pub ring : Dict ℤ A
  pub replicas : ℕ

module _ {A : Type 0} where
  -- `NewHashRing`
  pub new_hash_ring : ℕ → HashRing A
  new_hash_ring replicas = record { nodes = []; ring = []; replicas = replicas }

  abbrev pub or_zero : A → Option A → A
  or_zero z none = z
  or_zero z (some a) = a

  -- The loop of `Add` over the last `n` of the replicas; `sum64` is xxhash, `virtual_node_key` the
  -- formatting.
  pub add_loop : (String → ℕ) → (A → ℕ → String) → ℕ → ℕ → A → HashRing A → HashRing A
  add_loop sum64 virtual_node_key zero i key h = h
  add_loop sum64 virtual_node_key (suc n) i key h =
      let hash = hash_event sum64 (virtual_node_key key i) in
      add_loop sum64 virtual_node_key n (i + 1) key
        (record h { nodes = h.nodes ++ hash ∷ []; ring = insert hash key h.ring })

  abbrev pub sorted : HashRing A → HashRing A
  sorted h = record h { nodes = ints h.nodes }

  -- `Add`
  pub add : (String → ℕ) → (A → ℕ → String) → A → HashRing A → HashRing A
  add sum64 virtual_node_key key h = sorted (add_loop sum64 virtual_node_key h.replicas 0 key h)

  abbrev pub keep : ℤ → List ℤ × Dict ℤ A → List ℤ × Dict ℤ A
  keep hash (ns, r) = (hash ∷ ns, r)

  -- The loop of `Remove` and of `RemoveMany`, which differ in the test of the owner; `z` is the zero
  -- value.
  pub remove_loop : A → (A → Bool) → List ℤ → Dict ℤ A → List ℤ × Dict ℤ A
  remove_loop z gone [] r = ([], r)
  remove_loop z gone (hash ∷ hs) r =
      let dropped = remove_loop z gone hs (erase hash r) in
      let kept = keep hash (remove_loop z gone hs r) in
      if gone (or_zero z (lookup hash r)) then dropped else kept

  abbrev pub with_nodes : HashRing A → List ℤ × Dict ℤ A → HashRing A
  with_nodes h (ns, r) = record h { nodes = ints ns; ring = r }

  -- `RemoveMany`; the set of keys is its test of membership.
  pub remove_many : A → (A → Bool) → HashRing A → HashRing A
  remove_many z keys h = with_nodes h (remove_loop z keys h.nodes h.ring)

  -- `Remove`
  pub remove : ⦃e : Eq A⦄ → A → A → HashRing A → HashRing A
  remove ⦃e⦄ z key h = with_nodes h (remove_loop z (λ a. e.beq a key) h.nodes h.ring)

  -- `Clear`; a map that is nil is an empty one, and no loop of `Add` writes to it.
  pub clear : HashRing A → HashRing A
  clear h = record h { nodes = []; ring = []; replicas = 0 }

  -- `Get`; `none` is the zero value and false.
  pub get : (String → ℕ) → String → HashRing A → Option A
  get sum64 hash_key h =
      if length h.nodes == 0
      then none
      else lookup (get_or h.nodes (index_of (hash_event sum64 hash_key) h.nodes) (pos 0)) h.ring
