-- ===== src/HashRing/Doubled.antt =====
-- A virtual node that stands in the ring twice, as after two calls of Add with one key.
use Prim.Native.String.{String}
use emberengine.Prelude.{
  ℕ, ◌≡◌, ◌==◌, refl, sym, ap, ◌∙◌, subst, List, [], ◌∷◌, ◌++◌, Bool, true, false, none, some,
  arith, Bool-cases, inl, inr, length,
}
use emberengine.Prelude.Int.{ℤ, pos, ◌<ℤ◌, leb_ℤ, eqb_ℤ}
use emberengine.Prelude.Dict.{Eq, Dict, lookup, erase, lookup-erase, beq_refl, int_eq}
use emberengine.HashRing.{
  HashRing, hash_event, insert_sorted, ints, or_zero, remove_loop, remove, get,
}
use emberengine.HashRing.Search.{AtLeast, Sorted, node_for, first_from, index_of_lem}
use emberengine.HashRing.Removal.{owner}

-- Sorting what is sorted, equal nodes beside each other.
insert_sorted-AtLeast : (x : ℤ) (l : List ℤ) → AtLeast x l → insert_sorted x l ≡ x ∷ l
insert_sorted-AtLeast x [] a = refl
insert_sorted-AtLeast x (y ∷ ys) a = ground (arith, a.0)

ints-Sorted : (l : List ℤ) → Sorted l → ints l ≡ l
unfolding ints
ints-Sorted [] a = refl
ints-Sorted (x ∷ xs) a = ap (insert_sorted x) (ints-Sorted xs a.1) ∙ insert_sorted-AtLeast x xs a.0

-- All of the nodes are before the hash.
abbrev pub Before : ℤ → List ℤ → Type 0
Before hash [] = Unit
Before hash (y ∷ ys) = (y <ℤ hash) × Before hash ys

module _ {A : Type 0} (z : A) (gone : A → Bool) where
  remove_loop-AtLeast :
      (y : ℤ) (xs : List ℤ) (r : Dict ℤ A) → AtLeast y xs → AtLeast y (remove_loop z gone xs r).0
  unfolding remove_loop
  remove_loop-AtLeast y [] r a = tt
  remove_loop-AtLeast y (x ∷ xs) r a = elim (Bool-cases (gone (owner z gone x r))) [
    | inl t ↦ rw t (remove_loop-AtLeast y xs (erase x r) a.1)
    | inr f ↦ rw f (a.0, remove_loop-AtLeast y xs r a.1)
  ]

  remove_loop-Sorted : (xs : List ℤ) (r : Dict ℤ A) → Sorted xs → Sorted (remove_loop z gone xs r).0
  unfolding remove_loop
  remove_loop-Sorted [] r a = tt
  remove_loop-Sorted (x ∷ xs) r a = elim (Bool-cases (gone (owner z gone x r))) [
    | inl t ↦ rw t (remove_loop-Sorted xs (erase x r) a.1)
    | inr f ↦ rw f (remove_loop-AtLeast x xs r a.0, remove_loop-Sorted xs r a.1)
  ]

  erase_lost : (x y : ℤ) (r : Dict ℤ A) → lookup x r ≡ none → lookup x (erase y r) ≡ none
  erase_lost x y r lost = elim (Bool-cases (eqb_ℤ x y)) [
    | inl t ↦ lookup-erase y x r ∙ rw t refl
    | inr f ↦ lookup-erase y x r ∙ rw f lost
  ]

  -- A node without an owner gets none.
  remove_loop_lost :
      (x : ℤ) (xs : List ℤ) (r : Dict ℤ A)
      → lookup x r ≡ none
      → lookup x (remove_loop z gone xs r).1 ≡ none
  unfolding remove_loop
  remove_loop_lost x [] r lost = lost
  remove_loop_lost x (y ∷ ys) r lost = elim (Bool-cases (gone (owner z gone y r))) [
    | inl t ↦ rw t (remove_loop_lost x ys (erase y r) (erase_lost x y r lost))
    | inr f ↦ rw f (remove_loop_lost x ys r lost)
  ]

  -- The loop over nodes with one that stands there twice: it loses its owner and stays.
  remove_loop_doubled :
      (hash x : ℤ) (front rest : List ℤ) (r : Dict ℤ A)
      → Before hash front
      → leb_ℤ hash x ≡ true
      → gone z ≡ false
      → gone (owner z gone x r) ≡ true
      → (first_from hash (remove_loop z gone (front ++ x ∷ x ∷ rest) r).0 ≡ some x)
        × (lookup x (remove_loop z gone (front ++ x ∷ x ∷ rest) r).1 ≡ none)
  unfolding remove_loop first_from
  remove_loop_doubled hash x [] rest r before l other going =
      let r' = erase x r in
      let lost : lookup x r' ≡ none = lookup-erase x x r ∙ rw (beq_refl x) refl in
      let staying : gone (owner z gone x r') ≡ false = ap (λ o. gone (or_zero z o)) lost ∙ other in
      rw (going, staying, l) (refl, remove_loop_lost x rest r' lost)
  remove_loop_doubled hash x (y ∷ front) rest r before l other going =
      let apart : eqb_ℤ x y ≡ false = ground (arith, l, before.0) in
      let behind : leb_ℤ hash y ≡ false = ground (arith, before.0) in
      let same : lookup x (erase y r) ≡ lookup x r = lookup-erase y x r ∙ rw apart refl in
      elim (Bool-cases (gone (owner z gone y r))) [
        | inl t ↦ rw t (
            remove_loop_doubled hash x front rest (erase y r) before.1 l other
              (ap (λ o. gone (or_zero z o)) same ∙ going))
        | inr f ↦ rw (f, behind) (remove_loop_doubled hash x front rest r before.1 l other going)
      ]

module _ {A : Type 0} ⦃e : Eq A⦄ (z key : A) (sum64 : String → ℕ) (s : String) where
  abbrev gone : A → Bool
  gone a = e.beq a key

  -- A hash that falls on a node without an owner.
  stale :
      (h : HashRing A) (x : ℤ)
      → Sorted h.nodes
      → first_from (hash_event sum64 s) h.nodes ≡ some x
      → eqb_ℤ (hash_event sum64 s) (pos 0) ≡ false
      → lookup x h.ring ≡ none
      → get sum64 s h ≡ none
  unfolding get
  stale h x a first other lost =
      let hash = hash_event sum64 s in
      let at_x : node_for hash h.nodes ≡ x = rw (other, first) refl in
      elim (Bool-cases (length h.nodes == 0)) [
        | inl bare ↦ rw bare refl
        | inr filled ↦
            rw filled (ap (λ i. lookup i h.ring) (index_of_lem hash h.nodes a ∙ at_x) ∙ lost)
      ]

  -- In a ring whose nodes are in order, equal ones beside each other, let a virtual node of a key that
  -- is not the zero value stand twice, as each of the key's does after a second Add of it. After
  -- Remove of the key, Get answers nothing for every key whose hash is not 0 and falls on that node,
  -- which is the first from the hash on, however many other nodes there are and whoever owns them.
  pub get-remove_doubled :
      (h : HashRing A) (x : ℤ) (front rest : List ℤ)
      → Sorted h.nodes
      → h.nodes ≡ front ++ x ∷ x ∷ rest
      → lookup x h.ring ≡ some key
      → e.beq z key ≡ false
      → eqb_ℤ (hash_event sum64 s) (pos 0) ≡ false
      → Before (hash_event sum64 s) front
      → leb_ℤ (hash_event sum64 s) x ≡ true
      → get sum64 s (remove z key h) ≡ none
  unfolding remove
  get-remove_doubled h x front rest a n owned other not_zero before l =
      let hash = hash_event sum64 s in
      let going : gone (owner z gone x h.ring) ≡ true =
        ap (λ o. gone (or_zero z o)) owned ∙ beq_refl key in
      let (first, lost) =
        remove_loop_doubled z gone hash x front rest h.ring before l other going in
      let order = remove_loop-Sorted z gone h.nodes h.ring a in
      let nodes = ints-Sorted (remove_loop z gone h.nodes h.ring).0 order in
      let same = ap (λ ns. remove_loop z gone ns h.ring) n in
      stale (remove z key h) x (subst Sorted (sym nodes) order)
        (ap (first_from hash) nodes ∙ ap (λ p. first_from hash p.0) same ∙ first) not_zero
        (ap (λ p. lookup x p.1) same ∙ lost)
