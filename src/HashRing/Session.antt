-- ===== src/HashRing/Session.antt =====
-- The ring through calls.
use Prim.Native.String.{String}
use emberengine.Prelude.{
  ℕ, zero, suc, ◌+◌, ◌≢◌, refl, sym, ◌∙◌, List, [], ◌∷◌, ◌++◌, Bool, arith, Bool-cases, inl, inr,
}
use emberengine.Prelude.Int.{ℤ, leb_ℤ}
use emberengine.Prelude.Dict.{Eq, Dict, insert, lookup-insert, int_eq, eqb_ℤ_iff, beq_refl}
use emberengine.HashRing.{
  HashRing, new_hash_ring, hash_event, ints, insert_sorted, add, add_loop, remove, remove_many,
  clear,
}
use emberengine.HashRing.Search.{Ascending}
use emberengine.HashRing.Keys.{Absent, Distinct, Held, Ascending-ints, Absent-Above}
use emberengine.HashRing.Served.{IsWf, Served, get-Served}
use emberengine.HashRing.Moves.{remove_many-Dropped, remove-Dropped}

pub data Call (A : Type 0) : Type 0 where
  adds removes : A → Call A
  removes_many : (A → Bool) → Call A
  clears : Call A

Absent-append : (x y : ℤ) (ns : List ℤ) → Absent x ns → x ≢ y → Absent x (ns ++ y ∷ [])
Absent-append x y [] a d = (d, tt)
Absent-append x y (w ∷ ws) a d = (a.0, Absent-append x y ws a.1 d)

Distinct-append : (x : ℤ) (ns : List ℤ) → Distinct ns → Absent x ns → Distinct (ns ++ x ∷ [])
Distinct-append x [] d a = (tt, tt)
Distinct-append x (y ∷ ys) d a =
    (Absent-append y x ys d.0 (λ e. a.0 (sym e)), Distinct-append x ys d.1 a.1)

Ascending-Distinct : (ns : List ℤ) → Ascending ns → Distinct ns
Ascending-Distinct [] a = tt
Ascending-Distinct (x ∷ xs) a = (Absent-Above x xs a.0, Ascending-Distinct xs a.1)

module _ {A : Type 0} where
  Held-insert :
      (r : Dict ℤ A) (x : ℤ) (a : A) (ns : List ℤ)
      → Absent x ns
      → Held r ns
      → Held (insert x a r) (ns ++ x ∷ [])
  Held-insert r x a [] d h = ((a, lookup-insert x x a r ∙ rw (beq_refl x) refl), tt)
  Held-insert r x a (y ∷ ys) d h = (
    (h.0.0, lookup-insert x y a r ∙ ground (arith, eqb_ℤ_iff y x, h.0.1)),
    Held-insert r x a ys d.1 h.1,
  )

  Held-insert_sorted :
      (r : Dict ℤ A) (x : ℤ) (ns : List ℤ) → Held r (x ∷ ns) → Held r (insert_sorted x ns)
  Held-insert_sorted r x [] h = h
  Held-insert_sorted r x (y ∷ ys) h = elim (Bool-cases (leb_ℤ x y)) [
    | inl t ↦ rw t h
    | inr f ↦ rw f (h.1.0, Held-insert_sorted r x ys (h.0, h.1.1))
  ]

  pub Held-ints : (r : Dict ℤ A) (ns : List ℤ) → Held r ns → Held r (ints ns)
  unfolding ints
  Held-ints r [] h = tt
  Held-ints r (x ∷ xs) h = Held-insert_sorted r x (ints xs) (h.0, Held-ints r xs h.1)

module _ {A : Type 0} ⦃e : Eq A⦄ (sum64 : String → ℕ) (virtual_node_key : A → ℕ → String)
    (z : A) where
  -- The hashes of the virtual nodes differ from one another and from the nodes in the ring.
  abbrev pub Fresh : ℕ → ℕ → A → List ℤ → Type 0
  Fresh zero i key ns = Unit
  Fresh (suc n) i key ns =
      let hash = hash_event sum64 (virtual_node_key key i) in
      Absent hash ns × Fresh n (i + 1) key (ns ++ hash ∷ [])

  abbrev Loose : HashRing A → Type 0
  Loose h = Distinct h.nodes × Held h.ring h.nodes

  add_loop-Loose :
      (n i : ℕ) (key : A) (h : HashRing A)
      → Fresh n i key h.nodes
      → Loose h
      → Loose (add_loop sum64 virtual_node_key n i key h)
  unfolding add_loop
  add_loop-Loose zero i key h f l = l
  add_loop-Loose (suc n) i key h f l =
      let hash = hash_event sum64 (virtual_node_key key i) in
      add_loop-Loose n (i + 1) key
        (record h { nodes = h.nodes ++ hash ∷ []; ring = insert hash key h.ring }) f.1
        (Distinct-append hash h.nodes l.0 f.0, Held-insert h.ring hash key h.nodes f.0 l.1)

  add-IsWf :
      (key : A) (h : HashRing A)
      → Fresh h.replicas 0 key h.nodes
      → IsWf h
      → IsWf (add sum64 virtual_node_key key h)
  unfolding add
  add-IsWf key h f w =
      let h' = add_loop sum64 virtual_node_key h.replicas 0 key h in
      let l = add_loop-Loose h.replicas 0 key h f (Ascending-Distinct h.nodes w.0, w.1) in
      (Ascending-ints h'.nodes l.0, Held-ints h'.ring h'.nodes l.1)

  abbrev pub call : Call A → HashRing A → HashRing A
  call (adds key) h = add sum64 virtual_node_key key h
  call (removes key) h = remove z key h
  call (removes_many keys) h = remove_many z keys h
  call clears h = clear h

  abbrev pub run : List (Call A) → HashRing A → HashRing A
  run [] h = h
  run (c ∷ cs) h = run cs (call c h)

  abbrev Ready : Call A → HashRing A → Type 0
  Ready (adds key) h = Fresh h.replicas 0 key h.nodes
  Ready other h = Unit

  -- No two virtual nodes in the ring collide.
  abbrev pub Apart : List (Call A) → HashRing A → Type 0
  Apart [] h = Unit
  Apart (c ∷ cs) h = Ready c h × Apart cs (call c h)

  run-IsWf : (cs : List (Call A)) (h : HashRing A) → Apart cs h → IsWf h → IsWf (run cs h)
  unfolding clear
  run-IsWf [] h f w = w
  run-IsWf (adds key ∷ cs) h f w =
      run-IsWf cs (add sum64 virtual_node_key key h) f.1 (add-IsWf key h f.0 w)
  run-IsWf (removes key ∷ cs) h f w =
      run-IsWf cs (remove z key h) f.1 (remove-Dropped z key sum64 "" h w).0
  run-IsWf (clears ∷ cs) h f w = run-IsWf cs (clear h) f.1 (tt, tt)
  run-IsWf (removes_many keys ∷ cs) h f w =
      run-IsWf cs (remove_many z keys h) f.1 (remove_many-Dropped z keys sum64 "" h w).0

  -- After any sequence of Add, Remove, RemoveMany and Clear in which no two virtual nodes of the ring
  -- collide, the nodes are in order, each has its owner, and Get answers the owner of the first node
  -- from the key's hash on, or of the first of all where there is none or the hash is 0; it answers
  -- nothing just where there is no node.
  pub run-Served :
      (replicas : ℕ) (cs : List (Call A)) (s : String)
      → Apart cs (new_hash_ring replicas)
      → IsWf (run cs (new_hash_ring replicas)) × Served sum64 s (run cs (new_hash_ring replicas))
  unfolding new_hash_ring
  run-Served replicas cs s f =
      let w = run-IsWf cs (new_hash_ring replicas) f (tt, tt) in
      (w, get-Served sum64 s (run cs (new_hash_ring replicas)) w)
