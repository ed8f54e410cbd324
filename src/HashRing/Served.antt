-- ===== src/HashRing/Served.antt =====
-- What Get answers.
use Prim.Native.String.{String}
use emberengine.Prelude.{
  ℕ, ◌<◌, ◌≡◌, refl, sym, ap, ◌∙◌, subst, List, [], ◌∷◌, Bool, false, ◌==◌, none, some, length,
  get_or, arith, Bool-cases, Option-cases, inl, inr, ◌⊎◌,
}
use emberengine.Prelude.Int.{ℤ, pos, leb_ℤ, eqb_ℤ}
use emberengine.Prelude.Dict.{Dict, lookup, int_eq}
use emberengine.HashRing.{HashRing, hash_event, get}
use emberengine.HashRing.Search.{first_from, Ascending, Sorted-Ascending, node_for, index_of_lem}
use emberengine.HashRing.Keys.{Held}
use emberengine.HashRing.Removal.{owner, left}

abbrev pub In : ℤ → List ℤ → Type 0
In x [] = ⊥
In x (y ∷ ys) = (x ≡ y) ⊎ In x ys

In-head : (ns : List ℤ) → 0 < length ns → In (get_or ns 0 (pos 0)) ns
In-head [] h = absurd (omega arith)
In-head (x ∷ xs) h = inl refl

In-first_from : (hash x : ℤ) (ns : List ℤ) → first_from hash ns ≡ some x → In x ns
unfolding first_from
In-first_from hash x [] h = cc
In-first_from hash x (y ∷ ys) h = elim (Bool-cases (leb_ℤ hash y)) [
  | inl t ↦ inl (cc (rw t at h))
  | inr f ↦ inr (In-first_from hash x ys (rw f at h))
]

pub In-node_for : (hash : ℤ) (ns : List ℤ) → 0 < length ns → In (node_for hash ns) ns
In-node_for hash ns h = elim (Bool-cases (eqb_ℤ hash (pos 0))) [
  | inl t ↦ rw t (In-head ns h)
  | inr f ↦ rw f (elim (Option-cases (first_from hash ns)) [
    | inl e ↦ rw e (In-head ns h)
    | inr (x, e) ↦ rw e (In-first_from hash x ns e)
  ])
]

pub filled : (x : ℤ) (ns : List ℤ) → In x ns → 0 < length ns
filled x [] h = absurd h
filled x (y ∷ ys) h = omega arith

module _ {A : Type 0} where
  pub Held-In :
      (r : Dict ℤ A) (x : ℤ) (ns : List ℤ) → Held r ns → In x ns → (a : A) × (lookup x r ≡ some a)
  Held-In r x [] d i = absurd i
  Held-In r x (y ∷ ys) d (inl e) = subst (λ w. (a : A) × (lookup w r ≡ some a)) (sym e) d.0
  Held-In r x (y ∷ ys) d (inr i) = Held-In r x ys d.1 i

  -- The nodes are in order, without a double, and each has its owner.
  abbrev pub IsWf : HashRing A → Type 0
  IsWf h = Ascending h.nodes × Held h.ring h.nodes

  -- `Get` answers with the owner of the key's node, and nothing where there is no node.
  abbrev pub Served : (String → ℕ) → String → HashRing A → Type 0
  Served sum64 s h =
      ((length h.nodes ≡ 0) × (get sum64 s h ≡ none))
      ⊎ ((a : A) × (0 < length h.nodes)
          × (get sum64 s h ≡ some a)
          × (lookup (node_for (hash_event sum64 s) h.nodes) h.ring ≡ some a))

  pub get-Served : (sum64 : String → ℕ) (s : String) (h : HashRing A) → IsWf h → Served sum64 s h
  unfolding get
  get-Served sum64 s h w = elim (Bool-cases (length h.nodes == 0)) [
    | inl t ↦ rw t (inl (ground (arith, t), refl))
    | inr f ↦
        let some_node : 0 < length h.nodes = ground (arith, f) in
        let hash = hash_event sum64 s in
        let (a, e) =
          Held-In h.ring (node_for hash h.nodes) h.nodes w.1 (In-node_for hash h.nodes some_node) in
        rw f (
          inr (
            a,
            some_node,
            ap (λ x. lookup x h.ring) (index_of_lem hash h.nodes (Sorted-Ascending h.nodes w.0))
                ∙ e,
            e,
          ))
  ]

  module _ (z : A) (gone : A → Bool) where
    pub In-left :
        (r : Dict ℤ A) (x : ℤ) (ns : List ℤ)
        → In x ns
        → gone (owner z gone x r) ≡ false
        → In x (left z gone r ns)
    In-left r x [] i s = i
    In-left r x (y ∷ ys) (inl e) s =
        let here : gone (owner z gone y r) ≡ false =
          subst (λ w. gone (owner z gone w r) ≡ false) e s in
        rw here (inl e)
    In-left r x (y ∷ ys) (inr i) s = elim (Bool-cases (gone (owner z gone y r))) [
      | inl t ↦ rw t (In-left r x ys i s)
      | inr f ↦ rw f (inr (In-left r x ys i s))
    ]

    pub left_stays :
        (r : Dict ℤ A) (x : ℤ) (ns : List ℤ)
        → In x (left z gone r ns)
        → gone (owner z gone x r) ≡ false
    left_stays r x [] i = absurd i
    left_stays r x (y ∷ ys) i = elim (Bool-cases (gone (owner z gone y r))) [
      | inl t ↦ left_stays r x ys (rw t at i)
      | inr f ↦ elim (rw f at i) as (λ _. gone (owner z gone x r) ≡ false) [
        | inl e ↦ subst (λ w. gone (owner z gone w r) ≡ false) (sym e) f
        | inr j ↦ left_stays r x ys j
      ]
    ]

    pub Held-left :
        (r r' : Dict ℤ A) (ns : List ℤ)
        → ((y : ℤ) → gone (owner z gone y r) ≡ false → lookup y r' ≡ lookup y r)
        → Held r ns
        → Held r' (left z gone r ns)
    Held-left r r' [] k d = tt
    Held-left r r' (x ∷ xs) k d = elim (Bool-cases (gone (owner z gone x r))) [
      | inl t ↦ rw t (Held-left r r' xs k d.1)
      | inr f ↦ rw f ((d.0.0, k x f ∙ d.0.1), Held-left r r' xs k d.1)
    ]
