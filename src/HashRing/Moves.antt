-- ===== src/HashRing/Moves.antt =====
-- What Remove and RemoveMany do to the answers.
use Prim.Native.String.{String}
use emberengine.Prelude.{
  ℕ, ◌<◌, ◌≡◌, sym, ap, ◌∙◌, subst, List, Bool, false, some, length, arith, inl, inr,
}
use emberengine.Prelude.Int.{ℤ}
use emberengine.Prelude.Dict.{Eq, lookup, int_eq}
use emberengine.HashRing.{HashRing, hash_event, ints, or_zero, remove, remove_many, get}
use emberengine.HashRing.Search.{Ascending, node_for}
use emberengine.HashRing.Keys.{Held, ints-Ascending}
use emberengine.HashRing.Removal.{owner, left, left-Ascending, remove_loop_lem, node_for-left}
use emberengine.HashRing.Served.{
  In, In-node_for, filled, IsWf, get-Served, In-left, left_stays, Held-left,
}

module _ {A : Type 0} (z : A) (gone : A → Bool) (sum64 : String → ℕ) (s : String) where
  -- What a removal of the owners `gone` does to the answers for the key `s`.
  abbrev pub Dropped : HashRing A → HashRing A → Type 0
  Dropped h h' =
      IsWf h'
      × ((a : A) → get sum64 s h ≡ some a → gone a ≡ false → get sum64 s h' ≡ some a)
      × ((a : A) → get sum64 s h' ≡ some a → gone a ≡ false)

  -- The two rings, with what their nodes and maps have to do with one another.
  module _ (h h' : HashRing A) (w : IsWf h) (nodes : h'.nodes ≡ left z gone h.ring h.nodes)
      (keeps : (y : ℤ)
        → gone (owner z gone y h.ring) ≡ false
        → lookup y h'.ring ≡ lookup y h.ring) where
    moved-IsWf : IsWf h'
    moved-IsWf = (
      subst Ascending (sym nodes) (left-Ascending z gone h.ring h.nodes w.0),
      subst (Held h'.ring) (sym nodes) (Held-left z gone h.ring h'.ring h.nodes keeps w.1),
    )

    stays : (a : A) → get sum64 s h ≡ some a → gone a ≡ false → get sum64 s h' ≡ some a
    stays a g f = elim (get-Served sum64 s h w) [
      | inl (none_there, e) ↦ cc
      | inr (b, some_node, e, l) ↦
          let hash = hash_event sum64 s in
          let x = node_for hash h.nodes in
          let same : b ≡ a = cc in
          let safe : gone (owner z gone x h.ring) ≡ false =
            ap (λ o. gone (or_zero z o)) l ∙ ap gone same ∙ f in
          let at_x : node_for hash h'.nodes ≡ x =
            ap (node_for hash) nodes ∙ node_for-left z gone h.ring hash h.nodes some_node safe in
          let still : 0 < length h'.nodes =
            subst (λ (ns : List ℤ). 0 < length ns) (sym nodes)
              (filled x (left z gone h.ring h.nodes)
                (In-left z gone h.ring x h.nodes (In-node_for hash h.nodes some_node) safe)) in
          elim (get-Served sum64 s h' moved-IsWf) [
            | inl (none_there, e') ↦ absurd (omega (arith, still, none_there))
            | inr (b', t, e', l') ↦
                e' ∙ sym l' ∙ ap (λ y. lookup y h'.ring) at_x ∙ keeps x safe ∙ l ∙ ap some same
          ]
    ]

    not_gone : (a : A) → get sum64 s h' ≡ some a → gone a ≡ false
    not_gone a g = elim (get-Served sum64 s h' moved-IsWf) [
      | inl (none_there, e) ↦ cc
      | inr (b, some_node, e, l) ↦
          let x = node_for (hash_event sum64 s) h'.nodes in
          let same : b ≡ a = cc in
          let safe : gone (owner z gone x h.ring) ≡ false =
            left_stays z gone h.ring x h.nodes
              (subst (In x) nodes (In-node_for (hash_event sum64 s) h'.nodes some_node)) in
          ap gone (sym same) ∙ ap (λ o. gone (or_zero z o)) (sym l ∙ keeps x safe) ∙ safe
    ]

    pub moved-Dropped : Dropped h h'
    moved-Dropped = (moved-IsWf, stays, not_gone)

  pub remove_many-Dropped : (h : HashRing A) → IsWf h → Dropped h (remove_many z gone h)
  unfolding remove_many
  remove_many-Dropped h w =
      let (ns, keeps) = remove_loop_lem z gone h.nodes h.ring w.0 in
      moved-Dropped h (remove_many z gone h) w
        (ap ints ns
          ∙ ints-Ascending (left z gone h.ring h.nodes) (left-Ascending z gone h.ring h.nodes w.0))
        keeps

-- Remove of a key from a ring whose nodes are in order and have their owners leaves such a ring; a key
-- of another owner keeps its answer, and no key is answered the removed one any more.
pub remove-Dropped :
    {A : Type 0} ⦃e : Eq A⦄ (z key : A) (sum64 : String → ℕ) (s : String) (h : HashRing A)
    → IsWf h
    → Dropped z (λ a. e.beq a key) sum64 s h (remove z key h)
unfolding remove remove_many
remove-Dropped ⦃e⦄ z key sum64 s h w = remove_many-Dropped z (λ a. e.beq a key) sum64 s h w
