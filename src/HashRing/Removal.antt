-- ===== src/HashRing/Removal.antt =====
-- What Remove leaves.
use emberengine.Prelude.{
  ◌<◌, ◌≡◌, ◌≢◌, refl, sym, ap, ap₂, ◌∙◌, subst, List, [], ◌∷◌, Bool, true, false, none, some,
  if◌then◌else◌, length, get_or, arith, Bool-cases, Option-cases, inl, inr,
}
use emberengine.Prelude.Int.{ℤ, pos, leb_ℤ, eqb_ℤ}
use emberengine.Prelude.Dict.{Dict, lookup, erase, lookup-erase, int_eq, eqb_ℤ_iff}
use emberengine.HashRing.{or_zero, remove_loop}
use emberengine.HashRing.Search.{first_from, Above, Ascending, node_for}
use emberengine.HashRing.Keys.{Absent, Absent-Above}

module _ {A : Type 0} (z : A) (gone : A → Bool) where
  abbrev pub owner : ℤ → Dict ℤ A → A
  owner x r = or_zero z (lookup x r)

  -- The nodes whose owners stay.
  abbrev pub left : Dict ℤ A → List ℤ → List ℤ
  left r [] = []
  left r (x ∷ xs) = if gone (owner x r) then left r xs else x ∷ left r xs

  pub left-Above : (y : ℤ) (r : Dict ℤ A) (xs : List ℤ) → Above y xs → Above y (left r xs)
  left-Above y r [] a = tt
  left-Above y r (x ∷ xs) a = elim (Bool-cases (gone (owner x r))) [
    | inl t ↦ rw t (left-Above y r xs a.1)
    | inr f ↦ rw f (a.0, left-Above y r xs a.1)
  ]

  pub left-Ascending : (r : Dict ℤ A) (xs : List ℤ) → Ascending xs → Ascending (left r xs)
  left-Ascending r [] a = tt
  left-Ascending r (x ∷ xs) a = elim (Bool-cases (gone (owner x r))) [
    | inl t ↦ rw t (left-Ascending r xs a.1)
    | inr f ↦ rw f (left-Above x r xs a.0, left-Ascending r xs a.1)
  ]

  owner_other : (x y : ℤ) (r : Dict ℤ A) → x ≢ y → lookup y (erase x r) ≡ lookup y r
  owner_other x y r d = lookup-erase x y r ∙ ground (arith, eqb_ℤ_iff y x)

  pub left-erase :
      (x : ℤ) (r : Dict ℤ A) (xs : List ℤ) → Absent x xs → left (erase x r) xs ≡ left r xs
  left-erase x r [] a = refl
  left-erase x r (y ∷ ys) a =
      ap₂ (λ o l. if gone (or_zero z o) then l else y ∷ l) (owner_other x y r a.0)
        (left-erase x r ys a.1)

  pub remove_loop_lem :
      (xs : List ℤ) (r : Dict ℤ A)
      → Ascending xs
      → ((remove_loop z gone xs r).0 ≡ left r xs)
        × ((y : ℤ) → gone (owner y r) ≡ false → lookup y (remove_loop z gone xs r).1 ≡ lookup y r)
  unfolding remove_loop
  remove_loop_lem [] r a = (refl, λ y s. refl)
  remove_loop_lem (x ∷ xs) r a = elim (Bool-cases (gone (owner x r))) [
    | inr f ↦
        let (ns, keeps) = remove_loop_lem xs r a.1 in rw f (ap (λ (l : List ℤ). x ∷ l) ns, keeps)
    | inl t ↦
        let (ns, keeps) = remove_loop_lem xs (erase x r) a.1 in
        let apart : (y : ℤ) → gone (owner y r) ≡ false → x ≢ y =
          λ y s same. cc (s, subst (λ w. gone (owner w r) ≡ true) same t) in
        rw t (
          ns ∙ left-erase x r xs (Absent-Above x xs a.0),
          λ y s.
              let same = owner_other x y r (apart y s) in
              keeps y (ap (λ o. gone (or_zero z o)) same ∙ s) ∙ same,
        )
  ]

  -- Of a key, whichever way the removed nodes go, the first node is that of the nodes left.
  first_from-left :
      (r : Dict ℤ A) (hash x : ℤ) (xs : List ℤ)
      → first_from hash xs ≡ some x
      → gone (owner x r) ≡ false
      → first_from hash (left r xs) ≡ some x
  unfolding first_from
  first_from-left r hash x [] h s = cc
  first_from-left r hash x (y ∷ ys) h s = elim (Bool-cases (leb_ℤ hash y)) [
    | inl t ↦
        let same : y ≡ x = cc (rw t at h) in
        let stays : gone (owner y r) ≡ false = subst (λ w. gone (owner w r) ≡ false) (sym same) s in
        rw (stays, t) (ap some same)
    | inr f ↦
        let rest = first_from-left r hash x ys (rw f at h) s in
        elim (Bool-cases (gone (owner y r))) [ inl t ↦ rw t rest | inr g ↦ rw (g, f) rest ]
  ]

  first_from-left_none :
      (r : Dict ℤ A) (hash : ℤ) (xs : List ℤ)
      → first_from hash xs ≡ none
      → first_from hash (left r xs) ≡ none
  unfolding first_from
  first_from-left_none r hash [] h = refl
  first_from-left_none r hash (y ∷ ys) h = elim (Bool-cases (leb_ℤ hash y)) [
    | inl t ↦ cc (rw t at h)
    | inr f ↦
        let rest = first_from-left_none r hash ys (rw f at h) in
        elim (Bool-cases (gone (owner y r))) [ inl t ↦ rw t rest | inr g ↦ rw (g, f) rest ]
  ]

  head_left :
      (r : Dict ℤ A) (ns : List ℤ)
      → 0 < length ns
      → gone (owner (get_or ns 0 (pos 0)) r) ≡ false
      → get_or (left r ns) 0 (pos 0) ≡ get_or ns 0 (pos 0)
  head_left r [] h s = absurd (omega arith)
  head_left r (x ∷ xs) h s = rw s refl

  pub node_for-left :
      (r : Dict ℤ A) (hash : ℤ) (ns : List ℤ)
      → 0 < length ns
      → gone (owner (node_for hash ns) r) ≡ false
      → node_for hash (left r ns) ≡ node_for hash ns
  node_for-left r hash ns h s = elim (Bool-cases (eqb_ℤ hash (pos 0))) [
    | inl t ↦ rw t (head_left r ns h (rw t at s))
    | inr f ↦
        let s' : gone (owner (or_zero (get_or ns 0 (pos 0)) (first_from hash ns)) r) ≡ false =
          rw f at s in
        rw f (elim (Option-cases (first_from hash ns)) [
          | inl e ↦
              let t = first_from-left_none r hash ns e in rw (e, t) (head_left r ns h (rw e at s'))
          | inr (x, e) ↦ let t = first_from-left r hash x ns e (rw e at s') in rw (e, t) refl
        ])
  ]
