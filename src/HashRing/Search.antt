-- ===== src/HashRing/Search.antt =====
-- The node that a key falls on.
use emberengine.Prelude.{
  ℕ, zero, suc, ◌+◌, ◌/◌, ◌≤◌, ◌<◌, ◌≡◌, refl, ap, ◌∙◌, List, [], ◌∷◌, Bool, true, false, Option,
  none, some, ltb, if◌then◌else◌, length, get_or, arith, Bool-cases, inl, inr, ◌⊎◌,
}
use emberengine.Prelude.Int.{ℤ, pos, ◌≤ℤ◌, ◌<ℤ◌, leb_ℤ, eqb_ℤ}
use emberengine.HashRing.{search_loop, index_of, or_zero, wrap}

-- The index of the first node from `hash` on.
abbrev lower : ℤ → List ℤ → ℕ
lower hash [] = 0
lower hash (x ∷ xs) = if leb_ℤ hash x then 0 else suc (lower hash xs)

-- The first node from `hash` on.
unfoldable pub first_from : ℤ → List ℤ → Option ℤ
first_from hash [] = none
first_from hash (x ∷ xs) = if leb_ℤ hash x then some x else first_from hash xs

abbrev pub Above : ℤ → List ℤ → Type 0
Above x [] = Unit
Above x (y ∷ ys) = (x <ℤ y) × Above x ys

abbrev pub Ascending : List ℤ → Type 0
Ascending [] = Unit
Ascending (x ∷ xs) = Above x xs × Ascending xs

-- The same with equal nodes beside each other.
abbrev pub AtLeast : ℤ → List ℤ → Type 0
AtLeast x [] = Unit
AtLeast x (y ∷ ys) = (x ≤ℤ y) × AtLeast x ys

abbrev pub Sorted : List ℤ → Type 0
Sorted [] = Unit
Sorted (x ∷ xs) = AtLeast x xs × Sorted xs

AtLeast-Above : (x : ℤ) (xs : List ℤ) → Above x xs → AtLeast x xs
AtLeast-Above x [] a = tt
AtLeast-Above x (y ∷ ys) a = (omega (arith, a.0), AtLeast-Above x ys a.1)

pub Sorted-Ascending : (xs : List ℤ) → Ascending xs → Sorted xs
Sorted-Ascending [] a = tt
Sorted-Ascending (x ∷ xs) a = (AtLeast-Above x xs a.0, Sorted-Ascending xs a.1)

lower-le : (hash : ℤ) (ns : List ℤ) → lower hash ns ≤ length ns
lower-le hash [] = omega arith
lower-le hash (x ∷ xs) = ground (arith, lower-le hash xs)

below_lower :
    (hash : ℤ) (ns : List ℤ) (i : ℕ) → i < lower hash ns → leb_ℤ hash (get_or ns i (pos 0)) ≡ false
below_lower hash [] i h = absurd (omega arith)
below_lower hash (x ∷ xs) zero h = ground arith
below_lower hash (x ∷ xs) (suc i) h = ground (arith, below_lower hash xs i)

leb-AtLeast :
    (hash x : ℤ) (ns : List ℤ) (i : ℕ)
    → leb_ℤ hash x ≡ true
    → AtLeast x ns
    → i < length ns
    → leb_ℤ hash (get_or ns i (pos 0)) ≡ true
leb-AtLeast hash x [] i t a h = absurd (omega arith)
leb-AtLeast hash x (y ∷ ys) zero t a h = ground (arith, a.0)
leb-AtLeast hash x (y ∷ ys) (suc i) t a h = leb-AtLeast hash x ys i t a.1 (omega arith)

above_lower :
    (hash : ℤ) (ns : List ℤ) (i : ℕ)
    → Sorted ns
    → lower hash ns ≤ i
    → i < length ns
    → leb_ℤ hash (get_or ns i (pos 0)) ≡ true
above_lower hash [] i a l h = absurd (omega arith)
above_lower hash (x ∷ xs) zero a l h = ground arith
above_lower hash (x ∷ xs) (suc i) a l h = elim (Bool-cases (leb_ℤ hash x)) [
  | inl t ↦ leb-AtLeast hash x xs i t a.0 (omega arith)
  | inr f ↦ above_lower hash xs i a.1 (ground (arith, f)) (omega arith)
]

search_loop_lem :
    (fuel : ℕ) (test : ℕ → Bool) (m n i j : ℕ)
    → ((k : ℕ) → k < m → test k ≡ false)
    → ((k : ℕ) → m ≤ k → k < n → test k ≡ true)
    → i ≤ m
    → m ≤ j
    → j ≤ n
    → j ≤ i + fuel
    → search_loop fuel test i j ≡ m
unfolding search_loop
search_loop_lem zero test m n i j no_test has im mj jn f = omega arith
search_loop_lem (suc fuel) test m n i j no_test has im mj jn f =
    let h = (i + j) / 2 in
    elim (Bool-cases (ltb i j)) [
      | inr done ↦ rw done (ground (arith, done))
      | inl more ↦
          let l : i < j = ground (arith, more) in
          elim (Bool-cases (test h)) [
            | inl t ↦
                let mh : m ≤ h = elim (Bool-cases (ltb h m)) [
                  | inl small ↦ cc (no_test h (ground (arith, small)))
                  | inr large ↦ ground (arith, large)
                ] in
                rw (more, t)
                  (search_loop_lem fuel test m n i h no_test has im mh (omega arith) (omega arith))
            | inr t ↦
                let hm : h < m = elim (Bool-cases (ltb h m)) [
                  | inl small ↦ ground (arith, small)
                  | inr large ↦ cc (has h (ground (arith, large)) (omega arith))
                ] in
                rw (more, t)
                  (search_loop_lem fuel test m n (h + 1) j no_test has (omega arith) mj jn
                    (omega arith))
          ]
    ]

-- The first node is at its index, and the index is the length where there is none.
lower_cases :
    (hash : ℤ) (ns : List ℤ)
    → ((lower hash ns ≡ length ns) × (first_from hash ns ≡ none))
      ⊎ ((lower hash ns < length ns)
          × (first_from hash ns ≡ some (get_or ns (lower hash ns) (pos 0))))
unfolding first_from
lower_cases hash [] = inl (refl, refl)
lower_cases hash (x ∷ xs) = elim (Bool-cases (leb_ℤ hash x)) [
  | inl t ↦ rw t (inr (omega arith, refl))
  | inr f ↦ rw f (elim (lower_cases hash xs) [
    | inl (l, e) ↦ inl (ap suc l, e)
    | inr (l, e) ↦ inr (omega arith, e)
  ])
]

-- What stands at the index of the first node.
lower_at :
    (hash : ℤ) (ns : List ℤ)
    → get_or ns (wrap (length ns) (lower hash ns)) (pos 0)
      ≡ or_zero (get_or ns 0 (pos 0)) (first_from hash ns)
lower_at hash ns = elim (lower_cases hash ns) [
  | inl (l, e) ↦ rw e (ap (λ i. get_or ns i (pos 0)) (ground (arith, l)))
  | inr (l, e) ↦ rw e (ap (λ i. get_or ns i (pos 0)) (ground (arith, l)))
]

-- The node of a hash: the first from it on, or the first of all; the hash 0 has the first of all.
abbrev pub node_for : ℤ → List ℤ → ℤ
node_for hash ns =
    let first = get_or ns 0 (pos 0) in
    if eqb_ℤ hash (pos 0) then first else or_zero first (first_from hash ns)

pub index_of_lem :
    (hash : ℤ) (ns : List ℤ) → Sorted ns → get_or ns (index_of hash ns) (pos 0) ≡ node_for hash ns
unfolding index_of
index_of_lem hash ns a = elim (Bool-cases (eqb_ℤ hash (pos 0))) [
  | inl t ↦ rw t (ap (λ i. get_or ns i (pos 0)) (ground arith))
  | inr f ↦ rw f (
      ap (λ i. get_or ns (wrap (length ns) i) (pos 0))
        (search_loop_lem (length ns) (λ i. leb_ℤ hash (get_or ns i (pos 0))) (lower hash ns)
          (length ns) 0 (length ns) (below_lower hash ns) (λ i l h. above_lower hash ns i a l h)
          (omega arith) (lower-le hash ns) (omega arith) (omega arith))
      ∙ lower_at hash ns)
]
