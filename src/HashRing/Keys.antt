-- ===== src/HashRing/Keys.antt =====
-- Lists of nodes and their owners, through sorting, adding and removing.
use emberengine.Prelude.{
  ◌≡◌, ◌≢◌, refl, sym, ap, ◌∙◌, subst, List, [], ◌∷◌, true, some, arith, Bool-cases, inl, inr,
}
use emberengine.Prelude.Int.{ℤ, ◌<ℤ◌, leb_ℤ}
use emberengine.Prelude.Dict.{Dict, lookup, int_eq, eqb_ℤ_iff}
use emberengine.HashRing.{ints, insert_sorted}
use emberengine.HashRing.Search.{Above, Ascending}

abbrev pub Absent : ℤ → List ℤ → Type 0
Absent x [] = Unit
Absent x (y ∷ ys) = (x ≢ y) × Absent x ys

abbrev pub Distinct : List ℤ → Type 0
Distinct [] = Unit
Distinct (x ∷ xs) = Absent x xs × Distinct xs

-- Every node has an owner.
abbrev pub Held : {A : Type 0} → Dict ℤ A → List ℤ → Type 0
Held r [] = Unit
Held {A} r (x ∷ xs) = ((a : A) × (lookup x r ≡ some a)) × Held r xs

Absent-insert_sorted : (x y : ℤ) (l : List ℤ) → x ≢ y → Absent x l → Absent x (insert_sorted y l)
Absent-insert_sorted x y [] d a = (d, tt)
Absent-insert_sorted x y (w ∷ ws) d a = elim (Bool-cases (leb_ℤ y w)) [
  | inl t ↦ rw t (d, a)
  | inr f ↦ rw f (a.0, Absent-insert_sorted x y ws d a.1)
]

Absent-ints : (x : ℤ) (l : List ℤ) → Absent x l → Absent x (ints l)
unfolding ints
Absent-ints x [] a = tt
Absent-ints x (y ∷ ys) a = Absent-insert_sorted x y (ints ys) a.0 (Absent-ints x ys a.1)

Above-lt : (x y : ℤ) (l : List ℤ) → x <ℤ y → Above y l → Above x l
Above-lt x y [] h a = tt
Above-lt x y (w ∷ ws) h a = (omega (arith, a.0), Above-lt x y ws h a.1)

Above-insert_sorted : (x y : ℤ) (l : List ℤ) → x <ℤ y → Above x l → Above x (insert_sorted y l)
Above-insert_sorted x y [] h a = (h, tt)
Above-insert_sorted x y (w ∷ ws) h a = elim (Bool-cases (leb_ℤ y w)) [
  | inl t ↦ rw t (h, a)
  | inr f ↦ rw f (a.0, Above-insert_sorted x y ws h a.1)
]

lt_of : (x y : ℤ) → x ≢ y → leb_ℤ x y ≡ true → x <ℤ y
lt_of x y d t = ground (arith, (eqb_ℤ_iff x y).0)

Ascending-insert_sorted :
    (x : ℤ) (l : List ℤ) → Absent x l → Ascending l → Ascending (insert_sorted x l)
Ascending-insert_sorted x [] d a = (tt, tt)
Ascending-insert_sorted x (y ∷ ys) d a = elim (Bool-cases (leb_ℤ x y)) [
  | inl t ↦ let l : x <ℤ y = lt_of x y d.0 t in rw t ((l, Above-lt x y ys l a.0), a)
  | inr f ↦
      let l : y <ℤ x = ground (arith, f) in
      rw f (Above-insert_sorted y x ys l a.0, Ascending-insert_sorted x ys d.1 a.1)
]

pub Ascending-ints : (l : List ℤ) → Distinct l → Ascending (ints l)
unfolding ints
Ascending-ints [] d = tt
Ascending-ints (x ∷ xs) d =
    Ascending-insert_sorted x (ints xs) (Absent-ints x xs d.0) (Ascending-ints xs d.1)

insert_sorted-Above : (x : ℤ) (l : List ℤ) → Above x l → insert_sorted x l ≡ x ∷ l
insert_sorted-Above x [] a = refl
insert_sorted-Above x (y ∷ ys) a = ground (arith, a.0)

-- Sorting what is sorted.
pub ints-Ascending : (l : List ℤ) → Ascending l → ints l ≡ l
unfolding ints
ints-Ascending [] a = refl
ints-Ascending (x ∷ xs) a =
    ap (insert_sorted x) (ints-Ascending xs a.1) ∙ insert_sorted-Above x xs a.0

lt_ne : (x y : ℤ) → x <ℤ y → x ≢ y
lt_ne x y l e = let same : x <ℤ x = subst (λ w. x <ℤ w) (sym e) l in absurd (omega arith)

pub Absent-Above : (x : ℤ) (l : List ℤ) → Above x l → Absent x l
Absent-Above x [] a = tt
Absent-Above x (y ∷ ys) a = (lt_ne x y a.0, Absent-Above x ys a.1)
