-- ===== src/Mpsc/Chains.antt =====
-- The chain of the nodes from the tail to the head.
use native.Mathlib.Decide.{ℕ_discrete}
use emberengine.Prelude.{
  ℕ, ◌≡◌, ◌≢◌, refl, sym, ap, ap₂, ◌∙◌, subst, ◌⊎◌, inl, inr, List, [], ◌∷◌, ◌++◌, Bool, true,
  false, Option, none, some, arith,
}
use emberengine.Mpsc.{update}

pub update_same : {B : Type 0} (f : ℕ → B) (a : ℕ) (b : B) → update f a b a ≡ b
update_same f a b = ground arith

pub update_ne : {B : Type 0} (f : ℕ → B) (a i : ℕ) (b : B) → i ≢ a → update f a b i ≡ f i
update_ne f a i b h = ground arith

abbrev pub NotIn : ℕ → List ℕ → Type 0
NotIn i [] = Unit
NotIn i (x ∷ xs) = (i ≢ x) × NotIn i xs

abbrev pub Distinct : List ℕ → Type 0
Distinct [] = Unit
Distinct (x ∷ xs) = NotIn x xs × Distinct xs

-- The nodes `a ∷ rest` up to the head; each is linked to the one behind it, or its link is held.
abbrev pub ChainOk : (ℕ → Option ℕ) → (ℕ → Option ℕ) → ℕ → ℕ → List ℕ → Type 0
ChainOk next holds head a [] = (head ≡ a) × (next a ≡ none) × (holds a ≡ none)
ChainOk next holds head a (b ∷ rest) =
    (((next a ≡ some b) × (holds a ≡ none)) ⊎ ((next a ≡ none) × (holds a ≡ some b)))
    × ChainOk next holds head b rest

abbrev pub AllUsed : (ℕ → Bool) → List ℕ → Type 0
AllUsed is_free [] = Unit
AllUsed is_free (x ∷ xs) = (is_free x ≡ false) × AllUsed is_free xs

pub NotIn-free :
    (is_free : ℕ → Bool) (n : ℕ) (xs : List ℕ) → is_free n ≡ true → AllUsed is_free xs → NotIn n xs
NotIn-free is_free n [] e u = tt
NotIn-free is_free n (x ∷ xs) e (used, u) =
    ((λ same. cc (e, used, ap is_free same)), NotIn-free is_free n xs e u)

-- What agrees on the nodes of the chain leaves it.
pub ChainOk_congr :
    (next next' holds holds' : ℕ → Option ℕ) (head a : ℕ) (rest : List ℕ) (n : ℕ)
    → NotIn n (a ∷ rest)
    → ((i : ℕ) → i ≢ n → next' i ≡ next i)
    → ((i : ℕ) → i ≢ n → holds' i ≡ holds i)
    → ChainOk next holds head a rest
    → ChainOk next' holds' head a rest
ChainOk_congr next next' holds holds' head a [] n (ne, out) f g (e, p, q) =
    (e, f a (λ t. ne (sym t)) ∙ p, g a (λ t. ne (sym t)) ∙ q)
ChainOk_congr next next' holds holds' head a (b ∷ rest) n (ne, out) f g (here, ok) =
    let same = f a (λ t. ne (sym t)) in
    let same' = g a (λ t. ne (sym t)) in
    (
      elim here [ inl (p, q) ↦ inl (same ∙ p, same' ∙ q) | inr (p, q) ↦ inr (same ∙ p, same' ∙ q) ],
      ChainOk_congr next next' holds holds' head b rest n out f g ok,
    )

pub NotIn-head :
    (next holds : ℕ → Option ℕ) (head a i : ℕ) (rest : List ℕ)
    → ChainOk next holds head a rest
    → NotIn i (a ∷ rest)
    → i ≢ head
NotIn-head next holds head a i [] (e, p, q) (ne, out) = λ t. ne (t ∙ e)
NotIn-head next holds head a i (b ∷ rest) (here, ok) (ne, out) =
    NotIn-head next holds head b i rest ok out

-- The swap puts the new node behind the head.
pub ChainOk-swap :
    (next holds : ℕ → Option ℕ) (head a n : ℕ) (rest : List ℕ)
    → ChainOk next holds head a rest
    → Distinct (a ∷ rest)
    → NotIn n (a ∷ rest)
    → holds n ≡ none
    → ChainOk (update next n none) (update holds head (some n)) n a (rest ++ n ∷ [])
ChainOk-swap next holds head a n [] (e, p, q) d (ne, out) free =
    let ne' : a ≢ n = λ t. ne (sym t) in
    let at_head : update holds head (some n) a ≡ some n =
      ap (update holds head (some n)) (sym e) ∙ update_same holds head (some n) in
    (
      inr (update_ne next n a none ne' ∙ p, at_head),
      (refl, update_same next n none, update_ne holds head n (some n) (λ t. ne (t ∙ e)) ∙ free),
    )
ChainOk-swap next holds head a n (b ∷ rest) (here, ok) (a_out, d) (ne, out) free =
    let same = update_ne next n a none (λ t. ne (sym t)) in
    let same' = update_ne holds head a (some n) (NotIn-head next holds head b a rest ok a_out) in
    (
      elim here [ inl (p, q) ↦ inl (same ∙ p, same' ∙ q) | inr (p, q) ↦ inr (same ∙ p, same' ∙ q) ],
      ChainOk-swap next holds head b n rest ok d out free,
    )

-- The store of a held link.
pub ChainOk-link :
    (next holds : ℕ → Option ℕ) (head t a n : ℕ) (rest : List ℕ)
    → ChainOk next holds head t rest
    → Distinct (t ∷ rest)
    → holds a ≡ some n
    → ChainOk (update next a (some n)) (update holds a none) head t rest
ChainOk-link next holds head t a n [] (e, p, q) d held =
    let ne : t ≢ a = λ same. cc (q, held, ap holds same) in
    (e, update_ne next a t (some n) ne ∙ p, update_ne holds a t none ne ∙ q)
ChainOk-link next holds head t a n (b ∷ rest) (here, ok) (out, d) held = elim (ℕ_discrete t a) [
  | yes same ↦
      let link : holds t ≡ some n = ap holds same ∙ held in
      let out' : NotIn a (b ∷ rest) = subst (λ i. NotIn i (b ∷ rest)) same out in
      (
        elim here [
          | inl (p, q) ↦ absurd (cc (q, link))
          | inr (p, q) ↦ inl (
            ap (update next a (some n)) same ∙ update_same next a (some n) ∙ sym link ∙ q,
            ap (update holds a none) same ∙ update_same holds a none,
          )
        ],
        ChainOk_congr next (update next a (some n)) holds (update holds a none) head b rest a out'
            (λ i. update_ne next a i (some n)) (λ i. update_ne holds a i none) ok,
      )
  | no ne ↦
      let same = update_ne next a t (some n) ne in
      let same' = update_ne holds a t none ne in
      (
        elim here [
          | inl (p, q) ↦ inl (same ∙ p, same' ∙ q)
          | inr (p, q) ↦ inr (same ∙ p, same' ∙ q)
        ],
        ChainOk-link next holds head b a n rest ok d held,
      )
]

pub NotIn-append : (i : ℕ) (xs : List ℕ) (n : ℕ) → NotIn i xs → i ≢ n → NotIn i (xs ++ n ∷ [])
NotIn-append i [] n out ne = (ne, tt)
NotIn-append i (x ∷ xs) n (here, out) ne = (here, NotIn-append i xs n out ne)

pub Distinct-append : (xs : List ℕ) (n : ℕ) → Distinct xs → NotIn n xs → Distinct (xs ++ n ∷ [])
Distinct-append [] n d out = (tt, tt)
Distinct-append (x ∷ xs) n (x_out, d) (ne, out) =
    (NotIn-append x xs n x_out (λ e. ne (sym e)), Distinct-append xs n d out)

pub NotIn-front : (i : ℕ) (xs : List ℕ) (n : ℕ) → NotIn i (xs ++ n ∷ []) → NotIn i xs
NotIn-front i [] n out = tt
NotIn-front i (x ∷ xs) n (here, out) = (here, NotIn-front i xs n out)

pub NotIn-last : (i : ℕ) (xs : List ℕ) (n : ℕ) → NotIn i (xs ++ n ∷ []) → i ≢ n
NotIn-last i [] n (here, out) = here
NotIn-last i (x ∷ xs) n (here, out) = NotIn-last i xs n out

-- The nodes that stay in use.
pub AllUsed-congr :
    (f g : ℕ → Bool) (n : ℕ) (xs : List ℕ)
    → NotIn n xs
    → ((i : ℕ) → i ≢ n → g i ≡ f i)
    → AllUsed f xs
    → AllUsed g xs
AllUsed-congr f g n [] out same u = tt
AllUsed-congr f g n (x ∷ xs) (ne, out) same (e, u) =
    (same x (λ t. ne (sym t)) ∙ e, AllUsed-congr f g n xs out same u)

pub AllUsed-append :
    (f : ℕ → Bool) (xs : List ℕ) (n : ℕ) → AllUsed f xs → f n ≡ false → AllUsed f (xs ++ n ∷ [])
AllUsed-append f [] n u e = (e, tt)
AllUsed-append f (x ∷ xs) n (used, u) e = (used, AllUsed-append f xs n u e)

module _ {A : Type 0} where
  abbrev pub values : (ℕ → A) → List ℕ → List A
  values f [] = []
  values f (x ∷ xs) = f x ∷ values f xs

  pub values-update :
      (f : ℕ → A) (n : ℕ) (v : A) (xs : List ℕ)
      → NotIn n xs
      → values (update f n v) xs ≡ values f xs
  values-update f n v [] out = refl
  values-update f n v (x ∷ xs) (ne, out) =
      ap₂ ◌∷◌ (update_ne f n x v (λ t. ne (sym t))) (values-update f n v xs out)

  pub values-append :
      (f : ℕ → A) (xs : List ℕ) (n : ℕ) → values f (xs ++ n ∷ []) ≡ values f xs ++ f n ∷ []
  values-append f [] n = refl
  values-append f (x ∷ xs) n = ap (λ t. f x ∷ t) (values-append f xs n)
