-- ===== src/Mailbox/Priority/Maps.antt =====
-- Go maps as association lists: reads and writes of a key, and of an image of the values.
use emberengine.Prelude.{◌≡◌, refl, ap, List, [], ◌∷◌, some, Bool-cases, inl, inr}
use emberengine.Prelude.Int.{ℤ, eqb_ℤ}
use emberengine.Mailbox.Scheduler.{lookup}
use emberengine.Mailbox.Priority.{replace}

module _ {V U : Type 0} (f : V → U) where
  abbrev pub map_values : List (ℤ × V) → List (ℤ × U)
  map_values [] = []
  map_values ((k, v) ∷ m) = (k, f v) ∷ map_values m

  pub lookup-map_values :
      (k : ℤ) (m : List (ℤ × V)) {v : V}
      → lookup k m ≡ some v
      → lookup k (map_values m) ≡ some (f v)
  unfolding lookup
  lookup-map_values k [] e = cc
  lookup-map_values k ((p, w) ∷ m) {v} e = elim (Bool-cases (eqb_ℤ p k)) [
    | inl t ↦ let same : w ≡ v = cc (rw t at e) in rw t (ap (λ x. some (f x)) same)
    | inr s ↦ rw s (lookup-map_values k m (rw s at e))
  ]

  pub map_values-replace :
      (k : ℤ) (v : V) (m : List (ℤ × V))
      → map_values (replace k v m) ≡ replace k (f v) (map_values m)
  unfolding replace
  map_values-replace k v [] = refl
  map_values-replace k v ((p, w) ∷ m) = elim (Bool-cases (eqb_ℤ p k)) [
    | inl t ↦ rw t refl
    | inr s ↦ rw s (ap (λ l. (p, f w) ∷ l) (map_values-replace k v m))
  ]

  -- A write of a value with the same image leaves the images.
  pub map_values-replace_same :
      (k : ℤ) (v : V) (m : List (ℤ × V)) {w : V}
      → lookup k m ≡ some w
      → f v ≡ f w
      → map_values (replace k v m) ≡ map_values m
  unfolding lookup replace
  map_values-replace_same k v [] e same = cc
  map_values-replace_same k v ((p, u) ∷ m) {w} e same = elim (Bool-cases (eqb_ℤ p k)) [
    | inl t ↦ let here : u ≡ w = cc (rw t at e) in rw t (rw same (rw here refl))
    | inr s ↦ rw s (ap (λ l. (p, f u) ∷ l) (map_values-replace_same k v m (rw s at e) same))
  ]

module _ {V : Type 0} (P : V → Type 0) where
  abbrev pub AllValues : List (ℤ × V) → Type 0
  AllValues [] = Unit
  AllValues ((k, v) ∷ m) = P v × AllValues m

  pub lookup-AllValues :
      (k : ℤ) (m : List (ℤ × V)) {v : V} → AllValues m → lookup k m ≡ some v → P v
  unfolding lookup
  lookup-AllValues k [] a e = cc
  lookup-AllValues k ((p, w) ∷ m) {v} a e = elim (Bool-cases (eqb_ℤ p k)) [
    | inl t ↦ let same : w ≡ v = cc (rw t at e) in rw (← same) a.0
    | inr s ↦ lookup-AllValues k m a.1 (rw s at e)
  ]

  pub replace-AllValues :
      (k : ℤ) (v : V) (m : List (ℤ × V)) → AllValues m → P v → AllValues (replace k v m)
  unfolding replace
  replace-AllValues k v [] a p = tt
  replace-AllValues k v ((q, w) ∷ m) a p = elim (Bool-cases (eqb_ℤ q k)) [
    | inl t ↦ rw t (p, a.1)
    | inr s ↦ rw s (a.0, replace-AllValues k v m a.1 p)
  ]
