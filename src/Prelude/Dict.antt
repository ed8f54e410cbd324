-- ===== src/Prelude/Dict.antt =====
-- Maps as association lists, over any keys with a Boolean equality.
use mathlib.Core.Path.{◌≡◌, refl, subst, ◌∙◌}
use mathlib.Core.Logic.{◌↔◌}
use mathlib.Core.Bool.{Bool, true, false}
use mathlib.Core.Option.{Option, none, some}
use mathlib.Core.List.{List, [], ◌∷◌}
use native.Mathlib.Omega.{arith}
use Prim.Native.Nat.{ℕ}
use Prim.Native.String.{String}
use text.Mathlib.Text.{◌==◌ as str_eq}
use text.Mathlib.TextEquality.{eq_iff}
use emberengine.Prelude.Tests.{◌==◌, ==_iff, if◌then◌else◌}
use emberengine.Prelude.Int.{ℤ, eqb_ℤ, eqb_ℤ→eq, eqb_ℤ_refl}

pub record Eq {ℓ} (A : Type ℓ) : Type ℓ where
  pub beq : A → A → Bool
  pub beq_iff : (a b : A) → (beq a b ≡ true) ↔ (a ≡ b)

instance abbrev pub nat_eq : Eq ℕ
nat_eq = record { beq = ◌==◌; beq_iff = ==_iff }

pub beq_refl : {K : Type 0} ⦃e : Eq K⦄ (k : K) → e.beq k k ≡ true
beq_refl ⦃e⦄ k = (e.beq_iff k k).1 refl

pub eqb_ℤ_iff : (a b : ℤ) → (eqb_ℤ a b ≡ true) ↔ (a ≡ b)
eqb_ℤ_iff a b = (λ h. eqb_ℤ→eq a b h, λ h. subst (λ c. eqb_ℤ a c ≡ true) h (eqb_ℤ_refl a))

instance abbrev pub string_eq : Eq String
string_eq = record { beq = str_eq; beq_iff = eq_iff }

instance abbrev pub int_eq : Eq ℤ
int_eq = record { beq = eqb_ℤ; beq_iff = eqb_ℤ_iff }

abbrev pub Dict : Type 0 → Type 0 → Type 0
Dict K V = List (K × V)

module _ {K V : Type 0} ⦃e : Eq K⦄ where
  abbrev pub lookup : K → Dict K V → Option V
  lookup k [] = none
  lookup k ((j, v) ∷ d) = if e.beq k j then some v else lookup k d

  abbrev pub insert : K → V → Dict K V → Dict K V
  insert k v [] = (k, v) ∷ []
  insert k v ((j, w) ∷ d) = if e.beq k j then (k, v) ∷ d else (j, w) ∷ insert k v d

  abbrev pub erase : K → Dict K V → Dict K V
  erase k [] = []
  erase k ((j, w) ∷ d) = let rest = erase k d in if e.beq k j then rest else (j, w) ∷ rest

  pub lookup-insert :
      (k j : K) (v : V) (d : Dict K V)
      → lookup j (insert k v d) ≡ (if e.beq j k then some v else lookup j d)
  lookup-insert k j v [] = refl
  lookup-insert k j v ((i, w) ∷ d) =
      ground (arith, e.beq_iff k i, e.beq_iff j k, e.beq_iff j i, lookup-insert k j v d)

  pub lookup-erase :
      (k j : K) (d : Dict K V) → lookup j (erase k d) ≡ (if e.beq j k then none else lookup j d)
  lookup-erase k j [] = ground arith
  lookup-erase k j ((i, w) ∷ d) =
      ground (arith, e.beq_iff k i, e.beq_iff j k, e.beq_iff j i, lookup-erase k j d)

  pub lookup-insert_same :
      (k j : K) (v : V) (d : Dict K V) → e.beq j k ≡ true → lookup j (insert k v d) ≡ some v
  lookup-insert_same k j v d t = lookup-insert k j v d ∙ rw t refl

  pub lookup-insert_other :
      (k j : K) (v : V) (d : Dict K V) → e.beq j k ≡ false → lookup j (insert k v d) ≡ lookup j d
  lookup-insert_other k j v d s = lookup-insert k j v d ∙ rw s refl

  pub lookup-erase_same : (k j : K) (d : Dict K V) → e.beq j k ≡ true → lookup j (erase k d) ≡ none
  lookup-erase_same k j d t = lookup-erase k j d ∙ rw t refl

  pub lookup-erase_other :
      (k j : K) (d : Dict K V) → e.beq j k ≡ false → lookup j (erase k d) ≡ lookup j d
  lookup-erase_other k j d s = lookup-erase k j d ∙ rw s refl
