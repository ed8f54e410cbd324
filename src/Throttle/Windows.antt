-- ===== src/Throttle/Windows.antt =====
-- The counts of a sliding window, without the wrap of an int64.
use emberengine.Prelude.{
  ℕ, ◌+◌, ◌^◌, ◌≤◌, ◌<◌, ◌≡◌, refl, ap, ◌∙◌, List, [], ◌∷◌, ltb, ◌==◌, if◌then◌else◌, arith,
  Bool-cases, inl, inr,
}
use emberengine.Prelude.Int.{ℤ, pos, add64_pos}
use emberengine.Throttle.{cleanup, get_current_count, add_window}

-- Pairs of a time and a count.
abbrev pub Counts : Type 0
Counts = List (ℕ × ℕ)

-- The counts from the second `cutoff` on.
abbrev pub sum_from : ℕ → Counts → ℕ
sum_from cutoff [] = 0
sum_from cutoff ((t, n) ∷ us) = (if ltb t cutoff then 0 else n) + sum_from cutoff us

abbrev pub lifted : Counts → List (ℕ × ℤ)
lifted [] = []
lifted ((t, n) ∷ us) = (t, pos n) ∷ lifted us

abbrev pub kept : ℕ → Counts → Counts
kept cutoff [] = []
kept cutoff ((t, n) ∷ us) =
    let rest = kept cutoff us in if ltb t cutoff then rest else (t, n) ∷ rest

abbrev pub raised : ℕ → ℕ → Counts → Counts
raised s n [] = (s, n) ∷ []
raised s n ((t, m) ∷ us) = if t == s then (t, m + n) ∷ us else (t, m) ∷ raised s n us

pub sum-kept :
    (cutoff at : ℕ) (us : Counts) → cutoff ≤ at → sum_from at (kept cutoff us) ≡ sum_from at us
sum-kept cutoff at [] h = refl
sum-kept cutoff at ((t, n) ∷ us) h = ground (arith, sum-kept cutoff at us h)

pub sum_all-kept : (cutoff : ℕ) (us : Counts) → sum_from 0 (kept cutoff us) ≡ sum_from cutoff us
sum_all-kept cutoff [] = refl
sum_all-kept cutoff ((t, n) ∷ us) = ground (arith, sum_all-kept cutoff us)

pub sum-raised :
    (at s n : ℕ) (us : Counts)
    → sum_from at (raised s n us) ≡ (if ltb s at then 0 else n) + sum_from at us
sum-raised at s n [] = refl
sum-raised at s n ((t, m) ∷ us) = ground (arith, sum-raised at s n us)

pub cleanup-lifted :
    (cutoff : ℕ) (us : Counts) → cleanup cutoff (lifted us) ≡ lifted (kept cutoff us)
unfolding cleanup
cleanup-lifted cutoff [] = refl
cleanup-lifted cutoff ((t, n) ∷ us) = ground (arith, cleanup-lifted cutoff us)

pub count-lifted :
    (a : ℕ) (us : Counts)
    → a + sum_from 0 us < 2 ^ 63
    → get_current_count (pos a) (lifted us) ≡ pos (a + sum_from 0 us)
unfolding get_current_count
count-lifted a [] h = ap pos (omega arith)
count-lifted a ((t, n) ∷ us) h =
    ap (λ z. get_current_count z (lifted us)) (add64_pos a n (ground (arith, h)))
    ∙ count-lifted (a + n) us (ground (arith, h))
    ∙ ap pos (ground arith)

pub add-lifted :
    (s n : ℕ) (us : Counts)
    → sum_from 0 us + n < 2 ^ 63
    → add_window s (pos n) (lifted us) ≡ lifted (raised s n us)
unfolding add_window
add-lifted s n [] h = refl
add-lifted s n ((t, m) ∷ us) h = elim (Bool-cases (t == s)) [
  | inl same ↦ rw same (ap (λ z. (t, z) ∷ lifted us) (add64_pos m n (ground (arith, h))))
  | inr other ↦
      rw other (ap (λ (l : List (ℕ × ℤ)). (t, pos m) ∷ l) (add-lifted s n us (ground (arith, h))))
]
