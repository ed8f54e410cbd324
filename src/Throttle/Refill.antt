-- ===== src/Throttle/Refill.antt =====
-- The tokens of a refill, without the wrap of an int64.
use emberengine.Prelude.{ℕ, ◌+◌, ◌*◌, ◌/◌, ◌^◌, ◌≤◌, ◌<◌, ◌≡◌, ap, ◌∙◌, ltb, if◌then◌else◌, arith}
use emberengine.Prelude.Int.{pos, ◌+ℤ◌, quot, min_ℤ, int64, int64_pos, *ℤ_pos, add64_pos}
use emberengine.Throttle.{second, tokens_to_add}

pub tokens_to_add_lem : (e r : ℕ) → r * e < 2 ^ 63 → tokens_to_add e (pos r) ≡ pos (r * e / second)
unfolding tokens_to_add quot
tokens_to_add_lem e r h =
    ap (λ z. quot (int64 z) (pos second)) (*ℤ_pos e r)
    ∙ ap (λ z. quot z (pos second)) (int64_pos (e * r) (omega arith))
    ∙ ap (λ m. pos (m / second)) (omega arith)

min-pos : (a b : ℕ) → min_ℤ (pos a) (pos b) ≡ pos (if ltb a b then a else b)
min-pos a b = ground arith

pub refilled :
    (c k e r : ℕ)
    → k ≤ c
    → c + r * e < 2 ^ 63
    → min_ℤ (pos c) (int64 (pos k +ℤ tokens_to_add e (pos r)))
      ≡ pos (if ltb c (k + r * e / second) then c else k + r * e / second)
refilled c k e r fits small =
    ap (λ z. min_ℤ (pos c) (int64 (pos k +ℤ z))) (tokens_to_add_lem e r (omega arith))
    ∙ ap (min_ℤ (pos c)) (add64_pos k (r * e / second) (omega arith))
    ∙ min-pos c (k + r * e / second)
