-- ===== src/Circular.antt =====
-- The view of a circular buffer that the queues share: the `n` cells from index `h` on, going
-- round at the capacity `c`. The code writes the index as a remainder or as a bitwise modulus.
use native.Mathlib.Nat.{mod-add-mod, mod-lt, mod-eq_of_lt, mod-eq-sub-mod}
use native.Mathlib.Decide.{dec_lt}
use emberengine.Prelude.{
  ℕ, zero, suc, ◌+◌, ◌-◌, ◌%◌, ◌≤◌, ◌<◌, ◌≡◌, refl, sym, ap, ap₂, ◌∙◌, ◌≢◌, List, [], ◌∷◌, ◌++◌,
  arith, length, get_or, set, get_or-set_self, get_or-set_ne, take, drop,
}

-- Fewer than `c` steps round the buffer do not come back to the start.
pub mod-add-ne : (c h j : ℕ) → 0 < j → j < c → (h + j) % c ≢ h % c
mod-add-ne c h j p q e = elim (dec_lt (h % c + j) c) [
  | yes l ↦ omega (arith, mod-eq_of_lt l, mod-add-mod h c j)
  | no l ↦ omega (
    arith,
    mod-add-mod h c j,
    mod-lt h {m = c} (omega arith),
    mod-eq-sub-mod {n = h % c + j} {m = c} (omega arith),
    mod-eq_of_lt {n = h % c + j - c} {m = c} (omega (arith, mod-lt h {m = c} (omega arith))),
  )
]

-- The next place depends only on the place.
pub mod-suc_congr : (c h g : ℕ) → h % c ≡ g % c → (h + 1) % c ≡ (g + 1) % c
mod-suc_congr c h g e = sym (mod-add-mod h c 1) ∙ ap (λ t. (t + 1) % c) e ∙ mod-add-mod g c 1

pub mod-add_congr : (c h g n : ℕ) → h % c ≡ g % c → (h + n) % c ≡ (g + n) % c
mod-add_congr c h g n e = sym (mod-add-mod h c n) ∙ ap (λ t. (t + n) % c) e ∙ mod-add-mod g c n

module _ {A : Type 0} (blank : A) where
  abbrev pub window : List A → ℕ → ℕ → ℕ → List A
  window b c h zero = []
  window b c h (suc n) = get_or b (h % c) blank ∷ window b c (h + 1) n

  pub length-window : (b : List A) (c h n : ℕ) → length (window b c h n) ≡ n
  length-window b c h zero = refl
  length-window b c h (suc n) = ap suc (length-window b c (h + 1) n)

  pub window_congr : (b : List A) (c h g n : ℕ) → h % c ≡ g % c → window b c h n ≡ window b c g n
  window_congr b c h g zero e = refl
  window_congr b c h g (suc n) e =
      ap₂ ◌∷◌ (ap (λ i. get_or b i blank) e)
        (window_congr b c (h + 1) (g + 1) n (mod-suc_congr c h g e))

  -- A write outside a window leaves it.
  pub window-set_outside :
      (b : List A) (c h n i : ℕ) (v : A)
      → ((j : ℕ) → j < n → i ≢ (h + j) % c)
      → window (set b i v) c h n ≡ window b c h n
  window-set_outside b c h zero i v out = refl
  window-set_outside b c h (suc n) i v out =
      ap₂ ◌∷◌
        (get_or-set_ne b i (h % c) v blank
          (λ e. out 0 (omega arith) (e ∙ ap (λ t. t % c) (omega arith))))
        (window-set_outside b c (h + 1) n i v
          (λ j l e. out (suc j) (omega arith) (e ∙ ap (λ t. t % c) (omega arith))))

  -- A write just past a window of less than the capacity extends it.
  pub window-set_past :
      (b : List A) (c h n : ℕ) (v : A)
      → length b ≡ c
      → n < c
      → window (set b ((h + n) % c) v) c h (suc n) ≡ window b c h n ++ v ∷ []
  window-set_past b c h zero v e l =
      ap (λ x. x ∷ [])
        (ap (λ i. get_or (set b i v) (h % c) blank) (ap (λ t. t % c) (omega arith))
          ∙ get_or-set_self b (h % c) v blank (omega (arith, mod-lt h l)))
  window-set_past b c h (suc n) v e l =
      ap₂ ◌∷◌
        (get_or-set_ne b ((h + suc n) % c) (h % c) v blank (mod-add-ne c h (suc n) (omega arith) l))
        (ap (λ i. window (set b i v) c (h + 1) (suc n)) (ap (λ t. t % c) (omega arith))
          ∙ window-set_past b c (h + 1) n v e (omega arith))

  -- A write at a cell leaves the windows that start behind it.
  pub window-set_before :
      (b : List A) (c h d n : ℕ) (v : A)
      → 0 < d
      → d + n ≤ c
      → window (set b (h % c) v) c (h + d) n ≡ window b c (h + d) n
  window-set_before b c h d n v p l = window-set_outside b c (h + d) n (h % c) v (λ j jn e.
      mod-add-ne c h (d + j) (omega arith) (omega arith) (ap (λ t. t % c) (omega arith) ∙ sym e))

  -- A write at the head of a window leaves the rest of it.
  pub window-set_head :
      (b : List A) (c h n : ℕ) (v : A)
      → n < c
      → window (set b (h % c) v) c (h + 1) n ≡ window b c (h + 1) n
  window-set_head b c h n v l = window-set_before b c h 1 n v (omega arith) (omega arith)

  -- The last cell of a window.
  pub window-suc_last :
      (b : List A) (c h n : ℕ)
      → window b c h (suc n) ≡ window b c h n ++ get_or b ((h + n) % c) blank ∷ []
  window-suc_last b c h zero = ap (λ i. get_or b (i % c) blank ∷ []) (omega arith)
  window-suc_last b c h (suc n) =
      ap (λ l. get_or b (h % c) blank ∷ l)
        (window-suc_last b c (h + 1) n
          ∙ ap (λ i. window b c (h + 1) n ++ get_or b (i % c) blank ∷ []) (omega arith))

  -- The cell at each place of a window.
  pub get_or-window :
      (b : List A) (c h n i : ℕ)
      → i < n
      → get_or (window b c h n) i blank ≡ get_or b ((h + i) % c) blank
  get_or-window b c h zero i l = absurd (omega arith)
  get_or-window b c h (suc n) zero l = ap (λ t. get_or b (t % c) blank) (omega arith)
  get_or-window b c h (suc n) (suc i) l =
      get_or-window b c (h + 1) n i (omega arith) ∙ ap (λ t. get_or b (t % c) blank) (omega arith)

  pub take-window : (b : List A) (c h n m : ℕ) → n ≤ m → take n (window b c h m) ≡ window b c h n
  take-window b c h zero m l = refl
  take-window b c h (suc n) zero l = absurd (omega arith)
  take-window b c h (suc n) (suc m) l =
      ap (λ t. get_or b (h % c) blank ∷ t) (take-window b c (h + 1) n m (omega arith))

  pub drop-window :
      (b : List A) (c h n m : ℕ) → n ≤ m → drop n (window b c h m) ≡ window b c (h + n) (m - n)
  drop-window b c h zero m l = ap₂ (window b c) (omega arith) (omega arith)
  drop-window b c h (suc n) zero l = absurd (omega arith)
  drop-window b c h (suc n) (suc m) l =
      drop-window b c (h + 1) n m (omega arith) ∙ ap₂ (window b c) (omega arith) (omega arith)
