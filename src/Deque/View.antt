-- ===== src/Deque/View.antt =====
-- The deque as a list, and what its parts do to it.
use Prim.Native.Nat.{bit_and}
use native.Mathlib.Nat.{mod-add-mod, mod-lt, mod-eq_of_lt, one-le-pow, mod_self, mod-mod}
use native.Mathlib.Decide.{dec_lt}
use emberengine.Prelude.{
  ℕ, zero, suc, ◌+◌, ◌-◌, ◌%◌, ◌^◌, ◌≤◌, ◌<◌, ◌≡◌, ◌≢◌, sym, ap, ap₂, ◌∙◌, List, [], ◌∷◌, ◌++◌,
  arith, length, get_or, set, get_or-set_self, length-set,
}
use emberengine.Prelude.Bits.{bit_and_mask}
use emberengine.Circular.{
  window, window-set_past, window-set_head, window-set_outside, mod-add-ne, window_congr,
  window-suc_last,
}
use emberengine.Deque.{Deque, prev, next, put_back, put_front, drop_front, drop_back}

pub pow_pos : (k : ℕ) → 0 < 2 ^ k
pow_pos k = omega (arith, one-le-pow k 2)

mod_wrap : (c u t : ℕ) → t < c → c ≤ u + 1 → u < c → (u + 1) % c ≡ (t + 1) % c → u ≡ t
mod_wrap c u t tc big uc e = elim (dec_lt (t + 1) c) [
  | yes small ↦
      let full : (u + 1) % c ≡ 0 = ap (λ s. s % c) (omega arith) ∙ mod_self c in
      omega (arith, full, e, mod-eq_of_lt small)
  | no full ↦ omega arith
]

mod-suc_inj : (c u t : ℕ) → u < c → t < c → (u + 1) % c ≡ (t + 1) % c → u ≡ t
mod-suc_inj c u t uc tc e = elim (dec_lt (u + 1) c) [
  | no big ↦ mod_wrap c u t tc (omega arith) uc e
  | yes small ↦ elim (dec_lt (t + 1) c) [
    | no big ↦ sym (mod_wrap c t u uc (omega arith) tc (sym e))
    | yes small' ↦ omega (arith, e, mod-eq_of_lt small, mod-eq_of_lt small')
  ]
]

module _ {A : Type 0} (blank : A) where
  abbrev pub view : Deque A → List A
  view q = window blank q.buf (length q.buf) q.head q.count

  -- A buffer of 2^k cells, of which `count` from the head on are in use, and a least capacity that is
  -- a power of two.
  pub record Ring (k : ℕ) (q : Deque A) : Type 0 where
    pub sized : length q.buf ≡ 2 ^ k
    pub head_in : q.head < 2 ^ k
    pub fits : q.count ≤ 2 ^ k
    pub tail_at : q.tail ≡ (q.head + q.count) % 2 ^ k
    pub least : (j : ℕ) × (q.min_cap ≡ 2 ^ j)

  pub next_lem : (k : ℕ) (q : Deque A) (i : ℕ) → length q.buf ≡ 2 ^ k → next q i ≡ (i + 1) % 2 ^ k
  unfolding next
  next_lem k q i e = ap (λ c. bit_and (i + 1) (c - 1)) e ∙ bit_and_mask k (i + 1)

  -- Going back and forward again.
  pub prev_lem :
      (k : ℕ) (q : Deque A) (i : ℕ)
      → length q.buf ≡ 2 ^ k
      → i < 2 ^ k
      → (prev q i < 2 ^ k) × ((prev q i + 1) % 2 ^ k ≡ i)
  unfolding prev
  prev_lem k q zero e l = (
    omega (arith, e, one-le-pow k 2),
    ap (λ t. t % 2 ^ k) (omega (arith, e, one-le-pow k 2)) ∙ mod_self (2 ^ k),
  )
  prev_lem k q (suc i) e l =
      let same : bit_and i (length q.buf - 1) ≡ i =
        ap (λ c. bit_and i (c - 1)) e ∙ bit_and_mask k i ∙ mod-eq_of_lt (omega arith) in
      (
        omega (arith, same),
        ap (λ t. (t + 1) % 2 ^ k) same ∙ ap (λ t. t % 2 ^ k) (omega arith) ∙ mod-eq_of_lt l,
      )

  pub view_lem :
      (k : ℕ) (q : Deque A)
      → length q.buf ≡ 2 ^ k
      → view q ≡ window blank q.buf (2 ^ k) q.head q.count
  view_lem k q e = ap (λ c. window blank q.buf c q.head q.count) e

  pub put_back_lem :
      (k : ℕ) (x : A) (q : Deque A)
      → Ring k q
      → q.count < 2 ^ k
      → Ring k (put_back blank x q) × (view (put_back blank x q) ≡ view q ++ x ∷ [])
  unfolding put_back
  put_back_lem k x q r l =
      let grown : q.count + 1 ≡ suc q.count = omega arith in
      let sized : length (set q.buf q.tail x) ≡ 2 ^ k = length-set q.buf q.tail x ∙ r.sized in
      (
        record {
          sized = sized;
          head_in = r.head_in;
          fits = omega (arith, l);
          tail_at =
              next_lem k q q.tail r.sized
              ∙ ap (λ t. (t + 1) % 2 ^ k) r.tail_at
              ∙ mod-add-mod (q.head + q.count) (2 ^ k) 1
              ∙ ap (λ t. t % 2 ^ k) (omega arith);
          least = r.least;
        },
        ap₂ (λ c n. window blank (set q.buf q.tail x) c q.head n) sized grown
            ∙ ap (λ t. window blank (set q.buf t x) (2 ^ k) q.head (suc q.count)) r.tail_at
            ∙ window-set_past blank q.buf (2 ^ k) q.head q.count x r.sized l
            ∙ ap (λ t. t ++ x ∷ []) (sym (view_lem k q r.sized)),
      )

  pub put_front_lem :
      (k : ℕ) (x : A) (q : Deque A)
      → Ring k q
      → q.count < 2 ^ k
      → Ring k (put_front blank x q) × (view (put_front blank x q) ≡ x ∷ view q)
  unfolding put_front
  put_front_lem k x q r l =
      let c = 2 ^ k in
      let grown : q.count + 1 ≡ suc q.count = omega arith in
      let h = prev q q.head in
      let (within, back) = prev_lem k q q.head r.sized r.head_in in
      let here : h % c ≡ h = mod-eq_of_lt within in
      let ahead : (h + 1) % c ≡ q.head % c = back ∙ sym (mod-eq_of_lt r.head_in) in
      let sized : length (set q.buf h x) ≡ c = length-set q.buf h x ∙ r.sized in
      (
        record {
          sized = sized;
          head_in = within;
          fits = omega (arith, l);
          tail_at =
              r.tail_at
              ∙ ap (λ t. (t + q.count) % c) (sym back)
              ∙ mod-add-mod (h + 1) c q.count
              ∙ ap (λ t. t % c) (omega arith);
          least = r.least;
        },
        ap₂ (λ d n. window blank (set q.buf h x) d h n) sized grown
            ∙ ap₂ ◌∷◌
                (ap (λ i. get_or (set q.buf h x) i blank) here
                  ∙ get_or-set_self q.buf h x blank (omega (arith, within, r.sized)))
                (ap (λ i. window blank (set q.buf i x) c (h + 1) q.count) (sym here)
                  ∙ window-set_head blank q.buf c h q.count x l
                  ∙ window_congr blank q.buf c (h + 1) q.head q.count ahead
                  ∙ sym (view_lem k q r.sized)),
      )

  -- The first element, and the deque without it.
  pub drop_front_lem :
      (k n : ℕ) (q : Deque A)
      → Ring k q
      → q.count ≡ suc n
      → Ring k (drop_front blank q)
        × (view q ≡ get_or q.buf q.head blank ∷ view (drop_front blank q))
  unfolding drop_front
  drop_front_lem k n q r e =
      let c = 2 ^ k in
      let here : q.head % c ≡ q.head = mod-eq_of_lt r.head_in in
      let next_at = next_lem k q q.head r.sized in
      let sized : length (set q.buf q.head blank) ≡ c = length-set q.buf q.head blank ∙ r.sized in
      let ahead : (q.head + 1) % c ≡ next q q.head % c =
        sym (mod-mod (q.head + 1) c) ∙ ap (λ t. t % c) (sym next_at) in
      (
        record {
          sized = sized;
          head_in = omega (arith, next_at, mod-lt (q.head + 1) {m = c} (pow_pos k));
          fits = omega (arith, r.fits);
          tail_at =
              r.tail_at
              ∙ ap (λ t. t % c) (omega (arith, e))
              ∙ sym (mod-add-mod (q.head + 1) c (q.count - 1))
              ∙ ap (λ t. (t + (q.count - 1)) % c) (sym next_at);
          least = r.least;
        },
        view_lem k q r.sized
            ∙ ap (λ m. window blank q.buf c q.head m) e
            ∙ ap₂ ◌∷◌ (ap (λ i. get_or q.buf i blank) here) (
                sym (window-set_head blank q.buf c q.head n blank (omega (arith, r.fits, e)))
                ∙ ap (λ i. window blank (set q.buf i blank) c (q.head + 1) n) here
                ∙ window_congr blank (set q.buf q.head blank) c (q.head + 1) (next q q.head) n ahead
                ∙ ap₂ (λ d m. window blank (set q.buf q.head blank) d (next q q.head) m) (sym sized)
                    (omega (arith, e))),
      )

  pub drop_back_lem :
      (k n : ℕ) (q : Deque A)
      → Ring k q
      → q.count ≡ suc n
      → Ring k (drop_back blank q)
        × (view q ≡ view (drop_back blank q) ++ get_or q.buf (prev q q.tail) blank ∷ [])
  unfolding drop_back
  drop_back_lem k n q r e =
      let c = 2 ^ k in
      let t = prev q q.tail in
      let tail_in : q.tail < c =
        omega (arith, r.tail_at, mod-lt (q.head + q.count) {m = c} (pow_pos k)) in
      let (within, ahead) = prev_lem k q q.tail r.sized tail_in in
      let sized : length (set q.buf t blank) ≡ c = length-set q.buf t blank ∙ r.sized in
      let last : (q.head + n) % c ≡ t =
        mod-suc_inj c ((q.head + n) % c) t (mod-lt (q.head + n) {m = c} (pow_pos k)) within (
          mod-add-mod (q.head + n) c 1
          ∙ ap (λ m. m % c) (omega (arith, e))
          ∙ sym r.tail_at
          ∙ sym ahead) in
      let outside : (j : ℕ) → j < n → t ≢ (q.head + j) % c = λ j l same.
        mod-add-ne c (q.head + j) (n - j) (omega arith) (omega (arith, r.fits, e))
          (ap (λ m. m % c) (omega arith) ∙ last ∙ same) in
      (
        record {
          sized = sized;
          head_in = r.head_in;
          fits = omega (arith, r.fits);
          tail_at = sym last ∙ ap (λ m. (q.head + m) % c) (omega (arith, e));
          least = r.least;
        },
        view_lem k q r.sized
            ∙ ap (λ m. window blank q.buf c q.head m) e
            ∙ window-suc_last blank q.buf c q.head n
            ∙ ap₂ (λ w i. w ++ get_or q.buf i blank ∷ [])
                (sym (window-set_outside blank q.buf c q.head n t blank outside)
                  ∙ ap₂ (λ d m. window blank (set q.buf t blank) d q.head m) (sym sized)
                      (omega (arith, e)))
                last,
      )
