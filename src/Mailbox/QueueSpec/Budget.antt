-- ===== src/Mailbox/QueueSpec/Budget.antt =====
-- The storage budget is exact: no sum or product of an accepted configuration has wrapped.
use native.Mathlib.Nat.{mul-le-mul_left, mul-div-le}
use emberengine.Prelude.{
  ℕ, zero, suc, ◌+◌, ◌-◌, ◌*◌, ◌/◌, ◌^◌, ◌≤◌, ◌<◌, ◌≡◌, refl, ap, sym, ◌∙◌, List, [], ◌∷◌, false,
  ltb, arith, Bool-cases, inl, inr,
}
use emberengine.Prelude.Int.{ℤ, pos, negsuc}
use emberengine.Prelude.Bits.{pow_of_bit_and-pred}
use emberengine.Mailbox.QueueSpec.{
  Checked, checked, failed, and_then, checked_queue_add, checked_queue_mul, is_bad_capacity,
  capacity_word, add_layout, add_layouts, storage_bytes,
}

and_then-checked :
    {A B : Type 0} (c : Checked A) (f : A → Checked B) {b : B}
    → and_then c f ≡ checked b
    → (a : A) × (c ≡ checked a) × (f a ≡ checked b)
and_then-checked (checked a) f e = (a, refl, e)
and_then-checked (failed x) f e = cc

checked_queue_add_lem :
    (a b : ℕ) {s : ℕ} → a < 2 ^ 64 → checked_queue_add a b ≡ checked s → (s ≡ a + b) × (s < 2 ^ 64)
unfolding checked_queue_add
checked_queue_add_lem a b small e = ground arith

mul_fits : (a b : ℕ) → b ≤ (2 ^ 64 - 1) / a → a * b ≤ 2 ^ 64 - 1
mul_fits a b l = omega (arith, mul-le-mul_left a l, mul-div-le (2 ^ 64 - 1) a)

checked_queue_mul_lem :
    (a b : ℕ) {s : ℕ} → checked_queue_mul a b ≡ checked s → (s ≡ a * b) × (s < 2 ^ 64)
unfolding checked_queue_mul
checked_queue_mul_lem zero b e = ground arith
checked_queue_mul_lem (suc a) b e = ground (arith, mul_fits (suc a) b)

is_bad_capacity_lem : (c : ℤ) → is_bad_capacity c ≡ false → (k : ℕ) × (1 ≤ k) × (c ≡ pos (2 ^ k))
unfolding is_bad_capacity
is_bad_capacity_lem (negsuc n) e = cc
is_bad_capacity_lem (pos c) e =
    let (k, pow) = pow_of_bit_and-pred c c (omega arith) (ground arith) (ground arith) in
    (k, ground arith, ap pos pow)

abbrev pub AllPowers : List ℤ → Type 0
AllPowers [] = Unit
AllPowers (c ∷ cs) = ((k : ℕ) × (1 ≤ k) × (c ≡ pos (2 ^ k))) × AllPowers cs

module _ (fixed slot : ℕ) (fits : fixed < 2 ^ 64) where
  -- The bytes of the queues of a worker.
  abbrev pub total_bytes : List ℤ → ℕ
  total_bytes [] = 0
  total_bytes (c ∷ cs) = fixed + capacity_word c * slot + total_bytes cs

  add_layout_lem :
      (i : ℕ) (c : ℤ) (slots bytes : ℕ) {sums : ℕ × ℕ}
      → slots < 2 ^ 64
      → bytes < 2 ^ 64
      → add_layout fixed slot i c (slots, bytes) ≡ checked sums
      → ((k : ℕ) × (1 ≤ k) × (c ≡ pos (2 ^ k)))
        × (sums.0 < 2 ^ 64)
        × (sums.1 < 2 ^ 64)
        × (sums.1 ≡ bytes + (fixed + capacity_word c * slot))
  unfolding add_layout
  add_layout_lem i c slots bytes {sums} small small' e = elim (Bool-cases (is_bad_capacity c)) [
    | inl bad ↦ cc (rw bad at e)
    | inr good ↦
        let (slots', a, e1) =
          and_then-checked (checked_queue_add slots (capacity_word c)) _ (rw good at e) in
        let (array, m, e2) = and_then-checked (checked_queue_mul (capacity_word c) slot) _ e1 in
        elim (Bool-cases (ltb (2 ^ 63 - 1) array)) [
          | inl large ↦ cc (rw large at e2)
          | inr fine ↦
              let (layout, l, e3) =
                and_then-checked (checked_queue_add fixed array) _ (rw fine at e2) in
              let (bytes', b, e4) = and_then-checked (checked_queue_add bytes layout) _ e3 in
              let (slots_sum, slots_fit) = checked_queue_add_lem slots (capacity_word c) small a in
              let (array_is, array_fit) = checked_queue_mul_lem (capacity_word c) slot m in
              let (layout_is, layout_fit) = checked_queue_add_lem fixed array fits l in
              let (bytes_is, bytes_fit) = checked_queue_add_lem bytes layout small' b in
              let same : sums ≡ (slots', bytes') = cc e4 in
              (
                is_bad_capacity_lem c good,
                rw same slots_fit,
                rw same bytes_fit,
                ap (λ (p : ℕ × ℕ). p.1) same
                    ∙ bytes_is
                    ∙ ap (λ t. bytes + t) (layout_is ∙ ap (λ t. fixed + t) array_is),
              )
        ]
  ]

  add_layouts_lem :
      (i : ℕ) (cs : List ℤ) (slots bytes : ℕ) {sums : ℕ × ℕ}
      → slots < 2 ^ 64
      → bytes < 2 ^ 64
      → add_layouts fixed slot i cs (slots, bytes) ≡ checked sums
      → AllPowers cs × (sums.1 ≡ bytes + total_bytes cs)
  unfolding add_layouts
  add_layouts_lem i [] slots bytes {sums} small small' e =
      let same : (slots, bytes) ≡ sums = cc e in
      (tt, ap (λ (p : ℕ × ℕ). p.1) (sym same) ∙ omega arith)
  add_layouts_lem i (c ∷ cs) slots bytes {sums} small small' e =
      let (next, one, rest) = and_then-checked (add_layout fixed slot i c (slots, bytes)) _ e in
      let (pow, slots_fit, bytes_fit, grown) = add_layout_lem i c slots bytes small small' one in
      let (pows, total) = add_layouts_lem (suc i) cs next.0 next.1 slots_fit bytes_fit rest in
      ((pow, pows), omega (arith, total, grown))

  -- An accepted configuration of bounded queues has only capacities that are powers of two of at
  -- least two, and its storage is the exact sum over the queues times the workers, nothing of it
  -- wrapped, and within the budget.
  pub storage_bytes_lem :
      (cs : List ℤ) (workers max_bytes : ℕ) {total : ℕ}
      → storage_bytes fixed slot cs workers max_bytes ≡ checked total
      → AllPowers cs × (total ≡ total_bytes cs * workers) × (total ≤ max_bytes)
  unfolding storage_bytes
  storage_bytes_lem cs workers max_bytes {total} e =
      let (sums, added, e1) = and_then-checked (add_layouts fixed slot 0 cs (0, 0)) _ e in
      let (product, m, e2) = and_then-checked (checked_queue_mul sums.1 workers) _ e1 in
      let (pows, bytes) = add_layouts_lem 0 cs 0 0 (omega arith) (omega arith) added in
      let exact = (checked_queue_mul_lem sums.1 workers m).0 in
      elim (Bool-cases (ltb max_bytes product)) [
        | inl over ↦ cc (rw over at e2)
        | inr within ↦
            let same : product ≡ total = cc (rw within at e2) in
            let bytes' : sums.1 ≡ total_bytes cs = bytes ∙ omega arith in
            (pows, sym same ∙ exact ∙ ap (λ t. t * workers) bytes', ground arith)
      ]
