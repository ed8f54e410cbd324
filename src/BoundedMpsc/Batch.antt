-- ===== src/BoundedMpsc/Batch.antt =====
-- `PopBatch` of engine/pkg/utils/boundedmpsc/queue.go: the loop against the list view.
use Prim.Native.Nat.{bit_and}
use emberengine.Prelude.{
  ℕ, zero, suc, ◌+◌, ◌-◌, ◌%◌, ◌^◌, ◌≤◌, ◌<◌, ◌≡◌, refl, ap, ap₂, ◌∙◌, sym, List, [], ◌∷◌, ◌++◌,
  arith, length, get_or, set, length-set, take, drop, min,
}
use emberengine.Circular.{
  window, length-window, window_congr, window-set_head, window-set_before, mod-add_congr,
  take-window, drop-window,
}
use emberengine.BoundedMpsc.{Queue, pop_rounds, pop_batch}
use emberengine.BoundedMpsc.Bounds.{IsValid}
use emberengine.BoundedMpsc.Refine.{contents, window-word}
use emberengine.Prelude.Bits.{bit_and_mask, mod_pow-mod_pow}
use emberengine.Prelude.Words.{word}

-- The fields that every round keeps.
record HasSlots {A : Type 0} (k : ℕ) (q : Queue A) : Type 0 where
  fits_int : k ≤ 62
  sized : length q.buffer ≡ 2 ^ k
  masked : q.mask ≡ 2 ^ k - 1

module _ {A : Type 0} (blank : A) where
  -- One round without its write to `dst`.
  abbrev clear_head : Queue A → Queue A
  clear_head q = record q {
    buffer = set q.buffer (bit_and q.head q.mask) blank;
    head = word (q.head + 1);
  }

  clear_head-HasSlots : (k : ℕ) (q : Queue A) → HasSlots k q → HasSlots k (clear_head q)
  clear_head-HasSlots k q s = omega (arith, s, length-set q.buffer (bit_and q.head q.mask) blank)

  slot-eq-mod : (k : ℕ) (q : Queue A) → HasSlots k q → bit_and q.head q.mask ≡ q.head % 2 ^ k
  slot-eq-mod k q s = ap (bit_and q.head) s.masked ∙ bit_and_mask k q.head

  -- A round leaves the cells behind the head.
  window-clear_head :
      (k : ℕ) (q : Queue A) (n : ℕ)
      → HasSlots k q
      → n < 2 ^ k
      → window blank (clear_head q).buffer (2 ^ k) (clear_head q).head n
        ≡ window blank q.buffer (2 ^ k) (q.head + 1) n
  window-clear_head k q n s l =
      window-word blank k 64 (clear_head q).buffer (q.head + 1) n (omega (arith, s))
      ∙ ap (λ i. window blank (set q.buffer i blank) (2 ^ k) (q.head + 1) n) (slot-eq-mod k q s)
      ∙ window-set_head blank q.buffer (2 ^ k) q.head n blank l

  -- Elements written one after the other from index `i` on.
  write_at : ℕ → List A → List A → List A
  write_at i dst [] = dst
  write_at i dst (x ∷ xs) = write_at (i + 1) (set dst i x) xs

  write_at-suc :
      (i : ℕ) (d : A) (dst xs : List A) → write_at (suc i) (d ∷ dst) xs ≡ d ∷ write_at i dst xs
  unfolding write_at
  write_at-suc i d dst [] = refl
  write_at-suc i d dst (x ∷ xs) =
      ap (λ j. write_at j (d ∷ set dst i x) xs) (omega arith)
      ∙ write_at-suc (i + 1) d (set dst i x) xs

  write_at_front :
      (dst xs : List A) → length xs ≤ length dst → write_at 0 dst xs ≡ xs ++ drop (length xs) dst
  unfolding write_at
  write_at_front dst [] l = refl
  write_at_front [] (x ∷ xs) l = absurd (omega arith)
  write_at_front (d ∷ dst) (x ∷ xs) l =
      ap (λ j. write_at j (x ∷ dst) xs) (omega arith)
      ∙ write_at-suc 0 x dst xs
      ∙ ap (λ t. x ∷ t) (write_at_front dst xs (omega arith))

  pop_rounds_dst :
      (k n i : ℕ) (dst : List A) (q : Queue A)
      → HasSlots k q
      → n ≤ 2 ^ k
      → (pop_rounds blank n i dst q).0 ≡ write_at i dst (window blank q.buffer (2 ^ k) q.head n)
  unfolding pop_rounds write_at
  pop_rounds_dst k zero i dst q s l = refl
  pop_rounds_dst k (suc n) i dst q s l =
      pop_rounds_dst k n (i + 1) (set dst i (get_or q.buffer (bit_and q.head q.mask) blank))
        (clear_head q) (clear_head-HasSlots k q s) (omega arith)
      ∙ ap₂ (λ j t. write_at (i + 1) (set dst i (get_or q.buffer j blank)) t) (slot-eq-mod k q s)
          (window-clear_head k q n s l)

  after_round :
      (k n m : ℕ) (q : Queue A)
      → HasSlots k q
      → suc n + m ≤ 2 ^ k
      → window blank (clear_head q).buffer (2 ^ k) ((clear_head q).head + n) m
        ≡ window blank q.buffer (2 ^ k) (q.head + suc n) m
  after_round k n m q s l =
      window_congr blank (clear_head q).buffer (2 ^ k) (word (q.head + 1) + n) (q.head + suc n) m (
        mod-add_congr (2 ^ k) (word (q.head + 1)) (q.head + 1) n
          (mod_pow-mod_pow k 64 (q.head + 1) (omega (arith, s)))
        ∙ ap (λ t. t % 2 ^ k) (omega arith))
      ∙ ap (λ i. window blank (set q.buffer i blank) (2 ^ k) (q.head + suc n) m) (slot-eq-mod k q s)
      ∙ window-set_before blank q.buffer (2 ^ k) q.head (suc n) m blank (omega arith) l

  -- The cells behind those taken stay, and so do the other fields.
  record RoundsKeep (k n : ℕ) (q r : Queue A) : Type 0 where
    slots : HasSlots k r
    tail_same : r.tail ≡ q.tail
    count_same : r.count ≡ q.count
    head_moved : q.head < 2 ^ 64 → r.head ≡ word (q.head + n)
    rest_same :
        (m : ℕ)
        → n + m ≤ 2 ^ k
        → window blank r.buffer (2 ^ k) r.head m ≡ window blank q.buffer (2 ^ k) (q.head + n) m

  pop_rounds-RoundsKeep :
      (k n i : ℕ) (dst : List A) (q : Queue A)
      → HasSlots k q
      → RoundsKeep k n q (pop_rounds blank n i dst q).1
  unfolding pop_rounds
  pop_rounds-RoundsKeep k zero i dst q s = record {
    slots = s;
    tail_same = refl;
    count_same = refl;
    head_moved = λ h. omega arith;
    rest_same = λ m l. ap (λ h. window blank q.buffer (2 ^ k) h m) (omega arith);
  }
  pop_rounds-RoundsKeep k (suc n) i dst q s =
      let r =
        pop_rounds-RoundsKeep k n (i + 1)
          (set dst i (get_or q.buffer (bit_and q.head q.mask) blank)) (clear_head q)
          (clear_head-HasSlots k q s) in
      record {
        slots = r.slots;
        tail_same = r.tail_same;
        count_same = r.count_same;
        head_moved = λ h. r.head_moved (omega arith) ∙ omega arith;
        rest_same = λ m l. r.rest_same m (omega arith) ∙ after_round k n m q s (omega arith);
      }

  -- `PopBatch` takes as many elements as there are, up to the length of `dst`, oldest first. It
  -- writes them to the front of `dst` and leaves the rest of `dst`, the queue keeps the elements
  -- behind them, and stays valid.
  pub pop_batch_lem :
      {k : ℕ} (dst : List A) {q : Queue A}
      → IsValid k q
      → let (n, dst', q') = pop_batch blank dst q in
        (n ≡ min (length dst) q.count)
        × (dst' ≡ take n (contents blank q) ++ drop n dst)
        × (contents blank q' ≡ drop n (contents blank q))
        × IsValid k q'
  unfolding pop_batch
  pop_batch_lem {k} dst {q} v =
      let n = min (length dst) q.count in
      let s : HasSlots k q = record { fits_int = v.fits_int; sized = v.sized; masked = v.masked } in
      let r = pop_rounds-RoundsKeep k n 0 dst q s in
      let q' = (pop_rounds blank n 0 dst q).1 in
      let sized : length q.buffer ≡ 2 ^ k = v.sized in
      let taken : window blank q.buffer (2 ^ k) q.head n ≡ take n (contents blank q) = sym (
        ap (λ c. take n (window blank q.buffer c q.head q.count)) sized
        ∙ take-window blank q.buffer (2 ^ k) q.head n q.count (omega arith)) in
      let left : window blank q.buffer (2 ^ k) (q.head + n) (q.count - n)
          ≡ drop n (contents blank q) =
        sym (
          ap (λ c. drop n (window blank q.buffer c q.head q.count)) sized
          ∙ drop-window blank q.buffer (2 ^ k) q.head n q.count (omega arith)) in
      let width : length (window blank q.buffer (2 ^ k) q.head n) ≡ n =
        length-window blank q.buffer (2 ^ k) q.head n in
      (
        refl,
        pop_rounds_dst k n 0 dst q s (omega (arith, v))
            ∙ write_at_front dst (window blank q.buffer (2 ^ k) q.head n) (omega arith)
            ∙ ap₂ (λ t m. t ++ drop m dst) taken width,
        ap₂ (λ c m. window blank q'.buffer c q'.head (m - n)) r.slots.sized r.count_same
            ∙ r.rest_same (q.count - n) (omega (arith, v))
            ∙ left,
        record {
          at_least_two = v.at_least_two;
          fits_int = v.fits_int;
          sized = r.slots.sized;
          masked = r.slots.masked;
          head_word = omega (arith, r.head_moved v.head_word);
          ahead = omega (arith, r.tail_same, r.count_same, v.ahead, r.head_moved v.head_word);
          within = omega (arith, r.count_same, v.within);
        },
      )
