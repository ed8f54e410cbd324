-- ===== src/BoundedMpsc/Bounds.antt =====
-- The representation invariant of engine/pkg/utils/boundedmpsc/queue.go.
use Prim.Native.Nat.{bit_and}
use native.Mathlib.Decide.{dec_le, dec_lt}
use native.Mathlib.Nat.{pow-le-pow_right, one-le-pow, mod-lt}
use emberengine.Prelude.{
  ℕ, zero, suc, ◌+◌, ◌-◌, ◌%◌, ◌^◌, ◌≤◌, ◌<◌, ◌≡◌, ◌≢◌, ap, ◌∙◌, arith, length, length-set,
  replicate, length-replicate, ◌==◌, Bool-cases, inl, inr, if◌then◌else◌,
}
use emberengine.Prelude.Int.{ℤ, pos, negsuc, ◌<ℤ◌, ltb_ℤ}
use emberengine.Prelude.Bits.{bit_and_mask, mod_pow-mod_pow, pow_of_bit_and-pred, bit_and-pred_pow}
use emberengine.Prelude.Words.{word}
use emberengine.BoundedMpsc.{
  Queue, made, refused, capacity_too_small, capacity_not_power2, make_queue, new, push, pop,
}

-- A queue of `2 ^ k` slots: the counters are uint64 values that differ by `count`.
pub record IsValid {A : Type 0} (k : ℕ) (q : Queue A) : Type 0 where
  pub at_least_two : 1 ≤ k
  pub fits_int : k ≤ 62
  pub sized : length q.buffer ≡ 2 ^ k
  pub masked : q.mask ≡ 2 ^ k - 1
  pub head_word : q.head < 2 ^ 64
  pub ahead : q.tail ≡ word (q.head + q.count)
  pub within : q.count ≤ 2 ^ k

module _ {A : Type 0} {k : ℕ} {q : Queue A} (v : IsValid k q) where
  -- `x & mask` is the remainder by the capacity, for a counter before or after its wrap.
  pub slot-eq-mod : (x : ℕ) → bit_and (word x) q.mask ≡ x % 2 ^ k
  slot-eq-mod x =
      ap (bit_and (word x)) v.masked
      ∙ bit_and_mask k (word x)
      ∙ mod_pow-mod_pow k 64 x (omega (arith, v))

  pub head_slot : bit_and q.head q.mask ≡ q.head % 2 ^ k
  head_slot = ap (bit_and q.head) v.masked ∙ bit_and_mask k q.head

  pub tail_slot : bit_and q.tail q.mask ≡ (q.head + q.count) % 2 ^ k
  tail_slot = ap (λ t. bit_and t q.mask) v.ahead ∙ slot-eq-mod (q.head + q.count)

  pub head_in_range : q.head % 2 ^ k < length q.buffer
  head_in_range = omega (arith, v.sized, mod-lt q.head {m = 2 ^ k} (one-le-pow k 2 (omega arith)))

  pub push-IsValid : (x : A) → IsValid k (push q x).1
  unfolding push
  push-IsValid x = ground (arith, v, length-set q.buffer (bit_and q.tail q.mask) x)

  pub pop-IsValid : (blank : A) → IsValid k (pop blank q).1
  unfolding pop
  pop-IsValid blank = ground (arith, v, length-set q.buffer (bit_and q.head q.mask) blank)

-- The exponent of a power of two that fits an int.
pow_fits_int : (k c : ℕ) → c ≡ 2 ^ k → c < 2 ^ 63 → k ≤ 62
pow_fits_int k c e small = elim (dec_le k 62) [
  | yes l ↦ l
  | no l ↦
      absurd (omega (arith, pow-le-pow_right {n = 2} (omega arith) {i = 63} {j = k} (omega arith)))
]

pow_at_least_two : (k c : ℕ) → c ≡ 2 ^ k → 2 ≤ c → 1 ≤ k
pow_at_least_two zero c e h = absurd (omega arith)
pow_at_least_two (suc k) c e h = omega arith

module _ {A : Type 0} (blank : A) where
  -- What `New` has checked when it makes a queue, and the queue that it makes.
  make_queue_checks :
      (c : ℕ) {q : Queue A}
      → make_queue blank c ≡ made q
      → (2 ≤ c)
        × (bit_and c (c - 1) ≡ 0)
        × (q.buffer ≡ replicate c blank)
        × (q.mask ≡ word (c - 1))
        × (q.head ≡ 0)
        × (q.tail ≡ 0)
        × (q.count ≡ 0)
  unfolding make_queue
  make_queue_checks c {q} e = ground arith

  make_queue-IsValid :
      (c : ℕ) {q : Queue A}
      → c < 2 ^ 63
      → make_queue blank c ≡ made q
      → (k : ℕ) × (c ≡ 2 ^ k) × IsValid k q × (q.count ≡ 0)
  make_queue-IsValid c {q} small e =
      let (two, test, buffered, mask, head, tail, count) = make_queue_checks c e in
      let (k, pow) = pow_of_bit_and-pred c c (omega arith) (omega arith) test in
      (
        k,
        pow,
        record {
          at_least_two = pow_at_least_two k c pow two;
          fits_int = pow_fits_int k c pow small;
          sized = ap length buffered ∙ length-replicate c blank ∙ pow;
          masked = omega arith;
          head_word = omega arith;
          ahead = omega arith;
          within = omega arith;
        },
        count,
      )

  -- `New` makes a queue only at a capacity that is a power of two; the queue is then empty and
  -- valid for that capacity.
  pub new-IsValid :
      (c : ℤ) {q : Queue A}
      → c <ℤ pos (2 ^ 63)
      → new blank c ≡ made q
      → (k : ℕ) × (c ≡ pos (2 ^ k)) × IsValid k q × (q.count ≡ 0)
  unfolding new
  new-IsValid (pos c) small e =
      let (k, pow, v, count) = make_queue-IsValid c (omega arith) e in (k, ap pos pow, v, count)
  new-IsValid (negsuc n) small e = cc

  -- `New` accepts every power of two from 2 to 2 ^ 62.
  pub new_pow : (k : ℕ) → 1 ≤ k → k ≤ 62 → (q : Queue A) × (new blank (pos (2 ^ k)) ≡ made q)
  unfolding new make_queue
  new_pow k one fits = (
    record {
      buffer = replicate (2 ^ k) blank;
      mask = word (2 ^ k - 1);
      head = 0;
      tail = 0;
      count = 0;
    },
    ground (arith, bit_and-pred_pow k, pow-le-pow_right {n = 2} (omega arith) {i = 1} {j = k}),
  )

  -- `New` refuses what is below two as too small, and else what is no power of two as such.
  pub new_refuses :
      (c : ℤ)
      → c <ℤ pos (2 ^ 63)
      → ((k : ℕ) → 1 ≤ k → c ≢ pos (2 ^ k))
      → new blank c ≡ refused (if ltb_ℤ c (pos 2) then capacity_too_small else capacity_not_power2)
  unfolding new make_queue
  new_refuses (pos c) small odd = elim (dec_lt c 2) [
    | yes l ↦ ground arith
    | no l ↦ elim (Bool-cases (bit_and c (c - 1) == 0)) [
      | inl e ↦
          let zero_test : bit_and c (c - 1) ≡ 0 = ground arith in
          let (k, pow) = pow_of_bit_and-pred c c (omega arith) (omega arith) zero_test in
          absurd (odd k (pow_at_least_two k c pow (omega arith)) (ap pos pow))
      | inr e ↦ ground arith
    ]
  ]
  new_refuses (negsuc n) small odd = ground arith
