-- ===== src/Mailbox/QueueSpec.antt =====
-- The storage budget of bounded queues: the end of `normalizeQueueSpec` in
-- engine/pkg/actor/mailbox/worker_pool.go. The sizes of a queue and of a slot in memory, which
-- depend on the platform, are parameters.
pub mod Budget
mod Tests
use Prim.Native.Nat.{bit_and}
use emberengine.Prelude.{
  ℕ, suc, ◌+◌, ◌-◌, ◌*◌, ◌/◌, ◌^◌, List, [], ◌∷◌, Bool, true, not, ◌&&◌, ◌||◌, ◌==◌, ltb,
  if◌then◌else◌,
}
use emberengine.Prelude.Int.{ℤ, pos, negsuc}
use emberengine.Prelude.Words.{word}

pub data SpecError : Type 0 where
  bad_capacity : ℕ → SpecError
  addition_overflow multiplication_overflow slot_array_too_large over_budget : SpecError

pub data Checked (A : Type 0) : Type 0 where
  checked : A → Checked A
  failed : SpecError → Checked A

-- The early return of an error.
abbrev pub and_then : {A B : Type 0} → Checked A → (A → Checked B) → Checked B
and_then (checked a) f = f a
and_then (failed e) f = failed e

pub checked_queue_add : ℕ → ℕ → Checked ℕ
checked_queue_add a b =
    if ltb (2 ^ 64 - 1 - a) b then failed addition_overflow else checked (word (a + b))

pub checked_queue_mul : ℕ → ℕ → Checked ℕ
checked_queue_mul a b =
    if not (a == 0) && ltb ((2 ^ 64 - 1) / a) b
    then failed multiplication_overflow
    else checked (word (a * b))

-- `capacity < 2 || capacity&(capacity-1) != 0`.
pub is_bad_capacity : ℤ → Bool
is_bad_capacity (pos c) = ltb c 2 || not (bit_and c (c - 1) == 0)
is_bad_capacity (negsuc n) = true

-- `uint64(capacity)` of one that is not bad.
abbrev pub capacity_word : ℤ → ℕ
capacity_word (pos c) = c
capacity_word (negsuc n) = 0

module _ (fixed slot : ℕ) where
  -- One round of the loop: the slots and the bytes so far.
  pub add_layout : ℕ → ℤ → ℕ × ℕ → Checked (ℕ × ℕ)
  unfolding checked_queue_add checked_queue_mul is_bad_capacity
  add_layout i capacity (slots, bytes) =
      if is_bad_capacity capacity
      then failed (bad_capacity i)
      else and_then (checked_queue_add slots (capacity_word capacity)) (λ slots'.
        and_then (checked_queue_mul (capacity_word capacity) slot) (λ array.
          if ltb (2 ^ 63 - 1) array
          then failed slot_array_too_large
          else and_then (checked_queue_add fixed array) (λ layout.
            and_then (checked_queue_add bytes layout) (λ bytes'. checked (slots', bytes')))))

  pub add_layouts : ℕ → List ℤ → ℕ × ℕ → Checked (ℕ × ℕ)
  unfolding add_layout
  add_layouts i [] sums = checked sums
  add_layouts i (capacity ∷ capacities) sums =
      and_then (add_layout i capacity sums) (λ sums'. add_layouts (suc i) capacities sums')

  -- The bytes of all queues of all workers, within the budget.
  pub storage_bytes : List ℤ → (workers max_bytes : ℕ) → Checked ℕ
  unfolding add_layouts checked_queue_mul
  storage_bytes capacities workers max_bytes = and_then (add_layouts 0 capacities (0, 0)) (λ sums.
      and_then (checked_queue_mul sums.1 workers)
        (λ total. if ltb max_bytes total then failed over_budget else checked total))
