-- ===== src/BoundedMpsc.antt =====
-- The fixed-capacity multi-producer queue of engine/pkg/utils/boundedmpsc/queue.go. Every method
-- runs under the queue's mutex, so it is one atomic function on the state. A method that mutates
-- the queue returns the new queue beside its result; `(zero, false)` is `none`.
pub mod Bounds
pub mod Refine
pub mod Batch
mod Tests
use Prim.Native.Nat.{bit_and}
use emberengine.Prelude.{
  ℕ, zero, suc, ◌+◌, ◌-◌, List, Bool, true, false, Option, none, some, ◌==◌, ltb, if◌then◌else◌,
  length, get_or, set, replicate, min,
}
use emberengine.Prelude.Int.{ℤ, pos, negsuc}
use emberengine.Prelude.Words.{word}

pub data NewError : Type 0 where
  capacity_too_small capacity_not_power2 : NewError

pub data Made (Q : Type 0) : Type 0 where
  made : Q → Made Q
  refused : NewError → Made Q

-- `buffer` has the fixed storage, `head` and `tail` are uint64 counters that run on.
pub record Queue (A : Type 0) : Type 0 where
  pub buffer : List A
  pub mask : ℕ
  pub head : ℕ
  pub tail : ℕ
  pub count : ℕ

module _ {A : Type 0} where
  pub push : Queue A → A → Bool × Queue A
  push q value = if q.count == length q.buffer then (false, q) else (
    true,
    record q {
      buffer = set q.buffer (bit_and q.tail q.mask) value;
      tail = word (q.tail + 1);
      count = q.count + 1;
    },
  )

  pub is_empty : Queue A → Bool
  is_empty q = q.count == 0

  pub len : Queue A → ℕ
  len q = q.count

  pub cap : Queue A → ℕ
  cap q = length q.buffer

-- `blank` is the zero value of the element type, `var zero T`.
module _ {A : Type 0} (blank : A) where
  make_queue : ℕ → Made (Queue A)
  make_queue capacity =
      if ltb capacity 2
      then refused capacity_too_small
      else if bit_and capacity (capacity - 1) == 0
      then made (record {
        buffer = replicate capacity blank;
        mask = word (capacity - 1);
        head = 0;
        tail = 0;
        count = 0;
      })
      else refused capacity_not_power2

  -- `New`; a negative capacity is below two.
  pub new : ℤ → Made (Queue A)
  unfolding make_queue
  new (pos capacity) = make_queue capacity
  new (negsuc n) = refused capacity_too_small

  pub pop : Queue A → Option A × Queue A
  pop q = if q.count == 0 then (none, q) else (
    some (get_or q.buffer (bit_and q.head q.mask) blank),
    record q {
      buffer = set q.buffer (bit_and q.head q.mask) blank;
      head = word (q.head + 1);
      count = q.count - 1;
    },
  )

  -- The loop of `PopBatch` from round `i`, with the rounds left; `count` is adjusted after it.
  pub pop_rounds : ℕ → ℕ → List A → Queue A → List A × Queue A
  pop_rounds zero i dst q = (dst, q)
  pop_rounds (suc rounds) i dst q =
      let index = bit_and q.head q.mask in
      pop_rounds rounds (i + 1) (set dst i (get_or q.buffer index blank))
        (record q { buffer = set q.buffer index blank; head = word (q.head + 1) })

  -- `PopBatch`: the number written, `dst` after the call, and the queue.
  pub pop_batch : List A → Queue A → ℕ × List A × Queue A
  unfolding pop_rounds
  pop_batch dst q =
      let n = min (length dst) q.count in
      let (dst', q') = pop_rounds n 0 dst q in (n, dst', record q' { count = q'.count - n })
