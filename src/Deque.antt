-- ===== src/Deque.antt =====
-- The growing ring of engine/pkg/utils/queue/deque.go. A method that mutates the deque returns the new
-- one beside its result; `none` is a panic. Positions and counts are natural numbers, and `-1 & m`
-- is `m`.
pub mod View
pub mod Resize
pub mod Refine
pub mod Calls
pub mod Order
mod Rotate
mod Clear
mod Search
mod Access
pub mod Turn
mod Tests
use Prim.Native.Nat.{bit_and}
use emberengine.Prelude.{
  ℕ, zero, suc, ◌+◌, ◌-◌, ◌*◌, ◌/◌, ◌%◌, ◌^◌, List, [], Option, none, some, ◌==◌, ltb, leb,
  if◌then◌else◌, ◌&&◌, Bool, length, get_or, set, replicate, take, drop, copy, ◌++◌,
}
use emberengine.Prelude.Int.{ℤ, pos, negsuc}

abbrev pub min_capacity : ℕ
min_capacity = 16

pub record Deque (A : Type 0) : Type 0 where
  pub buf : List A
  pub head : ℕ
  pub tail : ℕ
  pub count : ℕ
  pub min_cap : ℕ

-- `bits.Len`, on fuel; the number itself is enough.
pub bits_len : ℕ → ℕ → ℕ
bits_len zero v = 0
bits_len (suc fuel) v = let rest = bits_len fuel (v / 2) in if v == 0 then 0 else rest + 1

-- `RoundUpToPowerOfTwoInt` (engine/pkg/utils/util/pow2.go), for 64 bits.
pub round_up_to_power_of_two_int : ℕ → ℕ
round_up_to_power_of_two_int v =
    if leb v 1 then 1 else if leb (2 ^ 62) v then 2 ^ 62 else 2 ^ bits_len v (v - 1)

module _ {A : Type 0} where
  -- `-1 & m` is `m`.
  pub prev : Deque A → ℕ → ℕ
  prev q zero = length q.buf - 1
  prev q (suc i) = bit_and i (length q.buf - 1)

  pub next : Deque A → ℕ → ℕ
  next q i = bit_and (i + 1) (length q.buf - 1)

  abbrev pub place : Deque A → ℕ → ℕ
  place q i = bit_and (q.head + i) (length q.buf - 1)

-- `blank` is the zero value of the element type.
module _ {A : Type 0} (blank : A) where
  -- `New`; an absent size is 0.
  pub new : ℕ → ℕ → Deque A
  new capacity minimum =
      let min_cap =
        if ltb min_capacity minimum then round_up_to_power_of_two_int minimum else min_capacity in
      let buf_size =
        if ltb min_cap capacity then round_up_to_power_of_two_int capacity else min_cap in
      record {
        buf = if capacity == 0 then [] else replicate buf_size blank;
        head = 0;
        tail = 0;
        count = 0;
        min_cap = min_cap;
      }

  -- The two copies of `resize` behind one another, or the one.
  pub unrolled : Deque A → List A → List A
  unrolled q new_buf =
      if ltb q.head q.tail
      then copy new_buf (take (q.tail - q.head) (drop q.head q.buf))
      else (let front = drop q.head q.buf in
          take (length front) (copy new_buf front)
          ++ copy (drop (length front) (copy new_buf front)) (take q.tail q.buf))

  pub resize : Deque A → Deque A
  resize q = record q { buf = unrolled q (replicate (q.count * 2) blank); head = 0; tail = q.count }

  abbrev pub minimum_of : Deque A → ℕ
  minimum_of q = if q.min_cap == 0 then min_capacity else q.min_cap

  pub grow_if_full : Deque A → Deque A
  grow_if_full q =
      if q.count == length q.buf
      then (if length q.buf == 0
          then record q { buf = replicate (minimum_of q) blank; min_cap = minimum_of q }
          else resize q)
      else q

  pub shrink_if_excess : Deque A → Deque A
  shrink_if_excess q =
      if ltb q.min_cap (length q.buf) && (q.count * 4 == length q.buf) then resize q else q

  pub put_back : A → Deque A → Deque A
  put_back x q = record q { buf = set q.buf q.tail x; tail = next q q.tail; count = q.count + 1 }

  pub push_back : A → Deque A → Deque A
  push_back x q = put_back x (grow_if_full q)

  pub put_front : A → Deque A → Deque A
  put_front x q = record q {
    buf = set q.buf (prev q q.head) x;
    head = prev q q.head;
    count = q.count + 1;
  }

  pub push_front : A → Deque A → Deque A
  push_front x q = put_front x (grow_if_full q)

  pub drop_front : Deque A → Deque A
  drop_front q = record q {
    buf = set q.buf q.head blank;
    head = next q q.head;
    count = q.count - 1;
  }

  pub pop_front : Deque A → Option (A × Deque A)
  pop_front q =
      if q.count == 0
      then none
      else some (get_or q.buf q.head blank, shrink_if_excess (drop_front q))

  pub drop_back : Deque A → Deque A
  drop_back q = record q {
    buf = set q.buf (prev q q.tail) blank;
    tail = prev q q.tail;
    count = q.count - 1;
  }

  pub pop_back : Deque A → Option (A × Deque A)
  pop_back q =
      if q.count == 0
      then none
      else some (get_or q.buf (prev q q.tail) blank, shrink_if_excess (drop_back q))

  pub front : Deque A → Option A
  front q = if q.count == 0 then none else some (get_or q.buf q.head blank)

  pub back : Deque A → Option A
  back q = if q.count == 0 then none else some (get_or q.buf (prev q q.tail) blank)

  -- `At`, of an index that is not negative.
  pub at_index : Deque A → ℕ → Option A
  at_index q i = if leb q.count i then none else some (get_or q.buf (place q i) blank)

  pub set_index : Deque A → ℕ → A → Option (Deque A)
  set_index q i x =
      if leb q.count i then none else some (record q { buf = set q.buf (place q i) x })

  -- A round of the loops of `Rotate`.
  pub step_front : Deque A → Deque A
  step_front q = record q {
    buf = set (set q.buf q.tail (get_or q.buf q.head blank)) q.head blank;
    head = next q q.head;
    tail = next q q.tail;
  }

  pub step_back : Deque A → Deque A
  step_back q =
      let h = prev q q.head in
      let t = prev q q.tail in
      record q { buf = set (set q.buf h (get_or q.buf t blank)) t blank; head = h; tail = t }

  pub rotate_loop : (Deque A → Deque A) → ℕ → Deque A → Deque A
  rotate_loop step zero q = q
  rotate_loop step (suc n) q = rotate_loop step n (step q)

  -- The loop of `Index` over `n` elements from place `i` on.
  pub index_loop : (A → Bool) → Deque A → ℕ → ℕ → ℤ
  index_loop f q zero i = negsuc 0
  index_loop f q (suc n) i =
      let rest = index_loop f q n (i + 1) in
      if f (get_or q.buf (place q i) blank) then pos i else rest

  -- `Index`; -1 when no element satisfies the test.
  pub index : (A → Bool) → Deque A → ℤ
  index f q = if ltb 0 q.count then index_loop f q q.count 0 else negsuc 0

  -- The loop of `RIndex` over the first `n` elements, from the last of them down.
  pub r_index_loop : (A → Bool) → Deque A → ℕ → ℤ
  r_index_loop f q zero = negsuc 0
  r_index_loop f q (suc n) =
      let rest = r_index_loop f q n in if f (get_or q.buf (place q n) blank) then pos n else rest

  -- `RIndex`.
  pub r_index : (A → Bool) → Deque A → ℤ
  r_index f q = if ltb 0 q.count then r_index_loop f q q.count else negsuc 0

  -- `SetMinCapacity`; `1 << n` is negative at 63 and 0 beyond.
  pub set_min_capacity : ℕ → Deque A → Deque A
  set_min_capacity n q =
      if ltb n 63 && ltb min_capacity (2 ^ n)
      then record q { min_cap = 2 ^ n }
      else record q { min_cap = min_capacity }

  -- The new place of the head and tail of a full buffer.
  abbrev pub turned : Deque A → ℕ → Deque A
  turned q h = record q { head = bit_and h (length q.buf - 1); tail = bit_and h (length q.buf - 1) }

  -- From the remainder on, which is not 0; `(h - n) & m` is `(h + (m + 1) - n) & m`.
  pub rotate_front : ℕ → Deque A → Deque A
  rotate_front n q = if q.head == q.tail then turned q (q.head + n) else rotate_loop step_front n q

  pub rotate_back : ℕ → Deque A → Deque A
  rotate_back n q =
      if q.head == q.tail then turned q (q.head + length q.buf - n) else rotate_loop step_back n q

  -- `Rotate`; the remainder has the sign of its argument.
  pub rotate : ℤ → Deque A → Deque A
  rotate (pos n) q =
      if leb q.count 1 then q else if n % q.count == 0 then q else rotate_front (n % q.count) q
  rotate (negsuc n) q =
      if leb q.count 1
      then q
      else if suc n % q.count == 0
      then q
      else rotate_back (suc n % q.count) q

  -- The loop of `Clear` from place `h`, on fuel; `none` is fuel that ran out.
  pub clear_loop : ℕ → Deque A → ℕ → List A → Option (List A)
  clear_loop zero q h b = if h == q.tail then some b else none
  clear_loop (suc fuel) q h b =
      let rest = clear_loop fuel q (next q h) (set b h blank) in
      if h == q.tail then some b else rest

  abbrev pub cleared : Deque A → Option (List A) → Option (Deque A)
  cleared q none = none
  cleared q (some b) = some (record q { buf = b; head = 0; tail = 0; count = 0 })

  -- `Clear`; as many rounds as there are cells are enough.
  pub clear : Deque A → Option (Deque A)
  clear q = cleared q (clear_loop (length q.buf) q q.head q.buf)
