-- ===== src/Mpsc.antt =====
-- The unbounded multi-producer, single-consumer queue of engine/pkg/utils/mpsc/deque.go, as the steps
-- of its producers and its consumer in any order. A node is its address. A push has three steps that
-- others see: the swap of the head, the store that links the node before, and the count; what it
-- does before the swap touches only its own node. A pop touches what only the consumer may touch.
mod Chains
pub mod Order
mod Tests
use emberengine.Prelude.{
  ℕ, ◌+◌, ◌-◌, ◌^◌, List, [], ◌∷◌, ◌++◌, Bool, true, false, Option, none, some, ◌==◌, ltb,
  if◌then◌else◌,
}
use emberengine.Prelude.Words.{word}

abbrev pub update {ℓ} : {B : Type ℓ} → (ℕ → B) → ℕ → B → ℕ → B
update f a b i = if i == a then b else f i

-- `is_free` are the nodes that the pool may give: those put back, and those not yet made.
-- `holds a` is the node of the producer that swapped the head away from `a` and has not linked it.
-- `started`, `linked`, `counted` number the pushes that have done each step; `pushed` and `popped`
-- log the values, in the order of the swaps and of the pops.
pub record Queue (A : Type 0) : Type 0 where
  pub head : ℕ
  pub tail : ℕ
  pub next : ℕ → Option ℕ
  pub val : ℕ → A
  pub is_free : ℕ → Bool
  pub holds : ℕ → Option ℕ
  pub len : ℕ
  pub started : ℕ
  pub linked : ℕ
  pub counted : ℕ
  pub pushed : List A
  pub popped : List A

pub data Event (A : Type 0) : Type 0 where
  swaps : A → ℕ → Event A
  links : ℕ → Event A
  counts : Event A
  pops : Event A

abbrev pub is_none : Option ℕ → Bool
is_none none = true
is_none (some n) = false

module _ {A : Type 0} where
  -- `New`, with the node 0 as the stub; `zero_val` is the zero value.
  pub new : A → Queue A
  new zero_val = record {
    head = 0;
    tail = 0;
    next = λ i. none;
    val = λ i. zero_val;
    is_free = λ i. if i == 0 then false else true;
    holds = λ i. none;
    len = 0;
    started = 0;
    linked = 0;
    counted = 0;
    pushed = [];
    popped = [];
  }

  -- `Push` up to the swap, with the node that the pool gives; a node in use it does not give.
  pub swap : A → ℕ → Queue A → Queue A
  swap x n q =
      if q.is_free n
      then record q {
        head = n;
        next = update q.next n none;
        val = update q.val n x;
        is_free = update q.is_free n false;
        holds = update q.holds q.head (some n);
        started = q.started + 1;
        pushed = q.pushed ++ x ∷ [];
      }
      else q

  -- `prev.next = n`.
  pub link : ℕ → Option ℕ → Queue A → Queue A
  link a none q = q
  link a (some n) q = record q {
    next = update q.next a (some n);
    holds = update q.holds a none;
    linked = q.linked + 1;
  }

  -- `q.len.Add(1)` of a push that has linked its node.
  pub count : Queue A → Queue A
  count q =
      if ltb q.counted q.linked
      then record q { len = word (q.len + 1); counted = q.counted + 1 }
      else q

  -- `Pop`, from the load of `tail.next`.
  pub pop_next : A → Option ℕ → Queue A → Option A × Queue A
  pop_next zero_val none q = (none, q)
  pop_next zero_val (some m) q = (
    some (q.val m),
    record q {
      tail = m;
      next = update q.next q.tail none;
      val = update q.val q.tail zero_val;
      is_free = update q.is_free q.tail true;
      len = word (q.len + (2 ^ 64 - 1));
      popped = q.popped ++ q.val m ∷ [];
    },
  )

  pub pop : A → Queue A → Option A × Queue A
  pop zero_val q = pop_next zero_val (q.next q.tail) q

  pub is_empty : Queue A → Bool
  is_empty q = is_none (q.next q.tail)

  pub step : A → Event A → Queue A → Queue A
  step zero_val (swaps x n) q = swap x n q
  step zero_val (links a) q = link a (q.holds a) q
  step zero_val counts q = count q
  step zero_val pops q = (pop zero_val q).1

  pub run : A → List (Event A) → Queue A → Queue A
  run zero_val [] q = q
  run zero_val (e ∷ es) q = run zero_val es (step zero_val e q)
