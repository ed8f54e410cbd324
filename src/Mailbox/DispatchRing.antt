-- ===== src/Mailbox/DispatchRing.antt =====
-- The dispatch ring of engine/pkg/actor/mailbox/dispatch_ring.go: jump hashing of the keys over the
-- sorted worker ids. xxhash and the float64 jump are parameters.
use emberengine.Prelude.{
  ℕ, zero, suc, ◌+◌, ◌*◌, ◌/◌, ◌^◌, ◌≤◌, ◌<◌, ◌≡◌, refl, List, [], ◌∷◌, true, Option, none, some,
  length, arith, ltb, if◌then◌else◌, Bool-cases, inl, inr,
}
use emberengine.Prelude.Int.{ℤ, pos, negsuc}
use emberengine.Prelude.Words.{word}
use emberengine.Mailbox.Queues.{insert_by}

pub record DispatchRing : Type 0 where
  pub sorted_ids : List ℤ

-- The sort of integers, here by insertion: its result does not depend on the method.
sort_ids : List ℤ → List ℤ
sort_ids [] = []
sort_ids (i ∷ ids) = insert_by (λ t. t) i (sort_ids ids)

pub new_dispatch_ring : List ℤ → DispatchRing
unfolding sort_ids
new_dispatch_ring ids = record { sorted_ids = sort_ids ids }

pub at_slot : List ℤ → ℤ → Option ℤ
at_slot ids (negsuc n) = none
at_slot [] (pos n) = none
at_slot (i ∷ ids) (pos zero) = some i
at_slot (i ∷ ids) (pos (suc n)) = at_slot ids (pos n)

-- `hash` is xxhash of a key, `jump x d` is `int64(float64(x) * (float64(1<<31) / float64(d)))`.
module _ (hash : ℕ → ℕ) (jump : ℕ → ℕ → ℕ) where
  -- The loop of `jumpHash` on fuel; `none` means that the fuel ran out.
  pub jump_loop : ℕ → ℕ → ℕ → ℤ → ℕ → Option ℤ
  jump_loop zero key n b j = none
  jump_loop (suc fuel) key n b j =
      let key' = word (key * 2_862_933_555_777_941_757 + 1) in
      let later = jump_loop fuel key' n (pos j) (jump (j + 1) (key' / 2 ^ 33 + 1)) in
      if ltb j n then later else some b

  -- `jumpHash`, with fuel for one more round than there are buckets.
  pub jump_hash : ℕ → ℕ → Option ℤ
  unfolding jump_loop
  jump_hash key zero = some (pos 0)
  jump_hash key (suc n) = jump_loop (n + 2) key (suc n) (negsuc 0) 0

  -- The outer `none` is a panic or the fuel's end, the inner one is `(0, false)`.
  pub get : DispatchRing → ℕ → Option (Option ℤ)
  unfolding jump_hash at_slot
  get r key = elim r.sorted_ids [
    | [] ↦ some none
    | i ∷ ids ↦ elim (jump_hash (hash key) (length (i ∷ ids))) [
      | none ↦ none
      | some idx ↦ elim (at_slot (i ∷ ids) idx) [ none ↦ none | some id ↦ some (some id) ]
    ]
  ]

  -- A product with a factor of at least one, as float64, is not below the other factor.
  abbrev pub IsGrowing : Type 0
  IsGrowing = (x d : ℕ) → x ≤ 2 ^ 31 → 1 ≤ d → d ≤ 2 ^ 31 → x ≤ jump x d

  -- A loop that has rounds left, or a bucket already, ends with a bucket.
  jump_loop-bucket :
      IsGrowing
      → (fuel key n : ℕ) (b : ℤ) (j : ℕ) → n < 2 ^ 31
      → n < fuel + j
      → j < n
      → (i : ℕ) × (jump_loop fuel key n b j ≡ some (pos i)) × (i < n)
  unfolding jump_loop
  jump_loop-bucket g zero key n b j small fuel below = absurd (omega arith)
  jump_loop-bucket g (suc zero) key n b j small fuel below = absurd (omega arith)
  jump_loop-bucket g (suc (suc fuel)) key n b j small enough below =
      let key' = word (key * 2_862_933_555_777_941_757 + 1) in
      let next = jump (j + 1) (key' / 2 ^ 33 + 1) in
      let up : j + 1 ≤ next =
        g (j + 1) (key' / 2 ^ 33 + 1) (omega arith) (omega arith) (omega arith) in
      let goes_on : ltb j n ≡ true = ground arith in
      elim (Bool-cases (ltb next n)) [
        | inl more ↦
            let (i, e, l) =
              jump_loop-bucket g (suc fuel) key' n (pos j) next small (omega arith)
                (ground arith) in
            (i, rw goes_on e, l)
        | inr over ↦ (j, rw goes_on (rw over refl), below)
      ]

  -- `jumpHash` ends, within as many rounds as there are buckets, and its bucket is one of them.
  pub jump_hash_lem :
      IsGrowing
      → (key n : ℕ) → 1 ≤ n
      → n < 2 ^ 31
      → (i : ℕ) × (jump_hash key n ≡ some (pos i)) × (i < n)
  unfolding jump_hash
  jump_hash_lem g key zero one small = absurd (omega arith)
  jump_hash_lem g key (suc n) one small =
      jump_loop-bucket g (n + 2) key (suc n) (negsuc 0) 0 small (omega arith) (omega arith)

  at_slot-found :
      (ids : List ℤ) (n : ℕ) → n < length ids → (id : ℤ) × (at_slot ids (pos n) ≡ some id)
  unfolding at_slot
  at_slot-found [] n l = absurd (omega arith)
  at_slot-found (i ∷ ids) zero l = (i, refl)
  at_slot-found (i ∷ ids) (suc n) l = at_slot-found ids n (omega arith)

  -- What `Get` answers over the ids.
  abbrev pub Routed : List ℤ → Option (Option ℤ) → Type 0
  Routed [] o = o ≡ some none
  Routed (i ∷ ids) o =
      (n : ℕ) × (id : ℤ) × (n < length (i ∷ ids))
      × (at_slot (i ∷ ids) (pos n) ≡ some id)
      × (o ≡ some (some id))

  get-Routed_ids :
      IsGrowing
      → (ids : List ℤ) (key : ℕ) → length ids < 2 ^ 31
      → Routed ids (get (record { sorted_ids = ids }) key)
  unfolding get
  get-Routed_ids g [] key small = refl
  get-Routed_ids g (i ∷ ids) key small =
      let (n, e, l) = jump_hash_lem g (hash key) (length (i ∷ ids)) (omega arith) small in
      let (id, found) = at_slot-found (i ∷ ids) n l in (n, id, l, found, rw (e, get, found) refl)

  -- `Get` of a ring of less than 2^31 workers always answers: none for the empty ring, and else
  -- the id in a slot of the ring.
  pub get-Routed :
      IsGrowing
      → (r : DispatchRing) (key : ℕ) → length r.sorted_ids < 2 ^ 31
      → Routed r.sorted_ids (get r key)
  get-Routed g r key small = get-Routed_ids g r.sorted_ids key small

  answered : (ids : List ℤ) (o : Option (Option ℤ)) → Routed ids o → (id : Option ℤ) × (o ≡ some id)
  answered [] o e = (none, e)
  answered (i ∷ ids) o (n, id, l, found, e) = (some id, e)

  pub get_total :
      IsGrowing
      → (r : DispatchRing) (key : ℕ) → length r.sorted_ids < 2 ^ 31
      → (id : Option ℤ) × (get r key ≡ some id)
  get_total g r key small = answered r.sorted_ids (get r key) (get-Routed g r key small)
