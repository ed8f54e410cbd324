-- ===== src/Bytespool.antt =====
-- The pool of byte slices of engine/pkg/utils/bytespool/bytespool.go. A slice is its backing array
-- from the slice's start on, which has its capacity, and its length. A `sync.Pool` may forget what
-- was put, and any buffer it has may come back: the argument `choice` says which.
mod Sizes
pub mod Reuse
pub mod Session
mod Tests
use emberengine.Prelude.{
  ℕ, zero, suc, ◌+◌, ◌-◌, ◌/◌, List, [], ◌∷◌, Bool, true, false, Option, none, some, length, leb,
  ltb, if◌then◌else◌, take, replicate,
}

pub record Slice : Type 0 where
  pub array : List ℕ
  pub len : ℕ

abbrev pub nil : Slice
nil = record { array = []; len = 0 }

abbrev pub view : Slice → List ℕ
view s = take s.len s.array

-- A `sync.Pool` with the size that its `New` allocates.
pub record SyncPool : Type 0 where
  pub mem_size : ℕ
  pub free : List (List ℕ)

pub record MemAreaPool : Type 0 where
  pub min_area_value : ℕ
  pub max_area_value : ℕ
  pub growth_value : ℕ
  pub pool : List SyncPool

-- The rounds of `makePool` from size `mem_size` on, with the rounds left.
abbrev pub make_pools : ℕ → ℕ → ℕ → List SyncPool
make_pools growth mem_size zero = []
make_pools growth mem_size (suc rounds) =
    record { mem_size = mem_size + growth; free = [] }
    ∷ make_pools growth (mem_size + growth) rounds

abbrev make_pool : ℕ → ℕ → ℕ → MemAreaPool
make_pool min_value max_value growth = record {
  min_area_value = min_value;
  max_area_value = max_value;
  growth_value = growth;
  pool = make_pools growth (min_value - 1) ((max_value - min_value + 1) / growth);
}

-- The list after `init`.
abbrev pub mem_area_pool_list : List MemAreaPool
mem_area_pool_list =
    make_pool 1 4096 512
    ∷ make_pool 4097 40960 4096
    ∷ make_pool 40961 417792 16384
    ∷ make_pool 417793 1925120 65536
    ∷ []

-- `none` is -1. A size below the least one is 0 of the first area: both divisions give 0.
pub get_pos_byte_size : MemAreaPool → ℕ → Option ℕ
get_pos_byte_size a size =
    let pos = (size - a.min_area_value) / a.growth_value in
    if leb (length a.pool) pos then none else some pos

abbrev pub behind {ℓ} : {A B : Type ℓ} → A → Option (B × List A) → Option (B × List A)
behind x none = none
behind x (some (b, xs)) = some (b, x ∷ xs)

pub remove_at : List (List ℕ) → ℕ → Option (List ℕ × List (List ℕ))
remove_at [] k = none
remove_at (b ∷ bs) zero = some (b, bs)
remove_at (b ∷ bs) (suc k) = behind b (remove_at bs k)

pub get_from : SyncPool → Option (List ℕ × List (List ℕ)) → List ℕ × SyncPool
get_from p none = (replicate p.mem_size 0, p)
get_from p (some (b, bs)) = (b, record p { free = bs })

-- `Get`: a buffer that was put, or a new one.
pub pool_get : SyncPool → ℕ → List ℕ × SyncPool
pool_get p choice = get_from p (remove_at p.free choice)

-- `pool[pos].Get()`; `none` is an index out of range.
pub get_nth : List SyncPool → ℕ → ℕ → Option (List ℕ × List SyncPool)
get_nth [] pos choice = none
get_nth (p ∷ ps) zero choice = let (b, p') = pool_get p choice in some (b, p' ∷ ps)
get_nth (p ∷ ps) (suc pos) choice = behind p (get_nth ps pos choice)

-- The slice expression `[:size]`; `none` is a panic, beyond the capacity or out of range.
pub sliced : MemAreaPool → ℕ → Option (List ℕ × List SyncPool) → Option (Slice × MemAreaPool)
sliced a size none = none
sliced a size (some (b, ps)) =
    if ltb (length b) size
    then none
    else some (record { array = b; len = size }, record a { pool = ps })

abbrev pub make_at : MemAreaPool → ℕ → ℕ → Option ℕ → Option (Slice × MemAreaPool)
make_at a choice size none = some (nil, a)
make_at a choice size (some pos) = sliced a size (get_nth a.pool pos choice)

pub make_byte_slice : MemAreaPool → ℕ → ℕ → Option (Slice × MemAreaPool)
make_byte_slice a choice size = make_at a choice size (get_pos_byte_size a size)

abbrev pub in_front :
    List MemAreaPool → Option (Slice × MemAreaPool) → Option (Slice × List MemAreaPool)
in_front areas none = none
in_front areas (some (s, a)) = some (s, a ∷ areas)

pub make_bytes : List MemAreaPool → ℕ → ℕ → Option (Slice × List MemAreaPool)
make_bytes [] choice size = some (record { array = replicate size 0; len = size }, [])
make_bytes (a ∷ areas) choice size =
    let rest = make_bytes areas choice size in
    if leb size a.max_area_value
    then in_front areas (make_byte_slice a choice size)
    else behind a rest

-- `pool[pos].Put(byteBuff)`
pub put_nth : List SyncPool → ℕ → List ℕ → List SyncPool
put_nth [] pos b = []
put_nth (p ∷ ps) zero b = record p { free = b ∷ p.free } ∷ ps
put_nth (p ∷ ps) (suc pos) b = p ∷ put_nth ps pos b

abbrev pub release_at : MemAreaPool → List ℕ → Option ℕ → Bool × MemAreaPool
release_at a b none = (false, a)
release_at a b (some pos) = (true, record a { pool = put_nth a.pool pos b })

pub release_byte_slice : MemAreaPool → List ℕ → Bool × MemAreaPool
release_byte_slice a b = release_at a b (get_pos_byte_size a (length b))

pub release_bytes : List MemAreaPool → Slice → Bool × List MemAreaPool
release_bytes [] s = (false, [])
release_bytes (a ∷ areas) s =
    let rest = release_bytes areas s in
    let here = release_byte_slice a s.array in
    if leb (length s.array) a.max_area_value then (here.0, here.1 ∷ areas) else (rest.0, a ∷ rest.1)
