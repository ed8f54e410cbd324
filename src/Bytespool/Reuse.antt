-- ===== src/Bytespool/Reuse.antt =====
-- A slice of the pool has the length asked for, whatever buffer is used again.
use native.Mathlib.Nat.{div-lt_iff_lt-mul, div-eq_of_lt-le, div-add-mod', mod-lt, mul-le-mul_right}
use emberengine.Prelude.{
  ℕ, zero, suc, ◌+◌, ◌-◌, ◌*◌, ◌/◌, ◌≤◌, ◌<◌, ◌≡◌, refl, sym, ap, ◌∙◌, subst, ◌⊎◌, inl, inr, List,
  [], ◌∷◌, Bool, true, Option, none, some, length, arith, length-replicate, leb, Bool-cases, leb→le,
}
use emberengine.Bytespool.{
  Slice, SyncPool, MemAreaPool, get_pos_byte_size, put_nth, sliced, make_byte_slice, make_bytes,
  in_front, behind, release_byte_slice, release_bytes, make_pools, mem_area_pool_list,
}
use emberengine.Bytespool.Sizes.{ClassesOk, NthOk, get_nth-NthOk, get_nth_in, put_nth-ClassesOk}

-- The classes of an area reach from its least size to its largest, and their buffers have their size.
pub record AreaOk (a : MemAreaPool) : Type 0 where
  pub grows : 0 < a.growth_value
  pub least : 1 ≤ a.min_area_value
  pub some_class : 0 < length a.pool
  pub covers : a.max_area_value + 1 ≡ a.min_area_value + length a.pool * a.growth_value
  pub classes : ClassesOk a.growth_value (a.min_area_value - 1) a.pool

abbrev pub IsValid : List MemAreaPool → Type 0
IsValid [] = Unit
IsValid (a ∷ areas) = AreaOk a × IsValid areas

-- What no operation changes of an area.
abbrev pub Shape : Type 0
Shape = ℕ × ℕ × ℕ × ℕ

abbrev pub shape : MemAreaPool → Shape
shape a = (a.min_area_value, a.max_area_value, a.growth_value, length a.pool)

abbrev pub shapes : List MemAreaPool → List Shape
shapes [] = []
shapes (a ∷ areas) = shape a ∷ shapes areas

-- A capacity that the buffers of the pool have: the size of a class, or beyond all areas.
abbrev pub Sized : List Shape → ℕ → Type 0
Sized [] n = Unit
Sized ((least, most, growth, classes) ∷ more) n =
    ((n ≤ most) × ((i : ℕ) × (i < classes) × (n ≡ least - 1 + suc i * growth)))
    ⊎ ((most < n) × Sized more n)

abbrev pub MadeOk : List Shape → ℕ → Option (Slice × List MemAreaPool) → Type 0
MadeOk sh size none = ⊥
MadeOk sh size (some (s, areas)) =
    (s.len ≡ size)
    × (size ≤ length s.array)
    × Sized sh (length s.array)
    × (shapes areas ≡ sh)
    × IsValid areas

pos_in : (g k size : ℕ) → 0 < g → size < k * g → size / g < k
pos_in g k size p l = (div-lt_iff_lt-mul {x = size} {y = k} p).1 l

pos_enough : (g size : ℕ) → 0 < g → size < suc (size / g) * g
pos_enough g size p = omega (arith, div-add-mod' size g, mod-lt size p)

pos_back : (g i : ℕ) → 0 < g → (i * g + (g - 1)) / g ≡ i
pos_back g i p = div-eq_of_lt-le g (omega arith) (omega arith)

class_bound : (g k i : ℕ) → i < k → suc i * g ≤ k * g
class_bound g k i l = mul-le-mul_right g l

get_pos_in :
    (a : MemAreaPool) (size : ℕ)
    → AreaOk a
    → size ≤ a.max_area_value
    → get_pos_byte_size a size ≡ some ((size - a.min_area_value) / a.growth_value)
      × ((size - a.min_area_value) / a.growth_value < length a.pool)
unfolding get_pos_byte_size
get_pos_in a size ok l =
    let g = a.growth_value in
    let k = length a.pool in
    let least : g ≤ k * g = omega (arith, class_bound g k 0 ok.some_class) in
    let pos =
      pos_in g k (size - a.min_area_value) ok.grows (omega (arith, least, ok.covers, ok.grows)) in
    (ground (arith, pos), pos)

-- An area whose classes are as many and of the same sizes is as good.
with_pool :
    (a : MemAreaPool) (ps : List SyncPool)
    → AreaOk a
    → ClassesOk a.growth_value (a.min_area_value - 1) ps
    → length ps ≡ length a.pool
    → AreaOk (record a { pool = ps })
with_pool a ps ok classes len = record {
  grows = ok.grows;
  least = ok.least;
  some_class = omega (arith, ok.some_class, len);
  covers = ok.covers ∙ ap (λ (k : ℕ). a.min_area_value + k * a.growth_value) (sym len);
  classes = classes;
}

sliced_lem :
    (a : MemAreaPool) (areas : List MemAreaPool) (pos size : ℕ) (b : List ℕ) (ps : List SyncPool)
    → AreaOk a
    → IsValid areas
    → size ≤ length b
    → pos < length a.pool
    → NthOk a.growth_value (a.min_area_value - 1) pos (length a.pool) (some (b, ps))
    → MadeOk (shape a ∷ shapes areas) size (in_front areas (sliced a size (some (b, ps))))
unfolding sliced
sliced_lem a areas pos size b ps ok oks fits l (size_of, classes, len) =
    let step : sliced a size (some (b, ps))
        ≡ some (record { array = b; len = size }, record a { pool = ps }) =
      ground arith in
    let bound = class_bound a.growth_value (length a.pool) pos l in
    subst (λ r. MadeOk (shape a ∷ shapes areas) size (in_front areas r)) (sym step)
      (
        refl,
        fits,
        inl (omega (arith, bound, ok.covers, ok.least), (pos, l, size_of)),
        ap (λ k. (a.min_area_value, a.max_area_value, a.growth_value, k) ∷ shapes areas) len,
        (with_pool a ps ok classes len, oks),
      )

make_byte_slice_lem :
    (a : MemAreaPool) (areas : List MemAreaPool) (choice size : ℕ)
    → AreaOk a
    → IsValid areas
    → size ≤ a.max_area_value
    → MadeOk (shape a ∷ shapes areas) size (in_front areas (make_byte_slice a choice size))
unfolding make_byte_slice
make_byte_slice_lem a areas choice size ok oks l =
    let pos = (size - a.min_area_value) / a.growth_value in
    let (at_pos, within) = get_pos_in a size ok l in
    let ((b, ps), got) = get_nth_in a.pool pos choice within in
    let nth = get_nth-NthOk a.growth_value (a.min_area_value - 1) a.pool pos choice ok.classes in
    let nth' = subst (NthOk a.growth_value (a.min_area_value - 1) pos (length a.pool)) got nth in
    let step : make_byte_slice a choice size ≡ sliced a size (some (b, ps)) =
      rw (at_pos, got) refl in
    let enough = pos_enough a.growth_value (size - a.min_area_value) ok.grows in
    subst (λ r. MadeOk (shape a ∷ shapes areas) size (in_front areas r)) (sym step)
      (sliced_lem a areas pos size b ps ok oks (omega (arith, enough, nth'.0, ok.least)) within
        nth')

behind-MadeOk :
    (a : MemAreaPool) (sh : List Shape) (size : ℕ) (r : Option (Slice × List MemAreaPool))
    → AreaOk a
    → a.max_area_value < size
    → MadeOk sh size r
    → MadeOk (shape a ∷ sh) size (behind a r)
behind-MadeOk a sh size none ok l m = m
behind-MadeOk a sh size (some (s, areas)) ok l (e, fits, sized, same, oks) =
    (e, fits, inr (omega arith, sized), ap (λ t. shape a ∷ t) same, (ok, oks))

pub make_bytes-MadeOk :
    (areas : List MemAreaPool) (choice size : ℕ)
    → IsValid areas
    → MadeOk (shapes areas) size (make_bytes areas choice size)
unfolding make_bytes
make_bytes-MadeOk [] choice size ok =
    (refl, omega (arith, length-replicate {A = ℕ} size 0), tt, refl, tt)
make_bytes-MadeOk (a ∷ areas) choice size (ok, oks) =
    elim (Bool-cases (leb size a.max_area_value)) [
      | inl l ↦
          let step : make_bytes (a ∷ areas) choice size
              ≡ in_front areas (make_byte_slice a choice size) =
            rw l refl in
          subst (MadeOk (shapes (a ∷ areas)) size) (sym step)
            (make_byte_slice_lem a areas choice size ok oks (leb→le size a.max_area_value l))
      | inr l ↦
          let step : make_bytes (a ∷ areas) choice size ≡ behind a (make_bytes areas choice size) =
            rw l refl in
          subst (MadeOk (shapes (a ∷ areas)) size) (sym step) (
            behind-MadeOk a (shapes areas) size (make_bytes areas choice size) ok (ground arith)
              (make_bytes-MadeOk areas choice size oks))
    ]

abbrev pub KeptOk : List Shape → Bool × List MemAreaPool → Type 0
KeptOk sh (done, areas) = (shapes areas ≡ sh) × IsValid areas

release_byte_slice_lem :
    (a : MemAreaPool) (areas : List MemAreaPool) (b : List ℕ) (i : ℕ)
    → AreaOk a
    → IsValid areas
    → length b ≤ a.max_area_value
    → i < length a.pool
    → length b ≡ a.min_area_value - 1 + suc i * a.growth_value
    → KeptOk (shapes (a ∷ areas)) ((release_byte_slice a b).0, (release_byte_slice a b).1 ∷ areas)
unfolding release_byte_slice
release_byte_slice_lem a areas b i ok oks l within e =
    let g = a.growth_value in
    let pos : (length b - a.min_area_value) / g ≡ i =
      ap (λ t. t / g) (omega (arith, e, ok.least, ok.grows)) ∙ pos_back g i ok.grows in
    let step : release_byte_slice a b ≡ (true, record a { pool = put_nth a.pool i b }) =
      rw ((get_pos_in a (length b) ok l).0, pos) refl in
    let (classes, len) = put_nth-ClassesOk g (a.min_area_value - 1) a.pool i b ok.classes e in
    subst (λ r. KeptOk (shapes (a ∷ areas)) (r.0, r.1 ∷ areas)) (sym step)
      (
        ap (λ k. (a.min_area_value, a.max_area_value, g, k) ∷ shapes areas) len,
        (with_pool a (put_nth a.pool i b) ok classes len, oks),
      )

pub release_bytes-KeptOk :
    (areas : List MemAreaPool) (s : Slice)
    → IsValid areas
    → Sized (shapes areas) (length s.array)
    → KeptOk (shapes areas) (release_bytes areas s)
unfolding release_bytes
release_bytes-KeptOk [] s ok sized = (refl, tt)
release_bytes-KeptOk (a ∷ areas) s (ok, oks) (inl (l, (i, within, e))) =
    let step : release_bytes (a ∷ areas) s
        ≡ ((release_byte_slice a s.array).0, (release_byte_slice a s.array).1 ∷ areas) =
      ground arith in
    subst (KeptOk (shapes (a ∷ areas))) (sym step)
      (release_byte_slice_lem a areas s.array i ok oks l within e)
release_bytes-KeptOk (a ∷ areas) s (ok, oks) (inr (l, sized)) =
    let step : release_bytes (a ∷ areas) s
        ≡ ((release_bytes areas s).0, a ∷ (release_bytes areas s).1) =
      ground arith in
    let (same, oks') = release_bytes-KeptOk areas s oks sized in
    subst (KeptOk (shapes (a ∷ areas))) (sym step) (ap (λ t. shape a ∷ t) same, (ok, oks'))

make_pools-ClassesOk :
    (g m k : ℕ) → ClassesOk g m (make_pools g m k) × (length (make_pools g m k) ≡ k)
make_pools-ClassesOk g m zero = (tt, refl)
make_pools-ClassesOk g m (suc k) =
    let (ok, len) = make_pools-ClassesOk g (m + g) k in ((refl, tt, ok), ap suc len)

made_pool-AreaOk :
    (least most g k : ℕ)
    → 0 < g
    → 1 ≤ least
    → 0 < k
    → most + 1 ≡ least + k * g
    → AreaOk (record {
      min_area_value = least;
      max_area_value = most;
      growth_value = g;
      pool = make_pools g (least - 1) k;
    })
made_pool-AreaOk least most g k p q r e =
    let (ok, len) = make_pools-ClassesOk g (least - 1) k in
    record {
      grows = p;
      least = q;
      some_class = omega (arith, len);
      covers = e ∙ ap (λ (t : ℕ). least + t * g) (sym len);
      classes = ok;
    }

-- The areas that `init` makes are in order.
pub mem_area_pool_list-IsValid : IsValid mem_area_pool_list
mem_area_pool_list-IsValid = (
  made_pool-AreaOk 1 4096 512 8 (omega arith) (omega arith) (omega arith) (omega arith),
  (
    made_pool-AreaOk 4097 40960 4096 9 (omega arith) (omega arith) (omega arith) (omega arith),
    (
      made_pool-AreaOk 40961 417792 16384 23 (omega arith) (omega arith) (omega arith)
          (omega arith),
      (
        made_pool-AreaOk 417793 1925120 65536 23 (omega arith) (omega arith) (omega arith)
            (omega arith),
        tt,
      ),
    ),
  ),
)
