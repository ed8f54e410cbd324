-- ===== src/Bytespool/Session.antt =====
-- A client of the pool: it asks for slices and gives back those that it was given.
use emberengine.Prelude.{
  ℕ, zero, suc, ◌≤◌, ◌≡◌, refl, subst, sym, List, [], ◌∷◌, Option, none, some, length,
}
use emberengine.Bytespool.{Slice, MemAreaPool, make_bytes, release_bytes, mem_area_pool_list}
use emberengine.Bytespool.Reuse.{
  Shape, shapes, Sized, IsValid, MadeOk, make_bytes-MadeOk, release_bytes-KeptOk,
  mem_area_pool_list-IsValid,
}

-- `make choice size` calls `MakeBytes` with a size that is not negative and that the allocator serves, `release k` calls `ReleaseBytes` on the k-th slice out.
pub data Call : Type 0 where
  make : ℕ → ℕ → Call
  release : ℕ → Call

-- The pool and the slices that are out.
abbrev pub Session : Type 0
Session = List MemAreaPool × List Slice

abbrev given : List Slice → Option (Slice × List MemAreaPool) → Option Session
given out none = none
given out (some (s, areas)) = some (areas, s ∷ out)

abbrev keep : Slice → Option (Slice × List Slice) → Option (Slice × List Slice)
keep s none = none
keep s (some (r, out)) = some (r, s ∷ out)

take_out : List Slice → ℕ → Option (Slice × List Slice)
take_out [] k = none
take_out (s ∷ out) zero = some (s, out)
take_out (s ∷ out) (suc k) = keep s (take_out out k)

abbrev given_back : List MemAreaPool → List Slice → Option (Slice × List Slice) → Session
given_back areas out none = (areas, out)
given_back areas out (some (s, rest)) = ((release_bytes areas s).1, rest)

abbrev call : Call → Session → Option Session
call (make choice size) (areas, out) = given out (make_bytes areas choice size)
call (release k) (areas, out) = some (given_back areas out (take_out out k))

-- `none` is a panic in a call.
abbrev and_then : Option Session → (Session → Option Session) → Option Session
and_then none f = none
and_then (some s) f = f s

pub run : List Call → Session → Option Session
run [] s = some s
run (c ∷ cs) s = and_then (call c s) (run cs)

abbrev pub AllSized : List Shape → List Slice → Type 0
AllSized sh [] = Unit
AllSized sh (s ∷ out) = (s.len ≤ length s.array) × Sized sh (length s.array) × AllSized sh out

-- The areas are in order and of the shape `sh`, and the slices out fit their arrays and the pool.
abbrev pub SessionOk : List Shape → Option Session → Type 0
SessionOk sh none = ⊥
SessionOk sh (some (areas, out)) = (shapes areas ≡ sh) × IsValid areas × AllSized sh out

abbrev OutOk : List Shape → List Slice → Option (Slice × List Slice) → Type 0
OutOk sh out none = Unit
OutOk sh out (some (s, rest)) = Sized sh (length s.array) × AllSized sh rest

keep-OutOk :
    (sh : List Shape) (s : Slice) (out : List Slice) (o : Option (Slice × List Slice))
    → s.len ≤ length s.array
    → Sized sh (length s.array)
    → OutOk sh out o
    → OutOk sh (s ∷ out) (keep s o)
keep-OutOk sh s out none l sized ok = tt
keep-OutOk sh s out (some (r, rest)) l sized (sized', ok) = (sized', (l, sized, ok))

take_out-OutOk :
    (sh : List Shape) (out : List Slice) (k : ℕ) → AllSized sh out → OutOk sh out (take_out out k)
unfolding take_out
take_out-OutOk sh [] k ok = tt
take_out-OutOk sh (s ∷ out) zero (l, sized, ok) = (sized, ok)
take_out-OutOk sh (s ∷ out) (suc k) (l, sized, ok) =
    keep-OutOk sh s out (take_out out k) l sized (take_out-OutOk sh out k ok)

given-SessionOk :
    (sh : List Shape) (size : ℕ) (out : List Slice) (r : Option (Slice × List MemAreaPool))
    → MadeOk sh size r
    → AllSized sh out
    → SessionOk sh (given out r)
given-SessionOk sh size out none m ok = m
given-SessionOk sh size out (some (s, areas)) (e, fits, sized, same, valid) ok =
    (same, valid, (subst (λ t. t ≤ length s.array) (sym e) fits, sized, ok))

given_back-SessionOk :
    (areas : List MemAreaPool) (out : List Slice) (o : Option (Slice × List Slice))
    → IsValid areas
    → AllSized (shapes areas) out
    → OutOk (shapes areas) out o
    → SessionOk (shapes areas) (some (given_back areas out o))
given_back-SessionOk areas out none valid ok r = (refl, valid, ok)
given_back-SessionOk areas out (some (s, rest)) valid ok (sized, rest_ok) =
    let (same, valid') = release_bytes-KeptOk areas s valid sized in (same, valid', rest_ok)

call-SessionOk :
    (c : Call) (areas : List MemAreaPool) (out : List Slice)
    → IsValid areas
    → AllSized (shapes areas) out
    → SessionOk (shapes areas) (call c (areas, out))
call-SessionOk (make choice size) areas out valid ok =
    given-SessionOk (shapes areas) size out (make_bytes areas choice size)
      (make_bytes-MadeOk areas choice size valid) ok
call-SessionOk (release k) areas out valid ok =
    given_back-SessionOk areas out (take_out out k) valid ok
      (take_out-OutOk (shapes areas) out k ok)

run-SessionOk :
    (cs : List Call) (sh : List Shape) (s : Option Session)
    → SessionOk sh s
    → SessionOk sh (and_then s (run cs))
unfolding run
run-SessionOk cs sh none ok = ok
run-SessionOk [] sh (some s) ok = ok
run-SessionOk (c ∷ cs) sh (some (areas, out)) (same, valid, ok) =
    run-SessionOk cs sh (call c (areas, out)) (
      subst (λ h. SessionOk h (call c (areas, out))) same
        (call-SessionOk c areas out valid (subst (λ h. AllSized h out) (sym same) ok)))

-- From the pool that `init` makes, no sequence of calls panics, of `MakeBytes` with sizes that are
-- not negative and that the allocator can serve, whichever buffers come back, and of `ReleaseBytes`
-- on slices that `MakeBytes` gave. After it the areas are in order, and every slice that is out has
-- its length within its capacity, which is one of the sizes of the pool or beyond its areas.
pub run-mem_area_pool_list :
    (cs : List Call) → SessionOk (shapes mem_area_pool_list) (run cs (mem_area_pool_list, []))
run-mem_area_pool_list cs =
    run-SessionOk cs (shapes mem_area_pool_list) (some (mem_area_pool_list, []))
      (refl, mem_area_pool_list-IsValid, tt)
