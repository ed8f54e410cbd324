-- ===== src/Bytespool/Sizes.antt =====
-- The sizes of the buffers of a pool: every buffer of a class has the size of the class.
use emberengine.Prelude.{
  ℕ, zero, suc, ◌+◌, ◌*◌, ◌<◌, ◌≡◌, refl, ap, List, [], ◌∷◌, Option, none, some, length, arith,
  length-replicate,
}
use emberengine.Bytespool.{SyncPool, behind, remove_at, get_from, pool_get, get_nth, put_nth}

abbrev pub AllSize : ℕ → List (List ℕ) → Type 0
AllSize n [] = Unit
AllSize n (b ∷ bs) = (length b ≡ n) × AllSize n bs

-- The classes above the size `m`, `g` apart.
abbrev pub ClassesOk : ℕ → ℕ → List SyncPool → Type 0
ClassesOk g m [] = Unit
ClassesOk g m (p ∷ ps) = (p.mem_size ≡ m + g) × AllSize p.mem_size p.free × ClassesOk g (m + g) ps

abbrev RemovedOk : ℕ → Option (List ℕ × List (List ℕ)) → Type 0
RemovedOk n none = Unit
RemovedOk n (some (b, bs)) = (length b ≡ n) × AllSize n bs

abbrev GotOk : List ℕ × SyncPool → Type 0
GotOk (b, p) = (length b ≡ p.mem_size) × AllSize p.mem_size p.free

behind-RemovedOk :
    (n : ℕ) (b : List ℕ) (o : Option (List ℕ × List (List ℕ)))
    → length b ≡ n
    → RemovedOk n o
    → RemovedOk n (behind b o)
behind-RemovedOk n b none e ok = tt
behind-RemovedOk n b (some (c, cs)) e (size, rest) = (size, (e, rest))

remove_at-RemovedOk :
    (n : ℕ) (bs : List (List ℕ)) (k : ℕ) → AllSize n bs → RemovedOk n (remove_at bs k)
unfolding remove_at
remove_at-RemovedOk n [] k ok = tt
remove_at-RemovedOk n (b ∷ bs) zero (e, ok) = (e, ok)
remove_at-RemovedOk n (b ∷ bs) (suc k) (e, ok) =
    behind-RemovedOk n b (remove_at bs k) e (remove_at-RemovedOk n bs k ok)

-- What the class at place `pos` gives, and what the classes are then.
abbrev pub NthOk : ℕ → ℕ → ℕ → ℕ → Option (List ℕ × List SyncPool) → Type 0
NthOk g m pos n none = Unit
NthOk g m pos n (some (b, ps)) = (length b ≡ m + suc pos * g) × ClassesOk g m ps × (length ps ≡ n)

get_from-NthOk :
    (g m : ℕ) (p : SyncPool) (ps : List SyncPool) (o : Option (List ℕ × List (List ℕ)))
    → ClassesOk g m (p ∷ ps)
    → RemovedOk p.mem_size o
    → let (b, p') = get_from p o in NthOk g m 0 (length (p ∷ ps)) (some (b, p' ∷ ps))
unfolding get_from
get_from-NthOk g m p ps none (e, all, ok) r =
    (omega (arith, length-replicate {A = ℕ} p.mem_size 0), (e, all, ok), refl)
get_from-NthOk g m p ps (some (b, bs)) (e, all, ok) (size, r) = (omega arith, (e, r, ok), refl)

behind-NthOk :
    (g m pos : ℕ) (p : SyncPool) (n : ℕ) (o : Option (List ℕ × List SyncPool))
    → p.mem_size ≡ m + g
    → AllSize p.mem_size p.free
    → NthOk g (m + g) pos n o
    → NthOk g m (suc pos) (suc n) (behind p o)
behind-NthOk g m pos p n none e all ok = tt
behind-NthOk g m pos p n (some (b, ps)) e all (size, ok, len) =
    (omega arith, (e, all, ok), ap suc len)

pub get_nth-NthOk :
    (g m : ℕ) (ps : List SyncPool) (pos choice : ℕ)
    → ClassesOk g m ps
    → NthOk g m pos (length ps) (get_nth ps pos choice)
unfolding get_nth pool_get get_from
get_nth-NthOk g m [] pos choice ok = tt
get_nth-NthOk g m (p ∷ ps) zero choice (e, all, ok) =
    get_from-NthOk g m p ps (remove_at p.free choice) (e, all, ok)
      (remove_at-RemovedOk p.mem_size p.free choice all)
get_nth-NthOk g m (p ∷ ps) (suc pos) choice (e, all, ok) =
    behind-NthOk g m pos p (length ps) (get_nth ps pos choice) e all
      (get_nth-NthOk g (m + g) ps pos choice ok)

pub get_nth_in :
    (ps : List SyncPool) (pos choice : ℕ)
    → pos < length ps
    → (r : List ℕ × List SyncPool) × (get_nth ps pos choice ≡ some r)
unfolding get_nth
get_nth_in [] pos choice l = absurd (omega arith)
get_nth_in (p ∷ ps) zero choice l = (_, refl)
get_nth_in (p ∷ ps) (suc pos) choice l =
    let ((b, ps'), e) = get_nth_in ps pos choice (omega arith) in ((b, p ∷ ps'), ap (behind p) e)

pub put_nth-ClassesOk :
    (g m : ℕ) (ps : List SyncPool) (pos : ℕ) (b : List ℕ)
    → ClassesOk g m ps
    → length b ≡ m + suc pos * g
    → ClassesOk g m (put_nth ps pos b) × (length (put_nth ps pos b) ≡ length ps)
unfolding put_nth
put_nth-ClassesOk g m [] pos b ok e = (tt, refl)
put_nth-ClassesOk g m (p ∷ ps) zero b (q, all, ok) e = ((q, (omega arith, all), ok), refl)
put_nth-ClassesOk g m (p ∷ ps) (suc pos) b (q, all, ok) e =
    let (ok', len) = put_nth-ClassesOk g (m + g) ps pos b ok (omega arith) in
    ((q, all, ok'), ap suc len)
