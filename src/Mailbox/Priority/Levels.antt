-- ===== src/Mailbox/Priority/Levels.antt =====
-- The levels of the priority manager as one list: the queues' contents, highest priority first.
use emberengine.Prelude.{
  ◌≡◌, refl, ap, ap₂, ◌∙◌, sym, List, [], ◌∷◌, ◌++◌, true, false, some, arith, if◌then◌else◌,
  Bool-cases, inl, inr, append_assoc,
}
use emberengine.Prelude.{subst}
use emberengine.Prelude.Int.{ℤ, eqb_ℤ, eqb_ℤ→eq, eqb_ℤ_refl, ◌<ℤ◌, ◌≤ℤ◌}
use emberengine.Mailbox.Job.{Job}
use emberengine.Mailbox.Queues.{
  QueueImpl, insert_by, insert_by_between, insert_by_past, AllAtMost, AllAbove, is_nil, pop_list,
  List-cases,
}
use emberengine.Mailbox.Scheduler.{lookup}
use emberengine.Mailbox.Scheduler.Choice.{IsAscending}
use emberengine.Mailbox.Priority.{replace, collect, add_busy}

abbrev pub keys {ℓ} : {V : Type ℓ} → List (ℤ × V) → List ℤ
keys [] = []
keys ((p, v) ∷ m) = p ∷ keys m

abbrev pub key : Job → ℤ
key e = e.priority

-- Every job of a level carries the priority of the level.
abbrev pub AllAt : ℤ → List Job → Type 0
AllAt p [] = Unit
AllAt p (e ∷ es) = (e.priority ≡ p) × AllAt p es

pub AllAt-rest : (p : ℤ) (xs : List Job) → AllAt p xs → AllAt p (pop_list xs).1
AllAt-rest p [] h = tt
AllAt-rest p (x ∷ xs) h = h.1

pub AllAt-snoc :
    (p : ℤ) (xs : List Job) (e : Job) → AllAt p xs → e.priority ≡ p → AllAt p (xs ++ e ∷ [])
AllAt-snoc p [] e h q = (q, tt)
AllAt-snoc p (x ∷ xs) e h q = (h.0, AllAt-snoc p xs e h.1 q)

at_most_of : (p k : ℤ) (xs : List Job) → p ≤ℤ k → AllAt p xs → AllAtMost key k xs
at_most_of p k [] l h = tt
at_most_of p k (x ∷ xs) l h = (ground arith, at_most_of p k xs l h.1)

above_of : (p k : ℤ) (xs : List Job) → k <ℤ p → AllAt p xs → AllAbove key k xs
above_of p k [] l h = tt
above_of p k (x ∷ xs) l h = (ground arith, above_of p k xs l h.1)

AllAbove-append :
    (k : ℤ) (xs ys : List Job) → AllAbove key k xs → AllAbove key k ys → AllAbove key k (xs ++ ys)
AllAbove-append k [] ys h g = g
AllAbove-append k (x ∷ xs) ys h g = (h.0, AllAbove-append k xs ys h.1 g)

IsAscending-lower : (k p : ℤ) (ps : List ℤ) → k <ℤ p → IsAscending (p ∷ ps) → IsAscending (k ∷ ps)
IsAscending-lower k p [] l h = tt
IsAscending-lower k p (r ∷ ps) l h = (omega arith, h.1)

pub IsAscending-rest : (p : ℤ) (ps : List ℤ) → IsAscending (p ∷ ps) → IsAscending ps
IsAscending-rest p [] h = tt
IsAscending-rest p (q ∷ ps) h = h.1

module _ (I : QueueImpl Job) where
  abbrev pub Levels : Type 0
  Levels = List (ℤ × I.Q)

  -- The jobs in the order of their levels.
  abbrev pub jobs_of : Levels → List Job
  jobs_of [] = []
  jobs_of ((p, q) ∷ qs) = I.contents q ++ jobs_of qs

  abbrev pub AllWf : Levels → Type 0
  AllWf [] = Unit
  AllWf ((p, q) ∷ qs) = I.IsOk q × AllAt p (I.contents q) × AllWf qs

  -- A bound below the first key lies below every job.
  jobs_above :
      (k : ℤ) (qs : Levels) → IsAscending (k ∷ keys qs) → AllWf qs → AllAbove key k (jobs_of qs)
  jobs_above k [] a w = tt
  jobs_above k ((p, q) ∷ qs) a w =
      AllAbove-append k (I.contents q) (jobs_of qs) (above_of p k (I.contents q) a.0 w.1)
        (jobs_above k qs (IsAscending-lower k p (keys qs) a.0 a.1) w.2)

  -- A key found in the tail is above the first one.
  lookup_above :
      (k p : ℤ) (qs : Levels) {q : I.Q} → IsAscending (k ∷ keys qs) → lookup p qs ≡ some q → k <ℤ p
  unfolding lookup
  lookup_above k p [] a e = cc
  lookup_above k p ((r, s) ∷ qs) {q} a e = ground (arith, lookup_above r p qs {q = q} a.1, a.0)

  pub lookup-AllWf :
      (p : ℤ) (qs : Levels) {q : I.Q}
      → AllWf qs
      → lookup p qs ≡ some q
      → I.IsOk q × AllAt p (I.contents q)
  unfolding lookup
  lookup-AllWf p [] w e = cc
  lookup-AllWf p ((r, s) ∷ qs) {q} w e = elim (Bool-cases (eqb_ℤ r p)) [
    | inl t ↦
        let same : s ≡ q = cc (rw t at e) in
        subst (λ t. I.IsOk t × AllAt p (I.contents t)) same
          (w.0, subst (λ k. AllAt k (I.contents s)) (eqb_ℤ→eq r p t) w.1)
    | inr f ↦ lookup-AllWf p qs w.2 (rw f at e)
  ]

  pub replace-AllWf :
      (p : ℤ) (qs : Levels) (q : I.Q)
      → AllWf qs
      → I.IsOk q
      → AllAt p (I.contents q)
      → AllWf (replace p q qs)
  unfolding replace
  replace-AllWf p [] q w ok at = tt
  replace-AllWf p ((r, s) ∷ qs) q w ok at = elim (Bool-cases (eqb_ℤ r p)) [
    | inl t ↦ rw t (ok, subst (λ k. AllAt k (I.contents q)) (sym (eqb_ℤ→eq r p t)) at, w.2)
    | inr f ↦ rw f (w.0, w.1, replace-AllWf p qs q w.2 ok at)
  ]

  pub keys-replace : (p : ℤ) (qs : Levels) (q : I.Q) → keys (replace p q qs) ≡ keys qs
  unfolding replace
  keys-replace p [] q = refl
  keys-replace p ((r, s) ∷ qs) q = ground (arith, keys-replace p qs q)

  pub replace_self : (p : ℤ) (qs : Levels) {q : I.Q} → lookup p qs ≡ some q → replace p q qs ≡ qs
  unfolding lookup replace
  replace_self p [] e = refl
  replace_self p ((r, s) ∷ qs) {q} e = ground (arith, replace_self p qs {q = q})

  -- A job pushed to the level of its priority is inserted behind everything not below it.
  pub jobs_of-push :
      (e : Job) (qs : Levels) (q q' : I.Q)
      → IsAscending (keys qs)
      → AllWf qs
      → lookup e.priority qs ≡ some q
      → I.contents q' ≡ I.contents q ++ e ∷ []
      → jobs_of (replace e.priority q' qs) ≡ insert_by key e (jobs_of qs)
  unfolding lookup replace
  jobs_of-push e [] q q' a w l g = cc
  jobs_of-push e ((r, s) ∷ qs) q q' a w l g = elim (Bool-cases (eqb_ℤ r e.priority)) [
    | inl t ↦
        let same : s ≡ q = cc (rw t at l) in
        let here : r ≡ e.priority = eqb_ℤ→eq r e.priority t in
        rw t (
          ap (λ xs. xs ++ jobs_of qs) (g ∙ ap (λ u. I.contents u ++ e ∷ []) (sym same))
          ∙ append_assoc (I.contents s) (e ∷ []) (jobs_of qs)
          ∙ sym (
              insert_by_between key e (I.contents s) (jobs_of qs)
                (at_most_of r e.priority (I.contents s) (ground (arith, here)) w.1)
                (jobs_above e.priority qs (subst (λ k. IsAscending (k ∷ keys qs)) here a) w.2)))
    | inr f ↦
        let l' : lookup e.priority qs ≡ some q = rw f at l in
        let lower : r <ℤ e.priority = lookup_above r e.priority qs a l' in
        rw f (
          ap (λ t. I.contents s ++ t)
            (jobs_of-push e qs q q' (IsAscending-rest r (keys qs) a) w.2 l' g)
          ∙ sym (
              insert_by_past key e (I.contents s) (jobs_of qs)
                (at_most_of r e.priority (I.contents s) (omega arith) w.1)))
  ]

  -- The levels that hold a job, as `collect` finds them.
  abbrev pub busy : Levels → List ℤ
  busy [] = []
  busy ((p, q) ∷ qs) = if I.empty q then busy qs else p ∷ busy qs

  lookup_skip : (k p : ℤ) (s : I.Q) (qs : Levels) → k <ℤ p → lookup p ((k, s) ∷ qs) ≡ lookup p qs
  unfolding lookup
  lookup_skip k p s qs l = ground arith

  lookup_here : (p : ℤ) (s : I.Q) (qs : Levels) → lookup p ((p, s) ∷ qs) ≡ some s
  unfolding lookup
  lookup_here p s qs = ground arith

  -- A key below all those asked for does not matter.
  collect_skip :
      (k : ℤ) (s : I.Q) (qs : Levels) (ps : List ℤ)
      → IsAscending (k ∷ ps)
      → collect I ((k, s) ∷ qs) ps ≡ collect I qs ps
  unfolding collect
  collect_skip k s qs [] a = refl
  collect_skip k s qs (p ∷ ps) a =
      ap₂ (λ o l. add_busy I o p l) (lookup_skip k p s qs a.0)
        (collect_skip k s qs ps (IsAscending-lower k p ps a.0 a.1))

  pub collect-busy : (qs : Levels) → IsAscending (keys qs) → collect I qs (keys qs) ≡ some (busy qs)
  unfolding collect
  collect-busy [] a = refl
  collect-busy ((p, q) ∷ qs) a =
      ap₂ (λ o l. add_busy I o p l) (lookup_here p q qs)
        (collect_skip p q qs (keys qs) a ∙ collect-busy qs (IsAscending-rest p (keys qs) a))

  pub busy-IsAscending_above :
      (k : ℤ) (qs : Levels) → IsAscending (k ∷ keys qs) → IsAscending (k ∷ busy qs)
  busy-IsAscending_above k [] a = tt
  busy-IsAscending_above k ((p, q) ∷ qs) a = elim (Bool-cases (I.empty q)) [
    | inl t ↦ rw t (busy-IsAscending_above k qs (IsAscending-lower k p (keys qs) a.0 a.1))
    | inr f ↦ rw f (a.0, busy-IsAscending_above p qs a.1)
  ]

  -- Without a busy level there is no job.
  pub jobs_of-idle : (qs : Levels) → AllWf qs → busy qs ≡ [] → jobs_of qs ≡ []
  jobs_of-idle [] w e = refl
  jobs_of-idle ((p, q) ∷ qs) w e = elim (List-cases (I.contents q)) [
    | inl n ↦
        let idle : I.empty q ≡ true = I.empty_result q w.0 ∙ ap is_nil n in
        rw n (jobs_of-idle qs w.2 (rw idle at e))
    | inr c ↦
        let filled : I.empty q ≡ false = I.empty_result q w.0 ∙ ap is_nil c.2 in cc (rw filled at e)
  ]

  -- The first busy level holds the first job.
  pub record FirstLevel (p : ℤ) (qs : Levels) : Type 0 where
    pub level : I.Q
    pub found : lookup p qs ≡ some level
    pub first : Job
    pub others : List Job
    pub later : List Job
    pub filled : I.contents level ≡ first ∷ others
    pub at_level : first.priority ≡ p
    pub view_now : jobs_of qs ≡ first ∷ (others ++ later)
    pub view_replaced : (q' : I.Q) → jobs_of (replace p q' qs) ≡ I.contents q' ++ later

  pub first_level :
      (p : ℤ) (ps : List ℤ) (qs : Levels)
      → IsAscending (keys qs)
      → AllWf qs
      → busy qs ≡ p ∷ ps
      → FirstLevel p qs
  unfolding lookup replace
  first_level p ps [] a w e = cc
  first_level p ps ((r, s) ∷ qs) a w e = elim (List-cases (I.contents s)) [
    | inl n ↦
        let idle : I.empty s ≡ true = I.empty_result s w.0 ∙ ap is_nil n in
        let f = first_level p ps qs (IsAscending-rest r (keys qs) a) w.2 (rw idle at e) in
        let lower : r <ℤ p = lookup_above r p qs a f.found in
        let other : eqb_ℤ r p ≡ false = ground arith in
        record {
          level = f.level;
          found = rw other f.found;
          first = f.first;
          others = f.others;
          later = f.later;
          filled = f.filled;
          at_level = f.at_level;
          view_now = rw n f.view_now;
          view_replaced = λ q'. rw (other, n) (f.view_replaced q');
        }
    | inr c ↦
        let filled : I.empty s ≡ false = I.empty_result s w.0 ∙ ap is_nil c.2 in
        let here : r ≡ p = cc (rw filled at e) in
        let same : eqb_ℤ r p ≡ true = rw here (eqb_ℤ_refl p) in
        record {
          level = s;
          found = rw same;
          first = c.0;
          others = c.1;
          later = jobs_of qs;
          filled = c.2;
          at_level = (rw c.2 at w.1).0 ∙ here;
          view_now = rw c.2;
          view_replaced = λ q'. rw same;
        }
  ]

  pub busy-IsAscending : (qs : Levels) → IsAscending (keys qs) → IsAscending (busy qs)
  busy-IsAscending [] a = tt
  busy-IsAscending ((p, q) ∷ qs) a = elim (Bool-cases (I.empty q)) [
    | inl t ↦ rw t (busy-IsAscending qs (IsAscending-rest p (keys qs) a))
    | inr f ↦ rw f (busy-IsAscending_above p qs a)
  ]
