-- ===== src/Throttle/Manager/Apart.antt =====
-- The limiters of different event types do not meet.
use emberengine.Prelude.{
  ℕ, ◌≡◌, refl, ap, ◌∙◌, subst, List, [], ◌∷◌, Bool, ◌==◌, ==_iff, Option, none, some,
  if◌then◌else◌, Bool-cases, inl, inr,
}
use emberengine.Prelude.Int.{ℤ}
use emberengine.Prelude.Dict.{lookup, insert, lookup-insert, lookup-erase, beq_refl, nat_eq}
use emberengine.Throttle.Manager.{
  EventRegistry, RateLimiter, limiter_allow_n, ThrottleManager, created, existing_or,
  get_or_create_limiter, manager_allow_n, manager_reset, reset_all,
}

-- The calls: an event type, a number of events and the clock; or to reset a type, or all.
pub data Call : Type 0 where
  asks : ℕ → ℤ → ℕ → Call
  resets : ℕ → Call
  resets_all : Call

abbrev pub answered : ℕ → ℕ → Bool → List Bool → List Bool
answered t event_type ok rest = if t == event_type then ok ∷ rest else rest

-- The answers to the calls for the event type `t`.
unfoldable pub run : ℕ → List Call → ThrottleManager → List Bool
run t [] tm = []
run t (asks event_type n now ∷ cs) tm =
    let (ok, tm') = manager_allow_n event_type n now tm in answered t event_type ok (run t cs tm')
run t (resets event_type ∷ cs) tm = run t cs (manager_reset event_type tm)
run t (resets_all ∷ cs) tm = run t cs (reset_all tm)

-- The answers of one limiter, made at its first call and at the first after a reset, to the calls for
-- `t` alone.
unfoldable pub alone : ℕ → EventRegistry → List Call → Option RateLimiter → List Bool
alone t registry [] o = []
alone t registry (asks event_type n now ∷ cs) o =
    let other = alone t registry cs o in
    let (ok, l) = limiter_allow_n n now (existing_or (created registry t now) o) in
    let own = ok ∷ alone t registry cs (some l) in if t == event_type then own else other
alone t registry (resets event_type ∷ cs) o =
    alone t registry cs (if t == event_type then none else o)
alone t registry (resets_all ∷ cs) o = alone t registry cs none

-- In any sequence of AllowN, Reset and ResetAll of the manager, the answers for one event type are those
-- of a limiter of its own, made by its class at its first call and at the first after a reset: the calls
-- for other types do not change them.
pub run-alone :
    (t : ℕ) (cs : List Call) (tm : ThrottleManager)
    → run t cs tm ≡ alone t tm.registry cs (lookup t tm.limiters)
unfolding run alone manager_allow_n get_or_create_limiter manager_reset reset_all
run-alone t [] tm = refl
run-alone t (resets u ∷ cs) tm =
    run-alone t cs (manager_reset u tm) ∙ ap (alone t tm.registry cs) (lookup-erase u t tm.limiters)
run-alone t (resets_all ∷ cs) tm = run-alone t cs (reset_all tm)
run-alone t (asks u n now ∷ cs) tm = elim (Bool-cases (t == u)) [
  | inr other ↦
      let limiter = existing_or (created tm.registry u now) (lookup u tm.limiters) in
      let left : lookup t (manager_allow_n u n now tm).1.limiters ≡ lookup t tm.limiters =
        lookup-insert u t (limiter_allow_n n now limiter).1 (insert u limiter tm.limiters)
        ∙ rw other (lookup-insert u t limiter tm.limiters ∙ rw other refl) in
      rw other (run-alone t cs (manager_allow_n u n now tm).1 ∙ ap (alone t tm.registry cs) left)
  | inl here ↦
      let own : run t (asks t n now ∷ cs) tm
          ≡ alone t tm.registry (asks t n now ∷ cs) (lookup t tm.limiters) =
        let limiter = existing_or (created tm.registry t now) (lookup t tm.limiters) in
        let (ok, l) = limiter_allow_n n now limiter in
        let left : lookup t (manager_allow_n t n now tm).1.limiters ≡ some l =
          lookup-insert t t l (insert t limiter tm.limiters) ∙ rw (beq_refl t) refl in
        rw (beq_refl t) (
          ap (λ rest. ok ∷ rest)
            (run-alone t cs (manager_allow_n t n now tm).1 ∙ ap (alone t tm.registry cs) left)) in
      subst
        (λ v.
          run t (asks v n now ∷ cs) tm
          ≡ alone t tm.registry (asks v n now ∷ cs) (lookup t tm.limiters))
        ((==_iff t u).0 here) own
]
