-- ===== src/Breaker/Trips.antt =====
-- When the circuit breaker trips, how many calls it admits to probe, and when it closes.
use emberengine.Prelude.{
  ℕ, suc, ◌+◌, ◌-◌, ◌≡◌, ◌<◌, ◌^◌, refl, ap, subst, sym, ◌∙◌, List, [], ◌∷◌, true, if◌then◌else◌,
  leb, min, length, arith, Bool-cases, inl, inr,
}
use emberengine.Prelude.Words.{word, sle}
use emberengine.Breaker.{
  State, state_closed, state_open, state_half_open, Config, CircuitBreaker, transition_to,
  should_transition_to_half_open, allow_from, allow, record_success_from, record_success,
  record_failure_from, record_failure, reset, Call, call_allow, call_failure, call_success,
  call_reset, step,
}

-- Positive settings of the type int64.
pub record ConfigOk (c : Config) : Type 0 where
  pub some_threshold : 0 < c.threshold
  pub threshold_fits : c.threshold < 2 ^ 63
  pub some_probes : 0 < c.half_open_max
  pub probes_fit : c.half_open_max < 2 ^ 63

-- Closed, fewer failures in a row than the threshold; half open, fewer successes than probes; and
-- no count is left over from another state.
abbrev pub CountsOk : Config → State → ℕ → ℕ → ℕ → Type 0
CountsOk c state_closed failures successes half_open_count =
    (failures < c.threshold) × (successes ≡ 0) × (half_open_count ≡ 0)
CountsOk c state_open failures successes half_open_count = (successes ≡ 0) × (half_open_count ≡ 0)
CountsOk c state_half_open failures successes half_open_count = successes < c.half_open_max

abbrev pub IsValid : CircuitBreaker → Type 0
IsValid cb =
    ConfigOk cb.config × CountsOk cb.config cb.state cb.failures cb.successes cb.half_open_count

-- What matters of a breaker for its failures.
abbrev pub Fails : Config → State → ℕ → CircuitBreaker → Type 0
Fails c s n cb = (cb.state ≡ s) × (cb.failures ≡ n) × (cb.config ≡ c)

module _ (c : Config) (failures successes half_open_count last : ℕ)
    (changes : List (State × State)) where
  abbrev breaker_in : State → CircuitBreaker
  breaker_in s = record {
    config = c;
    state = s;
    failures = failures;
    successes = successes;
    half_open_count = half_open_count;
    last_failure_time = last;
    changes = changes;
  }

  allow-IsValid_at :
      (s : State) (now : ℕ) → IsValid (breaker_in s) → IsValid (allow (breaker_in s) now).1
  unfolding allow allow_from transition_to
  allow-IsValid_at state_closed now v = v
  allow-IsValid_at state_open now (ok, z) = ground (arith, ok)
  allow-IsValid_at state_half_open now v = v

  record_success-IsValid_at :
      (s : State) → IsValid (breaker_in s) → IsValid (record_success (breaker_in s))
  unfolding record_success record_success_from transition_to
  record_success-IsValid_at state_closed (ok, l) = ground (arith, ok)
  record_success-IsValid_at state_open v = v
  record_success-IsValid_at state_half_open (ok, l) = ground (arith, ok)

  record_failure-IsValid_at :
      (s : State) (now : ℕ) → IsValid (breaker_in s) → IsValid (record_failure (breaker_in s) now)
  unfolding record_failure record_failure_from transition_to
  record_failure-IsValid_at state_closed now (ok, l) = ground (arith, ok)
  record_failure-IsValid_at state_open now v = v
  record_failure-IsValid_at state_half_open now (ok, l) = ground (arith, ok)

  reset-IsValid_at : (s : State) → IsValid (breaker_in s) → IsValid (reset (breaker_in s))
  unfolding reset
  reset-IsValid_at state_closed (ok, l) = ground (arith, ok)
  reset-IsValid_at state_open (ok, l) = ground (arith, ok)
  reset-IsValid_at state_half_open (ok, l) = ground (arith, ok)

  -- The first call of `Allow` after the timeout, and a failure.
  allow_due_at :
      (now : ℕ)
      → should_transition_to_half_open (breaker_in state_open) now ≡ true
      → let (answer, cb) = allow (breaker_in state_open) now in
        (answer ≡ true) × (cb.state ≡ state_half_open) × (cb.config ≡ c) × (cb.half_open_count ≡ 1)
  unfolding allow allow_from transition_to
  allow_due_at now due = elim (Bool-cases c.notifies) [
    | inl t ↦ rw (due, allow, allow_from, t) (refl, refl, refl, refl)
    | inr f ↦ rw (due, allow, allow_from, f) (refl, refl, refl, refl)
  ]

  record_failure_closed_at :
      (now : ℕ)
      → ConfigOk c
      → failures < c.threshold
      → Fails c
          (if leb c.threshold (failures + 1) then state_open else state_closed)
          (failures + 1)
          (record_failure (breaker_in state_closed) now)
  unfolding record_failure record_failure_from transition_to
  record_failure_closed_at now ok l = ground (arith, ok)

-- A call that loads the state and acts on it before any other call does keeps the counts in the
-- bounds of the state: closed below the threshold, half open below the probes, nothing left over
-- from another state. A call that another overtakes between the two is not meant.
pub step-IsValid : (call : Call) (cb : CircuitBreaker) → IsValid cb → IsValid (step call cb).1
unfolding step
step-IsValid (call_allow now) cb v =
    allow-IsValid_at cb.config cb.failures cb.successes cb.half_open_count cb.last_failure_time
      cb.changes cb.state now v
step-IsValid (call_failure now) cb v =
    record_failure-IsValid_at cb.config cb.failures cb.successes cb.half_open_count
      cb.last_failure_time cb.changes cb.state now v
step-IsValid call_success cb v =
    record_success-IsValid_at cb.config cb.failures cb.successes cb.half_open_count
      cb.last_failure_time cb.changes cb.state v
step-IsValid call_reset cb v =
    reset-IsValid_at cb.config cb.failures cb.successes cb.half_open_count cb.last_failure_time
      cb.changes cb.state v

-- How many of the calls of `Allow`, at the times, are admitted, and the breaker after them.
unfoldable pub admitted : List ℕ → CircuitBreaker → ℕ × CircuitBreaker
admitted [] cb = (0, cb)
admitted (now ∷ times) cb =
    let (ok, cb') = allow cb now in
    let (n, cb'') = admitted times cb' in ((if ok then n + 1 else n), cb'')

-- `RecordFailure` at the times.
unfoldable pub fail_all : List ℕ → CircuitBreaker → CircuitBreaker
fail_all [] cb = cb
fail_all (now ∷ times) cb = fail_all times (record_failure cb now)

-- A half open breaker admits just as many calls as its limit leaves.
pub admitted_half_open :
    (times : List ℕ) (cb : CircuitBreaker)
    → ConfigOk cb.config
    → cb.state ≡ state_half_open
    → cb.half_open_count + length times < 2 ^ 63
    → (admitted times cb).0 ≡ min (length times) (cb.config.half_open_max - cb.half_open_count)
unfolding admitted allow allow_from
admitted_half_open [] cb ok s l = omega arith
admitted_half_open (now ∷ times) cb ok s l =
    let count = word (cb.half_open_count + 1) in
    let next : CircuitBreaker = record cb { half_open_count = count } in
    let later = admitted_half_open times next ok s (omega arith) in
    let step : allow cb now ≡ (sle count cb.config.half_open_max, next) =
      ap (λ t. allow_from t cb now) s in
    rw step (ground (arith, ok, later))

-- A breaker seen through its state.
in_state : (s : State) (cb : CircuitBreaker) → cb.state ≡ s → cb ≡ record cb { state = s }
in_state s cb e = ap (λ t. record cb { state = t }) e

abbrev Probes : CircuitBreaker → ℕ → Type 0
Probes cb now =
    let (answer, cb') = allow cb now in
    (answer ≡ true)
    × (cb'.state ≡ state_half_open)
    × (cb'.config ≡ cb.config)
    × (cb'.half_open_count ≡ 1)

allow_due :
    (cb : CircuitBreaker) (now : ℕ)
    → cb.state ≡ state_open
    → should_transition_to_half_open cb now ≡ true
    → Probes cb now
allow_due cb now s due =
    let shape = in_state state_open cb s in
    subst (λ x. Probes x now) (sym shape)
      (allow_due_at cb.config cb.failures cb.successes cb.half_open_count cb.last_failure_time
        cb.changes now (ap (λ x. should_transition_to_half_open x now) (sym shape) ∙ due))

record_failure_closed :
    (cb : CircuitBreaker) (now : ℕ)
    → cb.state ≡ state_closed
    → ConfigOk cb.config
    → cb.failures < cb.config.threshold
    → Fails cb.config
        (if leb cb.config.threshold (cb.failures + 1) then state_open else state_closed)
        (cb.failures + 1)
        (record_failure cb now)
record_failure_closed cb now s ok l =
    subst
      (λ x.
        Fails cb.config
          (if leb cb.config.threshold (cb.failures + 1) then state_open else state_closed)
          (cb.failures + 1) (record_failure x now))
      (sym (in_state state_closed cb s))
      (record_failure_closed_at cb.config cb.failures cb.successes cb.half_open_count
        cb.last_failure_time cb.changes now ok l)

-- An open breaker whose timeout has passed admits one call, and, while nothing else happens, in all
-- as many as its limit.
pub admitted_open :
    (now : ℕ) (times : List ℕ) (cb : CircuitBreaker)
    → ConfigOk cb.config
    → cb.state ≡ state_open
    → should_transition_to_half_open cb now ≡ true
    → 1 + length times < 2 ^ 63
    → (admitted (now ∷ times) cb).0 ≡ min (suc (length times)) cb.config.half_open_max
unfolding admitted allow allow_from transition_to
admitted_open now times cb ok s due l =
    let (answer, half, same, one) = allow_due cb now s due in
    let cb' = (allow cb now).1 in
    let ok' : ConfigOk cb'.config = rw same ok in
    let later = admitted_half_open times cb' ok' half (omega (arith, one)) in
    rw (answer, admitted)
      (omega (arith, later, one, ap (λ (t : Config). t.half_open_max) same, ok.some_probes))

-- A breaker that is open stays so while calls fail.
fail_all_open :
    (times : List ℕ) (cb : CircuitBreaker)
    → cb.state ≡ state_open
    → (fail_all times cb).state ≡ state_open
unfolding fail_all record_failure record_failure_from
fail_all_open [] cb s = s
fail_all_open (now ∷ times) cb s =
    let same : record_failure cb now ≡ record cb { last_failure_time = now } =
      ap (λ t. record_failure_from t (record cb { last_failure_time = now })) s in
    ap (λ x. (fail_all times x).state) same
    ∙ fail_all_open times (record cb { last_failure_time = now }) s

-- From the closed state with no failures yet, the breaker opens with the failure that reaches the
-- threshold, and not before.
pub fail_all_closed :
    (times : List ℕ) (cb : CircuitBreaker)
    → ConfigOk cb.config
    → cb.state ≡ state_closed
    → cb.failures < cb.config.threshold
    → (fail_all times cb).state
      ≡ (if leb cb.config.threshold (cb.failures + length times) then state_open else state_closed)
unfolding fail_all record_failure record_failure_from transition_to
fail_all_closed [] cb ok s l = ground (arith, s)
fail_all_closed (now ∷ times) cb ok s l =
    let next = record_failure cb now in
    let (state, failed, same) = record_failure_closed cb now s ok l in
    let limit : next.config.threshold ≡ cb.config.threshold =
      ap (λ (t : Config). t.threshold) same in
    elim (Bool-cases (leb cb.config.threshold (cb.failures + 1))) [
      | inl trips ↦
          let opened : next.state ≡ state_open = rw trips at state in
          fail_all_open times next opened ∙ ground arith
      | inr holds ↦
          let still : next.state ≡ state_closed = rw holds at state in
          fail_all_closed times next (rw same ok) still (ground arith) ∙ ground arith
    ]

-- A caller that saw the breaker open and comes late, when others have made it half open: it is
-- admitted and sets the count back, so that, however many have been admitted, as many as the limit
-- are admitted anew.
pub allow_from-late :
    (now : ℕ) (times : List ℕ) (cb : CircuitBreaker)
    → ConfigOk cb.config
    → cb.state ≡ state_half_open
    → should_transition_to_half_open cb now ≡ true
    → 1 + length times < 2 ^ 63
    → let (answer, cb') = allow_from state_open cb now in
      (answer ≡ true) × ((admitted times cb').0 ≡ min (length times) (cb.config.half_open_max - 1))
unfolding allow_from transition_to
allow_from-late now times cb ok s due l =
    let late : CircuitBreaker = record cb { half_open_count = 1 } in
    let shape = in_state state_half_open cb s in
    let stays : transition_to state_half_open cb ≡ cb =
      ap (transition_to state_half_open) shape ∙ sym shape in
    let step : allow_from state_open cb now ≡ (true, late) =
      rw (due, allow_from)
        (ap (λ (x : CircuitBreaker). (true, record x { half_open_count = 1 })) stays) in
    rw step (refl, admitted_half_open times late ok s l)
