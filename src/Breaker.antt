-- ===== src/Breaker.antt =====
-- The circuit breaker of engine/pkg/utils/circuitbreaker/breaker.go. The int64 counters are words;
-- times are nanoseconds, and `now` is what the clock says at the call. A method's first load of the
-- state is an argument of the part behind it, since other goroutines may act in between.
pub mod Trips
mod Tests
use emberengine.Prelude.{ℕ, ◌+◌, List, [], ◌∷◌, Bool, true, false, ◌==◌, leb, if◌then◌else◌}
use emberengine.Prelude.Int.{ℤ, pos, negsuc}
use emberengine.Prelude.Words.{word, sle}

pub data State : Type 0 where
  state_closed state_open state_half_open : State

-- `notifies` tells whether `OnStateChange` is set.
pub record Config : Type 0 where
  pub threshold : ℕ
  pub timeout : ℕ
  pub half_open_max : ℕ
  pub notifies : Bool

-- `changes` has the calls of `OnStateChange`, the last one first.
pub record CircuitBreaker : Type 0 where
  pub config : Config
  pub state : State
  pub failures : ℕ
  pub successes : ℕ
  pub half_open_count : ℕ
  pub last_failure_time : ℕ
  pub changes : List (State × State)

-- A setting that is not positive takes the default.
abbrev or_default : ℤ → ℕ → ℕ
or_default (pos n) d = if n == 0 then d else n
or_default (negsuc n) d = d

-- `New` of a configuration with its settings as given.
pub new : (threshold timeout half_open_max : ℤ) → Bool → CircuitBreaker
new threshold timeout half_open_max notifies = record {
  config = record {
    threshold = or_default threshold 5;
    timeout = or_default timeout 30_000_000_000;
    half_open_max = or_default half_open_max 3;
    notifies = notifies;
  };
  state = state_closed;
  failures = 0;
  successes = 0;
  half_open_count = 0;
  last_failure_time = 0;
  changes = [];
}

abbrev pub same_state : State → State → Bool
same_state state_closed state_closed = true
same_state state_open state_open = true
same_state state_half_open state_half_open = true
same_state _ _ = false

-- `elapsed >= Timeout`, with the subtraction on the other side.
pub should_transition_to_half_open : CircuitBreaker → ℕ → Bool
should_transition_to_half_open cb now =
    if cb.last_failure_time == 0 then false else leb (cb.last_failure_time + cb.config.timeout) now

abbrev note_change : State → CircuitBreaker → CircuitBreaker
note_change from cb =
    if cb.config.notifies then record cb { changes = (from, cb.state) ∷ cb.changes } else cb

-- The counters that a state starts with.
abbrev enter : State → CircuitBreaker → CircuitBreaker
enter state_closed cb = record cb {
  state = state_closed;
  failures = 0;
  successes = 0;
  half_open_count = 0;
}
enter state_open cb = record cb { state = state_open; successes = 0; half_open_count = 0 }
enter state_half_open cb = record cb { state = state_half_open; successes = 0; half_open_count = 0 }

-- `transitionTo`, under its mutex.
pub transition_to : State → CircuitBreaker → CircuitBreaker
transition_to target cb =
    if same_state cb.state target then cb else note_change cb.state (enter target cb)

-- `Allow` from the state that it loaded.
pub allow_from : State → CircuitBreaker → ℕ → Bool × CircuitBreaker
unfolding transition_to should_transition_to_half_open
allow_from state_closed cb now = (true, cb)
allow_from state_open cb now =
    if should_transition_to_half_open cb now
    then (true, record (transition_to state_half_open cb) { half_open_count = 1 })
    else (false, cb)
allow_from state_half_open cb now =
    let count = word (cb.half_open_count + 1) in
    (sle count cb.config.half_open_max, record cb { half_open_count = count })

pub allow : CircuitBreaker → ℕ → Bool × CircuitBreaker
unfolding allow_from
allow cb now = allow_from cb.state cb now

-- `RecordSuccess` from the state that it loaded.
pub record_success_from : State → CircuitBreaker → CircuitBreaker
unfolding transition_to
record_success_from state_closed cb = record cb { failures = 0 }
record_success_from state_open cb = cb
record_success_from state_half_open cb =
    let cb' = record cb { successes = word (cb.successes + 1) } in
    if sle cb.config.half_open_max cb'.successes then transition_to state_closed cb' else cb'

pub record_success : CircuitBreaker → CircuitBreaker
unfolding record_success_from
record_success cb = record_success_from cb.state cb

-- `RecordFailure` from the state that it loaded, the time already stored.
pub record_failure_from : State → CircuitBreaker → CircuitBreaker
unfolding transition_to
record_failure_from state_closed cb =
    let cb' = record cb { failures = word (cb.failures + 1) } in
    if sle cb.config.threshold cb'.failures then transition_to state_open cb' else cb'
record_failure_from state_open cb = cb
record_failure_from state_half_open cb = transition_to state_open cb

pub record_failure : CircuitBreaker → ℕ → CircuitBreaker
unfolding record_failure_from
record_failure cb now = record_failure_from cb.state (record cb { last_failure_time = now })

-- `Reset`, under the mutex.
pub reset : CircuitBreaker → CircuitBreaker
reset cb =
    if same_state cb.state state_closed
    then enter state_closed cb
    else note_change cb.state (enter state_closed cb)

-- A call by a caller that nobody overtakes.
pub data Call : Type 0 where
  call_allow call_failure : ℕ → Call
  call_success call_reset : Call

-- One call that no other overtakes between its load of the state and its act on it. The functions
-- named `_from` are the acts of a call that was overtaken.
pub step : Call → CircuitBreaker → Bool × CircuitBreaker
unfolding allow record_success record_failure reset
step (call_allow now) cb = allow cb now
step (call_failure now) cb = (true, record_failure cb now)
step call_success cb = (true, record_success cb)
step call_reset cb = (true, reset cb)
