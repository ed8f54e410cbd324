-- ===== src/Breaker/Tests.antt =====
-- The breaker at concrete inputs: it opens at three failures and admits two calls to probe.
use emberengine.Prelude.{ℕ, suc, ◌-◌, ◌≡◌, refl, [], ◌∷◌, true, arith, min}
use emberengine.Breaker.{
  State, state_closed, state_open, state_half_open, Config, CircuitBreaker, allow_from,
  should_transition_to_half_open, call_failure, step,
}
use emberengine.Breaker.Trips.{
  ConfigOk, IsValid, step-IsValid, admitted, admitted_open, allow_from-late,
}

abbrev config : Config
config = record { threshold = 3; timeout = 100; half_open_max = 2; notifies = true }

config-ConfigOk : ConfigOk config
config-ConfigOk = record {
  some_threshold = omega arith;
  threshold_fits = omega arith;
  some_probes = omega arith;
  probes_fit = omega arith;
}

abbrev breaker : State → ℕ → CircuitBreaker
breaker s failures = record {
  config = config;
  state = s;
  failures = failures;
  successes = 0;
  half_open_count = 0;
  last_failure_time = 50;
  changes = [];
}

step-IsValid_example : IsValid (step (call_failure 60) (breaker state_closed 2)).1
step-IsValid_example =
    step-IsValid (call_failure 60) (breaker state_closed 2)
      (config-ConfigOk, (omega arith, refl, refl))

due : (s : State) → should_transition_to_half_open (breaker s 3) 150 ≡ true
unfolding should_transition_to_half_open
due s = refl

admitted_open_example :
    (admitted (150 ∷ 151 ∷ 152 ∷ 153 ∷ []) (breaker state_open 3)).0 ≡ min (suc 3) 2
admitted_open_example =
    admitted_open 150 (151 ∷ 152 ∷ 153 ∷ []) (breaker state_open 3) config-ConfigOk refl
      (due state_open) (omega arith)

allow_from-late_example :
    let (answer, cb') = allow_from state_open (breaker state_half_open 3) 150 in
    (answer ≡ true) × ((admitted (151 ∷ 152 ∷ []) cb').0 ≡ min 2 (2 - 1))
allow_from-late_example =
    allow_from-late 150 (151 ∷ 152 ∷ []) (breaker state_half_open 3) config-ConfigOk refl
      (due state_half_open) (omega arith)
