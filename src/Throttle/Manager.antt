-- ===== src/Throttle/Manager.antt =====
-- The throttle manager of engine/pkg/event/throttle.go and the classification of the events in
-- engine/pkg/event/category.go. An event type is a number; the registry is a map. What the map of the
-- manager holds is a pointer, so a call writes the limiter back.
pub mod Apart
use emberengine.Prelude.{ℕ, [], Bool, Option, none, some}
use emberengine.Prelude.Int.{ℤ, pos, ◌*ℤ◌, int64, ltb_ℤ}
use emberengine.Prelude.Dict.{Dict, lookup, insert, erase, nat_eq}
use emberengine.Throttle.{
  second, TokenBucketLimiter, new_token_bucket_limiter, allow_n, SlidingWindowLimiter,
  new_sliding_window_limiter, allow_n_sliding,
}

pub data EventCategory : Type 0 where
  system_critical system_health system_config : EventCategory
  cluster_topology cluster_discovery cluster_leader : EventCategory
  business_critical business_normal business_batch : EventCategory
  metrics statistics diagnostics : EventCategory

-- The fields that the throttling reads.
pub record EventClassification : Type 0 where
  pub category : EventCategory
  pub max_frequency : ℤ

abbrev pub EventRegistry : Type 0
EventRegistry = Dict ℕ EventClassification

abbrev pub classified : Option EventClassification → EventClassification
classified (some c) = c
classified none = record { category = business_normal; max_frequency = pos 100 }

-- `GetClassification`
pub get_classification : EventRegistry → ℕ → EventClassification
get_classification registry event_type = classified (lookup event_type registry)

-- `ShouldThrottle`
pub should_throttle : EventRegistry → ℕ → ℤ → Bool
should_throttle registry event_type current_frequency =
    ltb_ℤ (get_classification registry event_type).max_frequency current_frequency

pub data RateLimiter : Type 0 where
  token_bucket : TokenBucketLimiter → RateLimiter
  sliding_window : SlidingWindowLimiter → RateLimiter

abbrev pub limiter_for : EventCategory → ℤ → ℕ → RateLimiter
limiter_for system_critical f now =
    token_bucket (new_token_bucket_limiter (int64 (f *ℤ pos 2)) f now)
limiter_for metrics f now = sliding_window (new_sliding_window_limiter second f)
limiter_for statistics f now = sliding_window (new_sliding_window_limiter second f)
limiter_for other f now = token_bucket (new_token_bucket_limiter f f now)

abbrev pub wrapped : Bool × TokenBucketLimiter → Bool × RateLimiter
wrapped (ok, b) = (ok, token_bucket b)

abbrev pub wrapped_window : Bool × SlidingWindowLimiter → Bool × RateLimiter
wrapped_window (ok, w) = (ok, sliding_window w)

-- The `AllowN` of whichever limiter it is.
pub limiter_allow_n : ℤ → ℕ → RateLimiter → Bool × RateLimiter
limiter_allow_n n now (token_bucket b) = wrapped (allow_n n now b)
limiter_allow_n n now (sliding_window w) = wrapped_window (allow_n_sliding n now w)

pub record ThrottleManager : Type 0 where
  pub limiters : Dict ℕ RateLimiter
  pub registry : EventRegistry

-- `NewThrottleManager`
abbrev pub new_throttle_manager : EventRegistry → ThrottleManager
new_throttle_manager registry = record { limiters = []; registry = registry }

pub created : EventRegistry → ℕ → ℕ → RateLimiter
created registry event_type now =
    let c = get_classification registry event_type in limiter_for c.category c.max_frequency now

abbrev pub existing_or : RateLimiter → Option RateLimiter → RateLimiter
existing_or fresh none = fresh
existing_or fresh (some limiter) = limiter

-- `GetOrCreateLimiter`
pub get_or_create_limiter : ℕ → ℕ → ThrottleManager → RateLimiter × ThrottleManager
get_or_create_limiter event_type now tm =
    let limiter =
      existing_or (created tm.registry event_type now) (lookup event_type tm.limiters) in
    (limiter, record tm { limiters = insert event_type limiter tm.limiters })

-- `AllowN` of the manager; `Allow` is `AllowN` of 1.
pub manager_allow_n : ℕ → ℤ → ℕ → ThrottleManager → Bool × ThrottleManager
manager_allow_n event_type n now tm =
    let (limiter, tm') = get_or_create_limiter event_type now tm in
    let (ok, limiter') = limiter_allow_n n now limiter in
    (ok, record tm' { limiters = insert event_type limiter' tm'.limiters })

-- `Reset`
pub manager_reset : ℕ → ThrottleManager → ThrottleManager
manager_reset event_type tm = record tm { limiters = erase event_type tm.limiters }

-- `ResetAll`
pub reset_all : ThrottleManager → ThrottleManager
reset_all tm = record tm { limiters = [] }
