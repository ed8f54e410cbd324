-- ===== src/Throttle/Tests.antt =====
-- Limiters at concrete calls.
use emberengine.Prelude.{ℕ, ◌≡◌, ◌≤◌, refl, arith, List, [], ◌∷◌, none}
use emberengine.Prelude.Int.{ℤ, pos}
use emberengine.Throttle.{
  TokenBucketLimiter, no_stats, new_token_bucket_limiter, new_sliding_window_limiter,
}
use emberengine.Throttle.Calls
use emberengine.Throttle.Calls.{asks, reserves, run}
use emberengine.Throttle.Bucket.{Metered, run-Metered}
use emberengine.Throttle.Starved.{run-Polled}
use emberengine.Throttle.Sliding.{slide, recent, recent-slide}
use emberengine.Throttle.Manager.{new_throttle_manager, EventRegistry, metrics}
use emberengine.Throttle.Manager.Apart

abbrev calls : List Calls.Call
calls = asks (pos 3) 1_000 ∷ reserves 2_000 ∷ asks (pos 4) 1_500_000_000 ∷ []

run-Metered_example :
    Metered 5 2 2_000_000_000 (run calls (new_token_bucket_limiter (pos 5) (pos 2) 0))
run-Metered_example =
    run-Metered 5 2 0 2_000_000_000 calls (omega arith) (omega arith) (omega arith)

-- An empty bucket that makes two tokens a second.
abbrev empty_bucket : TokenBucketLimiter
empty_bucket = record {
  capacity = pos 5;
  tokens = pos 0;
  rate = pos 2;
  last_refill = 0;
  stats = no_stats;
}

-- Asked every 0.4 seconds.
abbrev polls : List Calls.Call
polls =
    asks (pos 1) 400_000_000
    ∷ asks (pos 1) 800_000_000
    ∷ reserves 1_200_000_000
    ∷ asks (pos 1) 1_600_000_000
    ∷ []

run-Polled_example : ((run polls empty_bucket).0 ≡ 0) × ((run polls empty_bucket).1.tokens ≡ pos 0)
run-Polled_example =
    run-Polled 5 0 2 (omega arith) (omega arith) 0 polls empty_bucket
      (record { sized = refl; rated = refl; filled = refl; at_last = refl }) (omega arith)

abbrev window_calls : List (ℕ × ℤ)
window_calls =
    (1_500_000_000, pos 2)
    ∷ (2_100_000_000, pos 2)
    ∷ (2_400_000_000, pos 1)
    ∷ (3_200_000_000, pos 1)
    ∷ []

recent-slide_example :
    recent 1_000_000_000 3_300_000_000
      (slide window_calls [] (new_sliding_window_limiter 1_000_000_000 (pos 3))).0
    ≤ 3
recent-slide_example = recent-slide 3 1_000_000_000 3_300_000_000 window_calls (omega arith)

abbrev registry : EventRegistry
registry = (7, record { category = metrics; max_frequency = pos 1 }) ∷ []

abbrev manager_calls : List Apart.Call
manager_calls =
    Apart.asks 7 (pos 1) 1_000
    ∷ Apart.asks 8 (pos 100) 2_000
    ∷ Apart.asks 7 (pos 1) 3_000
    ∷ Apart.resets 8
    ∷ Apart.asks 8 (pos 90) 4_000
    ∷ Apart.resets 7
    ∷ Apart.asks 7 (pos 1) 5_000
    ∷ []

run-alone_example :
    Apart.run 7 manager_calls (new_throttle_manager registry)
    ≡ Apart.alone 7 registry manager_calls none
run-alone_example = Apart.run-alone 7 manager_calls (new_throttle_manager registry)
