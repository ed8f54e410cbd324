-- ===== src/Throttle.antt =====
-- The rate limiters of engine/pkg/event/throttle.go. A method that takes the mutex is one function on
-- the state, `now` is the clock that it reads, in nanoseconds since 1970. The int64 values are
-- integers with their wrap-around; the float64 rate of the statistics and its time are left out.
pub mod Calls
pub mod Refill
pub mod Bucket
pub mod Starved
pub mod Windows
pub mod Sliding
pub mod Manager
mod Tests
use emberengine.Prelude.{
  ℕ, ◌-◌, ◌/◌, List, [], ◌∷◌, Bool, true, false, Option, none, some, ltb, ◌==◌, if◌then◌else◌,
}
use emberengine.Prelude.Int.{ℤ, pos, ◌+ℤ◌, ◌-ℤ◌, ◌*ℤ◌, quot, min_ℤ, leb_ℤ, eqb_ℤ, int64}

pub record LimiterStats : Type 0 where
  pub total_requests : ℤ
  pub allowed_requests : ℤ
  pub dropped_requests : ℤ

abbrev pub no_stats : LimiterStats
no_stats = record { total_requests = pos 0; allowed_requests = pos 0; dropped_requests = pos 0 }

abbrev pub count_total : ℤ → LimiterStats → LimiterStats
count_total n s = record s { total_requests = int64 (s.total_requests +ℤ n) }

abbrev pub count_allowed : ℤ → LimiterStats → LimiterStats
count_allowed n s = record s { allowed_requests = int64 (s.allowed_requests +ℤ n) }

abbrev pub count_dropped : ℤ → LimiterStats → LimiterStats
count_dropped n s = record s { dropped_requests = int64 (s.dropped_requests +ℤ n) }

pub record Reservation : Type 0 where
  pub delay : ℤ
  pub granted : Bool

abbrev pub second : ℕ
second = 1_000_000_000

pub record TokenBucketLimiter : Type 0 where
  pub capacity : ℤ
  pub tokens : ℤ
  pub rate : ℤ
  pub last_refill : ℕ
  pub stats : LimiterStats

-- `NewTokenBucketLimiter`
pub new_token_bucket_limiter : ℤ → ℤ → ℕ → TokenBucketLimiter
new_token_bucket_limiter capacity rate now = record {
  capacity = capacity;
  tokens = capacity;
  rate = rate;
  last_refill = now;
  stats = no_stats;
}

-- The tokens of `elapsed` nanoseconds.
pub tokens_to_add : ℕ → ℤ → ℤ
tokens_to_add elapsed rate = quot (int64 (pos elapsed *ℤ rate)) (pos second)

pub refill : ℕ → TokenBucketLimiter → TokenBucketLimiter
refill now b =
    if ltb b.last_refill now
    then record b {
      tokens = min_ℤ b.capacity (int64 (b.tokens +ℤ tokens_to_add (now - b.last_refill) b.rate));
      last_refill = now;
    }
    else b

-- `AllowN` behind its refill.
pub spend : ℤ → TokenBucketLimiter → Bool × TokenBucketLimiter
spend n b =
    let s = count_total n b.stats in
    if leb_ℤ n b.tokens
    then (true, record b { tokens = int64 (b.tokens -ℤ n); stats = count_allowed n s })
    else (false, record b { stats = count_dropped n s })

-- `AllowN`; `Allow` is `AllowN` of 1.
pub allow_n : ℤ → ℕ → TokenBucketLimiter → Bool × TokenBucketLimiter
allow_n n now b = spend n (refill now b)

-- `Reserve` behind its refill; `none` is the panic of a division by a rate of 0.
pub book : TokenBucketLimiter → Option Reservation × TokenBucketLimiter
book b =
    if leb_ℤ (pos 1) b.tokens
    then (
      some (record { delay = pos 0; granted = true }),
      record b { tokens = int64 (b.tokens -ℤ pos 1); stats = count_allowed (pos 1) b.stats },
    )
    else if eqb_ℤ b.rate (pos 0)
    then (none, b)
    else (
      some (record { delay = quot (pos second) b.rate; granted = false }),
      record b { stats = count_dropped (pos 1) b.stats },
    )

pub reserve : ℕ → TokenBucketLimiter → Option Reservation × TokenBucketLimiter
reserve now b = book (refill now b)

pub record SlidingWindowLimiter : Type 0 where
  pub window_size : ℕ
  pub limit : ℤ
  pub windows : List (ℕ × ℤ)
  pub swl_stats : LimiterStats

-- `NewSlidingWindowLimiter`
pub new_sliding_window_limiter : ℕ → ℤ → SlidingWindowLimiter
new_sliding_window_limiter window_size limit = record {
  window_size = window_size;
  limit = limit;
  windows = [];
  swl_stats = no_stats;
}

-- The windows that `cleanup` keeps.
pub cleanup : ℕ → List (ℕ × ℤ) → List (ℕ × ℤ)
cleanup cutoff [] = []
cleanup cutoff ((timestamp, c) ∷ ws) =
    let rest = cleanup cutoff ws in if ltb timestamp cutoff then rest else (timestamp, c) ∷ rest

-- `getCurrentCount`, from the total so far; the order of a map's entries does not matter to it.
pub get_current_count : ℤ → List (ℕ × ℤ) → ℤ
get_current_count total [] = total
get_current_count total ((timestamp, c) ∷ ws) = get_current_count (int64 (total +ℤ c)) ws

-- `windows[timestamp] += n`
pub add_window : ℕ → ℤ → List (ℕ × ℤ) → List (ℕ × ℤ)
add_window timestamp n [] = (timestamp, n) ∷ []
add_window timestamp n ((t, c) ∷ ws) =
    if t == timestamp then (t, int64 (c +ℤ n)) ∷ ws else (t, c) ∷ add_window timestamp n ws

-- `AllowN` of the sliding window behind its `cleanup`.
pub admit : ℤ → ℕ → SlidingWindowLimiter → Bool × SlidingWindowLimiter
admit n now w =
    let s = count_total n w.swl_stats in
    if leb_ℤ (int64 (get_current_count (pos 0) w.windows +ℤ n)) w.limit
    then (
      true,
      record w { windows = add_window (now / second) n w.windows; swl_stats = count_allowed n s },
    )
    else (false, record w { swl_stats = count_dropped n s })

-- A window that starts before 1970 has no window to clear, as one that starts then.
pub allow_n_sliding : ℤ → ℕ → SlidingWindowLimiter → Bool × SlidingWindowLimiter
allow_n_sliding n now w =
    admit n now (record w { windows = cleanup ((now - w.window_size) / second) w.windows })

abbrev pub reserved : ℕ → Bool × SlidingWindowLimiter → Option Reservation × SlidingWindowLimiter
reserved delay (true, w) = (some (record { delay = pos 0; granted = true }), w)
reserved delay (false, w) = (some (record { delay = pos delay; granted = false }), w)

-- `Reserve` of the sliding window.
pub reserve_sliding : ℕ → SlidingWindowLimiter → Option Reservation × SlidingWindowLimiter
reserve_sliding now w = reserved w.window_size (allow_n_sliding (pos 1) now w)
