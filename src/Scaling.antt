-- ===== src/Scaling.antt =====
-- The auto scaler of engine/pkg/actor/mailbox/scaler.go and the strategies of strategy.go. A
-- strategy sees the workers only by the lengths of their queues. The float64 products
-- `Ceil(cur * GrowthFactor)` and `Floor(cur * ShrinkFactor)` are parameters.
pub mod Limits
mod Tests
use emberengine.Prelude.{
  ℕ, ◌+◌, ◌-◌, ◌*◌, ◌/◌, ◌%◌, ◌^◌, List, [], ◌∷◌, Bool, true, false, not, ◌==◌, leb, ltb, length,
  if◌then◌else◌,
}
use emberengine.Prelude.Int.{ℤ, pos, negsuc, pos_part, neg_part, ltb_ℤ, leb_ℤ, eqb_ℤ}

-- `m - n`.
abbrev pub difference : ℕ → ℕ → ℤ
difference m n = if leb n m then pos (m - n) else negsuc (n - m - 1)

abbrev pub int32_of : ℕ → ℤ
int32_of u = if ltb u (2 ^ 31) then pos u else negsuc (2 ^ 32 - u - 1)

-- A value of at most 2 ^ 33 in size as an int32.
abbrev pub int32 : ℤ → ℤ
int32 z = int32_of ((pos_part z + 2 ^ 33 - neg_part z) % 2 ^ 32)

abbrev pub add_int32 : ℤ → ℤ → ℤ
add_int32 a b = int32 (difference (pos_part a + pos_part b) (neg_part a + neg_part b))

abbrev pub sub_int32 : ℤ → ℤ → ℤ
sub_int32 a b = int32 (difference (pos_part a + neg_part b) (neg_part a + pos_part b))

pub clamp : (val low high : ℤ) → ℤ
clamp val low high = if ltb_ℤ val low then low else if ltb_ℤ high val then high else val

pub record AutoScalerStrategy : Type 0 where
  pub should_scale_up : List ℕ → Bool
  pub should_scale_down : List ℕ → ℤ → Bool

pub record WorkerStrategyConfig : Type 0 where
  pub min_worker_num : ℤ
  pub max_worker_num : ℤ
  pub resize_cool_down : ℕ
  pub grow : ℤ → ℤ
  pub shrink : ℤ → ℤ

pub record AutoScaler : Type 0 where
  pub conf : WorkerStrategyConfig
  pub last_resize_time : ℕ
  pub strategy : AutoScalerStrategy

-- The end of `ShouldResize` with the new size.
pub decide_size : AutoScaler → ℤ → ℤ → ℕ → ℤ × Bool × AutoScaler
decide_size s cur new_size now =
    if eqb_ℤ new_size cur
    then (cur, false, record s { last_resize_time = now })
    else (new_size, true, record s { last_resize_time = now })

-- `ShouldResize` at a time, the reason left out. The time of the last resize is not after it.
pub should_resize : AutoScaler → ℤ → List ℕ → ℕ → ℤ × Bool × AutoScaler
unfolding clamp decide_size
should_resize s current workers now =
    let cur = int32 current in
    let low = s.conf.min_worker_num in
    let high = s.conf.max_worker_num in
    if ltb (now - s.last_resize_time) s.conf.resize_cool_down
    then (pos 0, false, s)
    else if s.strategy.should_scale_up workers
    then decide_size s cur (clamp (add_int32 cur (s.conf.grow cur)) low high) now
    else if s.strategy.should_scale_down workers low
    then decide_size s cur (clamp (sub_int32 cur (s.conf.shrink cur)) low high) now
    else (cur, false, record s { last_resize_time = now })

-- The loops over the strategies: all must say yes, or one.
pub all_say : (AutoScalerStrategy → Bool) → List AutoScalerStrategy → Bool
all_say says [] = true
all_say says (s ∷ ss) = let rest = all_say says ss in if not (says s) then false else rest

pub any_says : (AutoScalerStrategy → Bool) → List AutoScalerStrategy → Bool
any_says says [] = false
any_says says (s ∷ ss) = let rest = any_says says ss in if says s then true else rest

-- `mode_all` tells whether the mode is "all", in any case of letters.
pub record CompositeStrategy : Type 0 where
  pub strategies : List AutoScalerStrategy
  pub mode_all : Bool

abbrev by_mode : CompositeStrategy → (AutoScalerStrategy → Bool) → Bool
by_mode c says = if c.mode_all then all_say says c.strategies else any_says says c.strategies

pub composite_strategy : CompositeStrategy → AutoScalerStrategy
unfolding all_say any_says
composite_strategy c = record {
  should_scale_up = λ workers. by_mode c (λ s. s.should_scale_up workers);
  should_scale_down = λ workers low. by_mode c (λ s. s.should_scale_down workers low);
}

pub record MaxLoadStrategy : Type 0 where
  pub idle_threshold : ℤ
  pub max_load_threshold : ℤ

pub any_above : ℤ → List ℕ → Bool
any_above limit [] = false
any_above limit (n ∷ ns) =
    let rest = any_above limit ns in if ltb_ℤ limit (pos n) then true else rest

pub idle_count : List ℕ → ℕ
idle_count [] = 0
idle_count (n ∷ ns) = if n == 0 then idle_count ns + 1 else idle_count ns

abbrev minus : ℕ → ℤ
minus n = if n == 0 then pos 0 else negsuc (n - 1)

-- `len * IdleThreshold / 100`, rounded towards zero.
pub idle_limit : ℕ → ℤ → ℤ
idle_limit len (pos t) = pos (len * t / 100)
idle_limit len (negsuc t) = minus (len * (t + 1) / 100)

pub max_load_strategy : MaxLoadStrategy → AutoScalerStrategy
unfolding any_above idle_count idle_limit
max_load_strategy d = record {
  should_scale_up = any_above d.max_load_threshold;
  should_scale_down = λ workers low.
      if leb_ℤ (pos (length workers)) low
      then false
      else ltb_ℤ (idle_limit (length workers) d.idle_threshold) (pos (idle_count workers));
}
