-- ===== src/Scaling/Tests.antt =====
-- The scaler at concrete inputs: a pool of two to eight workers that doubles.
use emberengine.Prelude.{[], ◌∷◌, arith}
use emberengine.Prelude.Int.{pos}
use emberengine.Scaling.{AutoScaler, MaxLoadStrategy, max_load_strategy, should_resize}
use emberengine.Scaling.Limits.{Asks, should_resize-Asks}

abbrev load : MaxLoadStrategy
load = record { idle_threshold = pos 50; max_load_threshold = pos 64 }

abbrev scaler : AutoScaler
scaler = record {
  conf = record {
    min_worker_num = pos 2;
    max_worker_num = pos 8;
    resize_cool_down = 10;
    grow = λ n. n;
    shrink = λ n. pos 1;
  };
  last_resize_time = 100;
  strategy = max_load_strategy load;
}

should_resize-Asks_example :
    Asks scaler (pos 5) 120 (should_resize scaler (pos 5) (70 ∷ 0 ∷ 0 ∷ 0 ∷ 0 ∷ []) 120)
should_resize-Asks_example =
    should_resize-Asks scaler (pos 5) (70 ∷ 0 ∷ 0 ∷ 0 ∷ 0 ∷ []) 120 (omega arith)
