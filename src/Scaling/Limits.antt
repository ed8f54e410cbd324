-- ===== src/Scaling/Limits.antt =====
-- What the auto scaler may ask for.
use native.Mathlib.Decide.{dec_lt}
use native.Mathlib.Nat.{mul-le-mul_left}
use emberengine.Prelude.{
  ℕ, ◌-◌, ◌*◌, ◌≡◌, ◌≤◌, refl, subst, sym, List, [], ◌∷◌, Bool, true, false, ltb, length, arith,
  Bool-cases, inl, inr, if◌then◌else◌, ◌⊎◌,
}
use emberengine.Prelude.Int.{ℤ, pos, negsuc, ◌≤ℤ◌, ◌<ℤ◌, eqb_ℤ, leb_ℤ, ltb_ℤ}
use emberengine.Scaling.{
  clamp, AutoScaler, decide_size, should_resize, MaxLoadStrategy, max_load_strategy, idle_count,
  idle_limit, int32, add_int32, sub_int32,
}

clamp_between :
    (val low high : ℤ) → low ≤ℤ high → (low ≤ℤ clamp val low high) × (clamp val low high ≤ℤ high)
unfolding clamp
clamp_between val low high h = (ground arith, ground arith)

-- No resize, or one to another size within the limits; the time of the last resize is set.
abbrev pub Decided : AutoScaler → ℤ → ℕ → ℤ × Bool × AutoScaler → Type 0
Decided s cur now (size, resize, s') =
    (s' ≡ record s { last_resize_time = now })
    × ((resize ≡ false)
        ⊎ ((resize ≡ true)
            × (s.conf.min_worker_num ≤ℤ size)
            × (size ≤ℤ s.conf.max_worker_num)
            × (eqb_ℤ size cur ≡ false)))

-- Within the cool-down nothing is asked for and nothing changes.
abbrev pub Asks : AutoScaler → ℤ → ℕ → ℤ × Bool × AutoScaler → Type 0
Asks s current now answer =
    if ltb (now - s.last_resize_time) s.conf.resize_cool_down
    then answer ≡ (pos 0, false, s)
    else Decided s (int32 current) now answer

decide_size-Decided :
    (s : AutoScaler) (cur val : ℤ) (now : ℕ)
    → s.conf.min_worker_num ≤ℤ s.conf.max_worker_num
    → Decided s cur now
        (decide_size s cur (clamp val s.conf.min_worker_num s.conf.max_worker_num) now)
unfolding decide_size
decide_size-Decided s cur val now h =
    let size = clamp val s.conf.min_worker_num s.conf.max_worker_num in
    let (low, high) = clamp_between val s.conf.min_worker_num s.conf.max_worker_num h in
    elim (Bool-cases (eqb_ℤ size cur)) [
      | inl t ↦
          let step : decide_size s cur size now
              ≡ (cur, false, record s { last_resize_time = now }) =
            rw (t, decide_size) refl in
          subst (Decided s cur now) (sym step) (refl, inl refl)
      | inr f ↦
          let step : decide_size s cur size now
              ≡ (size, true, record s { last_resize_time = now }) =
            rw (f, decide_size) refl in
          subst (Decided s cur now) (sym step) (refl, inr (refl, low, high, f))
    ]

-- The scaler waits for its cool-down, and asks only for a size that differs from the present one
-- and lies within its limits, whatever the strategy and the factors, if the limits are in order.
pub should_resize-Asks :
    (s : AutoScaler) (current : ℤ) (workers : List ℕ) (now : ℕ)
    → s.conf.min_worker_num ≤ℤ s.conf.max_worker_num
    → Asks s current now (should_resize s current workers now)
unfolding should_resize
should_resize-Asks s current workers now h =
    let cur = int32 current in
    elim (Bool-cases (ltb (now - s.last_resize_time) s.conf.resize_cool_down)) [
      | inl t ↦ rw (t, should_resize) refl
      | inr f ↦ elim (Bool-cases (s.strategy.should_scale_up workers)) [
        | inl up ↦
            rw (f, should_resize, up)
              (decide_size-Decided s cur (add_int32 cur (s.conf.grow cur)) now h)
        | inr not_up ↦
            elim (Bool-cases (s.strategy.should_scale_down workers s.conf.min_worker_num)) [
              | inl down ↦
                  rw (f, should_resize, not_up, down)
                    (decide_size-Decided s cur (sub_int32 cur (s.conf.shrink cur)) now h)
              | inr neither ↦ rw (f, should_resize, not_up, neither) (refl, inl refl)
            ]
      ]
    ]

idle_count-length : (ns : List ℕ) → idle_count ns ≤ length ns
unfolding idle_count
idle_count-length [] = omega arith
idle_count-length (n ∷ ns) = ground (arith, idle_count-length ns)

idle_limit_below : (n idle : ℕ) (t : ℤ) → idle ≤ n → idle_limit n t <ℤ pos idle → t <ℤ pos 100
unfolding idle_limit
idle_limit_below n idle (negsuc t) l h = omega arith
idle_limit_below n idle (pos t) l h = elim (dec_lt t 100) [
  | yes small ↦ omega arith
  | no big ↦
      let more : n * 100 ≤ n * t = mul-le-mul_left n (omega arith) in absurd (omega (arith, more))
]

shrinks_cases :
    (low : ℤ) (n idle : ℕ) (t : ℤ)
    → idle ≤ n
    → (if leb_ℤ (pos n) low then false else ltb_ℤ (idle_limit n t) (pos idle)) ≡ true
    → (low <ℤ pos n) × (t <ℤ pos 100)
shrinks_cases low n idle t l e = elim (Bool-cases (leb_ℤ (pos n) low)) [
  | inl least ↦ cc (rw least at e)
  | inr more ↦ (ground arith, idle_limit_below n idle t l (ground arith))
]

-- The load strategy never shrinks a pool at its least size, and not at all with an idle threshold of
-- 100 or more.
pub max_load_strategy-shrinks :
    (d : MaxLoadStrategy) (workers : List ℕ) (low : ℤ)
    → (max_load_strategy d).should_scale_down workers low ≡ true
    → (low <ℤ pos (length workers)) × (d.idle_threshold <ℤ pos 100)
unfolding max_load_strategy
max_load_strategy-shrinks d workers low e =
    shrinks_cases low (length workers) (idle_count workers) d.idle_threshold
      (idle_count-length workers) e
