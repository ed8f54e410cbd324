-- ===== src/Throttle/Bucket.antt =====
-- What a bucket of tokens lets through.
use emberengine.Prelude.{
  ℕ, ◌+◌, ◌-◌, ◌*◌, ◌/◌, ◌^◌, ◌≤◌, ◌<◌, ◌≡◌, refl, ap, ◌∙◌, subst, List, [], ◌∷◌, true, ltb,
  if◌then◌else◌, arith, Bool-cases, inl, inr,
}
use emberengine.Prelude.Int.{
  pos, negsuc, ◌+ℤ◌, ◌-ℤ◌, min_ℤ, leb_ℤ, eqb_ℤ, int64, add64_pos, sub64_pos,
}
use emberengine.Throttle.{
  LimiterStats, count_total, count_allowed, count_dropped, second, TokenBucketLimiter,
  new_token_bucket_limiter, tokens_to_add, refill, spend, allow_n, book, reserve,
}
use emberengine.Throttle.Calls.{Call, asks, reserves, call, run, IsBy, AllBy}
use emberengine.Throttle.Refill.{refilled}

-- A bucket of capacity `c` and rate `r`, made at `start`, that has let `g` events through by `end`.
pub record Spent (c r start end g : ℕ) (b : TokenBucketLimiter) : Type 0 where
  pub left : ℕ
  pub sized : b.capacity ≡ pos c
  pub rated : b.rate ≡ pos r
  pub filled : b.tokens ≡ pos left
  pub fits : left ≤ c
  pub since : start ≤ b.last_refill
  pub by_end : b.last_refill ≤ end
  pub counted : b.stats.allowed_requests ≡ pos g
  pub within : (left + g) * second ≤ c * second + r * (b.last_refill - start)

mul_mono : (r a b : ℕ) → a ≤ b → r * a ≤ r * b
mul_mono r a b h = let split : r * b ≡ r * a + r * (b - a) = grind arith in omega (arith, split)

-- The credit of a refill, with the division rounded down.
credit :
    (left left' g c r last now start : ℕ)
    → start ≤ last
    → last < now
    → left' ≤ left + r * (now - last) / second
    → (left + g) * second ≤ c * second + r * (last - start)
    → (left' + g) * second ≤ c * second + r * (now - start)
credit left left' g c r last now start since later few h =
    let e = now - last in
    let split : r * (now - start) ≡ r * (last - start) + r * e = grind arith in omega (arith, split)

module _ (c r start end : ℕ) (small : c + r * (end - start) < 2 ^ 63) where
  refill-Spent :
      (g now : ℕ) (b : TokenBucketLimiter)
      → now ≤ end
      → Spent c r start end g b
      → Spent c r start end g (refill now b)
  unfolding refill
  refill-Spent g now b by s = elim (Bool-cases (ltb b.last_refill now)) [
    | inr old ↦ rw old s
    | inl later ↦
        let e = now - b.last_refill in
        let l : b.last_refill < now = ground (arith, later) in
        let part : r * e ≤ r * (end - start) =
          mul_mono r e (end - start) (omega (arith, s.since)) in
        let got = s.left + r * e / second in
        let left' = if ltb c got then c else got in
        rw later (record {
          left = left';
          sized = s.sized;
          rated = s.rated;
          filled =
              ap (λ z. min_ℤ z (int64 (b.tokens +ℤ tokens_to_add e b.rate))) s.sized
              ∙ ap (λ z. min_ℤ (pos c) (int64 (z +ℤ tokens_to_add e b.rate))) s.filled
              ∙ ap (λ z. min_ℤ (pos c) (int64 (pos s.left +ℤ tokens_to_add e z))) s.rated
              ∙ refilled c s.left e r s.fits (omega (arith, part));
          fits = ground arith;
          since = omega (arith, l, s.since);
          by_end = by;
          counted = s.counted;
          within =
              credit s.left left' g c r b.last_refill now start s.since l (ground arith) s.within;
        })
  ]

  spent-lt : (g : ℕ) (b : TokenBucketLimiter) (s : Spent c r start end g b) → s.left + g < 2 ^ 63
  spent-lt g b s =
      let part = mul_mono r (b.last_refill - start) (end - start) (omega (arith, s.by_end)) in
      omega (arith, part, s.within)

  -- Taking `n` of the tokens.
  taken :
      (g n : ℕ) (b : TokenBucketLimiter) (st : LimiterStats) (s : Spent c r start end g b)
      → st.allowed_requests ≡ b.stats.allowed_requests
      → leb_ℤ (pos n) b.tokens ≡ true
      → Spent c r start end
          (g + n)
          (record b { tokens = int64 (b.tokens -ℤ pos n); stats = count_allowed (pos n) st })
  taken g n b st s same enough =
      let room = spent-lt g b s in
      let some_left : n ≤ s.left = ground (arith, enough, s.filled) in
      record {
        left = s.left - n;
        sized = s.sized;
        rated = s.rated;
        filled =
            ap (λ z. int64 (z -ℤ pos n)) s.filled
            ∙ sub64_pos s.left n some_left (omega (arith, room));
        fits = omega (arith, s.fits);
        since = s.since;
        by_end = s.by_end;
        counted =
            ap (λ z. int64 (z +ℤ pos n)) (same ∙ s.counted) ∙ add64_pos g n (omega (arith, room));
        within = omega (arith, s.within);
      }

  -- Counting a call that is refused.
  refused :
      (g : ℕ) (b : TokenBucketLimiter) (st : LimiterStats) (s : Spent c r start end g b)
      → st.allowed_requests ≡ b.stats.allowed_requests
      → Spent c r start end (g + 0) (record b { stats = st })
  refused g b st s same = record {
    left = s.left;
    sized = s.sized;
    rated = s.rated;
    filled = s.filled;
    fits = s.fits;
    since = s.since;
    by_end = s.by_end;
    counted = same ∙ s.counted ∙ ap pos (omega arith);
    within = omega (arith, s.within);
  }

  abbrev After : ℕ → ℕ × TokenBucketLimiter → Type 0
  After g (k, b) = Spent c r start end (g + k) b

  call-Spent :
      (g : ℕ) (k : Call) (b : TokenBucketLimiter)
      → IsBy end k
      → Spent c r start end g b
      → After g (call k b)
  unfolding call allow_n spend reserve book
  call-Spent g (asks (negsuc n) now) b by s0 = absurd by
  call-Spent g (asks (pos n) now) b by s0 =
      let s = refill-Spent g now b by s0 in
      elim (Bool-cases (leb_ℤ (pos n) (refill now b).tokens)) [
        | inl enough ↦
            rw enough
              (taken g n (refill now b) (count_total (pos n) (refill now b).stats) s refl enough)
        | inr few ↦ rw few (
            refused g (refill now b)
              (count_dropped (pos n) (count_total (pos n) (refill now b).stats)) s refl)
      ]
  call-Spent g (reserves now) b by s0 =
      let s = refill-Spent g now b by s0 in
      elim (Bool-cases (leb_ℤ (pos 1) (refill now b).tokens)) [
        | inl enough ↦ rw enough (taken g 1 (refill now b) (refill now b).stats s refl enough)
        | inr few ↦ rw few (elim (Bool-cases (eqb_ℤ (refill now b).rate (pos 0))) [
          | inl still ↦ rw still (refused g (refill now b) (refill now b).stats s refl)
          | inr runs ↦
              rw runs (refused g (refill now b) (count_dropped (pos 1) (refill now b).stats) s refl)
        ])
      ]

  run-Spent :
      (g : ℕ) (cs : List Call) (b : TokenBucketLimiter)
      → AllBy end cs
      → Spent c r start end g b
      → After g (run cs b)
  unfolding run
  run-Spent g [] b by s = subst (λ m. Spent c r start end m b) (omega arith) s
  run-Spent g (k ∷ cs) b by s =
      let (n, b') = call k b in
      let (m, b'') = run cs b' in
      subst (λ t. Spent c r start end t b'') (omega arith)
        (run-Spent (g + n) cs b' by.1 (call-Spent g k b by.0 s))

-- The events let through and the state, when the clock has moved from `start` to `end` at most.
abbrev pub Metered : ℕ → ℕ → ℕ → ℕ × TokenBucketLimiter → Type 0
Metered c r span (g, b) =
    (g * second ≤ c * second + r * span)
    × (b.stats.allowed_requests ≡ pos g)
    × ((left : ℕ) × (b.tokens ≡ pos left) × (left ≤ c))

-- A new token bucket of capacity `c` and rate `r`, as long as `c` and the rate times the time stay
-- within an int64, lets through at most `c` events and `r` for every second that the clock has moved on,
-- in any sequence of Reserve and of AllowN of numbers that are not negative, whichever way the clock
-- reads between; its statistics count just these, and its tokens stay between 0 and `c`.
pub run-Metered :
    (c r start end : ℕ) (cs : List Call)
    → c + r * (end - start) < 2 ^ 63
    → start ≤ end
    → AllBy end cs
    → Metered c r (end - start) (run cs (new_token_bucket_limiter (pos c) (pos r) start))
unfolding new_token_bucket_limiter
run-Metered c r start end cs small order by =
    let made : Spent c r start end 0 (new_token_bucket_limiter (pos c) (pos r) start) = record {
      left = c;
      sized = refl;
      rated = refl;
      filled = refl;
      fits = omega arith;
      since = omega arith;
      by_end = order;
      counted = refl;
      within = omega arith;
    } in
    let (g, b) = run cs (new_token_bucket_limiter (pos c) (pos r) start) in
    let s =
      run-Spent c r start end small 0 cs (new_token_bucket_limiter (pos c) (pos r) start) by made in
    let part = mul_mono r (b.last_refill - start) (end - start) (omega (arith, s.by_end)) in
    (omega (arith, s.within, part), s.counted ∙ ap pos (omega arith), (s.left, s.filled, s.fits))
