-- ===== src/Throttle/Sliding.antt =====
-- What a sliding window lets through.
use emberengine.Prelude.{
  ℕ, ◌+◌, ◌-◌, ◌/◌, ◌^◌, ◌≤◌, ◌<◌, ◌≡◌, refl, sym, ap, ap₂, ◌∙◌, List, [], ◌∷◌, Bool, ltb, leb,
  if◌then◌else◌, arith, Bool-cases, inl, inr,
}
use emberengine.Prelude.Int.{ℤ, pos, negsuc, pos_part, ◌+ℤ◌, leb_ℤ, int64, add64_pos}
use emberengine.Throttle.{
  second, SlidingWindowLimiter, new_sliding_window_limiter, cleanup, get_current_count, add_window,
  admit, allow_n_sliding,
}
use emberengine.Throttle.Windows.{
  Counts, sum_from, lifted, kept, raised, sum-kept, sum_all-kept, sum-raised, cleanup-lifted,
  count-lifted, add-lifted,
}

-- Calls, each the clock that it reads and the number of events; the events let through, newest first.
unfoldable pub slide : List (ℕ × ℤ) → Counts → SlidingWindowLimiter → Counts × SlidingWindowLimiter
slide [] gs w = (gs, w)
slide ((now, n) ∷ cs) gs w =
    let (ok, w') = allow_n_sliding n now w in
    slide cs (if ok then (now, pos_part n) ∷ gs else gs) w'

-- The events of the last `size` nanoseconds before `now`.
abbrev pub recent : ℕ → ℕ → Counts → ℕ
recent size now [] = 0
recent size now ((t, n) ∷ gs) = (if leb (t + size) now then 0 else n) + recent size now gs

-- The clock does not go back nor past `end`, and the numbers are not negative, which AllowN does not
-- refuse, and do not leave the int64.
abbrev pub Ordered : ℕ → ℕ → ℕ → List (ℕ × ℤ) → Type 0
Ordered limit last end [] = Unit
Ordered limit last end ((now, negsuc n) ∷ cs) = ⊥
Ordered limit last end ((now, pos n) ∷ cs) =
    (last ≤ now) × (now ≤ end) × (limit + n < 2 ^ 63) × Ordered limit now end cs

abbrev in_seconds : Counts → Counts
in_seconds [] = []
in_seconds ((t, n) ∷ gs) = (t / second, n) ∷ in_seconds gs

sum_from_mono : (a b : ℕ) (us : Counts) → a ≤ b → sum_from b us ≤ sum_from a us
sum_from_mono a b [] h = omega arith
sum_from_mono a b ((t, n) ∷ us) h = ground (arith, sum_from_mono a b us h)

recent-le :
    (size now cut : ℕ) (gs : Counts)
    → cut ≤ (now - size) / second
    → recent size now gs ≤ sum_from cut (in_seconds gs)
recent-le size now cut [] h = omega arith
recent-le size now cut ((t, n) ∷ gs) h = ground (arith, recent-le size now cut gs h)

-- The windows against the events `gs` let through: they agree from the second `cut` on.
record Slid (limit size cut : ℕ) (gs : Counts) (w : SlidingWindowLimiter) : Type 0 where
  us : Counts
  shows : w.windows ≡ lifted us
  sized : w.window_size ≡ size
  limited : w.limit ≡ pos limit
  same : (at : ℕ) → cut ≤ at → sum_from at us ≡ sum_from at (in_seconds gs)
  whole : sum_from 0 us ≡ sum_from cut us
  bound : sum_from cut (in_seconds gs) ≤ limit

module _ (limit size : ℕ) where
  -- The limiter after `cleanup`.
  abbrev cleaned : SlidingWindowLimiter → ℕ → SlidingWindowLimiter
  cleaned w now = record w { windows = cleanup ((now - w.window_size) / second) w.windows }

  abbrev start_of : ℕ → ℕ
  start_of now = (now - size) / second

  cleaned-Slid :
      (cut now : ℕ) (gs : Counts) (w : SlidingWindowLimiter)
      → cut ≤ start_of now
      → Slid limit size cut gs w
      → Slid limit size (start_of now) gs (cleaned w now)
  cleaned-Slid cut now gs w later s = record {
    us = kept (start_of now) s.us;
    shows =
        ap₂ (λ z l. cleanup ((now - z) / second) l) s.sized s.shows
        ∙ cleanup-lifted (start_of now) s.us;
    sized = s.sized;
    limited = s.limited;
    same = λ at h. sum-kept (start_of now) at s.us h ∙ s.same at (omega arith);
    whole =
        sum_all-kept (start_of now) s.us
        ∙ sym (sum-kept (start_of now) (start_of now) s.us (omega arith));
    bound = omega (arith, sum_from_mono cut (start_of now) (in_seconds gs) later, s.bound);
  }

  abbrev note : ℕ → ℕ → Counts → Bool → Counts
  note now n gs ok = if ok then (now, n) ∷ gs else gs

  abbrev Noted : ℕ → ℕ → Counts → Bool × SlidingWindowLimiter → Type 0
  Noted now n gs (ok, w) = Slid limit size (start_of now) (note now n gs ok) w

  admit-Noted :
      (now n : ℕ) (gs : Counts) (w : SlidingWindowLimiter)
      → Slid limit size (start_of now) gs w
      → limit + n < 2 ^ 63
      → Noted now n gs (admit (pos n) now w)
  unfolding admit
  admit-Noted now n gs w s small =
      let total = sum_from 0 s.us in
      let few : total ≤ limit = omega (arith, s.whole, s.same (start_of now), s.bound) in
      let counted : leb_ℤ (int64 (get_current_count (pos 0) w.windows +ℤ pos n)) w.limit
          ≡ leb (total + n) limit =
        ap (λ l. leb_ℤ (int64 (get_current_count (pos 0) l +ℤ pos n)) w.limit) s.shows
        ∙ ap (λ z. leb_ℤ (int64 (z +ℤ pos n)) w.limit) (count-lifted 0 s.us (omega arith))
        ∙ ap (λ z. leb_ℤ z w.limit) (add64_pos (0 + total) n (omega arith))
        ∙ ap (leb_ℤ (pos (0 + total + n))) s.limited
        ∙ ground arith in
      elim (Bool-cases (leb (total + n) limit)) [
        | inr full ↦
            rw (counted, full)
              (record {
                us = s.us;
                shows = s.shows;
                sized = s.sized;
                limited = s.limited;
                same = s.same;
                whole = s.whole;
                bound = s.bound;
              })
        | inl fits ↦
            rw (counted, fits)
              (record {
                us = raised (now / second) n s.us;
                shows =
                    ap (add_window (now / second) (pos n)) s.shows
                    ∙ add-lifted (now / second) n s.us (omega arith);
                sized = s.sized;
                limited = s.limited;
                same = λ at h.
                    sum-raised at (now / second) n s.us
                    ∙ ap (λ m. (if ltb (now / second) at then 0 else n) + m) (s.same at h);
                whole = ground (
                  arith,
                  s.whole,
                  sum-raised 0 (now / second) n s.us,
                  sum-raised (start_of now) (now / second) n s.us,
                );
                bound = ground (arith, fits, s.whole, s.same (start_of now));
              })
      ]

  slide-Slid :
      (last cut end : ℕ) (cs : List (ℕ × ℤ)) (gs : Counts) (w : SlidingWindowLimiter)
      → Ordered limit last end cs
      → last ≤ end
      → cut ≤ start_of last
      → Slid limit size cut gs w
      → (l c : ℕ) × (l ≤ end)
        × (c ≤ start_of l)
        × Slid limit size c (slide cs gs w).0 (slide cs gs w).1
  unfolding slide allow_n_sliding
  slide-Slid last cut end [] gs w o by early s = (last, cut, by, early, s)
  slide-Slid last cut end ((now, negsuc n) ∷ cs) gs w o by early s = absurd o
  slide-Slid last cut end ((now, pos n) ∷ cs) gs w o by early s =
      let (ok, w') = admit (pos n) now (cleaned w now) in
      slide-Slid now (start_of now) end cs (note now n gs ok) w' o.3 o.1 (omega arith) (
        admit-Noted now n gs (cleaned w now) (cleaned-Slid cut now gs w (omega (arith, o.0)) s) o.2)

-- Whatever calls a new sliding window of a limit that is not negative gets, with a clock that does not
-- go back and numbers that are not negative and, with the limit added, within an int64, the events that
-- it let through in the last `size` nanoseconds before any later time are at most its limit.
pub recent-slide :
    (limit size end : ℕ) (cs : List (ℕ × ℤ))
    → Ordered limit 0 end cs
    → recent size end (slide cs [] (new_sliding_window_limiter size (pos limit))).0 ≤ limit
unfolding new_sliding_window_limiter
recent-slide limit size end cs o =
    let made : Slid limit size 0 [] (new_sliding_window_limiter size (pos limit)) = record {
      us = [];
      shows = refl;
      sized = refl;
      limited = refl;
      same = λ at h. refl;
      whole = refl;
      bound = omega arith;
    } in
    let (l, c, by, early, s) =
      slide-Slid limit size 0 0 end cs [] (new_sliding_window_limiter size (pos limit)) o
        (omega arith) (omega arith) made in
    let gs = (slide cs [] (new_sliding_window_limiter size (pos limit))).0 in
    omega (arith, s.bound, recent-le size end c gs (omega arith))
