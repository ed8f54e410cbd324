-- ===== src/Throttle/Calls.antt =====
-- Sequences of calls of a token bucket.
use emberengine.Prelude.{ℕ, ◌+◌, ◌≤◌, List, [], ◌∷◌, Bool, Option, none, some, if◌then◌else◌}
use emberengine.Prelude.Int.{ℤ, pos, negsuc, pos_part}
use emberengine.Throttle.{Reservation, TokenBucketLimiter, allow_n, reserve}

-- A call, with the clock that it reads: for so many events, or to reserve one.
pub data Call : Type 0 where
  asks : ℤ → ℕ → Call
  reserves : ℕ → Call

abbrev pub clock : Call → ℕ
clock (asks n now) = now
clock (reserves now) = now

abbrev pub admitted : ℕ → Bool → ℕ
admitted n b = if b then n else 0

abbrev pub booked : Option Reservation → ℕ
booked none = 0
booked (some r) = admitted 1 r.granted

-- The events that a call lets through, none where it asks for a negative number, and the limiter
-- after it.
unfoldable pub call : Call → TokenBucketLimiter → ℕ × TokenBucketLimiter
call (asks n now) b = let (ok, b') = allow_n n now b in (admitted (pos_part n) ok, b')
call (reserves now) b = let (r, b') = reserve now b in (booked r, b')

abbrev pub more : ℕ → ℕ × TokenBucketLimiter → ℕ × TokenBucketLimiter
more g (k, b) = (g + k, b)

-- The events that a sequence of calls lets through.
unfoldable pub run : List Call → TokenBucketLimiter → ℕ × TokenBucketLimiter
run [] b = (0, b)
run (c ∷ cs) b = let (g, b') = call c b in more g (run cs b')

-- The clock reads no later time, and no negative number is asked for, which AllowN does not refuse.
abbrev pub IsBy : ℕ → Call → Type 0
IsBy end (asks (pos n) now) = now ≤ end
IsBy end (asks (negsuc n) now) = ⊥
IsBy end (reserves now) = now ≤ end

abbrev pub AllBy : ℕ → List Call → Type 0
AllBy end [] = Unit
AllBy end (c ∷ cs) = IsBy end c × AllBy end cs
