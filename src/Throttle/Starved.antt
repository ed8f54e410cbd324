-- ===== src/Throttle/Starved.antt =====
-- A bucket that is asked again and again.
use emberengine.Prelude.{
  ℕ, ◌+◌, ◌-◌, ◌*◌, ◌/◌, ◌^◌, ◌≤◌, ◌<◌, ◌≡◌, refl, ap, ◌∙◌, List, [], ◌∷◌, ltb, if◌then◌else◌,
  arith, Bool-cases, inl, inr, true, false,
}
use emberengine.Prelude.Int.{pos, negsuc, pos_part, ◌+ℤ◌, min_ℤ, leb_ℤ, eqb_ℤ, int64}
use emberengine.Throttle.{
  second, TokenBucketLimiter, tokens_to_add, refill, spend, allow_n, book, reserve,
}
use emberengine.Throttle.Calls.{Call, asks, reserves, clock, call, run}
use emberengine.Throttle.Refill.{refilled}

abbrev pub wanted : Call → ℕ
wanted (asks n now) = pos_part n
wanted (reserves now) = 1

-- Every call wants more than `k`, and comes before a token has been made since the clock read before.
abbrev pub Polled : ℕ → ℕ → ℕ → List Call → Type 0
Polled k r last [] = Unit
Polled k r last (c ∷ cs) =
    (k < wanted c)
    × (r * (clock c - last) < second)
    × Polled k r (if ltb last (clock c) then clock c else last) cs

-- A bucket with `k` tokens, last filled at `last`.
pub record Low (c k r last : ℕ) (b : TokenBucketLimiter) : Type 0 where
  pub sized : b.capacity ≡ pos c
  pub rated : b.rate ≡ pos r
  pub filled : b.tokens ≡ pos k
  pub at_last : b.last_refill ≡ last

module _ (c k r : ℕ) (fits : k ≤ c) (small : c + second < 2 ^ 63) where
  refill-Low :
      (last now : ℕ) (b : TokenBucketLimiter)
      → r * (now - last) < second
      → Low c k r last b
      → Low c k r (if ltb last now then now else last) (refill now b)
  unfolding refill
  refill-Low last now b quick l = elim (Bool-cases (ltb last now)) [
    | inr old ↦
        let here : ltb b.last_refill now ≡ false = ap (λ t. ltb t now) l.at_last ∙ old in
        rw (here, old) l
    | inl later ↦
        let here : ltb b.last_refill now ≡ true = ap (λ t. ltb t now) l.at_last ∙ later in
        let none_made : r * (now - last) / second ≡ 0 = omega arith in
        rw (here, later)
          (record {
            sized = l.sized;
            rated = l.rated;
            filled =
                ap (λ z. min_ℤ z (int64 (b.tokens +ℤ tokens_to_add (now - b.last_refill) b.rate)))
                  l.sized
                ∙ ap (λ z. min_ℤ (pos c) (int64 (z +ℤ tokens_to_add (now - b.last_refill) b.rate)))
                    l.filled
                ∙ ap (λ z. min_ℤ (pos c) (int64 (pos k +ℤ tokens_to_add (now - b.last_refill) z)))
                    l.rated
                ∙ ap (λ z. min_ℤ (pos c) (int64 (pos k +ℤ tokens_to_add (now - z) (pos r))))
                    l.at_last
                ∙ refilled c k (now - last) r fits (omega arith)
                ∙ ap pos (ground (arith, none_made));
            at_last = refl;
          })
  ]

  abbrev Refused : ℕ → ℕ × TokenBucketLimiter → Type 0
  Refused last (g, b) = (g ≡ 0) × Low c k r last b

  call-Refused :
      (last : ℕ) (q : Call) (b : TokenBucketLimiter)
      → k < wanted q
      → r * (clock q - last) < second
      → Low c k r last b
      → Refused (if ltb last (clock q) then clock q else last) (call q b)
  unfolding call allow_n spend reserve book
  call-Refused last (asks (negsuc n) now) b more quick l0 = absurd (omega (arith, more))
  call-Refused last (asks (pos n) now) b more quick l0 =
      let l = refill-Low last now b quick l0 in
      let few : leb_ℤ (pos n) (refill now b).tokens ≡ false =
        ap (leb_ℤ (pos n)) l.filled ∙ ground arith in
      rw few
        (refl, record { sized = l.sized; rated = l.rated; filled = l.filled; at_last = l.at_last })
  call-Refused last (reserves now) b more quick l0 =
      let l = refill-Low last now b quick l0 in
      let few : leb_ℤ (pos 1) (refill now b).tokens ≡ false =
        ap (leb_ℤ (pos 1)) l.filled ∙ ground arith in
      rw few (elim (Bool-cases (eqb_ℤ (refill now b).rate (pos 0))) [
        | inl still ↦ rw still (refl, l)
        | inr runs ↦ rw runs (
          refl,
          record { sized = l.sized; rated = l.rated; filled = l.filled; at_last = l.at_last },
        )
      ])

  -- A bucket that has fewer tokens than every call wants, and is called again each time before the time
  -- of one token has passed, lets nothing through and makes no token, however long this goes on.
  pub run-Polled :
      (last : ℕ) (cs : List Call) (b : TokenBucketLimiter)
      → Low c k r last b
      → Polled k r last cs
      → ((run cs b).0 ≡ 0) × ((run cs b).1.tokens ≡ pos k)
  unfolding run
  run-Polled last [] b l p = (refl, l.filled)
  run-Polled last (q ∷ cs) b l p =
      let (none_let, l') = call-Refused last q b p.0 p.1 l in
      let (g, t) =
        run-Polled (if ltb last (clock q) then clock q else last) cs (call q b).1 l' p.2 in
      (omega (arith, none_let, g), t)
