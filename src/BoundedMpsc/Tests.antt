-- ===== src/BoundedMpsc/Tests.antt =====
-- The bounded queue at concrete inputs: a queue of four slots whose content wraps around.
use emberengine.Prelude.{ℕ, zero, suc, ◌≡◌, ◌≤◌, ◌^◌, ap, ◌⊎◌, inl, inr, refl, List, [], ◌∷◌, arith}
use emberengine.Prelude.Int.{pos, pos_part}
use emberengine.Fifo
use emberengine.Fifo.{Op, put, get}
use emberengine.BoundedMpsc.{Queue, made, new, make_queue}
use emberengine.BoundedMpsc.Bounds.{IsValid}
use emberengine.BoundedMpsc.Refine.{run, run_refines}

abbrev fresh : Queue ℕ
fresh = record { buffer = 0 ∷ 0 ∷ 0 ∷ 0 ∷ []; mask = 3; head = 0; tail = 0; count = 0 }

-- The numbers 7, 8 and 9, of which the last two have wrapped.
abbrev wrapped : Queue ℕ
wrapped = record { buffer = 8 ∷ 9 ∷ 0 ∷ 7 ∷ []; mask = 3; head = 3; tail = 6; count = 3 }

wrapped-IsValid : IsValid 2 wrapped
wrapped-IsValid = record {
  at_least_two = omega arith;
  fits_int = omega arith;
  sized = refl;
  masked = refl;
  head_word = omega arith;
  ahead = refl;
  within = omega arith;
}

abbrev script : List (Op ℕ)
script = put 5 ∷ put 6 ∷ get ∷ get ∷ get ∷ get ∷ get ∷ []

run_refines_example : run 0 wrapped script ≡ Fifo.run 4 (7 ∷ 8 ∷ 9 ∷ []) script
run_refines_example = run_refines 0 script wrapped-IsValid

made_four : new 0 (pos 4) ≡ made fresh
unfolding new make_queue
made_four = refl

pos-inj : (a b : ℕ) → pos a ≡ pos b → a ≡ b
pos-inj a b e = ap pos_part e

small_pow : (k : ℕ) → k ≤ 2 → (2 ^ k ≡ 1) ⊎ ((2 ^ k ≡ 2) ⊎ (2 ^ k ≡ 4))
small_pow zero h = inl refl
small_pow (suc zero) h = inr (inl refl)
small_pow (suc (suc zero)) h = inr (inr refl)
small_pow (suc (suc (suc k))) h = absurd (omega arith)
