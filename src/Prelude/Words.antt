-- ===== src/Prelude/Words.antt =====
-- 64-bit words: a signed or unsigned word is its bit pattern, a number below 2 ^ 64. Arithmetic
-- wraps; a signed order compares the patterns with the sign bit flipped.
use Prim.Native.Nat.{ℕ, ◌+◌, ◌%◌, ◌^◌, ◌<◌}
use mathlib.Core.Bool.{Bool}
use emberengine.Prelude.Tests.{ltb, leb}

abbrev pub word : ℕ → ℕ
word n = n % 2 ^ 64

-- The place of a signed word in the signed order.
abbrev pub signed_key : ℕ → ℕ
signed_key a = (a + 2 ^ 63) % 2 ^ 64

abbrev pub slt : ℕ → ℕ → Bool
slt a b = ltb (signed_key a) (signed_key b)

abbrev pub sle : ℕ → ℕ → Bool
sle a b = leb (signed_key a) (signed_key b)

-- A word that stands for a number that is not negative.
abbrev pub IsNonneg : ℕ → Type 0
IsNonneg a = a < 2 ^ 63
