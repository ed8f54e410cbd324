-- ===== src/Prelude/Bits.antt =====
-- `x & (2^k - 1)` is `x % 2^k`, for every width: the bitwise modulus of the ring buffers.
use Prim.Native.Nat.{ℕ, zero, suc, ◌+◌, ◌-◌, ◌*◌, ◌/◌, ◌%◌, ◌^◌, ◌≤◌, ◌<◌, ◌∣◌, min}
use Prim.Native.Nat.{bit_and, digits, bit_and-bitwise}
use mathlib.Core.Path.{◌≡◌, refl, ap, subst, ◌∙◌}
use native.Mathlib.Nat.{
  pow-zero, pow-suc, one-le-pow, add-zero, add-suc, dvd-mul_right, mod-mod_of_dvd, mod_self,
}
use native.Mathlib.Decide.{dec_lt}
use native.Mathlib.Omega.{arith}

abbrev low_digits : ℕ → ℕ → ℕ → ℕ
low_digits fuel a b = digits (λ b. zero) min fuel a b

-- The digit recursion reaches the end of `a` whatever fuel above `a` it has.
low_digits_fuel : (f g a b : ℕ) → a ≤ f → a ≤ g → low_digits f a b ≡ low_digits g a b
low_digits_fuel zero zero a b p q = refl
low_digits_fuel zero (suc g) zero b p q = refl
low_digits_fuel zero (suc g) (suc a) b p q = absurd (omega arith)
low_digits_fuel (suc f) zero zero b p q = refl
low_digits_fuel (suc f) zero (suc a) b p q = absurd (omega arith)
low_digits_fuel (suc f) (suc g) zero b p q = refl
low_digits_fuel (suc f) (suc g) (suc a) b p q =
    omega (arith, low_digits_fuel f g (suc a / 2) (b / 2) (omega arith) (omega arith))

bit_and_digit : (a b : ℕ) → bit_and a b ≡ bit_and (a / 2) (b / 2) * 2 + min (a % 2) (b % 2)
bit_and_digit zero b = omega (arith, bit_and-bitwise 0 b, bit_and-bitwise 0 (b / 2))
bit_and_digit (suc a) b = omega (
  arith,
  bit_and-bitwise (suc a) b,
  bit_and-bitwise (suc a / 2) (b / 2),
  low_digits_fuel a (suc a / 2) (suc a / 2) (b / 2) (omega arith) (omega arith),
)

bit_and-zero_below : (n a : ℕ) → a ≤ n → bit_and a 0 ≡ 0
bit_and-zero_below n zero h = refl
bit_and-zero_below zero (suc a) h = absurd (omega arith)
bit_and-zero_below (suc n) (suc a) h =
    omega (arith, bit_and_digit (suc a) 0, bit_and-zero_below n (suc a / 2) (omega arith))

bit_and_split : (k q r : ℕ) → r < 2 ^ k → bit_and (q * 2 ^ k + r) (2 ^ k - 1) ≡ r
bit_and_split zero q r h = ground (arith, bit_and-zero_below (q * 1 + r) (q * 1 + r))
bit_and_split (suc k) q r h = ground (
  arith,
  bit_and_digit (q * 2 ^ suc k + r) (2 ^ suc k - 1),
  ap (λ (t : ℕ). q * t) (pow-suc 2 k),
  pow-suc 2 k,
  bit_and_split k q (r / 2) (omega (arith, pow-suc 2 k)),
)

pub bit_and_mask : (k a : ℕ) → bit_and a (2 ^ k - 1) ≡ a % 2 ^ k
bit_and_mask k a = ground (arith, one-le-pow k 2, bit_and_split k (a / 2 ^ k) (a % 2 ^ k))

pow-add : (b k d : ℕ) → b ^ (k + d) ≡ b ^ k * b ^ d
pow-add b k zero = rw add-zero (omega (arith, ap (λ (t : ℕ). b ^ k * t) (pow-zero b)))
pow-add b k (suc d) = rw add-suc (
    omega (
      arith,
      pow-suc b (k + d),
      ap (λ (t : ℕ). b ^ k * t) (pow-suc b d),
      ap (λ (t : ℕ). t * b) (pow-add b k d),
    ))

pow-dvd-pow : (b k w : ℕ) → k ≤ w → b ^ k ∣ b ^ w
pow-dvd-pow b k w h =
    let e : k + (w - k) ≡ w = omega arith in
    subst (λ t. b ^ k ∣ b ^ t) e (rw (pow-add b k (w - k)) (dvd-mul_right (b ^ k) (b ^ (w - k))))

-- A counter that wraps at a larger power of two addresses the same cell as one that does not.
pub mod_pow-mod_pow : (k w a : ℕ) → k ≤ w → a % 2 ^ w % 2 ^ k ≡ a % 2 ^ k
mod_pow-mod_pow k w a h = mod-mod_of_dvd (2 ^ k) a (pow-dvd-pow 2 k w h)

bit_and_self : (n a : ℕ) → a ≤ n → bit_and a a ≡ a
bit_and_self n zero h = refl
bit_and_self zero (suc a) h = absurd (omega arith)
bit_and_self (suc n) (suc a) h =
    omega (arith, bit_and_digit (suc a) (suc a), bit_and_self n (suc a / 2) (omega arith))

-- The test `c & (c - 1) == 0` of a number that is not 0 finds the powers of two: an odd number
-- above 1 shares a digit with its predecessor, and an even one has the question at its half.
pub pow_of_bit_and-pred : (n c : ℕ) → c ≤ n → 0 < c → bit_and c (c - 1) ≡ 0 → (k : ℕ) × (c ≡ 2 ^ k)
pow_of_bit_and-pred zero c l p e = absurd (omega arith)
pow_of_bit_and-pred (suc n) c l p e = elim (dec_lt c 2) [
  | yes small ↦ (0, omega (arith, pow-zero 2))
  | no big ↦
      let even : c % 2 ≡ 0 = ground (
        arith,
        bit_and_digit c (c - 1),
        bit_and_self c (c / 2) (omega arith),
        ap (λ (t : ℕ). bit_and (c / 2) t) {x = (c - 1) / 2} {y = c / 2},
      ) in
      let halves : bit_and (c / 2) (c / 2 - 1) ≡ 0 = ground (
        arith,
        bit_and_digit c (c - 1),
        ap (λ (t : ℕ). bit_and (c / 2) t) {x = (c - 1) / 2} {y = c / 2 - 1},
      ) in
      let (k, q) = pow_of_bit_and-pred n (c / 2) (omega arith) (omega arith) halves in
      (suc k, omega (arith, pow-suc 2 k))
]

pub bit_and-pred_pow : (k : ℕ) → bit_and (2 ^ k) (2 ^ k - 1) ≡ 0
bit_and-pred_pow k = bit_and_mask k (2 ^ k) ∙ mod_self (2 ^ k)
