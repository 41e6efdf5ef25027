-- ===== src/Base/Bits.antt =====
-- `&` on the native numbers from its recursion on binary digits: masks of low bits, and bounds.
use Prim.Native.Nat.{
  ℕ, zero, suc, ◌+◌, ◌-◌, ◌*◌, ◌/◌, ◌%◌, ◌^◌, ◌≤◌, ◌<◌, min, bit_and, digits, bit_and-bitwise,
}
use mathlib.Core.Path.{◌≡◌, refl, sym, ap, ◌∙◌}
use native.Mathlib.Nat.{pow-suc, one-le-pow, div-div-eq-div-mul}
use mathlib.Core.Logic.{◌↔◌}
use native.Mathlib.Omega.{arith}

-- The recursion that `bit_and` stands for, with `fuel` digits at most.
abbrev and_upto : ℕ → ℕ → ℕ → ℕ
and_upto fuel = digits (λ _. zero) min fuel

zero-and_upto : (fuel b : ℕ) → and_upto fuel zero b ≡ 0
zero-and_upto zero b = refl
zero-and_upto (suc fuel) b = refl

-- Any two amounts that reach the first number give one result.
and_upto_enough : (f a b g : ℕ) → (a ≤ f) × (a ≤ g) → and_upto f a b ≡ and_upto g a b
and_upto_enough f zero b g h = zero-and_upto f b ∙ sym (zero-and_upto g b)
and_upto_enough zero (suc a) b g h = absurd (omega arith)
and_upto_enough (suc f) (suc a) b zero h = absurd (omega arith)
and_upto_enough (suc f) (suc a) b (suc g) h =
    let halved = and_upto_enough f (suc a / 2) (b / 2) g (omega arith, omega arith) in
    omega (arith, halved)

pub zero-bit_and : (b : ℕ) → bit_and 0 b ≡ 0
zero-bit_and = bit_and-bitwise 0

-- The last digits of `a` and `b` give the last digit of `bit_and a b`.
bit_and_halves : (a b : ℕ) → bit_and a b ≡ bit_and (a / 2) (b / 2) * 2 + min (a % 2) (b % 2)
bit_and_halves zero b = omega (arith, zero-bit_and b, zero-bit_and (b / 2))
bit_and_halves (suc n) b =
    let a : ℕ = suc n in
    let enough = and_upto_enough n (a / 2) (b / 2) (a / 2) (omega arith, omega arith) in
    omega (arith, enough, bit_and-bitwise a b, bit_and-bitwise (a / 2) (b / 2))

bit_and-zero_below : (n a : ℕ) → a ≤ n → bit_and a 0 ≡ 0
bit_and-zero_below n zero h = zero-bit_and 0
bit_and-zero_below zero (suc a) h = absurd (omega arith)
bit_and-zero_below (suc n) (suc a) h =
    omega (arith, bit_and_halves (suc a) 0, bit_and-zero_below n (suc a / 2) (omega arith))

pub bit_and-zero : (a : ℕ) → bit_and a 0 ≡ 0
bit_and-zero a = bit_and-zero_below a a (omega arith)

scale_suc : (q k : ℕ) → q * 2 ^ suc k ≡ 2 * (q * 2 ^ k)
scale_suc q k = omega (arith, ap (λ (t : ℕ). q * t) (pow-suc 2 k))

low_of_parts : (k q r : ℕ) → r < 2 ^ k → bit_and (q * 2 ^ k + r) (2 ^ k - 1) ≡ r
low_of_parts zero q r h = omega (arith, bit_and-zero (q * 2 ^ 0 + r))
low_of_parts (suc k) q r h = ground (
  arith,
  bit_and_halves (q * 2 ^ suc k + r) (2 ^ suc k - 1),
  scale_suc q k,
  pow-suc 2 k,
  one-le-pow k 2,
  low_of_parts k q (r / 2) (omega (arith, pow-suc 2 k)),
)

-- `a & ((1 << k) - 1)` is the remainder by `2 ** k`.
pub bit_and_low : (k a : ℕ) → bit_and a (2 ^ k - 1) ≡ a % 2 ^ k
bit_and_low k a = ground (arith, one-le-pow k 2, low_of_parts k (a / 2 ^ k) (a % 2 ^ k))

-- Digit `i` of a number, from 0 at the end.
abbrev pub bit : ℕ → ℕ → ℕ
bit i a = a / 2 ^ i % 2

bit-suc : (i a : ℕ) → bit (suc i) a ≡ bit i (a / 2)
bit-suc i a =
    ap (λ (t : ℕ). t % 2)
      (ap (λ (t : ℕ). a / t) (omega (arith, pow-suc 2 i)) ∙ sym (div-div-eq-div-mul a 2 (2 ^ i)))

within_digits : (i a b : ℕ) → bit_and a b ≡ a → bit i a ≤ bit i b
within_digits zero a b h = omega (arith, bit_and_halves a b)
within_digits (suc i) a b h =
    let half = within_digits i (a / 2) (b / 2) (omega (arith, bit_and_halves a b)) in
    rw (bit-suc i a, bit-suc i b) half

digits_within : (n a b : ℕ) → a ≤ n → ((i : ℕ) → bit i a ≤ bit i b) → bit_and a b ≡ a
digits_within n zero b small h = zero-bit_and b
digits_within zero (suc a) b small h = absurd (omega arith)
digits_within (suc n) (suc a) b small h =
    let half =
      digits_within n (suc a / 2) (b / 2) (omega arith)
        (λ i. rw (← bit-suc i (suc a), ← bit-suc i b) (h (suc i))) in
    omega (arith, bit_and_halves (suc a) b, half, h 0)

-- `a & b == a` says that every digit 1 of `a` is a digit 1 of `b`.
pub bit_and_within : (a b : ℕ) → (bit_and a b ≡ a) ↔ ((i : ℕ) → bit i a ≤ bit i b)
bit_and_within a b = (λ h i. within_digits i a b h, digits_within a a b (omega arith))
