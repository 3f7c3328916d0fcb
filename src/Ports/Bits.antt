-- ===== src/Ports/Bits.antt =====
-- One bit of a machine word, as `word | (1 << i)` sets it and `word & (1 << i)` tests it.
use Prim.Native.Nat.{min, max, digits, bitwise, bit_and, bit_or, bit_and-bitwise, bit_or-bitwise}
use native.Mathlib.Nat.{pow-suc}
use challenge_orchestrator.Common.{
  ℕ, zero, suc, ◌+◌, ◌*◌, ◌/◌, ◌%◌, ◌^◌, ◌≤◌, ◌==◌, ◌≡◌, refl, ap, true, false, if◌then◌else◌,
  arith,
}

-- Two counts of digits that both suffice for the first number give the same result.
module _ (past : ℕ → ℕ) (join : ℕ → ℕ → ℕ) where
  digits_enough :
      (count count' a b : ℕ)
      → a ≤ count
      → a ≤ count'
      → digits past join count a b ≡ digits past join count' a b
  digits_enough zero zero a b p q = refl
  digits_enough (suc count) zero zero b p q = refl
  digits_enough (suc count) zero (suc a) b p q = absurd (omega arith)
  digits_enough zero (suc count') zero b p q = refl
  digits_enough zero (suc count') (suc a) b p q = absurd (omega arith)
  digits_enough (suc count) (suc count') zero b p q = refl
  digits_enough (suc count) (suc count') (suc a) b p q =
      let ih = digits_enough count count' (suc a / 2) (b / 2) (omega arith) (omega arith) in
      ap (λ (t : ℕ). t * 2 + join (suc a % 2) (b % 2)) ih

  bitwise_step :
      (a b : ℕ)
      → bitwise past join (suc a) b
        ≡ bitwise past join (suc a / 2) (b / 2) * 2 + join (suc a % 2) (b % 2)
  bitwise_step a b =
      let half = digits_enough a (suc a / 2) (suc a / 2) (b / 2) (omega arith) (omega arith) in
      ap (λ (t : ℕ). t * 2 + join (suc a % 2) (b % 2)) half

-- The lowest digit of each operation apart from the others.
or_low : (a b : ℕ) → bit_or a b ≡ bit_or (a / 2) (b / 2) * 2 + max (a % 2) (b % 2)
or_low zero b = omega (arith, bit_or-bitwise 0 b, bit_or-bitwise 0 (b / 2))
or_low (suc a) b = omega (
  arith,
  bit_or-bitwise (suc a) b,
  bit_or-bitwise (suc a / 2) (b / 2),
  bitwise_step (λ y. y) max a b,
)

and_low : (a b : ℕ) → bit_and a b ≡ bit_and (a / 2) (b / 2) * 2 + min (a % 2) (b % 2)
and_low zero b = omega (arith, bit_and-bitwise 0 b, bit_and-bitwise 0 (b / 2))
and_low (suc a) b = omega (
  arith,
  bit_and-bitwise (suc a) b,
  bit_and-bitwise (suc a / 2) (b / 2),
  bitwise_step (λ y. 0) min a b,
)

and_zero_below : (bound a : ℕ) → a ≤ bound → bit_and a 0 ≡ 0
and_zero_below bound zero h = bit_and-bitwise 0 0
and_zero_below zero (suc a) h = absurd (omega arith)
and_zero_below (suc bound) (suc a) h =
    omega (arith, and_low (suc a) 0, and_zero_below bound (suc a / 2) (omega arith))

and_zero : (a : ℕ) → bit_and a 0 ≡ 0
and_zero a = and_zero_below a a (omega arith)

or_zero_below : (bound a : ℕ) → a ≤ bound → bit_or a 0 ≡ a
or_zero_below bound zero h = bit_or-bitwise 0 0
or_zero_below zero (suc a) h = absurd (omega arith)
or_zero_below (suc bound) (suc a) h =
    omega (arith, or_low (suc a) 0, or_zero_below bound (suc a / 2) (omega arith))

or_zero : (a : ℕ) → bit_or a 0 ≡ a
or_zero a = or_zero_below a a (omega arith)

-- A bit above the lowest one is a bit of the half.
half_power : (i : ℕ) → 2 ^ suc i / 2 ≡ 2 ^ i
half_power i = omega (arith, pow-suc 2 i)

and_above : (w i : ℕ) → bit_and w (2 ^ suc i) ≡ bit_and (w / 2) (2 ^ i) * 2
and_above w i =
    omega (arith, and_low w (2 ^ suc i), pow-suc 2 i, ap (bit_and (w / 2)) (half_power i))

and_lowest : (w : ℕ) → bit_and w (2 ^ 0) ≡ w % 2
and_lowest w = omega (arith, and_low w 1, and_zero (w / 2))

or_above : (w i : ℕ) → bit_or w (2 ^ suc i) ≡ bit_or (w / 2) (2 ^ i) * 2 + w % 2
or_above w i = omega (arith, or_low w (2 ^ suc i), pow-suc 2 i, ap (bit_or (w / 2)) (half_power i))

or_lowest : (w : ℕ) → bit_or w (2 ^ 0) ≡ w / 2 * 2 + 1
or_lowest w = omega (arith, or_low w 1, or_zero (w / 2))

or_above_half : (w i : ℕ) → bit_or w (2 ^ suc i) / 2 ≡ bit_or (w / 2) (2 ^ i)
or_above_half w i = omega (arith, or_above w i)

or_lowest_half : (w : ℕ) → bit_or w (2 ^ 0) / 2 ≡ w / 2
or_lowest_half w = omega (arith, or_lowest w)

-- A word with one more bit set reads as before at every other bit.
pub and-or_bit :
    (w i j : ℕ)
    → (bit_and (bit_or w (2 ^ i)) (2 ^ j) == 0) ≡ (if i == j then false else bit_and w (2 ^ j) == 0)
and-or_bit w zero zero = ground (arith, and_lowest (bit_or w (2 ^ 0)), or_lowest w)
and-or_bit w zero (suc j) = ground (
  arith,
  and_above (bit_or w (2 ^ 0)) j,
  and_above w j,
  ap (λ (t : ℕ). bit_and t (2 ^ j)) (or_lowest_half w),
)
and-or_bit w (suc i) zero =
    ground (arith, and_lowest (bit_or w (2 ^ suc i)), and_lowest w, or_above w i)
and-or_bit w (suc i) (suc j) = ground (
  arith,
  and_above (bit_or w (2 ^ suc i)) j,
  and_above w j,
  and-or_bit (w / 2) i j,
  ap (λ (t : ℕ). bit_and t (2 ^ j)) (or_above_half w i),
)

pub and-zero_bit : (j : ℕ) → (bit_and 0 (2 ^ j) == 0) ≡ true
and-zero_bit j = ground (arith, bit_and-bitwise 0 (2 ^ j))
