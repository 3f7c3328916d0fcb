-- ===== src/Common/Int.antt =====
-- Go's int64 and time.Duration: integers over the native numbers, with the wrap-around of 64 bits.
use challenge_orchestrator.Common.Tests.{ltb, leb, if◌then◌else◌}
use Prim.Native.Nat.{ℕ, suc, ◌+◌, ◌-◌, ◌*◌, ◌/◌, ◌%◌, ◌^◌, ◌≤◌, ◌<◌}
use mathlib.Core.Path.{◌≡◌}
use mathlib.Core.Bool.{Bool}
use native.Mathlib.Omega.{arith}

-- `negsuc n` is -(n + 1).
pub data ℤ : Type 0 where
  pos : ℕ → ℤ
  negsuc : ℕ → ℤ

abbrev pub pos_part : ℤ → ℕ
pos_part (pos n) = n
pos_part (negsuc n) = 0

abbrev pub neg_part : ℤ → ℕ
neg_part (pos n) = 0
neg_part (negsuc n) = suc n

-- a - b, as an integer.
abbrev pub sub_ℕ : ℕ → ℕ → ℤ
sub_ℕ a b = if leb b a then pos (a - b) else negsuc (b - a - 1)

infix 50 ◌≤ℤ◌
abbrev pub ◌≤ℤ◌ : ℤ → ℤ → Type 0
a ≤ℤ b = pos_part a + neg_part b ≤ pos_part b + neg_part a

abbrev pub leb_ℤ : ℤ → ℤ → Bool
leb_ℤ a b = leb (pos_part a + neg_part b) (pos_part b + neg_part a)

abbrev pub int64_modulus : ℕ
int64_modulus = 2 ^ 64

abbrev pub int64_limit : ℕ
int64_limit = 2 ^ 63

-- The int64 with the given 64 bits.
abbrev from_bits : ℕ → ℤ
from_bits r = if ltb r int64_limit then pos r else negsuc (int64_modulus - 1 - r)

-- What an int64 computation keeps of an exact result.
unfoldable pub wrap64 : ℤ → ℤ
wrap64 (pos n) = from_bits (n % int64_modulus)
wrap64 (negsuc n) = from_bits (int64_modulus - 1 - n % int64_modulus)

-- Go's division, which rounds towards zero.
unfoldable pub quot : ℤ → ℕ → ℤ
quot (pos a) d = pos (a / d)
quot (negsuc a) d = sub_ℕ 0 (suc a / d)

-- x * k, exact.
unfoldable pub scale : ℤ → ℕ → ℤ
scale (pos a) k = pos (a * k)
scale (negsuc a) k = sub_ℕ 0 (suc a * k)

-- a + b, exact.
unfoldable pub add : ℤ → ℤ → ℤ
add a b = sub_ℕ (pos_part a + pos_part b) (neg_part a + neg_part b)

pub wrap64_small : (n : ℕ) → n < int64_limit → wrap64 (pos n) ≡ pos n
unfolding wrap64
wrap64_small n h = ground arith
