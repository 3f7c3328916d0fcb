-- ===== src/Common/Rotate.antt =====
-- Going round a circle of `n` places from any start.
use Prim.Native.Nat.{ℕ, ◌+◌, ◌-◌, ◌%◌, ◌<◌}
use mathlib.Core.Path.{◌≡◌, sym, ap, ◌∙◌}
use native.Mathlib.Omega.{arith}
use native.Mathlib.Decide.{dec_le}
use native.Mathlib.Nat.{mod-eq_of_lt, mod-add-mod, add-mod_right, add_assoc}

pub round_bound : (c n : ℕ) → 0 < n → c % n < n
round_bound c n h = grind arith

-- Every place is met within `n` steps.
pub round_covers : (c n m : ℕ) → m < n → (j : ℕ) × (j < n) × ((c + j) % n ≡ m)
round_covers c n m h = elim (dec_le (c % n) m) [
  | yes p ↦ (
    m - c % n,
    omega (arith, round_bound c n),
    sym (mod-add-mod c n (m - c % n)) ∙ ap (λ a. a % n) (omega arith) ∙ mod-eq_of_lt h,
  )
  | no p ↦ (
    m + n - c % n,
    omega (arith, round_bound c n),
    sym (mod-add-mod c n (m + n - c % n))
        ∙ ap (λ a. a % n) (omega (arith, round_bound c n))
        ∙ add-mod_right m n
        ∙ mod-eq_of_lt h,
  )
]

-- A step from the place that `j` steps reach.
pub round_step : (c j n : ℕ) → ((c + j) % n + 1) % n ≡ (c + (j + 1)) % n
round_step c j n = mod-add-mod (c + j) n 1 ∙ ap (λ a. a % n) (add_assoc c j 1)
