-- ===== src/Launch/Queue/Estimate.antt =====
-- The estimate follows the samples, and admission's arithmetic stays in range.
use challenge_orchestrator.Common.{
  ℕ, suc, ◌+◌, ◌-◌, ◌*◌, ◌/◌, ◌^◌, ◌≤◌, ◌<◌, ◌≡◌, min, max, arith, ltb, if◌then◌else◌,
}
use challenge_orchestrator.Common.Int.{pos, wrap64, quot, scale, add, wrap64_small, int64_limit}
use challenge_orchestrator.Launch.Queue.{DaemonQueue, blend, is_zero, record_hold, expected_wait}

add_pos : (a b : ℕ) → add (pos a) (pos b) ≡ pos (a + b)
unfolding add
add_pos a b = ground arith

-- Below 2^61 no step of the blend leaves int64.
pub blend_small :
    (o d : ℕ) → o < 2 ^ 61 → d < 2 ^ 61 → blend (pos o) (pos d) ≡ pos (o * 3 / 4 + d / 4)
unfolding blend
blend_small o d ho hd = simp (
  scale,
  wrap64_small (o * 3) (omega arith),
  quot,
  add_pos,
  wrap64_small (o * 3 / 4 + d / 4) (omega arith),
)

-- For a positive estimate and a sample, both below 2^61 nanoseconds, one release moves the estimate
-- to within rounding of three quarters of the old and one quarter of the sample: never above the
-- larger of the two, and at most 1 below the smaller. Nothing else of the queue changes.
pub record_hold_bounds :
    (q : DaemonQueue) (o d : ℕ)
    → q.hold_nanos ≡ pos (suc o)
    → suc o < 2 ^ 61
    → d < 2 ^ 61
    → (n : ℕ) × (record_hold q (pos d) ≡ record q { hold_nanos = pos n })
      × (4 * n ≤ 3 * suc o + d)
      × (3 * suc o + d ≤ 4 * n + 6)
      × (n ≤ max (suc o) d)
      × (min (suc o) d ≤ n + 1)
unfolding record_hold is_zero
record_hold_bounds q o d e ho hd = (
  suc o * 3 / 4 + d / 4,
  ground (arith, blend_small (suc o) d ho hd),
  omega arith,
  omega arith,
  omega arith,
  omega arith,
)

product_bound : (h k : ℕ) → h < 2 ^ 40 → k < 2 ^ 23 → h * k < int64_limit
product_bound h k hh hk = grind arith

scaled_small :
    (h k s : ℕ) → h < 2 ^ 40 → k < 2 ^ 23 → quot (wrap64 (scale (pos h) k)) s ≡ pos (h * k / s)
unfolding scale quot
scaled_small h k s hh hk = rw (wrap64_small (h * k) (product_bound h k hh hk))

-- For a queue with at least one slot and an estimate `h` below 2^40 nanoseconds with fewer than
-- 2^22 launches waiting or holding a slot, the expected wait is 0 exactly as the code intends: with
-- a slot free, or no estimate; and otherwise it is the estimate times the launches that must finish
-- first, over the slots, with no overflow.
pub expected_wait_exact :
    (q : DaemonQueue) (h : ℕ)
    → q.hold_nanos ≡ pos h
    → 0 < q.slots
    → h < 2 ^ 40
    → q.waiting + q.launch_held < 2 ^ 22
    → expected_wait q ≡ (
        if ltb (q.waiting + q.launch_held) q.slots
        then (pos 0, q.waiting)
        else (pos (h * (q.waiting + q.launch_held - q.slots + 1) / q.slots), q.waiting))
unfolding expected_wait is_zero
expected_wait_exact q h e hs hh hw =
    ground (arith, scaled_small h (q.waiting + q.launch_held - q.slots + 1) q.slots)
