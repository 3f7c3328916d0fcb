-- ===== src/Launch/Queue.antt =====
-- The launch and teardown slots of one daemon (daemonQueue of cork/workers.go): how many are held,
-- who waits, and the running estimate of how long a launch slot is held.
pub mod Estimate
use challenge_orchestrator.Common.{
  ℕ, suc, ◌+◌, ◌-◌, ◌*◌, ◌/◌, Bool, ◌||◌, Option, none, some, ltb, leb, ◌==◌, if◌then◌else◌,
}
use challenge_orchestrator.Common.Int.{ℤ, pos, negsuc, wrap64, quot, scale, add}
use challenge_orchestrator.Launch.Ring.{LaunchRing, empty_ring}

-- `launch_held` and `teardown_held` are the lengths of the two channels, and `slots` their
-- capacity.
pub record DaemonQueue : Type 0 where
  pub slots : ℕ
  pub launch_held : ℕ
  pub teardown_held : ℕ
  pub waiting : ℕ
  pub teardown_waiting : ℕ
  pub hold_nanos : ℤ
  pub launches : LaunchRing

-- A semaphore size, guarded against a Manager that skipped initDocker.
unfoldable pub slots : ℕ → ℕ
slots n = if ltb n 1 then 1 else n

unfoldable pub new_daemon_queue : ℕ → DaemonQueue
new_daemon_queue n = record {
  slots = n;
  launch_held = 0;
  teardown_held = 0;
  waiting = 0;
  teardown_waiting = 0;
  hold_nanos = pos 0;
  launches = empty_ring;
}

-- old*3/4 + d/4 in int64.
unfoldable pub blend : ℤ → ℤ → ℤ
unfolding wrap64 quot scale add
blend old d = wrap64 (add (quot (wrap64 (scale old 3)) 4) (quot d 4))

is_zero : ℤ → Bool
is_zero (pos n) = n == 0
is_zero (negsuc n) = Bool.false

unfoldable pub record_hold : DaemonQueue → ℤ → DaemonQueue
unfolding is_zero
record_hold q d =
    if is_zero q.hold_nanos
    then record q { hold_nanos = d }
    else record q { hold_nanos = blend q.hold_nanos d }

-- hold * (ahead-slots+1) / slots in int64, with the number of waiting launches.
unfoldable pub expected_wait : DaemonQueue → ℤ × ℕ
unfolding is_zero
expected_wait q =
    let ahead = q.waiting + q.launch_held in
    if is_zero q.hold_nanos || ltb ahead q.slots
    then (pos 0, q.waiting)
    else (quot (wrap64 (scale q.hold_nanos (ahead - q.slots + 1))) q.slots, q.waiting)
