-- ===== src/Launch/Admission.antt =====
-- What one launch may cost, and the refusal of a launch that would wait too long (launchLimits,
-- requestLimits, restartLimits, launchFailure, admit and envSlots of cork/launch.go).
pub mod Decision
use challenge_orchestrator.Common.{
  ℕ, max, String, Bool, true, false, not, ◌&&◌, ◌||◌, Option, none, some, str_eq, ltb, leb, ◌==◌,
  if◌then◌else◌,
}
use challenge_orchestrator.Common.Int.{ℤ, pos, negsuc, leb_ℤ}
use challenge_orchestrator.Errors.{
  Err, worker_busy, worker_unreachable, is_worker_busy, is_worker_unreachable, is_deadline,
}
use challenge_orchestrator.Launch.Queue.{expected_wait}
use challenge_orchestrator.Worker.Timing.{
  Timing, timing, restart_pull_timeout, Setting, unset, unparsable, parsed,
}
use challenge_orchestrator.Worker.Fleet.{Fleet, daemon_queue}
use challenge_orchestrator.Worker.Fleet

-- A wait of zero is as long as it takes.
pub record LaunchLimits : Type 0 where
  pub slot_wait : ℕ
  pub pull_timeout : ℕ
  pub images_ensured : Bool
  pub restart : Bool
  pub ensured_image_wait : ℕ
  pub ensured_pulled : Bool

unfoldable pub request_limits : Timing → LaunchLimits
unfolding timing
request_limits t = record {
  slot_wait = (timing t).launch_wait;
  pull_timeout = (timing t).pull_timeout;
  images_ensured = false;
  restart = false;
  ensured_image_wait = 0;
  ensured_pulled = false;
}

unfoldable pub restart_limits : Timing → LaunchLimits
unfolding timing
restart_limits t = record {
  slot_wait = 0;
  pull_timeout = max restart_pull_timeout (timing t).pull_timeout;
  images_ensured = false;
  restart = true;
  ensured_image_wait = 0;
  ensured_pulled = false;
}

-- `none` is admission.
unfoldable pub admit : Fleet → String → LaunchLimits → Option Err
admit f worker limits =
    if limits.slot_wait == 0
    then none
    else let (expected, waiting) = expected_wait (daemon_queue f worker) in
      if leb_ℤ expected (pos limits.slot_wait) then none else some worker_busy

-- What the platform is told of a launch that failed on `worker` with an error.
reclassify : Fleet → String → Err → Err
reclassify f worker err =
    if str_eq worker "" || is_worker_unreachable err
    then err
    else if Fleet.worker_unreachable f worker
    then worker_unreachable
    else if is_deadline err && not (is_worker_busy err)
    then worker_busy
    else err

unfoldable pub launch_failure : Fleet → String → Option Err → Option Err
unfolding reclassify
launch_failure f worker none = none
launch_failure f worker (some err) = some (reclassify f worker err)

-- n < 1 || n > 16 keeps the default.
unfoldable pub env_slots : Setting → ℕ → ℕ
env_slots unset def = def
env_slots unparsable def = def
env_slots (parsed (negsuc n)) def = def
env_slots (parsed (pos n)) def = if ltb n 1 || ltb 16 n then def else n
