-- ===== src/Launch/Admission/Decision.antt =====
-- Exactly the launches that would wait too long are refused, and a failure is reported as what the
-- platform can act on.
use challenge_orchestrator.Common.{
  ℕ, ◌+◌, ◌-◌, ◌*◌, ◌/◌, ◌^◌, ◌≤◌, ◌<◌, ◌≡◌, ◌≢◌, ◌↔◌, ◌⊎◌, refl, arith, String, none, some, str_eq,
  if◌then◌else◌,
}
use challenge_orchestrator.Common.Int.{pos}
use challenge_orchestrator.Errors.{
  Err, worker_busy, worker_unreachable, is_worker_busy, is_worker_unreachable, is_deadline,
}
use challenge_orchestrator.Launch.Queue.Estimate.{expected_wait_exact}
use challenge_orchestrator.Launch.Admission.{LaunchLimits, admit, launch_failure}
use challenge_orchestrator.Worker.Fleet.{Fleet, daemon_queue}
use challenge_orchestrator.Worker.Fleet

module _ (f : Fleet) (worker : String) (limits : LaunchLimits) (h : ℕ)
    (estimate : (daemon_queue f worker).hold_nanos ≡ pos h)
    (some_slot : 0 < (daemon_queue f worker).slots) (short : h < 2 ^ 40)
    (few : (daemon_queue f worker).waiting + (daemon_queue f worker).launch_held < 2 ^ 22) where
  -- A launch with a bounded wait, on a daemon with at least one slot, an estimate below 2^40
  -- nanoseconds and fewer than 2^22 launches, is admitted exactly if a slot is free or the launches
  -- that must finish first, at the estimated hold time and over the slots together, fit into its
  -- wait. The only refusal is `worker_busy`.
  pub admit_iff :
      0 < limits.slot_wait
      → let q = daemon_queue f worker in
        ((admit f worker limits ≡ none) ↔ (
          (q.waiting + q.launch_held < q.slots)
          ⊎ (h * (q.waiting + q.launch_held - q.slots + 1) / q.slots ≤ limits.slot_wait)))
        × ((admit f worker limits ≡ none) ⊎ (admit f worker limits ≡ some worker_busy))
  unfolding admit
  admit_iff bounded =
      let exact = expected_wait_exact (daemon_queue f worker) h estimate some_slot short few in
      ((λ a. ground (arith, exact), λ b. ground (arith, exact)), ground arith)

-- A launch with no bounded wait, such as every restart, is admitted whatever the queue.
pub admit_restart :
    (f : Fleet) (worker : String) (limits : LaunchLimits)
    → limits.slot_wait ≡ 0
    → admit f worker limits ≡ none
unfolding admit
admit_restart f worker limits e = ground arith

-- A failure on the local daemon is reported as it was; on a worker that has become unreachable as
-- that; a docker call that timed out against a worker that kept its place as busy; and any other
-- failure as it was.
pub launch_failure_lem :
    (f : Fleet) (worker : String) (err : Err)
    → launch_failure f worker (some err)
      ≡ some (
          if str_eq worker ""
          then err
          else if Fleet.worker_unreachable f worker
          then worker_unreachable
          else if is_deadline err
          then worker_busy
          else err)
unfolding launch_failure is_worker_unreachable is_deadline is_worker_busy
launch_failure_lem f worker err = ground arith

pub launch_failure-none : (f : Fleet) (worker : String) → launch_failure f worker none ≡ none
unfolding launch_failure
launch_failure-none f worker = refl

pub some_failure : (f : Fleet) (worker : String) (e : Err) → launch_failure f worker (some e) ≢ none
unfolding launch_failure
some_failure f worker e q = cc
