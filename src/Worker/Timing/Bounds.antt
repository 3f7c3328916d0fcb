-- ===== src/Worker/Timing/Bounds.antt =====
-- Whatever the environment holds, the tunables fit together.
use challenge_orchestrator.Common.{ℕ, ◌≤◌, ◌<◌, arith}
use challenge_orchestrator.Worker.Timing.{
  Timing, Overrides, Setting, env_duration, env_count, overridden, floored, clamped,
  clamp_probe_timeout, deepened, worker_timing_from_env, min_poll_interval, default_worker_timing,
}

env_duration_pos : (s : Setting) (d : ℕ) → 0 < d → 0 < env_duration s d
unfolding env_duration
env_duration_pos s d h = ground arith

env_count_pos : (s : Setting) (d : ℕ) → 0 < d → 0 < env_count s d
unfolding env_count
env_count_pos s d h = ground arith

-- What every poller relies on.
pub record IsSane (t : Timing) : Type 0 where
  pub floor : min_poll_interval ≤ t.poll_interval
  pub poll_fits : t.poll_timeout < t.poll_interval
  pub poll_bounded : 0 < t.poll_timeout
  pub ping_fits : t.ping_timeout < t.poll_interval
  pub ping_bounded : 0 < t.ping_timeout
  pub deep_fits : t.poll_interval ≤ t.deep_probe_interval
  pub misses : 0 < t.max_misses
  pub loads : 0 < t.load_misses
  pub healthy : 0 < t.healthy_threshold
  pub backoff : 0 < t.recover_backoff
  pub control : 0 < t.control_timeout
  pub stalls : 0 < t.timeouts_to_eject
  pub window : 0 < t.timeout_window

-- What holds of the overridden defaults before the fields are fitted to one another.
record IsPositive (t : Timing) : Type 0 where
  poll_bounded : 0 < t.poll_timeout
  ping_bounded : 0 < t.ping_timeout
  misses : 0 < t.max_misses
  loads : 0 < t.load_misses
  healthy : 0 < t.healthy_threshold
  backoff : 0 < t.recover_backoff
  control : 0 < t.control_timeout
  stalls : 0 < t.timeouts_to_eject
  window : 0 < t.timeout_window

overridden-IsPositive : (o : Overrides) → IsPositive (overridden o default_worker_timing)
unfolding overridden
overridden-IsPositive o = record {
  poll_bounded = env_duration_pos o.poll_timeout _ (omega arith);
  ping_bounded = env_duration_pos o.ping_timeout _ (omega arith);
  misses = env_count_pos o.max_misses _ (omega arith);
  loads = env_count_pos o.load_misses _ (omega arith);
  healthy = env_count_pos o.healthy_threshold _ (omega arith);
  backoff = env_duration_pos o.recover_backoff _ (omega arith);
  control = env_duration_pos o.control_timeout _ (omega arith);
  stalls = env_count_pos o.timeouts_to_eject _ (omega arith);
  window = env_duration_pos o.timeout_window _ (omega arith);
}

fitted-IsSane : (t : Timing) → IsPositive t → IsSane (deepened (clamped (floored t)))
unfolding deepened clamped floored clamp_probe_timeout
fitted-IsSane t v = ground arith

-- Whatever the variables hold, the poll interval is at least its floor, both probe timeouts are
-- positive and below it, the deep probe is no more frequent, and no count, backoff or window of the
-- probes is zero.
pub worker_timing_from_env-IsSane : (o : Overrides) → IsSane (worker_timing_from_env o)
unfolding worker_timing_from_env
worker_timing_from_env-IsSane o = fitted-IsSane _ (overridden-IsPositive o)
