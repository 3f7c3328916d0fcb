-- ===== src/Worker/Timing.antt =====
-- The worker tunables of cork/workers.go: workerTiming, its defaults and the overrides from the
-- environment. Durations are nanoseconds.
pub mod Bounds
use challenge_orchestrator.Common.{
  ℕ, ◌*◌, ◌/◌, ◌-◌, ◌&&◌, max, Bool, Option, none, some, ltb, leb, ◌==◌, if◌then◌else◌,
}
use challenge_orchestrator.Common.Int.{ℤ, pos, negsuc}

pub record Timing : Type 0 where
  pub poll_interval : ℕ
  pub poll_timeout : ℕ
  pub ping_timeout : ℕ
  pub deep_probe_interval : ℕ
  pub max_misses : ℕ
  pub load_misses : ℕ
  pub healthy_threshold : ℕ
  pub recover_backoff : ℕ
  pub recover_backoff_max : ℕ
  pub ejection_decay : ℕ
  pub control_timeout : ℕ
  pub timeouts_to_eject : ℕ
  pub timeout_window : ℕ
  pub pull_timeout : ℕ
  pub launch_wait : ℕ
  pub teardown_wait : ℕ

abbrev pub millisecond : ℕ
millisecond = 1_000_000

abbrev pub second : ℕ
second = 1_000_000_000

abbrev pub minute : ℕ
minute = 60_000_000_000

abbrev pub min_poll_interval : ℕ
min_poll_interval = 10_000_000

abbrev pub default_worker_timing : Timing
default_worker_timing = record {
  poll_interval = 5 * second;
  poll_timeout = 250 * millisecond;
  ping_timeout = second;
  deep_probe_interval = 30 * second;
  max_misses = 6;
  load_misses = 3;
  healthy_threshold = 2;
  recover_backoff = 10 * second;
  recover_backoff_max = 5 * minute;
  ejection_decay = 5 * minute;
  control_timeout = 30 * second;
  timeouts_to_eject = 3;
  timeout_window = 2 * minute;
  pull_timeout = 30 * second;
  launch_wait = 10 * second;
  teardown_wait = 30 * second;
}

-- What LookupEnv and then strconv.Atoi or time.ParseDuration give for one variable.
pub data Setting : Type 0 where
  unset unparsable : Setting
  parsed : ℤ → Setting

-- v < 1 || err != nil keeps the old value.
unfoldable pub env_count : Setting → ℕ → ℕ
env_count unset n = n
env_count unparsable n = n
env_count (parsed (negsuc v)) n = n
env_count (parsed (pos v)) n = if ltb v 1 then n else v

-- v <= 0 || err != nil keeps the old value.
unfoldable pub env_duration : Setting → ℕ → ℕ
env_duration unset d = d
env_duration unparsable d = d
env_duration (parsed (negsuc v)) d = d
env_duration (parsed (pos v)) d = if leb v 0 then d else v

unfoldable pub clamp_probe_timeout : ℕ → ℕ → ℕ
clamp_probe_timeout d interval = if ltb d interval then d else interval / 2

-- The CORK_WORKER_* variables, named after the fields that they override.
pub record Overrides : Type 0 where
  pub poll_interval : Setting
  pub poll_timeout : Setting
  pub ping_timeout : Setting
  pub deep_probe_interval : Setting
  pub max_misses : Setting
  pub load_misses : Setting
  pub healthy_threshold : Setting
  pub recover_backoff : Setting
  pub recover_backoff_max : Setting
  pub ejection_decay : Setting
  pub control_timeout : Setting
  pub timeouts_to_eject : Setting
  pub timeout_window : Setting
  pub pull_timeout : Setting
  pub launch_wait : Setting
  pub teardown_wait : Setting

overridden : Overrides → Timing → Timing
unfolding env_count env_duration
overridden o t = record {
  poll_interval = env_duration o.poll_interval t.poll_interval;
  poll_timeout = env_duration o.poll_timeout t.poll_timeout;
  ping_timeout = env_duration o.ping_timeout t.ping_timeout;
  deep_probe_interval = env_duration o.deep_probe_interval t.deep_probe_interval;
  max_misses = env_count o.max_misses t.max_misses;
  load_misses = env_count o.load_misses t.load_misses;
  healthy_threshold = env_count o.healthy_threshold t.healthy_threshold;
  recover_backoff = env_duration o.recover_backoff t.recover_backoff;
  recover_backoff_max = env_duration o.recover_backoff_max t.recover_backoff_max;
  ejection_decay = env_duration o.ejection_decay t.ejection_decay;
  control_timeout = env_duration o.control_timeout t.control_timeout;
  timeouts_to_eject = env_count o.timeouts_to_eject t.timeouts_to_eject;
  timeout_window = env_duration o.timeout_window t.timeout_window;
  pull_timeout = env_duration o.pull_timeout t.pull_timeout;
  launch_wait = env_duration o.launch_wait t.launch_wait;
  teardown_wait = env_duration o.teardown_wait t.teardown_wait;
}

floored : Timing → Timing
floored t =
    if ltb t.poll_interval min_poll_interval
    then record t { poll_interval = min_poll_interval }
    else t

clamped : Timing → Timing
unfolding clamp_probe_timeout
clamped t = record t {
  poll_timeout = clamp_probe_timeout t.poll_timeout t.poll_interval;
  ping_timeout = clamp_probe_timeout t.ping_timeout t.poll_interval;
}

-- The warning that the window cannot hold that many stalls, the one thing the code says of it.
unfoldable pub window_too_short : Timing → Bool
window_too_short t =
    ltb 1 t.timeouts_to_eject
    && leb t.timeout_window ((t.timeouts_to_eject - 1) * t.control_timeout)

deepened : Timing → Timing
deepened t =
    if ltb t.deep_probe_interval t.poll_interval
    then record t { deep_probe_interval = t.poll_interval }
    else t

pub worker_timing_from_env : Overrides → Timing
unfolding overridden floored clamped deepened
worker_timing_from_env o = deepened (clamped (floored (overridden o default_worker_timing)))

-- The tunables of a Manager, whose field is zero if NewManager did not build it.
unfoldable pub timing : Timing → Timing
timing t = if t.poll_interval == 0 then default_worker_timing else t

abbrev pub restart_pull_timeout : ℕ
restart_pull_timeout = 5 * minute

unfoldable pub transport_timeout : Timing → ℕ
unfolding timing
transport_timeout t =
    max (max restart_pull_timeout (timing t).pull_timeout) (timing t).control_timeout
