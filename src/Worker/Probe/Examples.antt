-- ===== src/Worker/Probe/Examples.antt =====
-- The poller (pollWorker of cork/workers.go) at concrete inputs.
use challenge_orchestrator.Common.{
  ◌*◌, ◌≡◌, refl, arith, true, false, none, some, [], ◌∷◌, inl, inr,
}
use challenge_orchestrator.Errors.{other}
use challenge_orchestrator.Launch.Queue.{new_daemon_queue}
use challenge_orchestrator.Worker.Timing.{Timing, default_worker_timing, second}
use challenge_orchestrator.Worker.Conn.{
  Conn, Reachable, ok, unresponsive, normal, is_ok, probe_failed,
}
use challenge_orchestrator.Worker.Probe.{Poller, Answers, probes}
use challenge_orchestrator.Worker.Probe.Wedged.{probes-wedged}

abbrev conn_in : Reachable → Conn
conn_in r = record {
  id = 0;
  ip = "a";
  public = "";
  reachable = r;
  load = normal;
  since = 0;
  reason = none;
  ejections = 0;
  unreach_closes = 0;
  retired = false;
  reconciled = true;
  from_recovery = false;
  daemon_failed = false;
  timeouts = [];
  queue = new_daemon_queue 2;
  done = false;
  probe_now = false;
  preload_now = false;
}

abbrev fresh : Poller
fresh = record {
  load_misses = 0;
  misses = 0;
  good_probes = 0;
  last_deep = none;
  last_decay = 0;
  deep_wedged = false;
  miss_reason = none;
  last_seen = ok;
}

-- The ping answers and the container list does not; telemetry is silent.
abbrev wedged_round : Answers
wedged_round = record {
  telemetry = none;
  ping = none;
  deep = some other;
  now = 5 * second;
  after_deep = 6 * second;
  acted = 6 * second;
}

abbrev silent_round : Answers
silent_round = record wedged_round { ping = some other; deep = none }

abbrev quick : Timing
quick = record default_worker_timing { max_misses = 2 }

wedged_run :
    (probes quick (wedged_round ∷ wedged_round ∷ []) fresh (conn_in ok)).1.reachable ≡ unresponsive
unfolding probes
wedged_run = refl

probes-wedged_example :
    is_ok (probes quick (wedged_round ∷ silent_round ∷ []) fresh (conn_in ok)).1.reachable ≡ false
probes-wedged_example =
    probes-wedged quick wedged_round (silent_round ∷ []) fresh (conn_in ok) (inr refl)
      (inr (λ e. cc)) (inl (λ e. cc), tt) (omega arith)

abbrev last_miss : Poller
last_miss = record fresh {
  misses = 1;
  miss_reason = some (probe_failed true other);
  deep_wedged = true;
}
