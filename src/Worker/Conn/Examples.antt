-- ===== src/Worker/Conn/Examples.antt =====
-- Tests of one conn (workerConn of cork/workers.go) and of the tunables, and their theorems at
-- concrete inputs.
use challenge_orchestrator.Common.{
  ℕ, suc, ◌+◌, ◌*◌, ◌<◌, ◌≡◌, refl, arith, String, true, false, none, List, [], ◌∷◌, ◌++◌, length,
  All,
}
use challenge_orchestrator.Common.Int.{pos, negsuc}
use challenge_orchestrator.Errors.{other}
use challenge_orchestrator.Launch.Queue.{new_daemon_queue}
use challenge_orchestrator.Worker.Timing.{
  Timing, Overrides, unset, unparsable, parsed, default_worker_timing, second,
  worker_timing_from_env,
}
use challenge_orchestrator.Worker.Timing.Bounds.{IsSane, worker_timing_from_env-IsSane}
use challenge_orchestrator.Worker.Conn.{
  Conn, Reachable, Load, ok, normal, placeable, is_ok, stalled,
}
use challenge_orchestrator.Worker.Conn.Lifecycle.{
  Event, admitted, ejected, loaded, apply, IsOneShot, run-IsOneShot, placeable-run_after_leaving,
  run-down, set_reachable_reports, eject_lem,
}
use challenge_orchestrator.Worker.Conn.Lifecycle
use challenge_orchestrator.Worker.Timeouts.{note_timeout, in_last_stall}
use challenge_orchestrator.Worker.Timeouts.Stalls.{IsCounted, IsSpaced, note_timeout_ejects}

abbrev conn_at : ℕ → String → Reachable → Load → Conn
conn_at id ip r l = record {
  id = id;
  ip = ip;
  public = "";
  reachable = r;
  load = l;
  since = 0;
  reason = none;
  ejections = 0;
  unreach_closes = 0;
  retired = false;
  reconciled = true;
  from_recovery = false;
  daemon_failed = false;
  timeouts = [];
  queue = new_daemon_queue 2;
  done = false;
  probe_now = false;
  preload_now = false;
}

abbrev free_conn : Conn
free_conn = conn_at 1 "b" ok normal

free_conn-IsOneShot : IsOneShot free_conn
unfolding is_ok
free_conn-IsOneShot = record { closes = refl; not_back = λ h. refl }

placeable-run_after_leaving_example :
    placeable (Lifecycle.run (apply free_conn (5, ejected (stalled 3 other))) ((6, admitted) ∷ []))
    ≡ false
placeable-run_after_leaving_example =
    placeable-run_after_leaving free_conn (5, ejected (stalled 3 other)) ((6, admitted) ∷ [])
      free_conn-IsOneShot (unfold is_ok in refl) (unfold apply is_ok in refl)

no_stalls-IsCounted : IsCounted 30 3 []
unfolding IsSpaced
no_stalls-IsCounted = record { spaced = tt; below = omega arith }

one_stall-IsCounted : IsCounted 30 2 (100 ∷ [])
unfolding IsSpaced
one_stall-IsCounted = record { spaced = (tt, tt); below = omega arith }

abbrev two : ℕ
two = 2

note_timeout_ejects_example :
    (ts : List ℕ) × IsSpaced 30 (ts ++ 140 ∷ [])
    × All (λ u. 140 < u + 120) ts
    × (suc (length ts) ≡ 2)
    × (two ≡ two)
    × (free_conn.timeouts ≡ [])
note_timeout_ejects_example =
    note_timeout_ejects (record free_conn { timeouts = 100 ∷ [] }) 140 30 120 2 2 free_conn
      one_stall-IsCounted (unfold note_timeout in_last_stall in refl)

abbrev short_window : Timing
short_window = record default_worker_timing { timeout_window = 40 * second }

abbrev bad_overrides : Overrides
bad_overrides = record {
  poll_interval = parsed (pos 1);
  poll_timeout = parsed (pos (9 * second));
  ping_timeout = unset;
  deep_probe_interval = parsed (pos 1);
  max_misses = parsed (negsuc 4);
  load_misses = unparsable;
  healthy_threshold = unset;
  recover_backoff = unset;
  recover_backoff_max = unset;
  ejection_decay = unset;
  control_timeout = unset;
  timeouts_to_eject = parsed (pos 0);
  timeout_window = unset;
  pull_timeout = unset;
  launch_wait = unset;
  teardown_wait = unset;
}

worker_timing_from_env-IsSane_example : IsSane (worker_timing_from_env bad_overrides)
worker_timing_from_env-IsSane_example = worker_timing_from_env-IsSane bad_overrides
