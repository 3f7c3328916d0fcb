-- ===== src/Worker/Transport/Examples.antt =====
-- Failed docker calls (noteWorkerTransportError of cork/workers.go) at concrete inputs.
use challenge_orchestrator.Common.{◌*◌, ◌≡◌, refl, true, false, not, none, some, [], ◌∷◌}
use challenge_orchestrator.Common.Assoc.{lookup}
use challenge_orchestrator.Errors.{Err, call, is_transport_error, is_deadline}
use challenge_orchestrator.Launch.Queue.{new_daemon_queue}
use challenge_orchestrator.Worker.Timing.{default_worker_timing, second, timing}
use challenge_orchestrator.Worker.Timeouts.{note_timeout, in_last_stall}
use challenge_orchestrator.Worker.Conn.{Conn, ok, normal, is_ok}
use challenge_orchestrator.Worker.Fleet.{Fleet}
use challenge_orchestrator.Worker.Transport.{other_client, note_worker_transport_error}
use challenge_orchestrator.Worker.Transport.Verdict.{condemned, note_worker_transport_error_lem}

-- A worker with two stalls on record.
abbrev worker : Conn
worker = record {
  id = 4;
  ip = "a";
  public = "";
  reachable = ok;
  load = normal;
  since = 0;
  reason = none;
  ejections = 0;
  unreach_closes = 0;
  retired = false;
  reconciled = true;
  from_recovery = false;
  daemon_failed = false;
  timeouts = second ∷ 40 * second ∷ [];
  queue = new_daemon_queue 2;
  done = false;
  probe_now = false;
  preload_now = false;
}

abbrev fleet : Fleet
fleet = record {
  workers = ("a", worker) ∷ [];
  order = "a" ∷ [];
  cursor = 0;
  placement_enabled = true;
  external_build_plane = false;
  worker_rows = ("a", "") ∷ [];
  instance_rows = [];
  local_queue = new_daemon_queue 2;
  launch_concurrency = 2;
  next_id = 5;
}

abbrev timed_out : Err
timed_out = call (record {
  deadline = true;
  conn_failed = false;
  is_net = false;
  is_url = false;
  is_not_found = false;
  is_conflict = false;
})

third_stall : condemned default_worker_timing (80 * second) none timed_out worker ≡ true
unfolding is_deadline timing note_timeout in_last_stall
third_stall = refl

note_worker_transport_error_lem_example :
    let f' =
      note_worker_transport_error fleet default_worker_timing "a"
        (some 4)
        timed_out
        none
        (80 * second) in
    (v : Conn) × (lookup "a" f'.workers ≡ some v)
    × (is_ok v.reachable
        ≡ not (condemned default_worker_timing (80 * second) none timed_out worker))
    × (v.probe_now ≡ true)
note_worker_transport_error_lem_example =
    note_worker_transport_error_lem fleet default_worker_timing "a" (some 4) timed_out none
      (80 * second) worker refl (unfold is_transport_error in refl) (unfold lookup in refl)
      (unfold other_client in refl) refl (unfold is_ok in refl)
