-- ===== src/Worker/Examples.antt =====
-- Tests of the fleet (cork/workers.go), and its theorems at concrete inputs.
use challenge_orchestrator.Common.{
  ℕ, suc, ◌<◌, ◌≡◌, refl, arith, String, true, false, none, some, [], ◌∷◌, eq_iff,
}
use challenge_orchestrator.Common.Assoc.{lookup}
use challenge_orchestrator.Launch.Queue.{new_daemon_queue}
use challenge_orchestrator.Worker.Conn.{
  Conn, Reachable, Load, ok, down, normal, overloaded, unknown, placeable,
}
use challenge_orchestrator.Worker.Fleet.{
  Fleet, AddOutcome, set_worker_down, recover_worker, worker_unreachable,
}
use challenge_orchestrator.Worker.Fleet.Order.{contains, IsUnique}
use challenge_orchestrator.Worker.Fleet.Consistent.{IsConsistent}
use challenge_orchestrator.Worker.Fleet.History.{
  added, removed, taken_down, recovered, selected, run, run-IsConsistent,
}
use challenge_orchestrator.Worker.Fleet.Recovery.{recover_worker-set_worker_down}
use challenge_orchestrator.Worker.Select.{chosen, select_worker, worker_at}
use challenge_orchestrator.Worker.Select.Choice.{select_worker-Chose}
use challenge_orchestrator.Worker.Select.Scan.{Has, Chose}
use challenge_orchestrator.Worker.Select.Rotation.{select_worker-no_starvation, after}

abbrev conn_at : ℕ → String → Reachable → Load → Conn
conn_at id ip r l = record {
  id = id;
  ip = ip;
  public = "";
  reachable = r;
  load = l;
  since = 0;
  reason = none;
  ejections = 0;
  unreach_closes = 0;
  retired = false;
  reconciled = true;
  from_recovery = false;
  daemon_failed = false;
  timeouts = [];
  queue = new_daemon_queue 2;
  done = false;
  probe_now = false;
  preload_now = false;
}

-- An overloaded worker at the cursor, and one that takes launches.
abbrev full_conn : Conn
full_conn = conn_at 0 "a" ok overloaded

abbrev free_conn : Conn
free_conn = conn_at 1 "b" ok normal

abbrev fleet_of : Conn → Conn → Fleet
fleet_of v w = record {
  workers = ("a", v) ∷ ("b", w) ∷ [];
  order = "a" ∷ "b" ∷ [];
  cursor = 0;
  placement_enabled = true;
  external_build_plane = false;
  worker_rows = ("a", "") ∷ ("b", "") ∷ [];
  instance_rows = record { instance_id = 7; worker = "b" } ∷ [];
  local_queue = new_daemon_queue 2;
  launch_concurrency = 2;
  next_id = 2;
}

abbrev two_workers : Fleet
two_workers = fleet_of full_conn free_conn

fleet_of-IsConsistent :
    (v w : Conn) → v.ip ≡ "a" → w.ip ≡ "b" → v.id < 2 → w.id < 2 → IsConsistent (fleet_of v w)
unfolding lookup contains IsUnique
fleet_of-IsConsistent v w a b i j = record {
  keyed = λ ip. ground arith;
  unique = (refl, (refl, tt));
  stored = λ ip h. ground arith;
  named = λ ip u h. ground (arith, eq_iff "a" ip, eq_iff "b" ip);
  fresh = λ ip u h. ground (arith, eq_iff "a" ip, eq_iff "b" ip);
}

two_workers-IsConsistent : IsConsistent two_workers
two_workers-IsConsistent =
    fleet_of-IsConsistent full_conn free_conn refl refl (omega arith) (omega arith)

free_registered : lookup "b" two_workers.workers ≡ some free_conn
unfolding lookup
free_registered = refl

free_fits : placeable free_conn ≡ true
unfolding placeable
free_fits = refl

select_worker-Chose_example :
    (ip : String) × (f' : Fleet) × (select_worker two_workers ≡ some (chosen ip, f'))
    × Chose two_workers 0 2 ip f'
select_worker-Chose_example =
    select_worker-Chose two_workers two_workers-IsConsistent
      (record { ip = "b"; conn = free_conn; registered = free_registered; passes = free_fits })

select_worker-no_starvation_example :
    (k : ℕ) × (k < 2)
    × (select_worker (after k two_workers) ≡ some (chosen "b", after (suc k) two_workers))
select_worker-no_starvation_example =
    select_worker-no_starvation two_workers "b" free_conn two_workers-IsConsistent free_registered
      free_fits

-- The second selection wraps around to the free worker again.
select_wraps : select_worker two_workers ≡ some (chosen "b", record two_workers { cursor = 0 })
unfolding select_worker worker_at lookup placeable
select_wraps = refl

abbrev no_place : Fleet
no_place = fleet_of full_conn (conn_at 1 "b" down unknown)

no_place-IsConsistent : IsConsistent no_place
no_place-IsConsistent =
    fleet_of-IsConsistent full_conn (conn_at 1 "b" down unknown) refl refl (omega arith)
      (omega arith)

full_fleet :
    (v w : Conn) → placeable v ≡ false → placeable w ≡ false → ¬ Has placeable (fleet_of v w)
unfolding lookup
full_fleet v w a b h = ground (arith, h.registered, h.passes)

none_placeable : ¬ Has placeable no_place
unfolding placeable
none_placeable = full_fleet full_conn (conn_at 1 "b" down unknown) refl refl

abbrev outcome_ok : AddOutcome
outcome_ok = record { addr_valid = true; insert_ok = true; read_back_ok = true; conn_ok = true }

run-IsConsistent_example : IsConsistent (
    run two_workers (
      (1, added "c" "lb" outcome_ok)
      ∷ (2, taken_down "a")
      ∷ (3, selected)
      ∷ (3, recovered "b" 1 true)
      ∷ (4, removed "a" true)
      ∷ []))
run-IsConsistent_example =
    run-IsConsistent two_workers
      ((1, added "c" "lb" outcome_ok)
        ∷ (2, taken_down "a")
        ∷ (3, selected)
        ∷ (3, recovered "b" 1 true)
        ∷ (4, removed "a" true)
        ∷ [])
      two_workers-IsConsistent

recover_worker-set_worker_down_example :
    let f' = recover_worker (set_worker_down two_workers "b" 8).1 "b" 1 true 9 in
    ((v : Conn) × (lookup "b" f'.workers ≡ some v) × (v.reachable ≡ down))
    × (worker_unreachable f' "b" ≡ true)
recover_worker-set_worker_down_example =
    recover_worker-set_worker_down two_workers "b" 1 8 9 true free_conn free_registered
