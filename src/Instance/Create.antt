-- ===== src/Instance/Create.antt =====
-- The creation of an instance (cork/api.go: Start, newInstance and clearInstanceRecords): placed,
-- admitted, recorded, its ports reserved, launched; a failure takes the records back. What others do
-- to the fleet meanwhile, and to the table of the ports, is an argument.
pub mod Fate
use challenge_orchestrator.Common.{
  ℕ, ◌==◌, String, Bool, true, false, not, ◌&&◌, ◌||◌, Option, none, some, List, [], ◌∷◌, str_eq,
  if◌then◌else◌,
}
use challenge_orchestrator.Common.Assoc.{Map}
use challenge_orchestrator.Errors.{Err, other, no_workers, unknown_identifier}
use challenge_orchestrator.Ports.{PortRange, failed}
use challenge_orchestrator.Ports.Reassign.{
  PortImage, PortAnswers, Assignment, Unassigned, published_ports, unreserved, reserve_ports, done,
}
use challenge_orchestrator.Instance.{
  Metadata, Database, open_instance, finalize_instance, remove_instance_metadata,
}
use challenge_orchestrator.Instance.Teardown
use challenge_orchestrator.Instance.Stop.{
  InstanceCount, dynamic, locked, fixed, Stopped, stop_instance,
}
use challenge_orchestrator.Launch.Admission.{LaunchLimits, admit, request_limits}
use challenge_orchestrator.Launch.Stages.{Image, Launched, launch}
use challenge_orchestrator.Launch.Stages
use challenge_orchestrator.Worker.Timing.{Timing}
use challenge_orchestrator.Worker.Fleet.{Fleet}
use challenge_orchestrator.Worker.Select.{Selection, chosen, exhausted, select_worker}

-- The build, as its row gives it: what it is of, how many instances it asks for, and its images.
pub record Build : Type 0 where
  pub id : ℕ
  pub count : InstanceCount
  pub images : List Image
  pub port_images : List PortImage

-- What the creation of an instance meets on the way: `needs_instance` is `none` where the
-- challenge's metadata cannot be read, `port_names` the reverse port map or the error of reading it,
-- `launched_fleet` the fleet once the launch is over, `bound` the ports that docker reports bound
-- and `containers` the containers that it started.
pub record Surroundings : Type 0 where
  pub needs_instance : Option Bool
  pub open_error : Option Err
  pub now : ℕ
  pub port_names : Option (Map String)
  pub port_answers : List String → PortAnswers
  pub launch_answers : Stages.Answers
  pub launched_fleet : Fleet → Fleet
  pub bound : Map ℕ
  pub containers : List String
  pub teardown_answers : Teardown.Answers
  pub delete_error : Option Err

pub record Created : Type 0 where
  pub id : ℕ
  pub failure : Option Err
  pub fleet : Fleet
  pub db : Database

abbrev pub not_created : Err → Fleet → Database → Created
not_created e f db = record { id = 0; failure = some e; fleet = f; db = db }

-- The error that ended the reservations.
unfoldable pub unassigned_error : Unassigned → Err
unassigned_error (unreserved (failed e)) = e
unassigned_error _ = other

-- A failure to clear the records is only logged.
unfoldable pub clear_instance_records : Option Err → ℕ → Database → Database
clear_instance_records delete id db = (remove_instance_metadata delete id db).1

-- The worker that an instance goes to; `none` is the nil dereference that select_worker excludes.
unfoldable pub choose_worker : Fleet → Option (Selection × Fleet)
choose_worker f = if f.placement_enabled then select_worker f else some (chosen "", f)

module _ (t : Timing) (r : PortRange) (registry : Bool) (s : Surroundings) (build : Build)
    (limits : LaunchLimits) where
  abbrev finalized_metadata : Metadata → Metadata
  finalized_metadata meta = record meta {
    ports = if r.low == 0 then s.bound else meta.ports;
    containers = s.containers;
  }

  -- What becomes of the records once the launch is over, which `started` where it reached the
  -- daemon.
  unfoldable pub after_launch : Metadata → Fleet → Database → Bool → Option Err → Created
  after_launch meta f db started none = record {
    id = meta.id;
    failure = none;
    fleet = f;
    db = (finalize_instance none r (finalized_metadata meta) db).1;
  }
  after_launch meta f db started (some e) =
      let up = record meta { containers = s.containers } in
      let stopped = stop_instance t s.teardown_answers s.delete_error up f db in
      if started
      then record { id = meta.id; failure = some e; fleet = stopped.fleet; db = stopped.db }
      else record {
        id = meta.id;
        failure = some e;
        fleet = f;
        db = clear_instance_records s.delete_error meta.id db;
      }

  unfoldable pub after_ports : Metadata → Fleet → Database → Option Unassigned → Created
  after_ports meta f db (some why) =
      not_created (unassigned_error why) f (clear_instance_records s.delete_error meta.id db)
  after_ports meta f db none =
      let f' = s.launched_fleet f in
      let launched = launch f f' meta.worker registry limits s.launch_answers build.images in
      after_launch meta f' db launched.started launched.failure

  unfoldable pub with_names : Metadata → Fleet → Database → Option (Map String) → Created
  with_names meta f db none = not_created other f (clear_instance_records s.delete_error meta.id db)
  with_names meta f db (some names) =
      let a =
        if r.low == 0
        then done [] db.ports
        else reserve_ports s.port_answers r meta.id meta.worker names
            (published_ports build.port_images) [] db.ports in
      after_ports (record meta { ports = a.assigned }) f (record db { ports = a.rows }) a.failure

  unfoldable pub after_open : Fleet → Option Err × Metadata × Database → Created
  after_open f (some e, meta, db) = not_created e f db
  after_open f (none, meta, db) = with_names meta f db s.port_names

  abbrev pub fresh_metadata : String → Metadata
  fresh_metadata worker = record {
    id = 0;
    build = build.id;
    worker = worker;
    ports = [];
    containers = [];
  }

  unfoldable pub after_admit : String → Fleet → Database → Option Err → Created
  after_admit worker f db (some e) = not_created e f db
  after_admit worker f db none =
      after_open f (open_instance s.open_error s.now (fresh_metadata worker) db)

  unfoldable pub after_place : Database → Selection × Fleet → Created
  after_place db (exhausted e, f) = not_created e f db
  after_place db (chosen worker, f) =
      if str_eq worker "" && f.external_build_plane
      then not_created no_workers f db
      else after_admit worker f db (admit f worker limits)

  -- `none` is the nil dereference.
  unfoldable pub after_choice : Database → Option (Selection × Fleet) → Option Created
  after_choice db none = none
  after_choice db (some placed) = some (after_place db placed)

  unfoldable pub after_challenge : Fleet → Database → Option Bool → Option Created
  after_challenge f db none = some (not_created (unknown_identifier "challenge" "") f db)
  after_challenge f db (some false) = some (not_created other f db)
  after_challenge f db (some true) = after_choice db (choose_worker f)

  unfoldable pub new_instance : Fleet → Database → Option Created
  new_instance f db = after_challenge f db s.needs_instance

-- Instances of a build that a schema maintains are not started one by one.
unfoldable pub start :
    Timing → PortRange → Bool → Surroundings → Option Build → Fleet → Database → Option Created
start t r registry s none f db = some (not_created (unknown_identifier "build" "") f db)
start t r registry s (some build) f db = elim build.count [
  | dynamic ↦ new_instance t r registry s build (request_limits t) f db
  | locked ↦ some (not_created other f db)
  | fixed n ↦ some (not_created other f db)
]
