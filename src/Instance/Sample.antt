-- ===== src/Instance/Sample.antt =====
-- A worker, a database and the answers of a daemon that the tests share.
use challenge_orchestrator.Ports.{PortRange}
use challenge_orchestrator.Instance.Stop.{dynamic}
use challenge_orchestrator.Instance.Create.{Build, Surroundings}
use challenge_orchestrator.Common.{ℕ, ◌*◌, String, Bool, true, false, none, some, [], ◌∷◌}
use challenge_orchestrator.Errors.{Err, other, call, worker_busy}
use challenge_orchestrator.Instance.{InstanceRecord, Metadata, Database}
use challenge_orchestrator.Instance.Teardown.{Answers}
use challenge_orchestrator.Launch.Queue.{new_daemon_queue}
use challenge_orchestrator.Worker.Timing.{second}
use challenge_orchestrator.Worker.Conn.{Conn, ok, normal}
use challenge_orchestrator.Worker.Fleet.{Fleet}

abbrev pub worker : Conn
worker = record {
  id = 4;
  ip = "a";
  public = "";
  reachable = ok;
  load = normal;
  since = 0;
  reason = none;
  ejections = 0;
  unreach_closes = 0;
  retired = false;
  reconciled = true;
  from_recovery = false;
  daemon_failed = false;
  timeouts = second ∷ 40 * second ∷ [];
  queue = new_daemon_queue 2;
  done = false;
  probe_now = false;
  preload_now = false;
}

abbrev pub fleet : Fleet
fleet = record {
  workers = ("a", worker) ∷ [];
  order = "a" ∷ [];
  cursor = 0;
  placement_enabled = true;
  external_build_plane = false;
  worker_rows = ("a", "") ∷ [];
  instance_rows = [];
  local_queue = new_daemon_queue 2;
  launch_concurrency = 2;
  next_id = 5;
}

abbrev pub stuck : Err
stuck = call (record {
  deadline = true;
  conn_failed = false;
  is_net = false;
  is_url = false;
  is_not_found = false;
  is_conflict = false;
})

-- The daemon answers every call.
abbrev pub smooth : Answers
smooth = record {
  meanwhile = λ f. f;
  slot = none;
  remove = λ container. none;
  network = none;
  ping = λ container. none;
  network_ping = none;
  now = 100 * second;
  forget = none;
}

abbrev pub refusing : Answers
refusing = record smooth { slot = some worker_busy }

-- The removals fail with an error of the daemon's own.
abbrev pub failing : Answers
failing = record smooth { remove = λ container. some other }

abbrev pub timing_out : Answers
timing_out = record smooth { remove = λ container. some stuck }

abbrev pub row : ℕ → Bool → String → InstanceRecord
row id finalized worker = record {
  id = id;
  last_solved = 0;
  build = 7;
  created_at = some 1000;
  is_finalized = finalized;
  worker = worker;
}

abbrev pub db : Database
db = record {
  instances = row 1 true "a" ∷ row 2 false "a" ∷ [];
  ports = record { instance_id = 1; name = "http"; port = 30000; worker = "a" } ∷ [];
  containers =
      record { instance_id = 1; container = "c1" }
      ∷ record { instance_id = 1; container = "c2" }
      ∷ [];
  next_id = 3;
}

abbrev pub first : Metadata
first = record {
  id = 1;
  build = 7;
  worker = "a";
  ports = ("http", 30000) ∷ [];
  containers = "c1" ∷ "c2" ∷ [];
}

abbrev pub build : Build
build = record {
  id = 7;
  count = dynamic;
  images = record { host = "web"; name = "web:1" } ∷ [];
  port_images = record { host = "web"; ports = "80/tcp" ∷ [] } ∷ [];
}

-- Every call of the launch answers.
abbrev pub surroundings : Surroundings
surroundings = record {
  needs_instance = some true;
  open_error = none;
  now = 2000;
  port_names = some (("80/tcp", "http") ∷ []);
  port_answers = λ left. record {
    previous_claim = none;
    surroundings = record {
      bitset_read = none;
      draw = λ n. 0;
      claim_error = λ n. none;
      others = λ n rows. rows;
    };
  };
  launch_answers = record {
    inspect = λ name. none;
    pull = λ name. none;
    slot = none;
    network = none;
    containers = none;
  };
  launched_fleet = λ f. f;
  bound = ("http", 49153) ∷ [];
  containers = "c9" ∷ [];
  teardown_answers = smooth;
  delete_error = none;
}

abbrev pub no_range : PortRange
no_range = record { low = 0; high = 0 }
