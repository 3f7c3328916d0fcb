-- ===== src/Instance/Stop.antt =====
-- The stop of an instance (cork/api.go: Stop, stopInstance and unreachable).
pub mod Sent
pub mod Local
pub mod Failed
mod Examples
use challenge_orchestrator.Common.{
  ℕ, String, Bool, true, false, not, ◌&&◌, ◌||◌, Option, none, some, List, [], ◌∷◌, str_eq,
  if◌then◌else◌,
}
use challenge_orchestrator.Errors.{Err, other, is_deadline, unknown_identifier}
use challenge_orchestrator.Instance.{
  Metadata, Database, remove_instance_metadata, lookup_instance_metadata,
}
use challenge_orchestrator.Instance.Teardown.{Answers, Torn, any_of, teardown}
use challenge_orchestrator.Worker.Timing.{Timing}
use challenge_orchestrator.Worker.Fleet.{Fleet, worker_unreachable}

-- The instances that a build asks for: instancecount is -1, -2, or a number.
pub data InstanceCount : Type 0 where
  dynamic locked : InstanceCount
  fixed : ℕ → InstanceCount

unfoldable pub unreachable : Fleet → String → Bool
unreachable f worker =
    if str_eq worker "" then f.external_build_plane else worker_unreachable f worker

-- The errors of the stop, with what was sent to the daemon; none is success.
pub record Stopped : Type 0 where
  pub errors : List Err
  pub fleet : Fleet
  pub db : Database
  pub sent : List String
  pub network_sent : Bool

abbrev pub cleared : Fleet → List String → Bool → Option Err × Database → Stopped
cleared f sent network_sent (none, db) = record {
  errors = [];
  fleet = f;
  db = db;
  sent = sent;
  network_sent = network_sent;
}
cleared f sent network_sent (some e, db) = record {
  errors = e ∷ [];
  fleet = f;
  db = db;
  sent = sent;
  network_sent = network_sent;
}

abbrev pub kept : Torn → Stopped
kept torn = record {
  errors = torn.errors;
  fleet = torn.fleet;
  db = torn.db;
  sent = torn.sent;
  network_sent = torn.network_sent;
}

abbrev pub gone : Option Err → ℕ → Torn → Stopped
gone delete id torn =
    cleared torn.fleet torn.sent torn.network_sent (remove_instance_metadata delete id torn.db)

-- What a stop makes of a teardown with those errors; `delete` is the error of the final DELETE.
unfoldable pub after_teardown : Option Err → ℕ → String → Torn → List Err → Stopped
after_teardown delete id worker torn [] = gone delete id torn
after_teardown delete id worker torn (e ∷ errors) =
    if unreachable torn.fleet worker || any_of is_deadline (e ∷ errors)
    then gone delete id torn
    else kept torn

unfoldable pub stop_instance : Timing → Answers → Option Err → Metadata → Fleet → Database → Stopped
stop_instance t d delete meta f db =
    if unreachable f meta.worker
    then cleared f [] false (remove_instance_metadata delete meta.id db)
    else let torn = teardown t d meta f db in
      after_teardown delete meta.id meta.worker torn torn.errors

abbrev refused : Fleet → Database → Err → Stopped
refused f db e = record { errors = e ∷ []; fleet = f; db = db; sent = []; network_sent = false }

-- Only the instances of a build that starts them on demand are stopped one by one; `build` is the
-- lookup of the build's row.
unfoldable pub stop :
    (ℕ → Option InstanceCount) → Timing → Answers → Option Err → ℕ → Fleet → Database → Stopped
stop builds t d delete id f db = elim (lookup_instance_metadata id db) [
  | none ↦ refused f db (unknown_identifier "instance" "")
  | some meta ↦ elim (builds meta.build) [
    | none ↦ refused f db (unknown_identifier "build" "")
    | some dynamic ↦ stop_instance t d delete meta f db
    | some locked ↦ refused f db other
    | some (fixed n) ↦ refused f db other
  ]
]
