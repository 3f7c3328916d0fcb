-- ===== src/Instance/Converge.antt =====
-- The number of instances of a build (cork/api.go: convergeBuildInstances, and the loop of
-- cleanupSchemaResources over the instances that a schema has given up). What each stop and each
-- launch meets is an argument, by the instance and by how many launches are left.
pub mod Surplus
pub mod Target
mod Examples
use challenge_orchestrator.Common.{
  ℕ, zero, suc, ◌-◌, ◌==◌, String, Bool, true, false, Option, none, some, List, [], ◌∷◌, ◌++◌,
  length, if◌then◌else◌,
}
use challenge_orchestrator.Errors.{Err, unknown_identifier}
use challenge_orchestrator.Ports.{PortRange}
use challenge_orchestrator.Instance.{InstanceRecord, Metadata, Database, lookup_instance_metadata}
use challenge_orchestrator.Instance.Teardown.{Answers}
use challenge_orchestrator.Instance.Stop.{Stopped, stop_instance}
use challenge_orchestrator.Instance.Create.{Build, Surroundings, Created, new_instance}
use challenge_orchestrator.Launch.Admission.{restart_limits}
use challenge_orchestrator.Launch.Stages.{Image}
use challenge_orchestrator.Worker.Timing.{Timing}
use challenge_orchestrator.Worker.Fleet.{Fleet}

-- SELECT id FROM instances WHERE build = ?
unfoldable pub build_instances : ℕ → List InstanceRecord → List ℕ
build_instances build [] = []
build_instances build (row ∷ rows) =
    let rest = build_instances build rows in if row.build == build then row.id ∷ rest else rest

pub record StopAnswers : Type 0 where
  pub teardown : Answers
  pub delete : Option Err

-- The errors so far, and the state.
pub record Progress : Type 0 where
  pub errors : List Err
  pub fleet : Fleet
  pub db : Database

abbrev pub idle : Fleet → Database → Progress
idle f db = record { errors = []; fleet = f; db = db }

abbrev pub add_error : Err → Progress → Progress
add_error e p = record p { errors = e ∷ p.errors }

unfoldable pub stop_found : Timing → StopAnswers → Option Metadata → Fleet → Database → Progress
stop_found t d none f db = add_error (unknown_identifier "instance" "") (idle f db)
stop_found t d (some meta) f db =
    let s = stop_instance t d.teardown d.delete meta f db in
    record { errors = s.errors; fleet = s.fleet; db = s.db }

abbrev pub stop_one : Timing → (ℕ → StopAnswers) → ℕ → Fleet → Database → Progress
stop_one t d id f db = stop_found t (d id) (lookup_instance_metadata id db) f db

-- The surplus is stopped one by one, past the failures.
unfoldable pub stop_surplus : Timing → (ℕ → StopAnswers) → List ℕ → Fleet → Database → Progress
stop_surplus t d [] f db = idle f db
stop_surplus t d (id ∷ ids) f db =
    let p = stop_one t d id f db in
    let rest = stop_surplus t d ids p.fleet p.db in record rest { errors = p.errors ++ rest.errors }

unfoldable pub unless_failed : List Err → Progress → Progress → Progress
unless_failed [] p rest = rest
unless_failed (e ∷ errors) p rest = p

-- The instances that a schema has given up are stopped up to the first failure.
unfoldable pub stop_removed : Timing → (ℕ → StopAnswers) → List ℕ → Fleet → Database → Progress
stop_removed t d [] f db = idle f db
stop_removed t d (id ∷ ids) f db =
    let p = stop_one t d id f db in unless_failed p.errors p (stop_removed t d ids p.fleet p.db)

unfoldable pub drop : ℕ → List ℕ → List ℕ
drop zero ids = ids
drop (suc n) [] = []
drop (suc n) (id ∷ ids) = drop n ids

abbrev has_images : Build → Bool
has_images build = elim build.images [ [] ↦ false | image ∷ images ↦ true ]

-- What a launch of the missing ones comes to; a failure ends them.
unfoldable pub after_new : Option Created → (Fleet → Database → Option Progress) → Option Progress
after_new none rest = none
after_new (some c) rest = elim c.failure [
  | none ↦ rest c.fleet c.db
  | some e ↦ some (add_error e (idle c.fleet c.db))
]

module _ (t : Timing) (r : PortRange) (registry : Bool) (launches : ℕ → Surroundings)
    (looked_up : Option Build) where
  -- A build that came without its images is looked up.
  unfoldable pub with_build : Build → Fleet → Database → (Build → Option Progress) → Option Progress
  with_build build f db go = if has_images build then go build else (elim looked_up [
    | none ↦ some (add_error (unknown_identifier "build" "") (idle f db))
    | some whole ↦ go whole
  ])

  unfoldable pub launch_missing : ℕ → Build → Fleet → Database → Option Progress
  launch_missing zero build f db = some (idle f db)
  launch_missing (suc left) build f db =
      let rest = launch_missing left in
      with_build build f db (λ whole.
        after_new (new_instance t r registry (launches left) whole (restart_limits t) f db)
          (rest whole))

  unfoldable pub after_surplus : Progress → Option Progress → Option Progress
  after_surplus p none = none
  after_surplus p (some rest) = some (record rest { errors = p.errors ++ rest.errors })

  -- `target` is never below 0; an error of the first query ends it.
  unfoldable pub converge_build_instances :
      Option Err → (ℕ → StopAnswers) → Build → ℕ → Fleet → Database → Option Progress
  converge_build_instances (some e) d build target f db = some (add_error e (idle f db))
  converge_build_instances none d build target f db =
      let ids = build_instances build.id db.instances in
      let p = stop_surplus t d (drop target ids) f db in
      after_surplus p (launch_missing (target - length ids) build p.fleet p.db)
