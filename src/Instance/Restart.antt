-- ===== src/Instance/Restart.antt =====
-- The restart of an instance on new images (restartInstance of cork/database_instances.go): the
-- images first, while the old containers serve, then the teardown, the ports and the launch.
use challenge_orchestrator.Common.{
  ℕ, ◌==◌, String, Bool, true, Option, none, some, List, [], ◌∷◌, ◌≡◌, ◌≢◌, ◌⊎◌, inl, inr, refl,
  if◌then◌else◌,
}
use challenge_orchestrator.Common.Assoc.{Map}
use challenge_orchestrator.Errors.{Err, other}
use challenge_orchestrator.Ports.{PortRange}
use challenge_orchestrator.Ports.Reassign.{Unassigned, published_ports, reassign_ports}
use challenge_orchestrator.Instance.{Metadata, Database, finalize_instance}
use challenge_orchestrator.Instance.Teardown.{Torn, teardown}
use challenge_orchestrator.Instance.Teardown
use challenge_orchestrator.Instance.Create.{Build, unassigned_error, Surroundings}
use challenge_orchestrator.Launch.Admission.{LaunchLimits, restart_limits}
use challenge_orchestrator.Launch.Stages.{ensure_images, Ensured, Launched, launch}
use challenge_orchestrator.Launch.Stages
use challenge_orchestrator.Worker.Timing.{Timing}
use challenge_orchestrator.Worker.Fleet.{Fleet, Client, instance_client}

-- What a restart leaves, the removals it has sent, and the errors that ended it.
pub record Restarted : Type 0 where
  pub errors : List Err
  pub fleet : Fleet
  pub db : Database
  pub sent : List String

-- What a restart meets: the answers of its calls, and those of a creation's for the launch.
pub record Answers : Type 0 where
  pub images : Stages.Answers
  pub down : Teardown.Answers
  pub release : Option Err
  pub launching : Surroundings

abbrev untouched : Err → Fleet → Database → Restarted
untouched e f db = record { errors = e ∷ []; fleet = f; db = db; sent = [] }

abbrev ended : List Err → Torn → Database → Fleet → Restarted
ended errors torn db f = record { errors = errors; fleet = f; db = db; sent = torn.sent }

-- The pull was made before, and its time goes into the record of the launch.
abbrev ensured_limits : LaunchLimits → Ensured → ℕ → LaunchLimits
ensured_limits limits ensured waited = record limits {
  images_ensured = true;
  ensured_image_wait = waited;
  ensured_pulled = ensured.any_pulled;
}

module _ (t : Timing) (r : PortRange) (registry : Bool) (names : Map String) (d : Answers)
    (build : Build) (waited : ℕ) where
  unfoldable pub after_relaunch : Metadata → Torn → Fleet → Database → Option Err → Restarted
  after_relaunch meta torn f db (some e) = ended (e ∷ []) torn db f
  after_relaunch meta torn f db none =
      ended [] torn
        (finalize_instance none r
          (record meta {
            ports = if r.low == 0 then d.launching.bound else meta.ports;
            containers = d.launching.containers;
          })
          db).1
        f

  unfoldable pub after_reassign :
      Ensured → Metadata → Torn → Database → Option Unassigned → Restarted
  after_reassign ensured meta torn db (some why) =
      ended (unassigned_error why ∷ []) torn db torn.fleet
  after_reassign ensured meta torn db none =
      let f' = d.launching.launched_fleet torn.fleet in
      let launched =
        launch torn.fleet f' meta.worker registry (ensured_limits (restart_limits t) ensured waited)
          d.launching.launch_answers build.images in
      after_relaunch meta torn f' db launched.failure

  -- The ports that the instance had are those of its metadata before the teardown.
  unfoldable pub after_down : Ensured → Map ℕ → Torn → List Err → Restarted
  after_down ensured previous torn (e ∷ errors) = ended (e ∷ errors) torn torn.db torn.fleet
  after_down ensured previous torn [] =
      let a =
        reassign_ports d.launching.port_answers r torn.meta.id torn.meta.worker d.release names
          previous (published_ports build.port_images) torn.meta.ports torn.db.ports in
      after_reassign ensured (record torn.meta { ports = a.assigned }) torn
        (record torn.db { ports = a.rows }) a.failure

  unfoldable pub after_ensured : Metadata → Fleet → Database → Ensured → Option Err → Restarted
  after_ensured meta f db ensured (some e) = untouched e f db
  after_ensured meta f db ensured none =
      let torn = teardown t d.down meta f db in after_down ensured meta.ports torn torn.errors

  unfoldable pub restart_on : Metadata → Fleet → Database → Option Client → Restarted
  restart_on meta f db none = untouched other f db
  restart_on meta f db (some cli) =
      let ensured = ensure_images registry (restart_limits t) d.images build.images in
      after_ensured meta f db ensured ensured.failure

  unfoldable pub restart_instance : Metadata → Fleet → Database → Restarted
  restart_instance meta f db = restart_on meta f db (instance_client f meta.worker)

  abbrev Untouched : Database → Restarted → Type 0
  Untouched db s = (s.errors ≢ []) × (s.sent ≡ []) × (s.db ≡ db)

  after_ensured_lem :
      (meta : Metadata) (f : Fleet) (db : Database) (ensured : Ensured) (failure : Option Err)
      → (failure ≡ none) ⊎ Untouched db (after_ensured meta f db ensured failure)
  unfolding after_ensured
  after_ensured_lem meta f db ensured none = inl refl
  after_ensured_lem meta f db ensured (some e) = inr ((λ h. cc), refl, refl)

  restart_on_lem :
      (meta : Metadata) (f : Fleet) (db : Database) (client : Option Client)
      → ((ensure_images registry (restart_limits t) d.images build.images).failure ≡ none)
        ⊎ Untouched db (restart_on meta f db client)
  unfolding restart_on
  restart_on_lem meta f db none = inr ((λ h. cc), refl, refl)
  restart_on_lem meta f db (some cli) =
      let ensured = ensure_images registry (restart_limits t) d.images build.images in
      after_ensured_lem meta f db ensured ensured.failure

  -- A restart either has its images at hand before it goes on, or fails with nothing sent and every
  -- row as it was, so that the old containers keep serving.
  pub restart_instance-pulls_first :
      (meta : Metadata) (f : Fleet) (db : Database)
      → ((ensure_images registry (restart_limits t) d.images build.images).failure ≡ none)
        ⊎ Untouched db (restart_instance meta f db)
  unfolding restart_instance
  restart_instance-pulls_first meta f db = restart_on_lem meta f db (instance_client f meta.worker)
