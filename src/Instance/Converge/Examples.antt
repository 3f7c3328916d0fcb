-- ===== src/Instance/Converge/Examples.antt =====
-- The converge of a build at a concrete database.
use challenge_orchestrator.Common.{true, false, ℕ, none, some, [], ◌∷◌, take, ◌≡◌, refl, arith}
use challenge_orchestrator.Common.Assoc.{lookup}
use challenge_orchestrator.Ports.{release_ports}
use challenge_orchestrator.Instance.{
  lookup_instance_metadata, nested, find_instance, ports_of, containers_of,
  remove_instance_metadata, remove_containers_metadata, forget_containers, forget_instance,
}
use challenge_orchestrator.Instance.Teardown.{
  teardown, after_slot, stop_containers, stop_containers_on, after_containers, stop_network,
  stop_network_on, after_network, network_error, remove_each, after_removal, any_of,
}
use challenge_orchestrator.Instance.Stop.{unreachable, stop_instance, after_teardown}
use challenge_orchestrator.Instance.Converge.{
  build_instances, StopAnswers, Progress, stop_found, stop_surplus, unless_failed, stop_removed,
  drop, launch_missing, after_surplus, converge_build_instances,
}
use challenge_orchestrator.Instance.Converge.Surplus.{forget_all, stop_removed-forgets}
use challenge_orchestrator.Instance.Converge.Target.{converge_build_instances-surplus}
use challenge_orchestrator.Instance.Sample.{db, fleet, row, smooth, build, surroundings, no_range}
use challenge_orchestrator.Worker.Timing.{default_worker_timing}
use challenge_orchestrator.Worker.Fleet.{instance_client, worker_unreachable}

abbrev answers : ℕ → StopAnswers
answers id = record { teardown = smooth; delete = none }

abbrev converged : Progress
converged = record {
  errors = [];
  fleet = fleet;
  db = record db { instances = row 1 true "a" ∷ [] };
}

stops_second :
    converge_build_instances default_worker_timing no_range false
      (λ left. surroundings)
      none
      none
      answers
      build
      1
      fleet
      db
    ≡ some converged
unfolding converge_build_instances build_instances stop_surplus stop_found drop launch_missing
    after_surplus lookup_instance_metadata nested find_instance ports_of containers_of stop_instance
    after_teardown teardown after_slot stop_containers stop_containers_on after_containers
    stop_network stop_network_on after_network network_error remove_each after_removal any_of
    instance_client lookup unreachable worker_unreachable remove_instance_metadata
    remove_containers_metadata release_ports forget_containers forget_instance
stops_second = refl

two_instances : build_instances 7 db.instances ≡ 1 ∷ 2 ∷ []
unfolding build_instances
two_instances = refl

converge_build_instances-surplus_example :
    build_instances 7 converged.db.instances ≡ take 1 (build_instances 7 db.instances)
unfolding build_instances
converge_build_instances-surplus_example =
    converge_build_instances-surplus default_worker_timing no_range false (λ left. surroundings)
      none answers build 1 fleet db converged (omega arith) (((λ e. cc), tt), (tt, tt)) stops_second
      refl

stops_both : (stop_removed default_worker_timing answers (1 ∷ 2 ∷ []) fleet db).errors ≡ []
unfolding stop_removed unless_failed stop_found lookup_instance_metadata nested find_instance
    ports_of containers_of stop_instance after_teardown teardown after_slot stop_containers
    stop_containers_on after_containers stop_network stop_network_on after_network network_error
    remove_each after_removal any_of instance_client lookup unreachable worker_unreachable
    remove_instance_metadata remove_containers_metadata release_ports forget_containers
    forget_instance
stops_both = refl

stop_removed-forgets_example :
    (stop_removed default_worker_timing answers (1 ∷ 2 ∷ []) fleet db).db.instances
    ≡ forget_all (1 ∷ 2 ∷ []) db.instances
stop_removed-forgets_example =
    stop_removed-forgets default_worker_timing answers (1 ∷ 2 ∷ []) fleet db stops_both
