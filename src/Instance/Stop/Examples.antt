-- ===== src/Instance/Stop/Examples.antt =====
-- Tests of the stop of an instance, and its theorems at a concrete database.
use challenge_orchestrator.Common.{true, false, none, some, [], ◌∷◌, ◌≡◌, refl}
use challenge_orchestrator.Common.Assoc.{lookup, insert}
use challenge_orchestrator.Errors.{
  other, is_deadline, is_not_found, is_conflict, is_transport_error,
}
use challenge_orchestrator.Ports.{release_ports}
use challenge_orchestrator.Instance.{
  metadata_of, find_instance, forget_instance, lookup_instance_metadata, remove_instance_metadata,
  remove_containers_metadata, nested, forget_containers, containers_of, ports_of,
}
use challenge_orchestrator.Instance.Teardown.{
  teardown, after_slot, stop_containers, stop_containers_on, after_containers, stop_network,
  stop_network_on, after_network, network_error, remove_each, after_removal, any_of,
}
use challenge_orchestrator.Instance.Stop.{unreachable, stop_instance, after_teardown}
use challenge_orchestrator.Instance.Stop.Sent.{stop_instance-sent}
use challenge_orchestrator.Instance.Stop.Local.{stop_instance-local_timeout}
use challenge_orchestrator.Instance.Stop.Failed.{
  Settled, stop_instance-Settled, stop_instance-forgets,
}
use challenge_orchestrator.Worker.Timing.{default_worker_timing}
use challenge_orchestrator.Worker.Fleet.{client_of, instance_client, worker_unreachable}
use challenge_orchestrator.Worker.Transport.{note_worker_transport_error}
use challenge_orchestrator.Instance.Sample.{
  fleet, stuck, smooth, failing, timing_out, row, db, first,
}

reads_first : lookup_instance_metadata 1 db ≡ some first
unfolding lookup_instance_metadata nested find_instance ports_of containers_of insert
reads_first = refl

in_reach : unreachable fleet "a" ≡ false
unfolding unreachable worker_unreachable lookup
in_reach = refl

has_client : instance_client fleet "a" ≡ some (client_of 4)
unfolding instance_client lookup
has_client = refl

smooth_stop : (stop_instance default_worker_timing smooth none first fleet db).errors ≡ []
unfolding stop_instance after_teardown teardown after_slot stop_containers stop_containers_on
    after_containers stop_network stop_network_on after_network network_error remove_each
    after_removal any_of instance_client lookup unreachable worker_unreachable
    remove_instance_metadata remove_containers_metadata release_ports forget_containers
    forget_instance
smooth_stop = refl

smooth_end :
    unreachable (stop_instance default_worker_timing smooth none first fleet db).fleet "a" ≡ false
unfolding stop_instance after_teardown teardown after_slot stop_containers stop_containers_on
    after_containers stop_network stop_network_on after_network network_error remove_each
    after_removal any_of instance_client lookup unreachable worker_unreachable
    remove_instance_metadata remove_containers_metadata release_ports forget_containers
    forget_instance
smooth_end = refl

stop_instance-sent_example :
    ((stop_instance default_worker_timing smooth none first fleet db).sent ≡ "c1" ∷ "c2" ∷ [])
    × ((stop_instance default_worker_timing smooth none first fleet db).network_sent ≡ true)
stop_instance-sent_example =
    stop_instance-sent default_worker_timing smooth first db none fleet refl in_reach smooth_end
      (λ e h. absurd (cc)) smooth_stop

stop_instance-Settled_example :
    Settled 1 db (stop_instance default_worker_timing failing none first fleet db)
stop_instance-Settled_example =
    stop_instance-Settled default_worker_timing failing first fleet db none

failing_stop :
    (stop_instance default_worker_timing failing none first fleet db).errors ≡ other ∷ other ∷ []
unfolding stop_instance after_teardown teardown after_slot stop_containers stop_containers_on
    after_containers stop_network stop_network_on after_network network_error remove_each
    after_removal any_of instance_client lookup unreachable worker_unreachable is_not_found
    is_conflict is_transport_error is_deadline note_worker_transport_error remove_instance_metadata
    remove_containers_metadata release_ports forget_containers forget_instance
failing_stop = refl

finds_first : find_instance 1 db.instances ≡ some (row 1 true "a")
unfolding find_instance
finds_first = refl

stop_instance-forgets_example :
    lookup_instance_metadata 1 (stop_instance default_worker_timing failing none first fleet db).db
    ≡ some (metadata_of (row 1 true "a") [] [])
stop_instance-forgets_example =
    stop_instance-forgets default_worker_timing failing first fleet db none (client_of 4)
      (row 1 true "a") in_reach has_client refl refl finds_first (λ h. cc (h, failing_stop))

no_local_entry : lookup "" fleet.workers ≡ none
unfolding lookup
no_local_entry = refl

stop_instance-local_timeout_example :
    let s =
      stop_instance default_worker_timing timing_out none (record first { worker = "" }) fleet db in
    (s.errors ≡ [])
    × (s.sent ≡ "c1" ∷ [])
    × (s.network_sent ≡ false)
    × (find_instance 1 s.db.instances ≡ none)
unfolding is_deadline is_not_found is_conflict
stop_instance-local_timeout_example =
    stop_instance-local_timeout default_worker_timing timing_out fleet stuck 1 7
      (("http", 30000) ∷ []) "c1" ("c2" ∷ []) db refl no_local_entry refl refl refl refl refl refl
      refl
