-- ===== src/Instance/Teardown.antt =====
-- The teardown of an instance (cork/docker.go: teardown, stopContainers and stopNetwork). What the
-- daemon answers to each call is an argument. A failed call is noted against its worker, so that
-- the fleet changes on the way. `errors.Join` is the list of the errors that it joins.
pub mod Through
use challenge_orchestrator.Common.{
  ℕ, String, Bool, true, false, not, ◌&&◌, ◌||◌, Option, none, some, List, [], ◌∷◌, ◌++◌,
  if◌then◌else◌,
}
use challenge_orchestrator.Errors.{
  Err, other, is_not_found, is_conflict, is_transport_error, is_deadline,
}
use challenge_orchestrator.Instance.{Metadata, Database, remove_containers_metadata}
use challenge_orchestrator.Worker.Timing.{Timing}
use challenge_orchestrator.Worker.Fleet.{
  Fleet, Client, local_client, client_of, instance_client, worker_unreachable,
}
use challenge_orchestrator.Worker.Transport.{note_worker_transport_error}

-- What a teardown meets: the wait for its slot and what happens to the fleet meanwhile, the answers
-- to the removals, those of the pings after timeouts, and the database.
pub record Answers : Type 0 where
  pub meanwhile : Fleet → Fleet
  pub slot : Option Err
  pub remove : String → Option Err
  pub network : Option Err
  pub ping : String → Option Err
  pub network_ping : Option Err
  pub now : ℕ
  pub forget : Option Err

-- The conn whose client made the call.
abbrev pub conn_id : Client → Option ℕ
conn_id local_client = none
conn_id (client_of id) = some id

-- The containers whose removal was sent come in order.
pub record Removal : Type 0 where
  pub in_flight : Bool
  pub errors : List Err
  pub fleet : Fleet
  pub sent : List String

abbrev pub unlogged : Fleet → Removal
unlogged f = record { in_flight = false; errors = []; fleet = f; sent = [] }

abbrev pub with_error : Err → Removal → Removal
with_error e r = record r { errors = e ∷ r.errors }

abbrev pub with_sent : String → Removal → Removal
with_sent container r = record r { sent = container ∷ r.sent }

unfoldable pub any_of : (Err → Bool) → List Err → Bool
any_of test [] = false
any_of test (e ∷ errors) = test e || any_of test errors

module _ (t : Timing) (d : Answers) (worker : String) (cli : Client) where
  abbrev pub noted : Err → Option Err → Fleet → Fleet
  noted e ping f = note_worker_transport_error f t worker (conn_id cli) e ping d.now

  -- One removal, with the loop over the other containers from the fleet that it leaves.
  unfoldable pub after_removal : String → Option Err → Fleet → (Fleet → Removal) → Removal
  after_removal container none f rest = rest f
  after_removal container (some e) f rest =
      let f' = noted e (d.ping container) f in
      let skipped = rest f in
      if is_not_found e
      then skipped
      else if is_conflict e
      then record skipped { in_flight = true }
      else if is_transport_error e && worker_unreachable f' worker
      then with_error e (unlogged f')
      else with_error e (rest f')

  unfoldable pub remove_each : List String → Fleet → Removal
  remove_each [] f = unlogged f
  remove_each (container ∷ containers) f =
      with_sent container (after_removal container (d.remove container) f (remove_each containers))

abbrev pub append_error : Option Err → List Err → List Err
append_error none errors = errors
append_error (some e) errors = errors ++ e ∷ []

unfoldable pub stop_containers_on :
    Timing → Answers → Metadata → Fleet → Database → Option Client → Removal × Metadata × Database
stop_containers_on t d meta f db none = (with_error other (unlogged f), meta, db)
stop_containers_on t d meta f db (some cli) =
    let r = remove_each t d meta.worker cli meta.containers f in
    let (failure, meta', db') = remove_containers_metadata d.forget meta db in
    (record r { errors = append_error failure r.errors }, meta', db')

unfoldable pub stop_containers :
    Timing → Answers → Metadata → Fleet → Database → Removal × Metadata × Database
stop_containers t d meta f db = stop_containers_on t d meta f db (instance_client f meta.worker)

unfoldable pub after_network :
    Timing → Answers → String → Client → Option Err → Fleet → Option Err × Fleet
after_network t d worker cli none f = (none, f)
after_network t d worker cli (some e) f =
    if is_not_found e
    then (none, f)
    else (some e, note_worker_transport_error f t worker (conn_id cli) e d.network_ping d.now)

unfoldable pub stop_network_on :
    Timing → Answers → String → Fleet → Option Client → Option Err × Fleet
stop_network_on t d worker f none = (some other, f)
stop_network_on t d worker f (some cli) = after_network t d worker cli d.network f

unfoldable pub stop_network : Timing → Answers → String → Fleet → Option Err × Fleet
stop_network t d worker f = stop_network_on t d worker f (instance_client f worker)

-- What a teardown leaves, and what of it reached the daemon.
pub record Torn : Type 0 where
  pub errors : List Err
  pub fleet : Fleet
  pub meta : Metadata
  pub db : Database
  pub sent : List String
  pub network_sent : Bool

-- A conflict over the network while a removal is in flight clears itself.
unfoldable pub network_error : Bool → Option Err → Option Err
network_error in_flight none = none
network_error in_flight (some e) = if in_flight && is_conflict e then none else some e

unfoldable pub after_containers : Timing → Answers → String → Removal × Metadata × Database → Torn
after_containers t d worker (r, meta, db) =
    let (failure, f) = stop_network t d worker r.fleet in
    if any_of is_transport_error r.errors && worker_unreachable r.fleet worker
    then record {
      errors = r.errors;
      fleet = r.fleet;
      meta = meta;
      db = db;
      sent = r.sent;
      network_sent = false;
    }
    else record {
      errors = append_error (network_error r.in_flight failure) r.errors;
      fleet = f;
      meta = meta;
      db = db;
      sent = r.sent;
      network_sent = true;
    }

-- The release of the slot, and the metrics, leave all of this alone.
unfoldable pub after_slot : Timing → Answers → Metadata → Fleet → Database → Option Err → Torn
after_slot t d meta f db (some e) = record {
  errors = e ∷ [];
  fleet = f;
  meta = meta;
  db = db;
  sent = [];
  network_sent = false;
}
after_slot t d meta f db none = after_containers t d meta.worker (stop_containers t d meta f db)

unfoldable pub teardown : Timing → Answers → Metadata → Fleet → Database → Torn
teardown t d meta f db = after_slot t d meta (d.meanwhile f) db d.slot
