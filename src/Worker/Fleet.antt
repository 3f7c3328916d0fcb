-- ===== src/Worker/Fleet.antt =====
-- The Manager's workers (cork/workers.go): the map of conns, the placement order and its cursor,
-- and the database rows that go with them. The workers lock is held through each operation, so an
-- operation is one step. What can fail outside the program (the database, the TLS material, the
-- parse of an address) is an argument that says whether it did; `now` is the clock.
pub mod Order
pub mod Consistent
pub mod Routes
pub mod Recovery
pub mod History
use challenge_orchestrator.Common.{
  ℕ, suc, ◌+◌, String, Bool, true, false, not, ◌&&◌, ◌||◌, Option, none, some, List, [], ◌∷◌, ◌++◌,
  str_eq, ◌==◌, if◌then◌else◌, keep, length,
}
use challenge_orchestrator.Common.Assoc.{Map, lookup, insert, remove}
use challenge_orchestrator.Errors.{Err, unknown_identifier, other}
use challenge_orchestrator.Launch.Queue.{DaemonQueue}
use challenge_orchestrator.Worker.Conn.{
  Conn, Reachable, ok, down, unresponsive, new_worker_conn, mark_worker_down, is_down,
}

-- A row of the instances table, as far as workers go.
pub record InstanceRow : Type 0 where
  pub instance_id : ℕ
  pub worker : String

pub record Fleet : Type 0 where
  pub workers : Map Conn
  pub order : List String
  pub cursor : ℕ
  pub placement_enabled : Bool
  pub external_build_plane : Bool
  pub worker_rows : Map String
  pub instance_rows : List InstanceRow
  pub local_queue : DaemonQueue
  pub launch_concurrency : ℕ
  pub next_id : ℕ

unfoldable pub enable_worker_placement : Fleet → Fleet
enable_worker_placement f = record f { placement_enabled = true }

-- The conn that newWorkerConn builds next, at an address of its own.
abbrev pub fresh_conn : Fleet → String → String → Bool → ℕ → Conn
fresh_conn f ip public from_recovery now =
    new_worker_conn f.next_id ip public from_recovery f.launch_concurrency now

-- Puts a conn that was just built into the map.
pub publish : Fleet → String → Conn → Fleet
publish f ip w = record f { workers = insert ip w f.workers; next_id = suc f.next_id }

-- The loop of initWorkers over the rows. `tls_ok` is whether the conns can be built.
unfoldable pub load_workers : Bool → ℕ → Fleet → Map String → Option Err × Fleet
unfolding publish
load_workers tls_ok now f [] = (none, f)
load_workers tls_ok now f ((ip, public) ∷ rows) =
    let f' = publish f ip (fresh_conn f ip public false now) in
    let rest = load_workers tls_ok now (record f' { order = f'.order ++ ip ∷ [] }) rows in
    if tls_ok then rest else (some other, f)

unfoldable pub init_workers : Bool → Bool → ℕ → Fleet → Option Err × Fleet
unfolding load_workers
init_workers db_ok tls_ok now f =
    let emptied = record f { workers = [] } in
    if db_ok then load_workers tls_ok now emptied f.worker_rows else (some other, emptied)

-- What happens outside the program during worker-add.
pub record AddOutcome : Type 0 where
  pub addr_valid : Bool
  pub insert_ok : Bool
  pub read_back_ok : Bool
  pub conn_ok : Bool

-- ON CONFLICT(ip): an empty public address leaves the stored one alone.
pub upsert : String → String → Map String → Map String
upsert ip public rows = elim (lookup ip rows) [
  | none ↦ insert ip public rows
  | some stored ↦ insert ip (if str_eq public "" then stored else public) rows
]

pub or_empty : Option String → String
or_empty none = ""
or_empty (some s) = s

-- The public address of the new conn: an empty one is read back from the row.
abbrev pub added_public : String → String → Map String → String
added_public ip public rows =
    if str_eq public "" then or_empty (lookup ip (upsert ip public rows)) else public

-- The conn replaces one at the same ip, or joins the end of the placement order.
pub register : Fleet → String → Conn → Fleet
unfolding publish
register f ip w = elim (lookup ip f.workers) [
  | none ↦ record (publish f ip w) { order = f.order ++ ip ∷ [] }
  | some old ↦ publish f ip w
]

unfoldable pub add_worker : Fleet → String → String → AddOutcome → ℕ → Option Err × Fleet
unfolding upsert or_empty register
add_worker f ip public outcome now =
    let rows = upsert ip public f.worker_rows in
    let stored = record f { worker_rows = rows } in
    let public' = added_public ip public f.worker_rows in
    if not outcome.addr_valid
    then (some other, f)
    else if not outcome.insert_ok
    then (some other, f)
    else if str_eq public "" && not outcome.read_back_ok
    then (some other, stored)
    else if not outcome.conn_ok
    then (some other, stored)
    else (none, register stored ip (fresh_conn stored ip public' false now))

pub remove_first : String → List String → List String
remove_first ip [] = []
remove_first ip (o ∷ os) = if str_eq o ip then os else o ∷ remove_first ip os

-- `committed` is whether the transaction went through; if not, it is rolled back.
unfoldable pub remove_worker : Fleet → String → Bool → Option Err × Fleet
unfolding remove_first
remove_worker f ip committed = elim (lookup ip f.workers) [
  | none ↦ (some (unknown_identifier "worker" ip), f)
  | some w ↦
      if committed
      then (
        none,
        record f {
          instance_rows = keep (λ r. not (str_eq r.worker ip)) f.instance_rows;
          worker_rows = remove ip f.worker_rows;
          workers = remove ip f.workers;
          order = remove_first ip f.order;
        },
      )
      else (some other, f)
]

unfoldable pub set_worker_down : Fleet → String → ℕ → Option Err × Fleet
set_worker_down f ip now = elim (lookup ip f.workers) [
  | none ↦ (some (unknown_identifier "worker" ip), f)
  | some w ↦ (none, record f { workers = insert ip (mark_worker_down w now) f.workers })
]

-- Ejections belong to the box, not to the conn.
abbrev pub recovered_conn : Fleet → String → Conn → ℕ → Conn
recovered_conn f ip w now = record (fresh_conn f ip w.public true now) { ejections = w.ejections }

-- recoverWorker of the conn at address `id`, which may have been replaced meanwhile.
unfoldable pub recover_worker : Fleet → String → ℕ → Bool → ℕ → Fleet
unfolding publish
recover_worker f ip id conn_ok now = elim (lookup ip f.workers) [
  | none ↦ f
  | some w ↦
      if not (w.id == id)
      then f
      else if is_down w.reachable
      then f
      else if not conn_ok
      then f
      else publish f ip (recovered_conn f ip w now)
]

unfoldable pub workers_configured : Fleet → Bool
workers_configured f = elim f.workers [ [] ↦ false | _ ∷ _ ↦ true ]

unfoldable pub worker_public_addr : Fleet → String → String
worker_public_addr f ip = elim (lookup ip f.workers) [
  | none ↦ ""
  | some w ↦ if str_eq w.public "" then ip else w.public
]

pub unreachable_conn : Conn → Reachable → Bool
unreachable_conn w ok = false
unreachable_conn w down = true
unreachable_conn w unresponsive = w.daemon_failed

unfoldable pub worker_unreachable : Fleet → String → Bool
unfolding unreachable_conn
worker_unreachable f ip = elim (lookup ip f.workers) [
  | none ↦ true
  | some w ↦ unreachable_conn w w.reachable
]

-- Which daemon a call goes to: the local one, or the client of a conn.
pub data Client : Type 0 where
  local_client : Client
  client_of : ℕ → Client

-- `none` is the refusal of an instance that has no daemon.
unfoldable pub instance_client : Fleet → String → Option Client
instance_client f worker =
    if str_eq worker ""
    then (if f.external_build_plane then none else some local_client)
    else elim (lookup worker f.workers) [ none ↦ none | some w ↦ some (client_of w.id) ]

unfoldable pub worker_daemon : Fleet → String → DaemonQueue × String
worker_daemon f worker =
    if str_eq worker "" then (f.local_queue, "") else elim (lookup worker f.workers) [
      | none ↦ (f.local_queue, "")
      | some w ↦ (w.queue, w.public)
    ]

unfoldable pub daemon_queue : Fleet → String → DaemonQueue
daemon_queue f worker =
    if str_eq worker ""
    then f.local_queue
    else elim (lookup worker f.workers) [ none ↦ f.local_queue | some w ↦ w.queue ]
