-- ===== src/Instance.antt =====
-- Instances and their rows (cork/database.go: the tables instances, portAssignments and containers;
-- cork/database_instances.go: openInstance, finalizeInstance, lookupInstanceMetadata,
-- removeContainersMetadata and removeInstanceMetadata). A transaction is one step: it commits, or
-- its error is an argument and it changes nothing.
pub mod Rows
pub mod Teardown
pub mod Stop
pub mod Create
pub mod Prune
pub mod Linked
pub mod Converge
pub mod Restart
pub mod History
mod Sample
mod Examples
use challenge_orchestrator.Common.{
  ℕ, suc, ◌+◌, ◌==◌, String, Bool, true, false, not, Option, none, some, List, [], ◌∷◌, ◌++◌, map,
  keep, if◌then◌else◌,
}
use challenge_orchestrator.Common.Assoc.{Map, insert}
use challenge_orchestrator.Errors.{Err, unknown_identifier}
use challenge_orchestrator.Ports.{PortRow, PortRange, release_ports}

pub record InstanceRecord : Type 0 where
  pub id : ℕ
  pub last_solved : ℕ
  pub build : ℕ
  pub created_at : Option ℕ
  pub is_finalized : Bool
  pub worker : String

pub record ContainerRow : Type 0 where
  pub instance_id : ℕ
  pub container : String

-- `next_id` is the id of AUTOINCREMENT, which is never used twice.
pub record Database : Type 0 where
  pub instances : List InstanceRecord
  pub ports : List PortRow
  pub containers : List ContainerRow
  pub next_id : ℕ

-- InstanceMetadata, as the code passes it around.
pub record Metadata : Type 0 where
  pub id : ℕ
  pub build : ℕ
  pub worker : String
  pub ports : Map ℕ
  pub containers : List String

-- INSERT INTO instances; `now` is CURRENT_TIMESTAMP.
unfoldable pub open_instance :
    Option Err → ℕ → Metadata → Database → Option Err × Metadata × Database
open_instance (some e) now meta db = (some e, meta, db)
open_instance none now meta db =
    let row : InstanceRecord = record {
      id = db.next_id;
      last_solved = 0;
      build = meta.build;
      created_at = some now;
      is_finalized = false;
      worker = meta.worker;
    } in
    (
      none,
      record meta { id = db.next_id },
      record db { instances = db.instances ++ row ∷ []; next_id = suc db.next_id },
    )

unfoldable pub port_rows : Metadata → Map ℕ → List PortRow
port_rows meta [] = []
port_rows meta ((name, port) ∷ ports) =
    record { instance_id = meta.id; name = name; port = port; worker = meta.worker }
    ∷ port_rows meta ports

unfoldable pub set_finalized : ℕ → List InstanceRecord → List InstanceRecord
set_finalized id [] = []
set_finalized id (row ∷ rows) =
    (if row.id == id then record row { is_finalized = true } else row) ∷ set_finalized id rows

abbrev pub container_row : ℕ → String → ContainerRow
container_row id container = record { instance_id = id; container = container }

-- Without a port range the ports that docker bound are recorded now.
unfoldable pub finalize_instance :
    Option Err → PortRange → Metadata → Database → Option Err × Database
finalize_instance (some e) r meta db = (some e, db)
finalize_instance none r meta db = (
  none,
  record db {
    ports = if r.low == 0 then db.ports ++ port_rows meta meta.ports else db.ports;
    containers = db.containers ++ map (container_row meta.id) meta.containers;
    instances = set_finalized meta.id db.instances;
  },
)

unfoldable pub find_instance : ℕ → List InstanceRecord → Option InstanceRecord
find_instance id [] = none
find_instance id (row ∷ rows) = if row.id == id then some row else find_instance id rows

unfoldable pub ports_of : ℕ → List PortRow → Map ℕ
ports_of id [] = []
ports_of id (row ∷ rows) =
    let rest = ports_of id rows in
    if row.instance_id == id then insert row.name row.port rest else rest

unfoldable pub containers_of : ℕ → List ContainerRow → List String
containers_of id [] = []
containers_of id (row ∷ rows) =
    let rest = containers_of id rows in if row.instance_id == id then row.container ∷ rest else rest

abbrev pub metadata_of : InstanceRecord → Map ℕ → List String → Metadata
metadata_of row ports containers = record {
  id = row.id;
  build = row.build;
  worker = row.worker;
  ports = ports;
  containers = containers;
}

unfoldable pub nested : Option InstanceRecord → Map ℕ → List String → Option Metadata
nested none ports containers = none
nested (some row) ports containers = some (metadata_of row ports containers)

-- `none` is the error of an unknown instance.
unfoldable pub lookup_instance_metadata : ℕ → Database → Option Metadata
lookup_instance_metadata id db =
    nested (find_instance id db.instances) (ports_of id db.ports) (containers_of id db.containers)

unfoldable pub forget_containers : ℕ → List ContainerRow → List ContainerRow
forget_containers id [] = []
forget_containers id (row ∷ rows) =
    if row.instance_id == id then forget_containers id rows else row ∷ forget_containers id rows

unfoldable pub forget_instance : ℕ → List InstanceRecord → List InstanceRecord
forget_instance id [] = []
forget_instance id (row ∷ rows) =
    if row.id == id then forget_instance id rows else row ∷ forget_instance id rows

-- The rows of ports and containers go; the metadata loses both whatever the database says.
unfoldable pub remove_containers_metadata :
    Option Err → Metadata → Database → Option Err × Metadata × Database
remove_containers_metadata (some e) meta db =
    (some e, record meta { ports = []; containers = [] }, db)
remove_containers_metadata none meta db = (
  none,
  record meta { ports = []; containers = [] },
  record db {
    ports = release_ports meta.id db.ports;
    containers = forget_containers meta.id db.containers;
  },
)

-- DELETE FROM instances, which cascades to the ports and the containers.
unfoldable pub remove_instance_metadata : Option Err → ℕ → Database → Option Err × Database
remove_instance_metadata (some e) id db = (some e, db)
remove_instance_metadata none id db = (
  none,
  record db {
    instances = forget_instance id db.instances;
    ports = release_ports id db.ports;
    containers = forget_containers id db.containers;
  },
)
