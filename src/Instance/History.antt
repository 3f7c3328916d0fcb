-- ===== src/Instance/History.antt =====
-- Every state of the tables that the statements reach.
use challenge_orchestrator.Common.{ℕ, Bool, true, Option, [], ◌∷◌, ◌++◌, ◌≡◌}
use challenge_orchestrator.Errors.{Err}
use challenge_orchestrator.Ports.{PortRow, PortRange, release_ports}
use challenge_orchestrator.Instance.{
  InstanceRecord, Metadata, Database, open_instance, finalize_instance, remove_containers_metadata,
  remove_instance_metadata,
}
use challenge_orchestrator.Instance.Prune.{delete_where}
use challenge_orchestrator.Instance.Linked.{is_recorded, Linked}

-- One statement or transaction, with its error; a row that names an instance is inserted only where
-- the instance is on record, which the foreign keys check.
pub data Step : Database → Database → Type 0 where
  opened :
      (db : Database) (e : Option Err) (now : ℕ) (meta : Metadata)
      → Step db (open_instance e now meta db).2
  reserved :
      (db : Database) (row : PortRow)
      → is_recorded db.instances row.instance_id ≡ true
      → Step db (record db { ports = db.ports ++ row ∷ [] })
  finalized :
      (db : Database) (e : Option Err) (r : PortRange) (meta : Metadata)
      → is_recorded db.instances meta.id ≡ true
      → Step db (finalize_instance e r meta db).1
  containers_removed :
      (db : Database) (e : Option Err) (meta : Metadata)
      → Step db (remove_containers_metadata e meta db).2
  instance_removed :
      (db : Database) (e : Option Err) (id : ℕ) → Step db (remove_instance_metadata e id db).1
  ports_released :
      (db : Database) (id : ℕ) → Step db (record db { ports = release_ports id db.ports })
  pruned : (db : Database) (doomed : InstanceRecord → Bool) → Step db (delete_where doomed db)

pub data Steps : Database → Database → Type 0 where
  start : (db : Database) → Steps db db
  step : {a b c : Database} → Steps a b → Step b c → Steps a c
