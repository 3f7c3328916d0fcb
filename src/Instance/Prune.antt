-- ===== src/Instance/Prune.antt =====
-- The pruning of old rows (cork/api.go: Prune). SQLite's times are seconds; `none` is NULL, whose
-- comparisons are never true.

pub mod Kept
use challenge_orchestrator.Common.{
  ℕ, ◌+◌, ◌-◌, ◌/◌, ◌==◌, ltb, String, Bool, true, false, not, ◌&&◌, ◌||◌, Option, none, some, List,
  [], ◌∷◌, keep, str_eq, if◌then◌else◌,
}
use challenge_orchestrator.Errors.{Err}
use challenge_orchestrator.Ports.{PortRow}
use challenge_orchestrator.Instance.{InstanceRecord, ContainerRow, Database}
use challenge_orchestrator.Instance.Stop.{InstanceCount, dynamic, locked, fixed}

unfoldable pub is_dynamic : Option InstanceCount → Bool
is_dynamic (some dynamic) = true
is_dynamic _ = false

unfoldable pub is_null : Option ℕ → Bool
is_null none = true
is_null (some created) = false

-- created_at < datetime('now', '-n seconds')
unfoldable pub older_than : ℕ → ℕ → Option ℕ → Bool
older_than n now none = false
older_than n now (some created) = ltb (created + n) now

-- m.pruneAge, in nanoseconds, rounded up to seconds.
abbrev pub age_seconds : ℕ → ℕ
age_seconds age = (age + 1000000000 - 1) / 1000000000

abbrev pub crash_seconds : ℕ
crash_seconds = 300

unfoldable pub is_old : (ℕ → Option InstanceCount) → ℕ → ℕ → InstanceRecord → Bool
is_old builds age now row =
    is_dynamic (builds row.build)
    && (is_null row.created_at
        || (row.is_finalized && older_than (age_seconds age) now row.created_at))

unfoldable pub is_crashed : ℕ → InstanceRecord → Bool
is_crashed now row = not row.is_finalized && older_than crash_seconds now row.created_at

unfoldable pub is_deleted : (InstanceRecord → Bool) → List InstanceRecord → ℕ → Bool
is_deleted doomed [] id = false
is_deleted doomed (row ∷ rows) id = (row.id == id && doomed row) || is_deleted doomed rows id

-- DELETE FROM instances WHERE ..., which cascades to the ports and the containers.
unfoldable pub delete_where : (InstanceRecord → Bool) → Database → Database
delete_where doomed db = record db {
  instances = keep (λ (row : InstanceRecord). not (doomed row)) db.instances;
  ports = keep (λ (row : PortRow). not (is_deleted doomed db.instances row.instance_id)) db.ports;
  containers =
      keep (λ (row : ContainerRow). not (is_deleted doomed db.instances row.instance_id))
        db.containers;
}

unfoldable pub is_named : String → List String → Bool
is_named worker [] = false
is_named worker (other ∷ others) = str_eq other worker || is_named worker others

-- SELECT DISTINCT worker ... AND worker != ''
unfoldable pub crashed_workers : ℕ → List InstanceRecord → List String
crashed_workers now [] = []
crashed_workers now (row ∷ rows) =
    let rest = crashed_workers now rows in
    if is_crashed now row && (not (str_eq row.worker "") && not (is_named row.worker rest))
    then row.worker ∷ rest
    else rest

-- The rows that are left, and the workers whose leftovers reclaimAfterGC looks for.
pub record Pruned : Type 0 where
  pub failure : Option Err
  pub db : Database
  pub reclaimed : List String

-- The errors of the three statements.
pub record Answers : Type 0 where
  pub old_rows : Option Err
  pub list_workers : Option Err
  pub crashed_rows : Option Err

abbrev is_empty : List InstanceRecord → Bool
is_empty [] = true
is_empty (row ∷ rows) = false

unfoldable pub collect_crashed : Answers → ℕ → Database → Pruned
collect_crashed d now db = elim d.crashed_rows [
  | some e ↦ record { failure = none; db = db; reclaimed = [] }
  | none ↦ record {
    failure = none;
    db = delete_where (is_crashed now) db;
    reclaimed =
        if is_empty (keep (is_crashed now) db.instances)
        then []
        else (elim d.list_workers [ some e ↦ [] | none ↦ crashed_workers now db.instances ]);
  }
]

unfoldable pub prune : Answers → (ℕ → Option InstanceCount) → ℕ → ℕ → Database → Pruned
prune d builds age now db =
    if age == 0 then record { failure = none; db = db; reclaimed = [] } else (elim d.old_rows [
      | some e ↦ record { failure = some e; db = db; reclaimed = [] }
      | none ↦ collect_crashed d now (delete_where (is_old builds age now) db)
    ])
