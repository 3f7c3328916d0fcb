-- ===== src/Instance/Examples.antt =====
-- Tests of the life of an instance, and its theorems at concrete databases.
use challenge_orchestrator.Common.{true, false, none, some, [], ◌∷◌, ◌++◌, ◌↔◌, refl, arith}
use challenge_orchestrator.Instance.{InstanceRecord, Database, open_instance}
use challenge_orchestrator.Instance.Stop.{dynamic}
use challenge_orchestrator.Instance.Create.{Created}
use challenge_orchestrator.Instance.Create.Fate.{Fate}
use challenge_orchestrator.Instance.Prune.{prune}
use challenge_orchestrator.Instance.Prune
use challenge_orchestrator.Instance.Prune.Kept.{InTable, Doomed, prune_iff}
use challenge_orchestrator.Instance.Sample.{build, fleet, row, db, first}

abbrev third : InstanceRecord
third = record {
  id = 3;
  last_solved = 0;
  build = 7;
  created_at = some 2000;
  is_finalized = true;
  worker = "a";
}

abbrev created : Created
created = record {
  id = 3;
  failure = none;
  fleet = fleet;
  db = record {
    instances = row 1 true "a" ∷ row 2 false "a" ∷ third ∷ [];
    ports = db.ports ++ record { instance_id = 3; name = "http"; port = 49153; worker = "a" } ∷ [];
    containers = db.containers ++ record { instance_id = 3; container = "c9" } ∷ [];
    next_id = 4;
  };
}

abbrev no_errors : Prune.Answers
no_errors = record { old_rows = none; list_workers = none; crashed_rows = none }

-- A minute of age, and a time at which the finalized row is old and the other one has crashed.
prune_iff_example :
    InTable (row 1 true "a") (prune no_errors (λ b. some dynamic) 60000000000 1400 db).db.instances
    ↔ (InTable (row 1 true "a") db.instances
        × ¬ Doomed (λ b. some dynamic) 60000000000 1400 (row 1 true "a"))
prune_iff_example =
    prune_iff no_errors (λ b. some dynamic) 60000000000 1400 (row 1 true "a") db (omega arith) refl
      refl

abbrev opened_db : Database
opened_db = (open_instance none 2000 (record first { id = 0; ports = []; containers = [] }) db).2
