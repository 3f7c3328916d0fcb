-- ===== src/Instance/Create/Fate.antt =====
-- What the creation of an instance leaves on record, whatever fails on the way.
use challenge_orchestrator.Common.{
  ℕ, String, Bool, true, false, none, some, [], ◌∷◌, ◌++◌, ◌≡◌, ◌≢◌, ◌⊎◌,
}
use challenge_orchestrator.Ports.{PortRange}
use challenge_orchestrator.Instance.{InstanceRecord, Database, find_instance}
use challenge_orchestrator.Instance.Create.{Build, Surroundings, Created}
use challenge_orchestrator.Launch.Admission.{LaunchLimits}
use challenge_orchestrator.Worker.Timing.{Timing}
use challenge_orchestrator.Worker.Fleet.{Fleet}

-- The row of an instance whose launch is under way.
abbrev pub pending : ℕ → ℕ → String → Database → InstanceRecord
pending build now worker db = record {
  id = db.next_id;
  last_solved = 0;
  build = build;
  created_at = some now;
  is_finalized = false;
  worker = worker;
}

-- A failure leaves the rows as they were, or with one more that is not finalized; a success adds one
-- that is.
abbrev pub Fate : ℕ → ℕ → Database → Created → Type 0
Fate build now db c =
    ((c.failure ≢ none) × (c.db.instances ≡ db.instances))
    ⊎ ((worker : String) × (c.failure ≢ none)
        × (c.db.instances ≡ db.instances ++ pending build now worker db ∷ []))
    ⊎ ((worker : String) × (c.failure ≡ none)
        × (c.id ≡ db.next_id)
        × (c.db.instances
            ≡ db.instances ++ record (pending build now worker db) { is_finalized = true } ∷ []))

module _ (t : Timing) (r : PortRange) (registry : Bool) (s : Surroundings) (build : Build)
    (limits : LaunchLimits) (db : Database)
    (free : find_instance db.next_id db.instances ≡ none) where
  abbrev Booked : String → Database → Type 0
  Booked worker db' = db'.instances ≡ db.instances ++ pending build.id s.now worker db ∷ []

  abbrev Meets : Created → Type 0
  Meets = Fate build.id s.now db
