-- ===== src/Changes.antt =====
-- What an update makes of the challenges it finds (cork/api.go: classifyChallenges and
-- classifyChallenge; cork/database.go: safeToRefresh). The inventory is a map from ids, of which each
-- value has its key for its id; whether two challenges' options are deeply equal is an argument.
pub mod Rows
pub mod Inventory
pub mod Buckets
mod Examples
use challenge_orchestrator.Common.{
  ℕ, ◌==◌, String, Bool, true, false, not, ◌&&◌, ◌||◌, Option, none, some, List, [], ◌∷◌, str_eq,
  if◌then◌else◌,
}
use challenge_orchestrator.Common.Assoc.{Map, lookup}

-- The part of ChallengeMetadata that the verdict reads.
pub record Challenge : Type 0 where
  pub id : String
  pub challenge_type : String
  pub source_checksum : ℕ
  pub metadata_checksum : ℕ
  pub solve_script : Bool

pub data Verdict : Type 0 where
  added updated refreshed stale unmodified : Verdict

-- ChallengeUpdates, without the errors.
pub record Updates : Type 0 where
  pub added : List Challenge
  pub refreshed : List Challenge
  pub updated : List Challenge
  pub stale : List Challenge
  pub removed : List Challenge
  pub unmodified : List Challenge

abbrev pub no_updates : Updates
no_updates = record {
  added = [];
  refreshed = [];
  updated = [];
  stale = [];
  removed = [];
  unmodified = [];
}

-- Two Go Booleans that differ.
abbrev pub differ : Bool → Bool → Bool
differ true b = not b
differ false b = b

-- A row of the database that the inventory has, under its verdict.
unfoldable pub record_verdict : Verdict → Challenge → Challenge → Updates → Updates
record_verdict added curr new cu = cu
record_verdict updated curr new cu = record cu { updated = new ∷ cu.updated }
record_verdict refreshed curr new cu = record cu { refreshed = new ∷ cu.refreshed }
record_verdict stale curr new cu = record cu { stale = new ∷ cu.stale }
record_verdict unmodified curr new cu = record cu { unmodified = curr ∷ cu.unmodified }

-- seen[id]
unfoldable pub is_row : List Challenge → String → Bool
is_row [] id = false
is_row (curr ∷ rows) id = str_eq curr.id id || is_row rows id

-- The loop over the inventory, in an order of the map's.
unfoldable pub unseen : Map Challenge → List Challenge → List Challenge
unseen [] rows = []
unseen ((id, new) ∷ inventory) rows =
    let rest = unseen inventory rows in if is_row rows id then rest else new ∷ rest

-- The switch on what changed, and on whether a refresh would be safe.
unfoldable pub verdict_of : Bool → Bool → Bool → Bool → Verdict
verdict_of source_changed other_changed safe is_stale =
    if source_changed
    then updated
    else if other_changed
    then (if safe then refreshed else updated)
    else if not safe
    then refreshed
    else if is_stale
    then stale
    else unmodified

-- `stored` is what the lookup of a challenge's whole metadata finds; `none` is its error.
module _ (deep_equal : Challenge → Challenge → Bool) (stored : String → Option Challenge) where
  unfoldable pub safe_to_refresh : Challenge → Bool
  safe_to_refresh new = elim (stored new.id) [
    | none ↦ false
    | some old ↦ str_eq old.challenge_type new.challenge_type && deep_equal old new
  ]

  unfoldable pub classify_challenge : Option Challenge → Challenge → Bool → Verdict
  classify_challenge none new is_stale = added
  classify_challenge (some current) new is_stale =
      let source_changed = not (current.source_checksum == new.source_checksum) in
      let metadata_changed = not (current.metadata_checksum == new.metadata_checksum) in
      let solvescript_changed = differ current.solve_script new.solve_script in
      verdict_of source_changed (metadata_changed || solvescript_changed) (safe_to_refresh new)
        is_stale

  unfoldable pub record_row :
      (String → Bool) → (Challenge → Bool) → Challenge → Option Challenge → Updates → Updates
  record_row is_stale is_removed curr none cu =
      if is_removed curr then record cu { removed = curr ∷ cu.removed } else cu
  record_row is_stale is_removed curr (some new) cu =
      record_verdict (classify_challenge (some curr) new (is_stale curr.id)) curr new cu

  -- The loop over the rows; `append` puts each bucket's first element first.
  unfoldable pub classify_rows :
      Map Challenge → (String → Bool) → (Challenge → Bool) → List Challenge → Updates
  classify_rows inventory is_stale is_removed [] = no_updates
  classify_rows inventory is_stale is_removed (curr ∷ rows) =
      record_row is_stale is_removed curr (lookup curr.id inventory)
        (classify_rows inventory is_stale is_removed rows)

  unfoldable pub classify_challenges :
      Map Challenge → List Challenge → (String → Bool) → (Challenge → Bool) → Updates
  classify_challenges inventory rows is_stale is_removed =
      record (classify_rows inventory is_stale is_removed rows) { added = unseen inventory rows }
