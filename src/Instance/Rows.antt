-- ===== src/Instance/Rows.antt =====
-- What the statements on the rows of instances leave to read.
use challenge_orchestrator.Common.{
  ℕ, ==_iff, true, none, List, [], ◌∷◌, ◌++◌, ◌≡◌, ◌≢◌, refl, arith,
}
use challenge_orchestrator.Ports.{PortRow, release_ports}
use challenge_orchestrator.Instance.{
  InstanceRecord, ContainerRow, ports_of, find_instance, forget_instance, forget_containers,
  containers_of, set_finalized,
}

pub find_instance-forget_self :
    (id : ℕ) (rows : List InstanceRecord) → find_instance id (forget_instance id rows) ≡ none
unfolding find_instance forget_instance
find_instance-forget_self id [] = refl
find_instance-forget_self id (row ∷ rows) = ground (arith, find_instance-forget_self id rows)

pub find_instance-forget_other :
    (id id' : ℕ) (rows : List InstanceRecord)
    → id ≢ id'
    → find_instance id' (forget_instance id rows) ≡ find_instance id' rows
unfolding find_instance forget_instance
find_instance-forget_other id id' [] other = refl
find_instance-forget_other id id' (row ∷ rows) other =
    ground
      (arith, find_instance-forget_other id id' rows other, ==_iff row.id id, ==_iff row.id id')

pub containers_of-forget_self :
    (id : ℕ) (rows : List ContainerRow) → containers_of id (forget_containers id rows) ≡ []
unfolding containers_of forget_containers
containers_of-forget_self id [] = refl
containers_of-forget_self id (row ∷ rows) = ground (arith, containers_of-forget_self id rows)

pub find_instance-append_other :
    (id : ℕ) (rows : List InstanceRecord) (row : InstanceRecord)
    → row.id ≢ id
    → find_instance id (rows ++ row ∷ []) ≡ find_instance id rows
unfolding find_instance
find_instance-append_other id [] row other = ground (arith, ==_iff row.id id)
find_instance-append_other id (first ∷ rows) row other =
    ground (arith, find_instance-append_other id rows row other)

-- Deleting the row that was inserted last, under an id that no other row has, undoes the insertion.
pub forget_instance-append :
    (id : ℕ) (rows : List InstanceRecord) (row : InstanceRecord)
    → row.id ≡ id
    → find_instance id rows ≡ none
    → forget_instance id (rows ++ row ∷ []) ≡ rows
unfolding find_instance forget_instance
forget_instance-append id [] row same free = ground (arith, ==_iff row.id id)
forget_instance-append id (first ∷ rows) row same free =
    ground (arith, forget_instance-append id rows row same, free)

pub ports_of-release : (id : ℕ) (rows : List PortRow) → ports_of id (release_ports id rows) ≡ []
unfolding ports_of release_ports
ports_of-release id [] = refl
ports_of-release id (row ∷ rows) = ground (arith, ports_of-release id rows)

pub set_finalized-append :
    (id : ℕ) (rows : List InstanceRecord) (row : InstanceRecord)
    → row.id ≡ id
    → find_instance id rows ≡ none
    → set_finalized id (rows ++ row ∷ []) ≡ rows ++ record row { is_finalized = true } ∷ []
unfolding find_instance set_finalized
set_finalized-append id [] row same free = ground (arith, ==_iff row.id id)
set_finalized-append id (first ∷ rows) row same free =
    ground (arith, set_finalized-append id rows row same, free)
