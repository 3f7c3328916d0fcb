-- ===== src/Instance/Linked.antt =====
-- The ports and the containers on record belong to instances on record, whatever the operations do:
-- the foreign keys of the tables, by the statements themselves.
use challenge_orchestrator.Common.{
  ℕ, ◌==◌, ==_iff, Bool, true, false, not, ◌||◌, List, [], ◌∷◌, ◌++◌, keep, All, if-cases, ◌≡◌, ◌≢◌,
  refl, arith,
}
use challenge_orchestrator.Ports.{PortRow}
use challenge_orchestrator.Instance.{
  InstanceRecord, ContainerRow, Database, set_finalized, forget_instance,
}
use challenge_orchestrator.Instance.Prune.{is_deleted}

unfoldable pub is_recorded : List InstanceRecord → ℕ → Bool
is_recorded [] id = false
is_recorded (row ∷ rows) id = row.id == id || is_recorded rows id

-- Each port and each container names an instance of the table.
abbrev pub PortsLinked : List InstanceRecord → List PortRow → Type 0
PortsLinked rows = All (λ (p : PortRow). is_recorded rows p.instance_id ≡ true)

abbrev pub ContainersLinked : List InstanceRecord → List ContainerRow → Type 0
ContainersLinked rows = All (λ (c : ContainerRow). is_recorded rows c.instance_id ≡ true)

pub record IsLinked (db : Database) : Type 0 where
  pub ports : PortsLinked db.instances db.ports
  pub containers : ContainersLinked db.instances db.containers

-- What every list of rows that name an instance keeps.
module _ {A : Type 0} (name : A → ℕ) where
  abbrev pub Linked : List InstanceRecord → List A → Type 0
  Linked rows = All (λ (a : A). is_recorded rows (name a) ≡ true)

  pub Linked-more :
      (rows rows' : List InstanceRecord) (l : List A)
      → ((id : ℕ) → is_recorded rows id ≡ true → is_recorded rows' id ≡ true)
      → Linked rows l
      → Linked rows' l
  Linked-more rows rows' [] more h = tt
  Linked-more rows rows' (a ∷ l) more (h, hs) = (more (name a) h, Linked-more rows rows' l more hs)

  pub Linked-append :
      (rows : List InstanceRecord) (l l' : List A)
      → Linked rows l
      → Linked rows l'
      → Linked rows (l ++ l')
  Linked-append rows [] l' h h' = h'
  Linked-append rows (a ∷ l) l' (h, hs) h' = (h, Linked-append rows l l' hs h')

  -- A row that survives a deletion keeps its instance.
  pub Linked-delete :
      (doomed : InstanceRecord → Bool) (rows rows' : List InstanceRecord) (l : List A)
      → ((id : ℕ)
          → is_recorded rows id ≡ true
          → is_deleted doomed rows id ≡ false
          → is_recorded rows' id ≡ true)
      → Linked rows l
      → Linked rows' (keep (λ (a : A). not (is_deleted doomed rows (name a))) l)
  Linked-delete doomed rows rows' [] still h = tt
  Linked-delete doomed rows rows' (a ∷ l) still (h, hs) =
      if-cases (Linked rows') (not (is_deleted doomed rows (name a))) _ _
        (λ stays. (still (name a) h (ground arith), Linked-delete doomed rows rows' l still hs))
        (λ goes. Linked-delete doomed rows rows' l still hs)

pub is_recorded-append :
    (rows : List InstanceRecord) (row : InstanceRecord) (id : ℕ)
    → is_recorded rows id ≡ true
    → is_recorded (rows ++ row ∷ []) id ≡ true
unfolding is_recorded
is_recorded-append [] row id h = absurd (cc)
is_recorded-append (first ∷ rows) row id h = ground (arith, is_recorded-append rows row id)

pub is_recorded-finalized :
    (rows : List InstanceRecord) (id asked : ℕ)
    → is_recorded (set_finalized id rows) asked ≡ is_recorded rows asked
unfolding is_recorded set_finalized
is_recorded-finalized [] id asked = refl
is_recorded-finalized (row ∷ rows) id asked = ground (arith, is_recorded-finalized rows id asked)

pub is_recorded-forget :
    (rows : List InstanceRecord) (id asked : ℕ)
    → id ≢ asked
    → is_recorded rows asked ≡ true
    → is_recorded (forget_instance id rows) asked ≡ true
unfolding is_recorded forget_instance
is_recorded-forget [] id asked other h = absurd (cc)
is_recorded-forget (row ∷ rows) id asked other h =
    ground (arith, is_recorded-forget rows id asked other, ==_iff row.id id, ==_iff row.id asked)

pub is_recorded-delete :
    (doomed : InstanceRecord → Bool) (rows : List InstanceRecord) (id : ℕ)
    → is_recorded rows id ≡ true
    → is_deleted doomed rows id ≡ false
    → is_recorded (keep (λ (row : InstanceRecord). not (doomed row)) rows) id ≡ true
unfolding is_recorded is_deleted
is_recorded-delete doomed [] id h d = absurd (cc)
is_recorded-delete doomed (row ∷ rows) id h d = ground (arith, is_recorded-delete doomed rows id)
