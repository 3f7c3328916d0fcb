-- ===== src/Instance/Stop/Failed.antt =====
-- What a stop leaves of an instance: its row goes exactly when the stop succeeds, but its ports and
-- containers are forgotten by every stop that reaches the daemon.
use challenge_orchestrator.Common.{
  ℕ, String, Bool, false, ◌&&◌, ◌||◌, Option, none, some, List, [], ◌∷◌, if-both, ◌≡◌, ◌≢◌, ◌⊎◌,
  inl, inr, refl, sym, ap, ap₂, subst, ◌∙◌,
}
use challenge_orchestrator.Common.Assoc.{Map}
use challenge_orchestrator.Errors.{Err, is_deadline, is_transport_error}
use challenge_orchestrator.Instance.{
  Metadata, InstanceRecord, Database, metadata_of, nested, forget_instance,
  lookup_instance_metadata, find_instance, ports_of, containers_of, remove_instance_metadata,
  remove_containers_metadata,
}
use challenge_orchestrator.Instance.Rows.{containers_of-forget_self, ports_of-release}
use challenge_orchestrator.Instance.Teardown.{
  Answers, Removal, Torn, any_of, stop_containers, stop_containers_on, after_containers, after_slot,
  teardown,
}
use challenge_orchestrator.Instance.Stop.{
  unreachable, Stopped, cleared, kept, gone, after_teardown, stop_instance,
}
use challenge_orchestrator.Instance.Stop.Sent.{stop_instance-torn}
use challenge_orchestrator.Worker.Timing.{Timing}
use challenge_orchestrator.Worker.Fleet.{Fleet, Client, instance_client, worker_unreachable}

-- The rows of an instance are all gone, or the row of the instance is as it was.
abbrev pub Settled : ℕ → Database → Stopped → Type 0
Settled id db s =
    ((s.errors ≡ [])
      × (s.db.instances ≡ forget_instance id db.instances)
      × (ports_of id s.db.ports ≡ [])
      × (containers_of id s.db.containers ≡ []))
    ⊎ ((s.errors ≢ []) × (s.db.instances ≡ db.instances))

module _ (t : Timing) (d : Answers) (meta : Metadata) (f : Fleet) (db : Database) where
  cleared-Settled :
      (delete : Option Err) (g : Fleet) (sent : List String) (network_sent : Bool) (db' : Database)
      → db'.instances ≡ db.instances
      → Settled meta.id db
          (cleared g sent network_sent (remove_instance_metadata delete meta.id db'))
  unfolding remove_instance_metadata
  cleared-Settled none g sent network_sent db' same = inl (
    refl,
    ap (forget_instance meta.id) same,
    ports_of-release meta.id db'.ports,
    containers_of-forget_self meta.id db'.containers,
  )
  cleared-Settled (some e) g sent network_sent db' same = inr ((λ h. cc), same)

  removed_same :
      (forget : Option Err) → (remove_containers_metadata forget meta db).2.instances ≡ db.instances
  unfolding remove_containers_metadata
  removed_same none = refl
  removed_same (some e) = refl

  after_containers-same :
      (r : Removal) (meta' : Metadata) (db' : Database)
      → (after_containers t d meta.worker (r, meta', db')).db ≡ db'
  unfolding after_containers
  after_containers-same r meta' db' =
      if-both (λ (torn : Torn). torn.db ≡ db')
        (any_of is_transport_error r.errors && worker_unreachable r.fleet meta.worker) _ _ refl refl

  stop_containers_on-same :
      (g : Fleet) (client : Option Client)
      → (stop_containers_on t d meta g db client).2.instances ≡ db.instances
  unfolding stop_containers_on
  stop_containers_on-same g none = refl
  stop_containers_on-same g (some cli) = removed_same d.forget

  after_slot-same :
      (g : Fleet) (slot : Option Err) → (after_slot t d meta g db slot).db.instances ≡ db.instances
  unfolding after_slot stop_containers
  after_slot-same g (some e) = refl
  after_slot-same g none =
      let (r, meta', db') = stop_containers_on t d meta g db (instance_client g meta.worker) in
      ap (λ (x : Database). x.instances) (after_containers-same r meta' db')
      ∙ stop_containers_on-same g (instance_client g meta.worker)

  after_teardown-Settled :
      (delete : Option Err) (torn : Torn) (errors : List Err)
      → torn.errors ≡ errors
      → torn.db.instances ≡ db.instances
      → Settled meta.id db (after_teardown delete meta.id meta.worker torn errors)
  unfolding after_teardown
  after_teardown-Settled delete torn [] none_left same =
      cleared-Settled delete torn.fleet torn.sent torn.network_sent torn.db same
  after_teardown-Settled delete torn (e ∷ errors) some_left same =
      if-both (Settled meta.id db)
        (unreachable torn.fleet meta.worker || any_of is_deadline (e ∷ errors))
        (gone delete meta.id torn) (kept torn)
        (cleared-Settled delete torn.fleet torn.sent torn.network_sent torn.db same)
        (inr ((λ h. cc (some_left, h)), same))

  -- Whatever a stop meets, it either succeeds, and then the instance's row is deleted and no other,
  -- and none of its ports or containers is left on record, or it fails and leaves the rows of the
  -- instances as they were.
  pub stop_instance-Settled :
      (delete : Option Err) → Settled meta.id db (stop_instance t d delete meta f db)
  unfolding stop_instance teardown
  stop_instance-Settled delete =
      let torn = teardown t d meta f db in
      if-both (Settled meta.id db) (unreachable f meta.worker) _
        (after_teardown delete meta.id meta.worker torn torn.errors)
        (cleared-Settled delete f [] false db refl)
        (after_teardown-Settled delete torn torn.errors refl
          (after_slot-same (d.meanwhile f) d.slot))

  abbrev Forgets : Database → Type 0
  Forgets db' = (ports_of meta.id db'.ports ≡ []) × (containers_of meta.id db'.containers ≡ [])

  stop_containers_on-Forgets :
      (g : Fleet) (cli : Client) (forget : Option Err)
      → forget ≡ none
      → Forgets (remove_containers_metadata forget meta db).2
  unfolding remove_containers_metadata
  stop_containers_on-Forgets g cli none e =
      (ports_of-release meta.id db.ports, containers_of-forget_self meta.id db.containers)
  stop_containers_on-Forgets g cli (some x) e = absurd (cc)

  after_slot-Forgets :
      (g : Fleet) (slot : Option Err) (cli : Client)
      → slot ≡ none
      → d.forget ≡ none
      → instance_client g meta.worker ≡ some cli
      → Forgets (after_slot t d meta g db slot).db
  unfolding after_slot stop_containers stop_containers_on
  after_slot-Forgets g (some e) cli granted forget client = absurd (cc)
  after_slot-Forgets g none cli granted forget client =
      subst
        (λ (c : Option Client).
          Forgets (after_containers t d meta.worker (stop_containers_on t d meta g db c)).db)
        (sym client)
        (subst Forgets
          (sym (
            after_containers-same (stop_containers_on t d meta g db (some cli)).0
              (remove_containers_metadata d.forget meta db).1
              (remove_containers_metadata d.forget meta db).2))
          (stop_containers_on-Forgets g cli d.forget forget))

  cleared-Forgets :
      (delete : Option Err) (torn : Torn) → Forgets torn.db → Forgets (gone delete meta.id torn).db
  unfolding remove_instance_metadata
  cleared-Forgets none torn h =
      (ports_of-release meta.id torn.db.ports, containers_of-forget_self meta.id torn.db.containers)
  cleared-Forgets (some e) torn h = h

  after_teardown-Forgets :
      (delete : Option Err) (torn : Torn) (errors : List Err)
      → Forgets torn.db
      → Forgets (after_teardown delete meta.id meta.worker torn errors).db
  unfolding after_teardown
  after_teardown-Forgets delete torn [] h = cleared-Forgets delete torn h
  after_teardown-Forgets delete torn (e ∷ errors) h =
      if-both (λ (s : Stopped). Forgets s.db)
        (unreachable torn.fleet meta.worker || any_of is_deadline (e ∷ errors))
        (gone delete meta.id torn) (kept torn) (cleared-Forgets delete torn h) h

  -- A stop that finds the daemon within reach, is granted its slot and can write its records leaves
  -- the instance with no port and no container on record, whether or not the containers could be
  -- removed: where it fails, the row of the instance stays, and the next stop reads that there is
  -- nothing to remove.
  pub stop_instance-forgets :
      (delete : Option Err) (cli : Client) (row : InstanceRecord)
      → unreachable f meta.worker ≡ false
      → instance_client (d.meanwhile f) meta.worker ≡ some cli
      → d.slot ≡ none
      → d.forget ≡ none
      → find_instance meta.id db.instances ≡ some row
      → (stop_instance t d delete meta f db).errors ≢ []
      → lookup_instance_metadata meta.id (stop_instance t d delete meta f db).db
        ≡ some (metadata_of row [] [])
  unfolding lookup_instance_metadata teardown
  stop_instance-forgets delete cli row near client granted forget there failed =
      let torn = teardown t d meta f db in
      let same = stop_instance-torn t d meta db delete f near in
      let slot_forgets = after_slot-Forgets (d.meanwhile f) d.slot cli granted forget client in
      let (ports, containers) =
        subst (λ (s : Stopped). Forgets s.db) (sym same)
          (after_teardown-Forgets delete torn torn.errors slot_forgets) in
      let still : find_instance meta.id (stop_instance t d delete meta f db).db.instances
          ≡ some row =
        elim (stop_instance-Settled delete) [
          | inl (success, _, _, _) ↦ absurd (failed success)
          | inr (errors, kept_rows) ↦ ap (find_instance meta.id) kept_rows ∙ there
        ] in
      ap₂ (λ (o : Option InstanceRecord) (p : Map ℕ × List String). nested o p.0 p.1) still
        (ap₂ (λ (p : Map ℕ) (c : List String). (p, c)) ports containers)
      ∙ unfold nested in refl
