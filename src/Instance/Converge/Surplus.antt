-- ===== src/Instance/Converge/Surplus.antt =====
-- The instances that a converge, or the clean-up of a schema, takes down.
use challenge_orchestrator.Common.{
  ℕ, zero, suc, ◌==◌, Option, none, some, List, [], ◌∷◌, ◌++◌, take, ==_iff, if◌then◌else◌, ◌≡◌,
  ◌≢◌, refl, sym, ap, ◌∙◌, arith, inl, inr, some_eq, ℕ_discrete,
}
use challenge_orchestrator.Errors.{Err}
use challenge_orchestrator.Instance.{
  InstanceRecord, Database, metadata_of, nested, lookup_instance_metadata, find_instance,
  forget_instance, ports_of, containers_of,
}
use challenge_orchestrator.Instance.Stop.Failed.{stop_instance-Settled}
use challenge_orchestrator.Instance.Converge.{
  build_instances, StopAnswers, Progress, stop_found, stop_one, stop_surplus, unless_failed,
  stop_removed, drop,
}
use challenge_orchestrator.Worker.Timing.{Timing}
use challenge_orchestrator.Worker.Fleet.{Fleet}

-- A row that is found by an id has that id.
find_instance-id :
    (id : ℕ) (rows : List InstanceRecord) (row : InstanceRecord)
    → find_instance id rows ≡ some row
    → row.id ≡ id
unfolding find_instance
find_instance-id id [] row e = absurd (cc)
find_instance-id id (first ∷ rows) row e = elim (ℕ_discrete first.id id) [
  | yes same ↦
      let here : first ≡ row = some_eq (ground (arith, e, same)) in
      ap (λ (x : InstanceRecord). x.id) (sym here) ∙ same
  | no other ↦ find_instance-id id rows row (ground (arith, e, other))
]

module _ (t : Timing) (d : ℕ → StopAnswers) where
  -- A stop without an error deletes the row of its instance.
  stop_found-forgets :
      (id : ℕ) (found : Option InstanceRecord) (f : Fleet) (db : Database)
      → find_instance id db.instances ≡ found
      → let p =
          stop_found t
            (d id)
            (nested found (ports_of id db.ports) (containers_of id db.containers))
            f
            db in
        p.errors ≡ [] → p.db.instances ≡ forget_instance id db.instances
  unfolding stop_found nested
  stop_found-forgets id none f db found none_left = absurd (cc)
  stop_found-forgets id (some row) f db found none_left =
      let meta = metadata_of row (ports_of id db.ports) (containers_of id db.containers) in
      elim (stop_instance-Settled t (d id).teardown meta f db (d id).delete) [
        | inl (success, rows, _, _) ↦
            rows
            ∙ ap (λ (n : ℕ). forget_instance n db.instances)
                (find_instance-id id db.instances row found)
        | inr (failed, rows) ↦ absurd (failed none_left)
      ]

  stop_one-forgets :
      (id : ℕ) (f : Fleet) (db : Database)
      → (stop_one t d id f db).errors ≡ []
      → (stop_one t d id f db).db.instances ≡ forget_instance id db.instances
  unfolding lookup_instance_metadata
  stop_one-forgets id f db none_left =
      stop_found-forgets id (find_instance id db.instances) f db refl none_left

abbrev pub forget_all : List ℕ → List InstanceRecord → List InstanceRecord
forget_all [] rows = rows
forget_all (id ∷ ids) rows = forget_all ids (forget_instance id rows)

pub no_errors : (l l' : List Err) → l ++ l' ≡ [] → (l ≡ []) × (l' ≡ [])
no_errors [] l' e = (refl, e)
no_errors (x ∷ l) l' e = absurd (cc)

module _ (t : Timing) (d : ℕ → StopAnswers) where
  pub stop_surplus-forgets :
      (ids : List ℕ) (f : Fleet) (db : Database)
      → (stop_surplus t d ids f db).errors ≡ []
      → (stop_surplus t d ids f db).db.instances ≡ forget_all ids db.instances
  unfolding stop_surplus
  stop_surplus-forgets [] f db none_left = refl
  stop_surplus-forgets (id ∷ ids) f db none_left =
      let p = stop_one t d id f db in
      let rest = stop_surplus t d ids p.fleet p.db in
      let (first_fine, rest_fine) = no_errors p.errors rest.errors none_left in
      stop_surplus-forgets ids p.fleet p.db rest_fine
      ∙ ap (forget_all ids) (stop_one-forgets t d id f db first_fine)

  unless_failed-fine :
      (errors : List Err) (p rest : Progress)
      → p.errors ≡ errors
      → (unless_failed errors p rest).errors ≡ []
      → (errors ≡ []) × (unless_failed errors p rest ≡ rest)
  unfolding unless_failed
  unless_failed-fine [] p rest same none_left = (refl, refl)
  unless_failed-fine (e ∷ errors) p rest same none_left = absurd (cc (same, none_left))

  -- A clean-up that stops every instance a schema has given up, and meets no error, has deleted the
  -- rows of exactly those instances.
  pub stop_removed-forgets :
      (ids : List ℕ) (f : Fleet) (db : Database)
      → (stop_removed t d ids f db).errors ≡ []
      → (stop_removed t d ids f db).db.instances ≡ forget_all ids db.instances
  unfolding stop_removed
  stop_removed-forgets [] f db none_left = refl
  stop_removed-forgets (id ∷ ids) f db none_left =
      let p = stop_one t d id f db in
      let rest = stop_removed t d ids p.fleet p.db in
      let (first_fine, same) = unless_failed-fine p.errors p rest refl none_left in
      ap (λ (q : Progress). q.db.instances) same
      ∙ stop_removed-forgets ids p.fleet p.db
          (sym (ap (λ (q : Progress). q.errors) same) ∙ none_left)
      ∙ ap (forget_all ids) (stop_one-forgets t d id f db first_fine)

-- The ids of the instances are the primary key.
abbrev pub IsFresh : ℕ → List ℕ → Type 0
IsFresh id [] = Unit
IsFresh id (other ∷ ids) = (id ≢ other) × IsFresh id ids

abbrev pub IsDistinct : List ℕ → Type 0
IsDistinct [] = Unit
IsDistinct (id ∷ ids) = IsFresh id ids × IsDistinct ids

abbrev pub leave : ℕ → List ℕ → List ℕ
leave id [] = []
leave id (other ∷ ids) = if other == id then leave id ids else other ∷ leave id ids

abbrev pub leave_all : List ℕ → List ℕ → List ℕ
leave_all [] l = l
leave_all (id ∷ ids) l = leave_all ids (leave id l)

build_instances-forget :
    (build id : ℕ) (rows : List InstanceRecord)
    → build_instances build (forget_instance id rows) ≡ leave id (build_instances build rows)
unfolding build_instances forget_instance
build_instances-forget build id [] = refl
build_instances-forget build id (row ∷ rows) = ground (arith, build_instances-forget build id rows)

pub build_instances-forget_all :
    (build : ℕ) (ids : List ℕ) (rows : List InstanceRecord)
    → build_instances build (forget_all ids rows) ≡ leave_all ids (build_instances build rows)
build_instances-forget_all build [] rows = refl
build_instances-forget_all build (id ∷ ids) rows =
    build_instances-forget_all build ids (forget_instance id rows)
    ∙ ap (leave_all ids) (build_instances-forget build id rows)

leave-fresh : (id : ℕ) (ids : List ℕ) → IsFresh id ids → leave id ids ≡ ids
leave-fresh id [] h = refl
leave-fresh id (other ∷ ids) (apart, h) =
    ground (arith, leave-fresh id ids h, apart, ==_iff other id)

leave_all-nil : (ids : List ℕ) → leave_all ids [] ≡ []
leave_all-nil [] = refl
leave_all-nil (id ∷ ids) = leave_all-nil ids

-- What none of the ids is stays in front.
leave_all-front :
    (id : ℕ) (ids l : List ℕ) → IsFresh id ids → leave_all ids (id ∷ l) ≡ id ∷ leave_all ids l
leave_all-front id [] l h = refl
leave_all-front id (other ∷ ids) l (apart, h) =
    ap (leave_all ids) {x = leave other (id ∷ l)} (ground (arith, apart, ==_iff id other))
    ∙ leave_all-front id ids (leave other l) h

leave_all_self : (l : List ℕ) → IsDistinct l → leave_all l l ≡ []
leave_all_self [] h = refl
leave_all_self (id ∷ l) (fresh, h) =
    ap (leave_all l) {x = leave id (id ∷ l)} (ground (arith, leave-fresh id l fresh, ==_iff id id))
    ∙ leave_all_self l h

drop-IsFresh : (id n : ℕ) (l : List ℕ) → IsFresh id l → IsFresh id (drop n l)
unfolding drop
drop-IsFresh id zero l h = h
drop-IsFresh id (suc n) [] h = tt
drop-IsFresh id (suc n) (other ∷ l) (apart, h) = drop-IsFresh id n l h

pub leave_all-drop : (n : ℕ) (l : List ℕ) → IsDistinct l → leave_all (drop n l) l ≡ take n l
unfolding drop
leave_all-drop zero l h = leave_all_self l h
leave_all-drop (suc n) [] h = refl
leave_all-drop (suc n) (id ∷ l) (fresh, h) =
    leave_all-front id (drop n l) l (drop-IsFresh id n l fresh)
    ∙ ap (λ (k : List ℕ). id ∷ k) (leave_all-drop n l h)
