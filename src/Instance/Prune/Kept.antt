-- ===== src/Instance/Prune/Kept.antt =====
-- Which instances a pruning keeps.
use challenge_orchestrator.Common.{
  ℕ, ◌+◌, ◌<◌, Bool, true, false, not, ◌&&◌, ◌||◌, Option, none, some, List, [], ◌∷◌, keep, ◌≡◌,
  ◌⊎◌, ◌↔◌, inl, inr, refl, sym, ap, subst, arith, Bool-cases,
}
use challenge_orchestrator.Instance.{InstanceRecord, Database}
use challenge_orchestrator.Instance.Stop.{InstanceCount, dynamic, locked, fixed}
use challenge_orchestrator.Instance.Prune.{
  Answers, is_dynamic, is_null, older_than, age_seconds, crash_seconds, is_old, is_crashed,
  delete_where, collect_crashed, prune,
}

abbrev pub InTable : InstanceRecord → List InstanceRecord → Type 0
InTable row [] = ⊥
InTable row (first ∷ rows) = (first ≡ row) ⊎ InTable row rows

-- An instance of a build that starts them on demand, launched longer ago than the age or at a time
-- nobody noted, or one whose launch never finished and began over five minutes ago.
abbrev pub Doomed : (ℕ → Option InstanceCount) → ℕ → ℕ → InstanceRecord → Type 0
Doomed builds age now row =
    ((builds row.build ≡ some dynamic)
      × ((row.created_at ≡ none)
          ⊎ ((row.is_finalized ≡ true)
              × ((created : ℕ) × (row.created_at ≡ some created)
                  × (created + age_seconds age < now)))))
    ⊎ ((row.is_finalized ≡ false)
        × ((created : ℕ) × (row.created_at ≡ some created) × (created + 300 < now)))

keep_iff :
    (p : InstanceRecord → Bool) (row : InstanceRecord) (rows : List InstanceRecord)
    → InTable row (keep p rows) ↔ (InTable row rows × (p row ≡ true))
keep_iff p row [] = ((λ h. absurd h), λ h. h.0)
keep_iff p row (first ∷ rows) = elim (Bool-cases (p first)) [
  | inl e ↦
      let (to, back) = keep_iff p row rows in
      rw e (
        (λ h. elim h [
          | inl same ↦ (inl same, subst (λ (x : InstanceRecord). p x ≡ true) same e)
          | inr more ↦ (inr (to more).0, (to more).1)
        ]),
        λ (there, passes). elim there [
          | inl same ↦ inl same
          | inr more ↦ inr (back (more, passes))
        ],
      )
  | inr e ↦
      let (to, back) = keep_iff p row rows in
      rw e (
        (λ h. (inr (to h).0, (to h).1)),
        λ (there, passes). elim there [
          | inl same ↦ absurd (cc (e, passes, ap p same))
          | inr more ↦ back (more, passes)
        ],
      )
]

dynamic_iff : (c : Option InstanceCount) → (is_dynamic c ≡ true) ↔ (c ≡ some dynamic)
unfolding is_dynamic
dynamic_iff none = ((λ h. absurd (cc)), λ h. absurd (cc))
dynamic_iff (some dynamic) = ((λ h. refl), λ h. refl)
dynamic_iff (some locked) = ((λ h. absurd (cc)), λ h. absurd (cc))
dynamic_iff (some (fixed n)) = ((λ h. absurd (cc)), λ h. absurd (cc))

older_than_iff :
    (n now : ℕ) (at : Option ℕ)
    → (older_than n now at ≡ true) ↔ ((created : ℕ) × (at ≡ some created) × (created + n < now))
unfolding older_than
older_than_iff n now none = ((λ h. absurd (cc)), λ (created, e, h). absurd (cc (e)))
older_than_iff n now (some at) =
    ((λ h. (at, refl, ground arith)), λ (created, e, h). ground (arith, e, h))

null_iff : (at : Option ℕ) → (is_null at ≡ true) ↔ (at ≡ none)
unfolding is_null
null_iff none = ((λ h. refl), λ h. refl)
null_iff (some at) = ((λ h. absurd (cc)), λ h. absurd (cc))

and_split : (a b : Bool) → (a && b) ≡ true → (a ≡ true) × (b ≡ true)
and_split a b h = (ground arith, ground arith)

or_split : (a b : Bool) → (a || b) ≡ true → (a ≡ true) ⊎ (b ≡ true)
or_split true b h = inl refl
or_split false b h = inr h

negation_lem : (b : Bool) → not b ≡ true → b ≡ false
negation_lem b h = ground arith

spared_lem : (b : Bool) → (b ≡ true → ⊥) → not b ≡ true
spared_lem true h = absurd (h refl)
spared_lem false h = refl

old-Doomed :
    (builds : ℕ → Option InstanceCount) (age now : ℕ) (row : InstanceRecord)
    → is_old builds age now row ≡ true
    → Doomed builds age now row
unfolding is_old
old-Doomed builds age now row h =
    let (on_demand, when) = and_split _ _ h in
    inl (
      (dynamic_iff (builds row.build)).0 on_demand,
      elim (or_split _ _ when) [
        | inl null ↦ inl ((null_iff row.created_at).0 null)
        | inr old ↦
            let (finalized, older) = and_split _ _ old in
            inr (finalized, (older_than_iff (age_seconds age) now row.created_at).0 older)
      ],
    )

crashed-Doomed :
    (builds : ℕ → Option InstanceCount) (age now : ℕ) (row : InstanceRecord)
    → is_crashed now row ≡ true
    → Doomed builds age now row
unfolding is_crashed
crashed-Doomed builds age now row h =
    let (unfinalized, older) = and_split _ _ h in
    inr (
      negation_lem row.is_finalized unfinalized,
      (older_than_iff crash_seconds now row.created_at).0 older,
    )

Doomed-deleted :
    (builds : ℕ → Option InstanceCount) (age now : ℕ) (row : InstanceRecord)
    → Doomed builds age now row
    → is_old builds age now row ≡ false
    → is_crashed now row ≡ true
unfolding is_old is_crashed
Doomed-deleted builds age now row (inl (on_demand, inl null)) kept = absurd (
    ground
      (arith, kept, (dynamic_iff (builds row.build)).1 on_demand, (null_iff row.created_at).1 null))
Doomed-deleted builds age now row (inl (on_demand, inr (finalized, older))) kept = absurd (
    ground (
      arith,
      kept,
      finalized,
      (dynamic_iff (builds row.build)).1 on_demand,
      (older_than_iff (age_seconds age) now row.created_at).1 older,
    ))
Doomed-deleted builds age now row (inr (unfinalized, older)) kept =
    ground (arith, unfinalized, (older_than_iff crash_seconds now row.created_at).1 older)

-- What is left after both deletions.
deleted_iff :
    (builds : ℕ → Option InstanceCount) (age now : ℕ) (row : InstanceRecord) (db : Database)
    → InTable row
        (delete_where (is_crashed now) (delete_where (is_old builds age now) db)).instances
      ↔ (InTable row db.instances × (Doomed builds age now row → ⊥))
unfolding delete_where
deleted_iff builds age now row db =
    let old = λ (x : InstanceRecord). not (is_old builds age now x) in
    let crashed = λ (x : InstanceRecord). not (is_crashed now x) in
    let (to, back) = keep_iff crashed row (keep old db.instances) in
    let (to', back') = keep_iff old row db.instances in
    (
      (λ h.
          let (left, not_crashed) = to h in
          let (there, not_old) = to' left in
          (
            there,
            λ doomed.
                let crash = Doomed-deleted builds age now row doomed (negation_lem _ not_old) in
                cc (crash, negation_lem (is_crashed now row) not_crashed),
          )),
      λ (there, spared). back (
        back' (there, spared_lem _ (λ e. spared (old-Doomed builds age now row e))),
        spared_lem _ (λ e. spared (crashed-Doomed builds age now row e)),
      ),
    )

prune-deletes :
    (d : Answers) (builds : ℕ → Option InstanceCount) (age now : ℕ) (db : Database)
    → 0 < age
    → d.old_rows ≡ none
    → d.crashed_rows ≡ none
    → (prune d builds age now db).db
      ≡ delete_where (is_crashed now) (delete_where (is_old builds age now) db)
unfolding prune collect_crashed
prune-deletes d builds age now db on first second = ground (arith, first, second)

-- With pruning on and no error of the database, a pruning keeps exactly the rows of instances that
-- are neither of an on-demand build and, by the given age or for want of a time, old, nor left
-- unfinalized for over five minutes.
pub prune_iff :
    (d : Answers) (builds : ℕ → Option InstanceCount) (age now : ℕ) (row : InstanceRecord)
    (db : Database)
    → 0 < age
    → d.old_rows ≡ none
    → d.crashed_rows ≡ none
    → InTable row (prune d builds age now db).db.instances
      ↔ (InTable row db.instances × ¬ Doomed builds age now row)
prune_iff d builds age now row db on first second =
    subst
      (λ (left : Database).
        InTable row left.instances ↔ (InTable row db.instances × ¬ Doomed builds age now row))
      (sym (prune-deletes d builds age now db on first second)) (deleted_iff builds age now row db)
