-- ===== src/Changes/Rows.antt =====
-- What the loop over the rows of the database makes of one challenge of the inventory.
use challenge_orchestrator.Common.{
  ℕ, ◌==◌, String, Bool, true, false, not, ◌&&◌, ◌||◌, Option, none, some, List, [], ◌∷◌, str_eq,
  if◌then◌else◌, ◌≡◌, refl, sym, ap, subst, ◌∙◌, arith, eq_iff, Bool-cases, inl, inr,
}
use challenge_orchestrator.Common.Assoc.{Map, lookup}
use challenge_orchestrator.Changes.{
  Challenge, Verdict, added, updated, refreshed, stale, unmodified, Updates, no_updates,
  classify_challenge, safe_to_refresh, verdict_of, record_verdict, record_row, classify_rows,
  is_row,
}

abbrev pub bucket : Verdict → Updates → List Challenge
bucket added cu = cu.added
bucket updated cu = cu.updated
bucket refreshed cu = cu.refreshed
bucket stale cu = cu.stale
bucket unmodified cu = cu.unmodified

abbrev number : Verdict → ℕ
number added = 0
number updated = 1
number refreshed = 2
number stale = 3
number unmodified = 4

abbrev pub is_verdict : Verdict → Verdict → Bool
is_verdict v w = number v == number w

abbrev pub find_row : List Challenge → String → Option Challenge
find_row [] id = none
find_row (curr ∷ rows) id = if str_eq curr.id id then some curr else find_row rows id

-- The ids of the rows are the primary key.
abbrev pub IsKeyed : List Challenge → Type 0
IsKeyed [] = Unit
IsKeyed (curr ∷ rows) = (is_row rows curr.id ≡ false) × IsKeyed rows

record_verdict_lem :
    (w v : Verdict) (curr new : Challenge) (cu : Updates) (id : String)
    → str_eq curr.id id ≡ str_eq new.id id
    → is_row (bucket v (record_verdict w curr new cu)) id ≡ (
        (is_verdict v w && not (is_verdict w added) && str_eq new.id id) || is_row (bucket v cu) id)
unfolding record_verdict is_row
record_verdict_lem unmodified unmodified curr new cu id same =
    ap (λ (b : Bool). b || is_row cu.unmodified id) same
record_verdict_lem added v curr new cu id same = ground arith
record_verdict_lem updated added curr new cu id same = refl
record_verdict_lem refreshed added curr new cu id same = refl
record_verdict_lem stale added curr new cu id same = refl
record_verdict_lem w v curr new cu id same = refl

empty_bucket : (v : Verdict) (id : String) → is_row (bucket v no_updates) id ≡ false
unfolding is_row
empty_bucket added id = refl
empty_bucket v id = refl

pub find_row-none :
    (rows : List Challenge) (id : String) → is_row rows id ≡ false → find_row rows id ≡ none
unfolding is_row
find_row-none [] id h = refl
find_row-none (curr ∷ rows) id h = ground (arith, find_row-none rows id)

-- The verdict on a challenge that has a row is never that it was added.
verdict_of-row :
    (source other safe is_stale : Bool)
    → is_verdict (verdict_of source other safe is_stale) added ≡ false
unfolding verdict_of
verdict_of-row true other safe is_stale = refl
verdict_of-row false true true is_stale = refl
verdict_of-row false true false is_stale = refl
verdict_of-row false false false is_stale = refl
verdict_of-row false false true true = refl
verdict_of-row false false true false = refl

removed_lem :
    (v : Verdict) (curr : Challenge) (cu : Updates) (id : String) (b : Bool)
    → is_row (bucket v (if b then record cu { removed = curr ∷ cu.removed } else cu)) id
      ≡ is_row (bucket v cu) id
removed_lem v curr cu id false = refl
removed_lem added curr cu id true = refl
removed_lem updated curr cu id true = refl
removed_lem refreshed curr cu id true = refl
removed_lem stale curr cu id true = refl
removed_lem unmodified curr cu id true = refl

module _ (deep_equal : Challenge → Challenge → Bool) (stored : String → Option Challenge)
    (inventory : Map Challenge) (is_stale : String → Bool) (is_removed : Challenge → Bool) where
  -- The verdict on a challenge with the given row, as the membership in a bucket.
  unfoldable pub expected : Verdict → Option Challenge → Challenge → Bool
  expected v none new = false
  expected v (some curr) new =
      is_verdict v (classify_challenge deep_equal stored (some curr) new (is_stale curr.id))

  pub classify_challenge-row :
      (curr new : Challenge) (b : Bool)
      → is_verdict (classify_challenge deep_equal stored (some curr) new b) added ≡ false
  unfolding classify_challenge
  classify_challenge-row curr new b = verdict_of-row _ _ (safe_to_refresh deep_equal stored new) b

  -- A row of another challenge says nothing of this one.
  record_row-other :
      (v : Verdict) (curr : Challenge) (found : Option Challenge) (cu : Updates) (id : String)
      → str_eq curr.id id ≡ false
      → ((new : Challenge) → found ≡ some new → new.id ≡ curr.id)
      → is_row (bucket v (record_row deep_equal stored is_stale is_removed curr found cu)) id
        ≡ is_row (bucket v cu) id
  unfolding record_row
  record_row-other v curr none cu id other keyed = removed_lem v curr cu id (is_removed curr)
  record_row-other v curr (some new) cu id other keyed =
      let there : str_eq new.id id ≡ false =
        ap (λ (x : String). str_eq x id) (keyed new refl) ∙ other in
      let w = classify_challenge deep_equal stored (some curr) new (is_stale curr.id) in
      ground (arith, record_verdict_lem w v curr new cu id (other ∙ sym there), there)

  record_row-same :
      (v : Verdict) (curr new : Challenge) (cu : Updates) (id : String)
      → str_eq curr.id id ≡ true
      → str_eq new.id id ≡ true
      → is_row (bucket v cu) id ≡ false
      → is_row (bucket v (record_row deep_equal stored is_stale is_removed curr (some new) cu)) id
        ≡ expected v (some curr) new
  unfolding record_row expected
  record_row-same v curr new cu id here there fresh =
      let w = classify_challenge deep_equal stored (some curr) new (is_stale curr.id) in
      ground (
        arith,
        record_verdict_lem w v curr new cu id (here ∙ sym there),
        there,
        fresh,
        classify_challenge-row curr new (is_stale curr.id),
      )

  -- What the loop over the rows makes of a challenge of the inventory.
  pub classify_rows_lem :
      (v : Verdict) (rows : List Challenge) (new : Challenge) (id : String)
      → lookup id inventory ≡ some new
      → ((key : String) (found : Challenge) → lookup key inventory ≡ some found → found.id ≡ key)
      → IsKeyed rows
      → is_row (bucket v (classify_rows deep_equal stored inventory is_stale is_removed rows)) id
        ≡ expected v (find_row rows id) new
  unfolding classify_rows expected
  classify_rows_lem v [] new id there keyed unique = empty_bucket v id
  classify_rows_lem v (curr ∷ rows) new id there keyed (fresh, unique) =
      let rest = classify_rows deep_equal stored inventory is_stale is_removed rows in
      let ih = classify_rows_lem v rows new id there keyed unique in
      elim (Bool-cases (str_eq curr.id id)) [
        | inl here ↦
            let same : curr.id ≡ id = (eq_iff curr.id id).0 here in
            let found : lookup curr.id inventory ≡ some new =
              ap (λ (x : String). lookup x inventory) same ∙ there in
            let named : str_eq new.id id ≡ true = (eq_iff new.id id).1 (keyed id new there) in
            let absent : is_row rows id ≡ false =
              subst (λ (x : String). is_row rows x ≡ false) same fresh in
            let none_yet =
              ih ∙ ap (λ (o : Option Challenge). expected v o new) (find_row-none rows id absent) in
            rw here (
              ap
                (λ (o : Option Challenge).
                  is_row (bucket v (record_row deep_equal stored is_stale is_removed curr o rest))
                    id)
                found
              ∙ record_row-same v curr new rest id here named none_yet)
        | inr other ↦ rw other (
            record_row-other v curr (lookup curr.id inventory) rest id other
              (λ n e. keyed curr.id n e)
            ∙ ih)
      ]
