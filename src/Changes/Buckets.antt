-- ===== src/Changes/Buckets.antt =====
-- Each challenge that is found lands in the bucket of its verdict, and in no other.
use challenge_orchestrator.Common.{
  String, Bool, true, false, not, Option, none, some, List, [], ◌∷◌, str_eq, if◌then◌else◌, ◌≡◌,
  ◌⊎◌, refl, sym, ap, ap₂, ◌∙◌, arith, eq_iff, Bool-cases, inl, inr,
}
use challenge_orchestrator.Common.Assoc.{Map, lookup}
use challenge_orchestrator.Changes.{
  Challenge, Verdict, added, Updates, classify_challenge, is_row, classify_challenges,
}
use challenge_orchestrator.Changes.Rows.{
  bucket, is_verdict, find_row, IsKeyed, expected, classify_rows_lem, classify_challenge-row,
}
use challenge_orchestrator.Changes.Inventory.{IsIndexed, has_key-lookup, indexed, unseen_lem}

find_row-cases :
    (rows : List Challenge) (id : String)
    → ((find_row rows id ≡ none) × (is_row rows id ≡ false))
      ⊎ ((curr : Challenge) × (find_row rows id ≡ some curr)
          × (curr.id ≡ id)
          × (is_row rows id ≡ true))
unfolding is_row
find_row-cases [] id = inl (refl, refl)
find_row-cases (curr ∷ rows) id = elim (Bool-cases (str_eq curr.id id)) [
  | inl here ↦ inr (curr, rw here refl, (eq_iff curr.id id).0 here, rw here refl)
  | inr other ↦ rw other (find_row-cases rows id)
]

module _ (deep_equal : Challenge → Challenge → Bool) (stored : String → Option Challenge)
    (inventory : Map Challenge) (is_stale : String → Bool) (is_removed : Challenge → Bool)
    (rows : List Challenge) (new : Challenge) (id : String) where
  abbrev cu : Updates
  cu = classify_challenges deep_equal stored inventory rows is_stale is_removed

  abbrev verdict : Option Challenge → Verdict
  verdict found = classify_challenge deep_equal stored found new (is_stale id)

  bucket-expected :
      (v : Verdict)
      → lookup id inventory ≡ some new
      → IsIndexed inventory
      → IsKeyed rows
      → is_row (bucket v cu) id ≡ (
          if is_verdict v added
          then not (is_row rows id)
          else expected deep_equal stored inventory is_stale is_removed v (find_row rows id) new)
  unfolding classify_challenges
  bucket-expected added there h unique =
      ground (arith, unseen_lem inventory rows id h, has_key-lookup inventory id new there)
  bucket-expected v there h unique =
      classify_rows_lem deep_equal stored inventory is_stale is_removed _ rows new id there
        (λ key found. indexed inventory key found h) unique

  abbrev at_bucket : Verdict → Bool → Option Challenge → Bool
  at_bucket v seen found =
      if is_verdict v added
      then not seen
      else expected deep_equal stored inventory is_stale is_removed v found new

  without_row : (v : Verdict) → at_bucket v false none ≡ is_verdict v (verdict none)
  unfolding expected classify_challenge
  without_row added = refl
  without_row v = refl

  with_row :
      (v : Verdict) (curr : Challenge)
      → curr.id ≡ id
      → at_bucket v true (some curr) ≡ is_verdict v (verdict (some curr))
  unfolding expected
  with_row added curr same = ground (
    arith,
    classify_challenge-row deep_equal stored inventory is_stale is_removed curr new (is_stale id),
  )
  with_row v curr same =
      ap (λ (b : Bool). is_verdict v (classify_challenge deep_equal stored (some curr) new b))
        (ap is_stale same)

  -- Where each challenge of the inventory stands under its own id and no two rows of the database
  -- share one, a challenge of the inventory is found in the bucket of its verdict, against the row
  -- of its id or for want of one, and in no other: added, updated, refreshed, stale or unmodified.
  pub classify_challenges_lem :
      (v : Verdict)
      → lookup id inventory ≡ some new
      → IsIndexed inventory
      → IsKeyed rows
      → is_row
          (bucket v (classify_challenges deep_equal stored inventory rows is_stale is_removed))
          id
        ≡ is_verdict v (classify_challenge deep_equal stored (find_row rows id) new (is_stale id))
  classify_challenges_lem v there h unique = elim (find_row-cases rows id) [
    | inl (missing, unseen_row) ↦
        bucket-expected v there h unique
        ∙ ap₂ (at_bucket v) unseen_row missing
        ∙ without_row v
        ∙ ap (λ (o : Option Challenge). is_verdict v (verdict o)) (sym missing)
    | inr (curr, found, same, seen) ↦
        bucket-expected v there h unique
        ∙ ap₂ (at_bucket v) seen found
        ∙ with_row v curr same
        ∙ ap (λ (o : Option Challenge). is_verdict v (verdict o)) (sym found)
  ]
