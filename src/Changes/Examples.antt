-- ===== src/Changes/Examples.antt =====
-- Tests of the classification of challenges, and its theorem at a concrete inventory.
use challenge_orchestrator.Common.{
  ℕ, String, Bool, true, false, Option, some, List, [], ◌∷◌, ◌≡◌, refl,
}
use challenge_orchestrator.Common.Assoc.{Map, lookup}
use challenge_orchestrator.Changes.{
  Challenge, refreshed, classify_challenge, classify_challenges, verdict_of, safe_to_refresh,
  is_row,
}
use challenge_orchestrator.Changes.Rows.{bucket, is_verdict, find_row, IsKeyed}
use challenge_orchestrator.Changes.Buckets.{classify_challenges_lem}

abbrev challenge : String → ℕ → ℕ → Challenge
challenge id source metadata = record {
  id = id;
  challenge_type = "service-make";
  source_checksum = source;
  metadata_checksum = metadata;
  solve_script = true;
}

abbrev alike : Challenge → Challenge → Bool
alike old new = true

abbrev rows : List Challenge
rows = challenge "a" 1 1 ∷ challenge "b" 1 1 ∷ challenge "gone" 1 1 ∷ []

-- The source of one has changed, the metadata of another, and one is new.
abbrev inventory : Map Challenge
inventory = ("a", challenge "a" 2 1) ∷ ("b", challenge "b" 1 5) ∷ ("c", challenge "c" 1 1) ∷ []

abbrev whole : String → Option Challenge
whole id = find_row rows id

refreshes_b :
    classify_challenge alike whole (some (challenge "b" 1 1)) (challenge "b" 1 5) false ≡ refreshed
unfolding classify_challenge verdict_of safe_to_refresh
refreshes_b = refl

finds_b : lookup "b" inventory ≡ some (challenge "b" 1 5)
unfolding lookup
finds_b = refl

rows-IsKeyed : IsKeyed rows
unfolding is_row
rows-IsKeyed = (refl, (refl, (refl, tt)))

classify_challenges_lem_example :
    is_row
      (bucket refreshed
        (classify_challenges alike whole inventory rows (λ id. false) (λ row. true)))
      "b"
    ≡ is_verdict refreshed
        (classify_challenge alike whole (find_row rows "b") (challenge "b" 1 5) false)
classify_challenges_lem_example =
    classify_challenges_lem alike whole inventory (λ id. false) (λ row. true) rows
      (challenge "b" 1 5) "b" refreshed finds_b (refl, (refl, (refl, tt))) rows-IsKeyed
