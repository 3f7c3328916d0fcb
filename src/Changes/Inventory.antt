-- ===== src/Changes/Inventory.antt =====
-- What the loop over the inventory finds to be new.
use challenge_orchestrator.Common.{
  String, Bool, true, false, not, ◌&&◌, ◌||◌, some, List, [], ◌∷◌, str_eq, ◌≡◌, refl, sym, ap, ◌∙◌,
  arith, eq_iff, Bool-cases, inl, inr, some_eq,
}
use challenge_orchestrator.Common.Assoc.{Map, lookup}
use challenge_orchestrator.Changes.{Challenge, is_row, unseen}

-- Each value of the inventory has its key for its id.
abbrev pub IsIndexed : Map Challenge → Type 0
IsIndexed [] = Unit
IsIndexed ((key, value) ∷ inventory) = (value.id ≡ key) × IsIndexed inventory

pub has_key : Map Challenge → String → Bool
has_key [] id = false
has_key ((key, found) ∷ inventory) id = str_eq key id || has_key inventory id

pub has_key-lookup :
    (inventory : Map Challenge) (id : String) (new : Challenge)
    → lookup id inventory ≡ some new
    → has_key inventory id ≡ true
unfolding has_key lookup
has_key-lookup [] id new there = absurd (cc)
has_key-lookup ((key, found) ∷ inventory) id new there = elim (Bool-cases (str_eq key id)) [
  | inl here ↦ rw here refl
  | inr other ↦ rw other (has_key-lookup inventory id new (ground (arith, there, other)))
]

pub indexed :
    (inventory : Map Challenge) (key : String) (found : Challenge)
    → IsIndexed inventory
    → lookup key inventory ≡ some found
    → found.id ≡ key
unfolding lookup
indexed [] key found h there = absurd (cc)
indexed ((first, value) ∷ inventory) key found (named, h) there =
    elim (Bool-cases (str_eq first key)) [
      | inl here ↦
          let same : value ≡ found = some_eq (ground (arith, there, here)) in
          ap (λ (c : Challenge). c.id) (sym same) ∙ named ∙ (eq_iff first key).0 here
      | inr other ↦ indexed inventory key found h (ground (arith, there, other))
    ]

pub unseen_lem :
    (inventory : Map Challenge) (rows : List Challenge) (id : String)
    → IsIndexed inventory
    → is_row (unseen inventory rows) id ≡ (has_key inventory id && not (is_row rows id))
unfolding unseen is_row has_key
unseen_lem [] rows id h = refl
unseen_lem ((key, found) ∷ inventory) rows id (named, h) =
    let ih = unseen_lem inventory rows id h in
    let named' : str_eq found.id id ≡ str_eq key id = ap (λ (x : String). str_eq x id) named in
    elim (Bool-cases (str_eq key id)) [
      | inl here ↦
          let same : is_row rows key ≡ is_row rows id = ap (is_row rows) ((eq_iff key id).0 here) in
          ground (arith, ih, named', here, same)
      | inr other ↦ ground (arith, ih, named', other)
    ]
