-- ===== src/Routing/Grouping.antt =====
-- Every orchestrator is told of the schemas that it serves and of no others.
use challenge_orchestrator.Common.{
  ◌≡◌, ◌≢◌, ◌⊎◌, inl, inr, refl, sym, ap, ◌∙◌, arith, Bool, true, false, String, Option, none, some,
  List, [], ◌∷◌, ◌++◌, str_eq, eq_iff, if◌then◌else◌, keep, Option-cases, Bool-cases,
}
use challenge_orchestrator.Worker.Fleet.Order.{contains, IsUnique, end-IsUnique}
use challenge_orchestrator.Routing.{
  Schema, Destinations, Route, routed, refused, resolve, place, route_name, route_each, finish,
  route_schemas,
}

-- The schemas of the route to an address, none if there is no such route.
pub schemas_at : String → List Route → List Schema
schemas_at a [] = []
schemas_at a (r ∷ routes) = if str_eq r.address a then r.schemas else schemas_at a routes

abbrev pub addresses : List Route → List String
addresses [] = []
addresses (r ∷ routes) = r.address ∷ addresses routes

abbrev at_address : Option String → String → Bool
at_address none a = false
at_address (some b) a = str_eq b a

abbrev unresolved : Option String → Bool
unresolved none = true
unresolved (some b) = false

-- Whether a schema resolves to an address, and whether it resolves to none.
abbrev pub goes_to : Destinations → String → Schema → Bool
goes_to d a s = at_address (resolve d s.destination) a

abbrev pub is_lost : Destinations → Schema → Bool
is_lost d s = unresolved (resolve d s.destination)

schemas_at-place :
    (a address name : String) (s : Schema) (routes : List Route)
    → schemas_at a (place address name s routes)
      ≡ (if str_eq address a then schemas_at a routes ++ s ∷ [] else schemas_at a routes)
unfolding schemas_at place
schemas_at-place a address name s [] = ground arith
schemas_at-place a address name s (r ∷ routes) = ground (
  arith,
  schemas_at-place a address name s routes,
  eq_iff r.address address,
  eq_iff r.address a,
  eq_iff address a,
)

addresses-place :
    (address name : String) (s : Schema) (routes : List Route)
    → addresses (place address name s routes) ≡ (
        if contains address (addresses routes)
        then addresses routes
        else addresses routes ++ address ∷ [])
unfolding place contains
addresses-place address name s [] = refl
addresses-place address name s (r ∷ routes) = ground (arith, addresses-place address name s routes)

place-IsUnique :
    (address name : String) (s : Schema) (routes : List Route)
    → IsUnique (addresses routes)
    → IsUnique (addresses (place address name s routes))
place-IsUnique address name s routes h = elim (Bool-cases (contains address (addresses routes))) [
  | inl known ↦ rw (addresses-place address name s routes, known) h
  | inr fresh ↦
      rw (addresses-place address name s routes, fresh)
        (end-IsUnique address (addresses routes) fresh h)
]

append_assoc : {A : Type 0} (xs ys zs : List A) → (xs ++ ys) ++ zs ≡ xs ++ (ys ++ zs)
append_assoc [] ys zs = refl
append_assoc (x ∷ xs) ys zs = ap (λ r. x ∷ r) (append_assoc xs ys zs)

append_nil : {A : Type 0} (xs : List A) → xs ++ [] ≡ xs
append_nil [] = refl
append_nil (x ∷ xs) = ap (λ r. x ∷ r) (append_nil xs)

-- What the loop has done after the schemas.
record Grouped (d : Destinations) (schemas problems : List Schema) (before : List Route)
    (after : List Route × List Schema) : Type 0 where
  unique : IsUnique (addresses after.0)
  served : (a : String) → schemas_at a after.0 ≡ schemas_at a before ++ keep (goes_to d a) schemas
  lost : after.1 ≡ problems ++ keep (is_lost d) schemas

route_each-Grouped :
    (d : Destinations) (schemas : List Schema) (routes : List Route) (problems : List Schema)
    → IsUnique (addresses routes)
    → Grouped d schemas problems routes (route_each d schemas routes problems)
unfolding route_each
route_each-Grouped d [] routes problems h = record {
  unique = h;
  served = λ a. sym (append_nil (schemas_at a routes));
  lost = sym (append_nil problems);
}
route_each-Grouped d (s ∷ rest) routes problems h = elim (Option-cases (resolve d s.destination)) [
  | inl nowhere ↦
      let r = route_each-Grouped d rest routes (problems ++ s ∷ []) h in
      rw (nowhere, route_each)
        (record {
          unique = r.unique;
          served = λ a. r.served a ∙ rw nowhere refl;
          lost = r.lost ∙ append_assoc problems (s ∷ []) _ ∙ rw nowhere refl;
        })
  | inr (address, there) ↦
      let name = route_name d s in
      let r =
        route_each-Grouped d rest (place address name s routes) problems
          (place-IsUnique address name s routes h) in
      rw (there, route_each)
        (record {
          unique = r.unique;
          served = λ a.
              r.served a
              ∙ ap (λ before. before ++ keep (goes_to d a) rest)
                  (schemas_at-place a address name s routes)
              ∙ joined a address s routes rest
              ∙ rw there refl;
          lost = r.lost ∙ rw there refl;
        })
]
  where
    joined :
        (a address : String) (s : Schema) (routes : List Route) (rest : List Schema)
        → (if str_eq address a then schemas_at a routes ++ s ∷ [] else schemas_at a routes)
            ++ keep (goes_to d a) rest
          ≡ schemas_at a routes
            ++ (if str_eq address a then s ∷ keep (goes_to d a) rest else keep (goes_to d a) rest)
    joined a address s routes rest = elim (Bool-cases (str_eq address a)) [
      | inl here ↦ rw here (append_assoc (schemas_at a routes) (s ∷ []) _)
      | inr away ↦ rw away refl
    ]

-- With no --server, for any schemas and destinations: either every schema resolves, and then no two
-- routes have one address, and the route to an address has exactly the schemas that resolve to it,
-- in order; or nothing is routed, and exactly the schemas that do not resolve are named, at least
-- one.
pub route_schemas_lem :
    (schemas : List Schema) (d : Destinations)
    → ((routes : List Route) × (route_schemas schemas [] d ≡ routed routes)
        × IsUnique (addresses routes)
        × ((a : String) → schemas_at a routes ≡ keep (goes_to d a) schemas)
        × (keep (is_lost d) schemas ≡ []))
      ⊎ ((route_schemas schemas [] d ≡ refused (keep (is_lost d) schemas))
          × (keep (is_lost d) schemas ≢ []))
unfolding route_schemas IsUnique schemas_at
route_schemas_lem schemas d =
    let g = route_each-Grouped d schemas [] [] tt in
    settle (route_each d schemas [] []) (keep (is_lost d) schemas) g.lost g.unique g.served
  where
    settle :
        (r : List Route × List Schema) (lost : List Schema)
        → r.1 ≡ lost
        → IsUnique (addresses r.0)
        → ((a : String) → schemas_at a r.0 ≡ keep (goes_to d a) schemas)
        → ((routes : List Route) × (finish r ≡ routed routes)
            × IsUnique (addresses routes)
            × ((a : String) → schemas_at a routes ≡ keep (goes_to d a) schemas)
            × (lost ≡ []))
          ⊎ ((finish r ≡ refused lost) × (lost ≢ []))
    settle (routes, []) lost e u s = inl (routes, refl, u, s, sym e)
    settle (routes, p ∷ ps) lost e u s = inr (ap refused e, λ h. cc)
