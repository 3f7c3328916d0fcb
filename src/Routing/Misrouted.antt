-- ===== src/Routing/Misrouted.antt =====
-- The refusal to serve a schema from two orchestrators (misroutedSchemas and schemaServedElsewhere
-- of cmd/cork-build/routing.go). What an orchestrator answers is an argument: `serves address
-- schema`, or `none` if it cannot be asked. The destinations are in the order of their names.
pub mod Safe
use challenge_orchestrator.Common.{
  ℕ, Bool, true, false, not, ◌&&◌, ◌||◌, String, Option, none, some, List, [], ◌∷◌, ◌++◌, str_eq,
  ltb, length, if◌then◌else◌, keep,
}
use challenge_orchestrator.Common.Assoc.{Map, lookup}
use challenge_orchestrator.Routing.{Schema, Destinations, Route, server_route_name}

unfoldable pub is_dead : String → List String → Bool
is_dead name [] = false
is_dead name (n ∷ dead) = str_eq n name || is_dead name dead

abbrev pub Serves : Type 0
Serves = String → String → Option Bool

-- A destination that once failed to answer is not asked again.
unfoldable pub answered : String → List String → Option Bool → Option Bool × List String
answered name dead none = (none, name ∷ dead)
answered name dead (some has) = (some has, dead)

unfoldable pub ask : Serves → List String → String → String → String → Option Bool × List String
unfolding is_dead answered
ask serves dead name address schema =
    if is_dead name dead then (none, dead) else answered name dead (serves address schema)

pub data Found : Type 0 where
  nowhere unknown : Found
  served_by : String → Found

-- One destination's answer, and what the later ones find.
unfoldable pub found_or :
    String → Option Bool × List String → (List String → Found × List String) → Found × List String
found_or name (none, dead) later = (unknown, dead)
found_or name (some true, dead) later = (served_by name, dead)
found_or name (some false, dead) later = later dead

unfoldable pub served_among :
    Serves → String → List (String × String) → List String → Found × List String
unfolding found_or ask
served_among serves schema [] dead = (nowhere, dead)
served_among serves schema ((name, address) ∷ rest) dead =
    found_or name (ask serves dead name address schema) (served_among serves schema rest)

unfoldable pub schema_served_elsewhere :
    Serves → String → String → Destinations → List String → Found × List String
unfolding served_among
schema_served_elsewhere serves schema routed_to d dead =
    served_among serves schema (keep (λ e. not (str_eq e.0 routed_to)) d.by_name) dead

pub data Problem : Type 0 where
  target_silent elsewhere_unknown : String → Problem
  served_elsewhere : String → String → Problem

unfoldable pub elsewhere_problem : String → Found × List String → List Problem × List String
elsewhere_problem schema (nowhere, dead) = ([], dead)
elsewhere_problem schema (unknown, dead) = (elsewhere_unknown schema ∷ [], dead)
elsewhere_problem schema (served_by name, dead) = (served_elsewhere schema name ∷ [], dead)

-- The target's own answer: serving the schema already, it is the only one asked.
unfoldable pub target_problem :
    String
    → Option Bool × List String
    → (List String → List Problem × List String)
    → List Problem × List String
target_problem schema (none, dead) later = (target_silent schema ∷ [], dead)
target_problem schema (some true, dead) later = ([], dead)
target_problem schema (some false, dead) later = later dead

unfoldable pub check_elsewhere :
    Serves → Destinations → String → String → List String → List Problem × List String
unfolding elsewhere_problem schema_served_elsewhere
check_elsewhere serves d name schema dead =
    elsewhere_problem schema (schema_served_elsewhere serves schema name d dead)

-- With the address of the route's own destination, if it has one.
unfoldable pub check_target :
    Serves
    → Destinations
    → String
    → String
    → List String
    → Option String
    → List Problem × List String
unfolding target_problem check_elsewhere ask
check_target serves d name schema dead none = check_elsewhere serves d name schema dead
check_target serves d name schema dead (some address) =
    target_problem schema (ask serves dead name address schema)
      (check_elsewhere serves d name schema)

unfoldable pub misrouted_schema :
    Serves → Destinations → String → String → List String → List Problem × List String
unfolding check_target
misrouted_schema serves d name schema dead =
    check_target serves d name schema dead (lookup name d.by_name)

unfoldable pub misrouted_in_route :
    Serves → Destinations → String → List Schema → List String → List Problem × List String
unfolding misrouted_schema
misrouted_in_route serves d name [] dead = ([], dead)
misrouted_in_route serves d name (s ∷ rest) dead =
    let (first, dead') = misrouted_schema serves d name s.name dead in
    let (later, dead'') = misrouted_in_route serves d name rest dead' in (first ++ later, dead'')

-- What --server made is not checked.
unfoldable pub misrouted_route :
    Serves → Destinations → Route → List String → List Problem × List String
unfolding misrouted_in_route
misrouted_route serves d r dead =
    if str_eq r.name server_route_name
    then ([], dead)
    else misrouted_in_route serves d r.name r.schemas dead

unfoldable pub misrouted_in_routes :
    Serves → Destinations → List Route → List String → List Problem × List String
unfolding misrouted_route
misrouted_in_routes serves d [] dead = ([], dead)
misrouted_in_routes serves d (r ∷ routes) dead =
    let (first, dead') = misrouted_route serves d r dead in
    let (later, dead'') = misrouted_in_routes serves d routes dead' in (first ++ later, dead'')

-- Nothing is asked where the answer cannot differ: with fewer than two destinations.
unfoldable pub misrouted_schemas : Serves → List Route → Destinations → List Problem
unfolding misrouted_in_routes
misrouted_schemas serves routes d =
    if ltb (length d.by_name) 2 then [] else (misrouted_in_routes serves d routes []).0
