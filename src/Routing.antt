-- ===== src/Routing.antt =====
-- Which orchestrator a schema is handed to (cmd/cork-build/destinations.go and
-- cmd/cork-build/routing.go). The texts of the refusals are not modelled, so what names a problem
-- is the schema that has it.
pub mod Load
pub mod Exclusive
pub mod Grouping
pub mod Misrouted
mod Examples
use challenge_orchestrator.Common.{
  ℕ, suc, ◌+◌, Bool, true, false, not, ◌&&◌, ◌||◌, String, Option, none, some, List, [], ◌∷◌, ◌++◌,
  str_eq, ◌==◌, ltb, map, length, if◌then◌else◌,
}
use challenge_orchestrator.Common.Assoc.{Map, lookup, insert}
use challenge_orchestrator.Common.Int.{ℤ, pos, negsuc}

-- The parts of cork.Schema that routing reads: its challenges, with their seeds, in the order in
-- which a loop meets them.
pub record Schema : Type 0 where
  pub name : String
  pub destination : String
  pub flag_format : String
  pub challenges : List (String × List ℤ)

pub record Destinations : Type 0 where
  pub by_name : Map String
  pub def_name : String

pub record Route : Type 0 where
  pub name : String
  pub address : String
  pub schemas : List Schema

-- A key that is missing in a Go map reads as the empty string.
unfoldable pub or_empty : Option String → String
or_empty none = ""
or_empty (some s) = s

-- A schema that names no destination goes to the only one there is. `none` is a refusal.
unfoldable pub resolve_default : Destinations → Option String
unfolding or_empty
resolve_default d = elim d.by_name [
  | [] ↦ none
  | _ ∷ [] ↦ some (or_empty (lookup d.def_name d.by_name))
  | _ ∷ _ ∷ _ ↦ none
]

unfoldable pub resolve : Destinations → String → Option String
unfolding resolve_default
resolve d destination =
    if str_eq destination "" then resolve_default d else lookup destination d.by_name

-- byAddress and order, which together are a list of routes with distinct addresses: a schema joins
-- the route to its address, or begins one behind all others.
unfoldable pub place : String → String → Schema → List Route → List Route
place address name s [] = record { name = name; address = address; schemas = s ∷ [] } ∷ []
place address name s (r ∷ routes) =
    if str_eq r.address address
    then record r { schemas = r.schemas ++ s ∷ [] } ∷ routes
    else r ∷ place address name s routes

abbrev pub route_name : Destinations → Schema → String
route_name d s = if str_eq s.destination "" then d.def_name else s.destination

-- The loop over the schemas: the routes so far, and the schemas with a problem.
unfoldable pub route_each :
    Destinations → List Schema → List Route → List Schema → List Route × List Schema
route_each d [] routes problems = (routes, problems)
route_each d (s ∷ rest) routes problems = elim (resolve d s.destination) [
  | none ↦ route_each d rest routes (problems ++ s ∷ [])
  | some address ↦ route_each d rest (place address (route_name d s) s routes) problems
]

abbrev pub server_route_name : String
server_route_name = "--server"

unfoldable pub server_routes : List Schema → List String → List Route
server_routes schemas [] = []
server_routes schemas (address ∷ servers) =
    record { name = server_route_name; address = address; schemas = schemas }
    ∷ server_routes schemas servers

pub data Routed : Type 0 where
  routed : List Route → Routed
  refused : List Schema → Routed

unfoldable pub finish : List Route × List Schema → Routed
finish (routes, []) = routed routes
finish (routes, s ∷ problems) = refused (s ∷ problems)

unfoldable pub route_schemas : List Schema → List String → Destinations → Routed
unfolding finish server_routes
route_schemas schemas [] d = finish (route_each d schemas [] [])
route_schemas schemas (address ∷ servers) d = routed (server_routes schemas (address ∷ servers))

-- What one build's tag is derived from, and who would serve it. The code joins the first three with
-- NUL bytes, which neither an id nor a flag format has.
pub record Owned : Type 0 where
  pub id : String
  pub seed : ℤ
  pub flag_format : String
  pub destination : String
  pub schema : String

unfoldable pub same_seed : ℤ → ℤ → Bool
same_seed (pos a) (pos b) = a == b
same_seed (negsuc a) (negsuc b) = a == b
same_seed _ _ = false

unfoldable pub same_tag : Owned → Owned → Bool
unfolding same_seed
same_tag a b = str_eq a.id b.id && (same_seed a.seed b.seed && str_eq a.flag_format b.flag_format)

owned_seeds : Route → Schema → String → List ℤ → List Owned
owned_seeds r s id [] = []
owned_seeds r s id (seed ∷ seeds) =
    record {
      id = id;
      seed = seed;
      flag_format = s.flag_format;
      destination = r.name;
      schema = s.name;
    }
    ∷ owned_seeds r s id seeds

owned_challenges : Route → Schema → List (String × List ℤ) → List Owned
unfolding owned_seeds
owned_challenges r s [] = []
owned_challenges r s ((id, seeds) ∷ rest) = owned_seeds r s id seeds ++ owned_challenges r s rest

owned_schemas : Route → List Schema → List Owned
unfolding owned_challenges
owned_schemas r [] = []
owned_schemas r (s ∷ rest) = owned_challenges r s s.challenges ++ owned_schemas r rest

-- The builds in the order in which the loops of exclusivityConflicts meet them.
pub owned_builds : List Route → List Owned
unfolding owned_schemas
owned_builds [] = []
owned_builds (r ∷ routes) = owned_schemas r r.schemas ++ owned_builds routes

-- owners[key]
unfoldable pub owner_of : Owned → List Owned → Option Owned
owner_of o [] = none
owner_of o (held ∷ owners) = if same_tag held o then some held else owner_of o owners

unfoldable pub conflicts_from : List Owned → List Owned → List (Owned × Owned)
conflicts_from owners [] = []
conflicts_from owners (o ∷ rest) = elim (owner_of o owners) [
  | none ↦ conflicts_from (o ∷ owners) rest
  | some held ↦
      let later = conflicts_from owners rest in
      if str_eq held.destination o.destination then later else (held, o) ∷ later
]

unfoldable pub exclusivity_conflicts : List Route → List (Owned × Owned)
exclusivity_conflicts routes = conflicts_from [] (owned_builds routes)
