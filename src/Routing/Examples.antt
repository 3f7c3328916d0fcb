-- ===== src/Routing/Examples.antt =====
-- Routing (cmd/cork-build/routing.go and destinations.go) at concrete inputs.
use challenge_orchestrator.Common.{
  ◌≡◌, ◌≢◌, ◌⊎◌, refl, arith, ◌&&◌, ◌||◌, String, some, List, [], ◌∷◌, All, keep, str_eq,
}
use challenge_orchestrator.Common.Assoc.{lookup}
use challenge_orchestrator.Common.Int.{pos}
use challenge_orchestrator.Worker.Fleet.Order.{IsUnique}
use challenge_orchestrator.Routing.{
  Schema, Destinations, Route, routed, refused, resolve, route_schemas, route_each, place,
}
use challenge_orchestrator.Routing.Grouping.{
  addresses, schemas_at, goes_to, is_lost, route_schemas_lem,
}
use challenge_orchestrator.Routing.Load.{UrlParse, File, parsed}
use challenge_orchestrator.Routing.Misrouted.{Serves, misrouted_schemas}
use challenge_orchestrator.Routing.Misrouted.Safe.{IsSafeRoute, misrouted_schemas-IsSafe}

abbrev event : Schema
event = record {
  name = "event";
  destination = "live";
  flag_format = "f";
  challenges = ("web", pos 1 ∷ pos 2 ∷ []) ∷ [];
}

abbrev library : Schema
library = record {
  name = "library";
  destination = "year";
  flag_format = "f";
  challenges = ("web", pos 2 ∷ []) ∷ [];
}

abbrev two : Destinations
two = record { by_name = ("live", "http://a") ∷ ("year", "http://b") ∷ []; def_name = "" }

abbrev two_routes : List Route
two_routes =
    record { name = "live"; address = "http://a"; schemas = event ∷ [] }
    ∷ record { name = "year"; address = "http://b"; schemas = library ∷ [] }
    ∷ []

routes_of_two : route_schemas (event ∷ library ∷ []) [] two ≡ routed two_routes
unfolding route_schemas route_each resolve place lookup
routes_of_two = refl

route_schemas_lem_example :
    ((routes : List Route) × (route_schemas (event ∷ library ∷ []) [] two ≡ routed routes)
      × IsUnique (addresses routes)
      × ((a : String) → schemas_at a routes ≡ keep (goes_to two a) (event ∷ library ∷ []))
      × (keep (is_lost two) (event ∷ library ∷ []) ≡ []))
    ⊎ ((route_schemas (event ∷ library ∷ []) [] two
          ≡ refused (keep (is_lost two) (event ∷ library ∷ [])))
        × (keep (is_lost two) (event ∷ library ∷ []) ≢ []))
route_schemas_lem_example = route_schemas_lem (event ∷ library ∷ []) two

-- Each is served where it is routed.
abbrev at_home : Serves
at_home address schema = some (
    (str_eq address "http://a" && str_eq schema "event")
    || (str_eq address "http://b" && str_eq schema "library"))

misrouted_schemas-IsSafe_example : All (IsSafeRoute at_home two) two_routes
misrouted_schemas-IsSafe_example =
    misrouted_schemas-IsSafe at_home two_routes two (omega arith)
      (unfold misrouted_schemas lookup in refl)

abbrev web_url : UrlParse
web_url address = some (record { scheme = "http"; host = address })

abbrev two_rows : File
two_rows = parsed (("live", "http://a/") ∷ ("year", "http://b") ∷ [])

abbrev live : String
live = "live"

abbrev one : Destinations
one = record { by_name = ("live", "http://a") ∷ []; def_name = "live" }
