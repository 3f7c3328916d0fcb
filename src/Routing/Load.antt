-- ===== src/Routing/Load.antt =====
-- The file that maps destination names to orchestrators (loadDestinations and validAddress of
-- cmd/cork-build/destinations.go). What url.Parse makes of an address is an argument.
pub mod Injective
use Prim.Native.Char.{code}
use Prim.Native.String.{String}
use challenge_orchestrator.Common.{
  ℕ, Bool, true, false, not, ◌&&◌, ◌||◌, Option, none, some, List, [], ◌∷◌, str_eq, ◌==◌,
  if◌then◌else◌,
}
use challenge_orchestrator.Common.Assoc.{Map, lookup, insert}
use challenge_orchestrator.Routing.{Destinations}

-- strings.TrimRight(s, "/")
unfoldable pub trim_right : String → String
trim_right String.[] = ""
trim_right (String.◌∷◌ c s) =
    let rest = trim_right s in if str_eq rest "" && (code c == b'/') then "" else String.◌∷◌ c rest

pub record Url : Type 0 where
  pub scheme : String
  pub host : String

abbrev pub UrlParse : Type 0
UrlParse = String → Option Url

unfoldable pub valid_url : Option Url → Bool
valid_url none = false
valid_url (some u) = (str_eq u.scheme "http" || str_eq u.scheme "https") && not (str_eq u.host "")

unfoldable pub valid_address : UrlParse → String → Bool
unfolding valid_url
valid_address parse value = not (str_eq value "") && valid_url (parse value)

-- The loop over the names, in order: byAddress and byName so far. `none` is a refusal.
unfoldable pub load_each :
    UrlParse → List (String × String) → Map String → Map String → Option (Map String)
load_each parse [] by_address by_name = some by_name
load_each parse ((name, value) ∷ rest) by_address by_name =
    let address = trim_right value in
    let later =
      load_each parse rest (insert address name by_address) (insert name address by_name) in
    if str_eq name "" || not (valid_address parse address)
    then none
    else elim (lookup address by_address) [ none ↦ later | some first ↦ none ]

-- The file, or that there is none; the rows of a parsed one are in the order of their names.
pub data File : Type 0 where
  absent unreadable unparsable : File
  parsed : List (String × String) → File

unfoldable pub only_name : Map String → String
only_name ((name, address) ∷ []) = name
only_name _ = ""

unfoldable pub finish_load : Option (Map String) → Option Destinations
unfolding only_name
finish_load none = none
finish_load (some by_name) = some (record { by_name = by_name; def_name = only_name by_name })

unfoldable pub load_destinations : UrlParse → String → File → Option Destinations
unfolding load_each finish_load
load_destinations parse path file =
    let empty = some (record { by_name = []; def_name = "" }) in
    if str_eq path "" then empty else elim file [
      | absent ↦ empty
      | unreadable ↦ none
      | unparsable ↦ none
      | parsed rows ↦ finish_load (load_each parse rows [] [])
    ]
