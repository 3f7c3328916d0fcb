-- ===== src/Common/Assoc.antt =====
-- A Go map with string keys, as an association list in which a key's first entry counts. The
-- program never depends on the order of such a map.
use challenge_orchestrator.Common.Tests.{if◌then◌else◌}
use Prim.Native.String.{String}
use mathlib.Core.Path.{◌≡◌, refl}
use mathlib.Core.Logic.{◌↔◌}
use mathlib.Core.Bool.{true}
use mathlib.Core.List.{List, [], ◌∷◌}
use mathlib.Core.Option.{Option, none, some}
use native.Mathlib.Omega.{arith}
use text.Mathlib.Text.{◌==◌ as str_eq}
use text.Mathlib.TextEquality.{eq_iff}

abbrev pub Map {ℓ} : Type ℓ → Type ℓ
Map V = List (String × V)

-- Whether `key` and `name` are the same, read off the test of either way round.
abbrev same_key : (key name : String) → (str_eq key name ≡ true) ↔ (key ≡ name)
same_key key name = eq_iff key name

module _ {ℓ} {Value : Type ℓ} where
  -- m[key]
  unfoldable pub lookup : String → Map Value → Option Value
  lookup key [] = none
  lookup key ((name, value) ∷ entries) = if str_eq name key then some value else lookup key entries

  -- m[key] = value
  unfoldable pub insert : String → Value → Map Value → Map Value
  insert key value [] = (key, value) ∷ []
  insert key value ((name, old) ∷ entries) =
      if str_eq name key then (key, value) ∷ entries else (name, old) ∷ insert key value entries

  -- delete(m, key)
  unfoldable pub remove : String → Map Value → Map Value
  remove key [] = []
  remove key ((name, value) ∷ entries) =
      if str_eq name key then remove key entries else (name, value) ∷ remove key entries

  pub lookup-insert :
      (key asked : String) (value : Value) (entries : Map Value)
      → lookup asked (insert key value entries)
        ≡ (if str_eq key asked then some value else lookup asked entries)
  unfolding insert lookup
  lookup-insert key asked value [] = refl
  lookup-insert key asked value ((name, old) ∷ entries) = ground (
    arith,
    lookup-insert key asked value entries,
    same_key name asked,
    same_key name key,
    same_key key asked,
  )

  pub lookup-remove :
      (key asked : String) (entries : Map Value)
      → lookup asked (remove key entries)
        ≡ (if str_eq key asked then none else lookup asked entries)
  unfolding remove lookup
  lookup-remove key asked [] = ground arith
  lookup-remove key asked ((name, old) ∷ entries) = ground (
    arith,
    lookup-remove key asked entries,
    same_key name asked,
    same_key name key,
    same_key key asked,
  )
