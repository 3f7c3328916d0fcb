-- ===== src/Routing/Exclusive.antt =====
-- No build is served by two orchestrators, exactly if no conflict is reported.
use challenge_orchestrator.Common.{
  ◌≡◌, Bool, true, false, not, ◌&&◌, ◌||◌, Option, none, some, List, [], ◌∷◌, str_eq, All,
}
use challenge_orchestrator.Routing.{Owned, same_tag, owner_of}

-- Two builds of one tag are served by one destination.
abbrev pub agrees : Owned → Owned → Bool
agrees a b = not (same_tag a b) || str_eq a.destination b.destination

pub IsExclusive : List Owned → Type 0
IsExclusive [] = Unit
IsExclusive (o ∷ rest) = All (λ u. agrees o u ≡ true) rest × IsExclusive rest

fine : Option Owned → Owned → Bool
fine none o = true
fine (some held) o = str_eq held.destination o.destination

all : (Owned → Bool) → List Owned → Bool
all p [] = true
all p (o ∷ rest) = p o && all p rest

exclusive : List Owned → Bool
exclusive [] = true
exclusive (o ∷ rest) = all (agrees o) rest && exclusive rest

abbrev is_empty : List (Owned × Owned) → Bool
is_empty [] = true
is_empty (_ ∷ _) = false

abbrev fine_among : List Owned → Owned → Bool
fine_among owners u = fine (owner_of u owners) u
