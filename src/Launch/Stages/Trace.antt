-- ===== src/Launch/Stages/Trace.antt =====
-- What a launch leaves on its daemon, on every path.
use challenge_orchestrator.Common.{
  ◌≢◌, ◌≡◌, ◌⊎◌, String, Bool, true, false, ◌||◌, none, List, [], ◌∷◌, ◌++◌, str_eq, All,
}
use challenge_orchestrator.Launch.Stages.{
  Action, pulled, noted, slot_taken, network_started, containers_started, slot_released, Launched,
}
use challenge_orchestrator.Worker.Fleet.{Fleet}
use challenge_orchestrator.Worker.Fleet

-- An action that creates nothing on the daemon and takes no slot.
pub IsPreparation : Action → Type 0
IsPreparation (pulled _) = Unit
IsPreparation (noted _) = Unit
IsPreparation _ = ⊥

-- The slot is taken and given back, with the network and perhaps the containers between.
abbrev pub UsedSlot : Launched → Type 0
UsedSlot r =
    (before : List Action) × All IsPreparation before
    × (((r.failure ≢ none)
          × (r.actions ≡ before ++ slot_taken ∷ network_started ∷ slot_released ∷ []))
        ⊎ (r.actions
            ≡ before ++ slot_taken ∷ network_started ∷ containers_started ∷ slot_released ∷ []))

-- What holds of every launch: one that did not start failed, and created nothing.
abbrev pub IsClean : Launched → Type 0
IsClean r =
    ((r.started ≡ false) × (r.failure ≢ none) × All IsPreparation r.actions)
    ⊎ ((r.started ≡ true) × UsedSlot r)

-- Whether the actions have a pull of that image.
unfoldable pub pulls : String → List Action → Bool
pulls name [] = false
pulls name (pulled n ∷ acts) = str_eq n name || pulls name acts
pulls name (_ ∷ acts) = pulls name acts
