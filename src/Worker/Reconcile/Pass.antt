-- ===== src/Worker/Reconcile/Pass.antt =====
-- A pass that is done has left nothing behind.
use challenge_orchestrator.Common.{ℕ, ◌≤◌, ◌≡◌, ◌⊎◌, List, length, take}
use challenge_orchestrator.Worker.Reconcile.{Result, unreachable, worst_of}

-- How far the removals of a conn that is not gone are handed out: all of them, or until one of
-- those handed out says that the daemon is unreachable.
abbrev pub HandsOut {ℓ} : {A : Type ℓ} → (A → Result) → List A → ℕ → Type 0
HandsOut answer names handed =
    (length names ≤ handed) ⊎ (worst_of answer (take handed names) ≡ unreachable)
