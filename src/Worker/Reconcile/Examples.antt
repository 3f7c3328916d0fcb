-- ===== src/Worker/Reconcile/Examples.antt =====
-- The reconcile pass (cork/worker_reconcile.go and cork/workers.go) at concrete inputs.
use challenge_orchestrator.Common.{ℕ, ◌+◌, ◌*◌, ◌≡◌, ◌≢◌, refl, arith, false, none, some, [], ◌∷◌}
use challenge_orchestrator.Worker.Reconcile.{
  network_instance, get_network_name, Answers, unreachable,
}
use challenge_orchestrator.Worker.Reconcile.Names.{network_instance-get_network_name}
use challenge_orchestrator.Worker.Reconcile.Retries.{
  Attempt, ejected, reconcile_with_retries, reconcile_with_retries-ends,
}

network_instance-get_network_name_example : network_instance (get_network_name 407) ≡ some 407
network_instance-get_network_name_example = network_instance-get_network_name 407 (omega arith)

-- One container of an instance with no row, whose network the daemon no longer has.
abbrev leftovers : Answers
leftovers = record {
  list_failed = none;
  containers =
      record { id = 1 ∷ []; networks = (b'c' ∷ b'm' ∷ b'g' ∷ b'r' ∷ b'-' ∷ b'3' ∷ []) ∷ [] } ∷ [];
  networks = (b'c' ∷ b'm' ∷ b'g' ∷ b'r' ∷ b'-' ∷ b'3' ∷ []) ∷ [];
  rows = some (12 ∷ []);
  remove_container = λ c. none;
  remove_network = λ n. none;
  containers_handed = 1;
  networks_handed = 1;
}

-- An attempt each five seconds, in which the daemon never answers.
abbrev never : ℕ → Attempt
never n = record { result = unreachable; gone = false; after = 100 + n * 5; goes = false }

ejected_late : reconcile_with_retries never (100 + 10) 3 0 ≡ some ejected
unfolding reconcile_with_retries
ejected_late = refl

reconcile_with_retries-ends_example : reconcile_with_retries never (100 + 10) 3 0 ≢ none
reconcile_with_retries-ends_example =
    reconcile_with_retries-ends never 100 10 5 2 (λ n. omega arith) (omega arith)
