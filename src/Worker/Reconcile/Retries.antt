-- ===== src/Worker/Reconcile/Retries.antt =====
-- How often a pass is tried, and what becomes of the worker (runWorker and reconcileWithRetries of
-- cork/workers.go).
use challenge_orchestrator.Common.{
  ℕ, zero, suc, ◌+◌, ◌*◌, ◌≤◌, ◌≡◌, ◌≢◌, refl, subst, arith, String, Bool, true, false, Option,
  none, some, leb, if◌then◌else◌,
}
use challenge_orchestrator.Worker.Conn.{
  Conn, ok, not_reconciled, set_reachable, eject, new_worker_conn, placeable,
}
use challenge_orchestrator.Worker.Reconcile.{Result, reconciled, unreachable}

-- One attempt: what the pass came to, whether the conn is gone after it, what the clock shows then,
-- and whether the conn goes during the wait for the next.
pub record Attempt : Type 0 where
  pub result : Result
  pub gone : Bool
  pub after : ℕ
  pub goes : Bool

pub data Outcome : Type 0 where
  abandoned ready ejected : Outcome

unfoldable pub past_budget : Result → Outcome
past_budget unreachable = ejected
past_budget _ = ready

unfoldable pub is_reconciled : Result → Bool
is_reconciled reconciled = true
is_reconciled _ = false

-- The loop from attempt `n` on, for at most `fuel` attempts.
unfoldable pub reconcile_with_retries : (ℕ → Attempt) → ℕ → ℕ → ℕ → Option Outcome
unfolding past_budget is_reconciled
reconcile_with_retries attempts deadline zero n = none
reconcile_with_retries attempts deadline (suc fuel) n =
    let a = attempts n in
    let later = reconcile_with_retries attempts deadline fuel (suc n) in
    if a.gone
    then some abandoned
    else if is_reconciled a.result
    then some ready
    else if leb deadline a.after
    then some (past_budget a.result)
    else if a.goes
    then some abandoned
    else later

-- The conn after the pass; the ejection is the loop's.
unfoldable pub run_worker : Outcome → Conn → ℕ → Conn
unfolding set_reachable eject
run_worker ready w now = (set_reachable (record w { reconciled = true }) ok none now).0
run_worker ejected w now = eject w not_reconciled now
run_worker abandoned w now = w

retries_end :
    (attempts : ℕ → Attempt) (start budget interval : ℕ)
    → ((n : ℕ) → start + n * interval ≤ (attempts n).after)
    → (fuel n : ℕ) → budget ≤ (n + fuel) * interval
    → reconcile_with_retries attempts (start + budget) (suc fuel) n ≢ none
unfolding reconcile_with_retries
retries_end attempts start budget interval clock zero n h e =
    let late : start + budget ≤ (attempts n).after = omega (arith, clock n) in ground arith
retries_end attempts start budget interval clock (suc fuel) n h e =
    ground (arith, retries_end attempts start budget interval clock fuel (suc n) (omega arith))

-- If every attempt is over no earlier than as many intervals after the start as attempts came
-- before it, the retries end within one attempt more than there are intervals in the budget.
pub reconcile_with_retries-ends :
    (attempts : ℕ → Attempt) (start budget interval fuel : ℕ)
    → ((n : ℕ) → start + n * interval ≤ (attempts n).after)
    → budget ≤ fuel * interval
    → reconcile_with_retries attempts (start + budget) (suc fuel) 0 ≢ none
reconcile_with_retries-ends attempts start budget interval fuel clock h =
    retries_end attempts start budget interval clock fuel 0
      (subst (λ m. budget ≤ m * interval) (omega arith) h)

pub is_ready : Outcome → Bool
is_ready ready = true
is_ready _ = false

-- A new conn is placeable after its pass exactly if the pass let it: a daemon that never answered,
-- or a conn that was replaced meanwhile, does not enter placement.
pub run_worker-placeable :
    (o : Outcome) (id : ℕ) (ip public : String) (from_recovery : Bool) (n born now : ℕ)
    → placeable (run_worker o (new_worker_conn id ip public from_recovery n born) now) ≡ is_ready o
unfolding run_worker new_worker_conn placeable is_ready
run_worker-placeable ready id ip public from_recovery n born now = refl
run_worker-placeable ejected id ip public from_recovery n born now = ground arith
run_worker-placeable abandoned id ip public from_recovery n born now = refl
