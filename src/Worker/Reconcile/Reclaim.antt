-- ===== src/Worker/Reconcile/Reclaim.antt =====
-- The pass over the workers of crashed launches, once their rows are gone (reclaimAfterGC of
-- cork/worker_reconcile.go).
use challenge_orchestrator.Common.{
  String, Bool, true, false, Option, none, some, List, [], ◌∷◌, All, if-cases, if◌then◌else◌, ◌≡◌,
}
use challenge_orchestrator.Common.Assoc.{lookup}
use challenge_orchestrator.Worker.Conn.{Conn, is_ok}
use challenge_orchestrator.Worker.Fleet.{Fleet}
use challenge_orchestrator.Worker.Reconcile.{Answers, Result, reconcile_worker}

-- !ok || reachable != workerReachableOk
unfoldable pub is_skipped : Option Conn → Bool
is_skipped none = true
is_skipped (some w) = if is_ok w.reachable then false else true

-- The workers that are reconciled, with the results, which are only logged.
unfoldable pub reclaim_after_gc : Fleet → (String → Answers) → List String → List (String × Result)
reclaim_after_gc f answers [] = []
reclaim_after_gc f answers (ip ∷ workers) =
    let rest = reclaim_after_gc f answers workers in
    if is_skipped (lookup ip f.workers) then rest else (ip, reconcile_worker (answers ip)) ∷ rest

-- Only workers that are reachable and in the map are called.
reclaim_after_gc_lem :
    (f : Fleet) (answers : String → Answers) (workers : List String)
    → All
        (λ (p : String × Result). is_skipped (lookup p.0 f.workers) ≡ false)
        (reclaim_after_gc f answers workers)
unfolding reclaim_after_gc
reclaim_after_gc_lem f answers [] = tt
reclaim_after_gc_lem f answers (ip ∷ workers) =
    let rest = reclaim_after_gc_lem f answers workers in
    if-cases (All (λ (p : String × Result). is_skipped (lookup p.0 f.workers) ≡ false))
      (is_skipped (lookup ip f.workers)) (reclaim_after_gc f answers workers)
      ((ip, reconcile_worker (answers ip)) ∷ reclaim_after_gc f answers workers) (λ skipped. rest)
      (λ called. (called, rest))
