-- ===== src/Worker/Select.antt =====
-- Placement of new instances (selectWorker of cork/workers.go).
pub mod Scan
pub mod Choice
pub mod Rotation
use challenge_orchestrator.Common.{
  ℕ, zero, suc, ◌+◌, ◌%◌, Bool, true, false, ◌||◌, String, Option, none, some, if◌then◌else◌,
  length, get_elem?, ◌==◌,
}
use challenge_orchestrator.Common.Assoc.{lookup}
use challenge_orchestrator.Errors.{
  Err, all_workers_overloaded, all_workers_unresponsive, all_workers_down,
}
use challenge_orchestrator.Worker.Conn.{Conn, Reachable, ok, down, unresponsive, is_ok, placeable}
use challenge_orchestrator.Worker.Fleet.{Fleet}

-- The worker's ip ("" is the local daemon), or the kind of exhaustion.
pub data Selection : Type 0 where
  chosen : String → Selection
  exhausted : Err → Selection

unfoldable pub is_unresponsive : Reachable → Bool
is_unresponsive unresponsive = true
is_unresponsive _ = false

-- m.workers[m.workerOrder[(m.rrCursor+i)%n]], whose nil pointer is `none`.
unfoldable pub worker_at : Fleet → ℕ → Option Conn
worker_at f i = elim (get_elem? f.order ((f.cursor + i) % length f.order)) [
  | none ↦ none
  | some ip ↦ lookup ip f.workers
]

unfoldable pub exhaustion : Bool → Bool → Err
exhaustion true saw_unresponsive = all_workers_overloaded
exhaustion false true = all_workers_unresponsive
exhaustion false false = all_workers_down

-- The loop from index `i` with `k` rounds left; a nil dereference is `none`.
unfoldable pub scan : Fleet → ℕ → ℕ → Bool → Bool → Option (Selection × Fleet)
unfolding exhaustion
scan f i zero saw_overloaded saw_unresponsive =
    some (exhausted (exhaustion saw_overloaded saw_unresponsive), f)
scan f i (suc k) saw_overloaded saw_unresponsive = elim (worker_at f i) [
  | none ↦ none
  | some w ↦
      let rest =
        scan f (suc i) k (saw_overloaded || is_ok w.reachable)
          (saw_unresponsive || is_unresponsive w.reachable) in
      if placeable w
      then some (
        chosen w.ip,
        record f { cursor = ((f.cursor + i) % length f.order + 1) % length f.order },
      )
      else rest
]

unfoldable pub select_worker : Fleet → Option (Selection × Fleet)
unfolding scan
select_worker f =
    if length f.order == 0 then some (chosen "", f) else scan f 0 (length f.order) false false
