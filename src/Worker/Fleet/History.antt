-- ===== src/Worker/Fleet/History.antt =====
-- Any history of the fleet's operations.
use challenge_orchestrator.Errors.{Err}
use challenge_orchestrator.Worker.Timing.{Timing}
use challenge_orchestrator.Worker.Transport.{note_worker_transport_error}
use challenge_orchestrator.Worker.Transport.Verdict.{note_worker_transport_error-IsConsistent}
use challenge_orchestrator.Common.{
  ℕ, zero, suc, String, Bool, false, Option, none, some, List, [], ◌∷◌, length, ◌==◌, if-both,
  Option-cases, inl, inr,
}
use challenge_orchestrator.Worker.Conn.{placeable}
use challenge_orchestrator.Worker.Select.{Selection, select_worker, scan, worker_at}
use challenge_orchestrator.Worker.Fleet.{
  Fleet, AddOutcome, add_worker, remove_worker, set_worker_down, recover_worker,
  enable_worker_placement,
}
use challenge_orchestrator.Worker.Fleet.Consistent.{
  IsConsistent, add_worker-IsConsistent, remove_worker-IsConsistent, set_worker_down-IsConsistent,
  recover_worker-IsConsistent,
}

-- One call of the workers' API, a recovery by a poller, a failed docker call or a placement, with
-- what happens outside during it.
pub data Call : Type 0 where
  added : String → String → AddOutcome → Call
  removed : String → Bool → Call
  taken_down : String → Call
  recovered : String → ℕ → Bool → Call
  call_failed : Timing → String → Option ℕ → Err → Option Err → Call
  selected : Call
  enabled : Call

-- The fleet after a placement; a nil dereference would be `none`.
pub placed : Fleet → Option (Selection × Fleet) → Fleet
placed f none = f
placed f (some (s, f')) = f'

pub step : Fleet → ℕ × Call → Fleet
unfolding add_worker remove_worker set_worker_down recover_worker enable_worker_placement
step f (now, added ip public outcome) = (add_worker f ip public outcome now).1
step f (now, removed ip committed) = (remove_worker f ip committed).1
step f (now, taken_down ip) = (set_worker_down f ip now).1
step f (now, recovered ip id conn_ok) = recover_worker f ip id conn_ok now
step f (now, call_failed t ip cli err ping) = note_worker_transport_error f t ip cli err ping now
step f (now, selected) = placed f (select_worker f)
step f (now, enabled) = enable_worker_placement f

pub run : Fleet → List (ℕ × Call) → Fleet
unfolding step
run f [] = f
run f (c ∷ cs) = run (step f c) cs

cursor-IsConsistent : (f : Fleet) (c : ℕ) → IsConsistent f → IsConsistent (record f { cursor = c })
cursor-IsConsistent f c h = record {
  keyed = h.keyed;
  unique = h.unique;
  stored = h.stored;
  named = h.named;
  fresh = h.fresh;
}

-- The fleet that a placement leaves, if it leaves one.
Kept : Option (Selection × Fleet) → Type 0
Kept none = Unit
Kept (some (s, f')) = IsConsistent f'

scan-Kept : (f : Fleet) (i k : ℕ) (so su : Bool) → IsConsistent f → Kept (scan f i k so su)
unfolding scan Kept
scan-Kept f i zero so su h = h
scan-Kept f i (suc k) so su h = elim (Option-cases (worker_at f i)) [
  | inl absent ↦ rw (absent, scan) tt
  | inr (w, there) ↦
      rw (there, scan)
        (if-both Kept (placeable w) _ _ (cursor-IsConsistent f _ h) (scan-Kept f (suc i) k _ _ h))
]

select_worker-Kept : (f : Fleet) → IsConsistent f → Kept (select_worker f)
unfolding select_worker Kept
select_worker-Kept f h =
    if-both Kept (length f.order == 0) _ _ h (scan-Kept f 0 (length f.order) false false h)

placed-IsConsistent :
    (f : Fleet) (r : Option (Selection × Fleet))
    → IsConsistent f
    → Kept r
    → IsConsistent (placed f r)
unfolding placed Kept
placed-IsConsistent f none h k = h
placed-IsConsistent f (some (s, f')) h k = k

step-IsConsistent : (f : Fleet) (c : ℕ × Call) → IsConsistent f → IsConsistent (step f c)
unfolding step
step-IsConsistent f (now, added ip public outcome) h =
    add_worker-IsConsistent f ip public outcome now h
step-IsConsistent f (now, removed ip committed) h = remove_worker-IsConsistent f ip committed h
step-IsConsistent f (now, taken_down ip) h = set_worker_down-IsConsistent f ip now h
step-IsConsistent f (now, recovered ip id conn_ok) h =
    recover_worker-IsConsistent f ip id conn_ok now h
step-IsConsistent f (now, call_failed t ip cli err ping) h =
    note_worker_transport_error-IsConsistent f t ip cli err ping now h
step-IsConsistent f (now, selected) h =
    placed-IsConsistent f (select_worker f) h (select_worker-Kept f h)
step-IsConsistent f (now, enabled) h = record {
  keyed = h.keyed;
  unique = h.unique;
  stored = h.stored;
  named = h.named;
  fresh = h.fresh;
}

-- From a consistent fleet, whatever workers are added, removed, taken down or recovered, whatever
-- is placed and whatever docker calls fail, and whichever of these calls fails half way: the map of
-- conns has exactly the ips of the placement order, each once and each under its own ip, each of
-- them has a database row, and the conns' addresses are older than the next one.
pub run-IsConsistent : (f : Fleet) (cs : List (ℕ × Call)) → IsConsistent f → IsConsistent (run f cs)
unfolding run
run-IsConsistent f [] h = h
run-IsConsistent f (c ∷ cs) h = run-IsConsistent (step f c) cs (step-IsConsistent f c h)
