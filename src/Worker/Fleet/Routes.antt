-- ===== src/Worker/Fleet/Routes.antt =====
-- Where a call about an instance goes, and when it is pointless.
use mathlib.Core.Bool.{false≢true}
use challenge_orchestrator.Common.{
  ℕ, ◌≡◌, ◌↔◌, ◌⊎◌, inl, inr, refl, sym, ap, ◌∙◌, arith, String, true, false, not, none, some, List,
  [], ◌∷◌, str_eq, eq_iff, if◌then◌else◌, keep, All, Option-cases,
}
use challenge_orchestrator.Common.Assoc.{lookup, insert, remove, lookup-insert, lookup-remove}
use challenge_orchestrator.Worker.Conn.{Conn, Reason, is_ok, is_down, eject, placeable}
use challenge_orchestrator.Worker.Fleet.{
  Fleet, InstanceRow, worker_unreachable, remove_worker, remove_first,
}
use challenge_orchestrator.Worker.Fleet.Consistent.{IsConsistent}
use challenge_orchestrator.Worker.Fleet.Order.{contains, is_some, contains-remove_first}

-- A call to a worker is worth making exactly if the worker is registered and its daemon answers, or
-- has not been taken down and has failed at nothing yet.
pub worker_unreachable_iff :
    (f : Fleet) (ip : String) (w : Conn)
    → lookup ip f.workers ≡ some w
    → (worker_unreachable f ip ≡ false)
      ↔ ((is_ok w.reachable ≡ true) ⊎ ((is_down w.reachable ≡ false) × (w.daemon_failed ≡ false)))
unfolding worker_unreachable is_ok is_down
worker_unreachable_iff f ip w e = (λ h. ground arith, λ h. ground arith)

-- After an ejection of a registered worker's conn, calls to that worker are pointless and it is not
-- placeable.
pub worker_unreachable-eject :
    (f : Fleet) (ip : String) (w : Conn) (r : Reason) (now : ℕ)
    → (worker_unreachable (record f { workers = insert ip (eject w r now) f.workers }) ip ≡ true)
      × (placeable (eject w r now) ≡ false)
unfolding worker_unreachable eject placeable
worker_unreachable-eject f ip w r now =
    (ground (arith, lookup-insert ip ip (eject w r now) f.workers, eq_iff ip ip), ground arith)

kept_rows :
    (ip : String) (rows : List InstanceRow)
    → All (λ r. str_eq r.worker ip ≡ false) (keep (λ r. not (str_eq r.worker ip)) rows)
kept_rows ip [] = tt
kept_rows ip (r ∷ rs) = ground (arith, kept_rows ip rs)

remove_worker-eq :
    (f : Fleet) (ip : String) (w : Conn)
    → lookup ip f.workers ≡ some w
    → remove_worker f ip true ≡ (
      none,
      record f {
        instance_rows = keep (λ r. not (str_eq r.worker ip)) f.instance_rows;
        worker_rows = remove ip f.worker_rows;
        workers = remove ip f.workers;
        order = remove_first ip f.order;
      },
    )
unfolding remove_worker
remove_worker-eq f ip w e = rw (e, remove_worker) refl

registered_conn :
    (f : Fleet) (ip : String)
    → IsConsistent f
    → contains ip f.order ≡ true
    → (w : Conn) × (lookup ip f.workers ≡ some w)
registered_conn f ip h c = elim (Option-cases (lookup ip f.workers)) [
  | inl absent ↦ absurd (false≢true (sym (ap is_some absent) ∙ h.keyed ip ∙ c))
  | inr there ↦ there
]

-- Removing a registered worker of a consistent fleet succeeds and leaves nothing of it: it is in
-- neither the map nor the placement order nor the tables, no instance is recorded on it, its
-- instances' calls are refused, and calls to it are pointless. Other workers keep their conns.
pub remove_worker_lem :
    (f : Fleet) (ip : String)
    → IsConsistent f
    → contains ip f.order ≡ true
    → let (e, f') = remove_worker f ip true in
      (e ≡ none)
      × (contains ip f'.order ≡ false)
      × (lookup ip f'.worker_rows ≡ none)
      × All (λ r. str_eq r.worker ip ≡ false) f'.instance_rows
      × (worker_unreachable f' ip ≡ true)
      × ((j : String) → lookup j f'.workers ≡ (if str_eq ip j then none else lookup j f.workers))
unfolding worker_unreachable
remove_worker_lem f ip h c =
    let (w, e) = registered_conn f ip h c in
    rw (remove_worker-eq f ip w e) (
      refl,
      ground (arith, contains-remove_first ip ip f.order h.unique, eq_iff ip ip),
      ground (arith, lookup-remove ip ip f.worker_rows, eq_iff ip ip),
      kept_rows ip f.instance_rows,
      ground (arith, lookup-remove ip ip f.workers, eq_iff ip ip),
      λ j. lookup-remove ip j f.workers,
    )
