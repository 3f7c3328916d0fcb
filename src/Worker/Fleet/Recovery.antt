-- ===== src/Worker/Fleet/Recovery.antt =====
-- What a worker's conn is replaced by, and what an operator's assertion survives.
use challenge_orchestrator.Common.{
  ℕ, ◌≡◌, ◌≢◌, refl, ◌∙◌, arith, String, Bool, true, false, some, str_eq, eq_iff, ◌⊎◌,
  if◌then◌else◌, inl, inr,
}
use challenge_orchestrator.Common.Assoc.{lookup, lookup-insert}
use challenge_orchestrator.Worker.Conn.{
  Conn, down, is_down, placeable, new_worker_conn, mark_worker_down,
}
use challenge_orchestrator.Worker.Fleet.{
  Fleet, recover_worker, recovered_conn, set_worker_down, worker_unreachable, unreachable_conn,
  publish,
}
use challenge_orchestrator.Worker.Fleet.Consistent.{IsConsistent}

-- A recovery of a conn that was taken down, or that has been replaced meanwhile, changes nothing.
pub recover_worker_refused :
    (f : Fleet) (ip : String) (id : ℕ) (conn_ok : Bool) (now : ℕ) (w : Conn)
    → lookup ip f.workers ≡ some w
    → (is_down w.reachable ≡ true) ⊎ (w.id ≢ id)
    → recover_worker f ip id conn_ok now ≡ f
unfolding recover_worker
recover_worker_refused f ip id conn_ok now w e (inl taken_down) = ground arith
recover_worker_refused f ip id conn_ok now w e (inr replaced) = ground arith

recovered-lookup :
    (f : Fleet) (ip j : String) (w : Conn) (now : ℕ)
    → lookup j (publish f ip (recovered_conn f ip w now)).workers
      ≡ (if str_eq ip j then some (recovered_conn f ip w now) else lookup j f.workers)
unfolding publish
recovered-lookup f ip j w now = lookup-insert ip j (recovered_conn f ip w now) f.workers

recover_worker-eq :
    (f : Fleet) (ip : String) (now : ℕ) (w : Conn)
    → lookup ip f.workers ≡ some w
    → is_down w.reachable ≡ false
    → recover_worker f ip w.id true now ≡ publish f ip (recovered_conn f ip w now)
unfolding recover_worker
recover_worker-eq f ip now w e up = ground arith

unreachable-lookup :
    (f : Fleet) (ip : String) (w : Conn)
    → lookup ip f.workers ≡ some w
    → worker_unreachable f ip ≡ unreachable_conn w w.reachable
unfolding worker_unreachable
unreachable-lookup f ip w e = rw (e, worker_unreachable) refl

mark_worker_down-down : (w : Conn) (t : ℕ) → (mark_worker_down w t).reachable ≡ down
unfolding mark_worker_down
mark_worker_down-down w t = ground arith

set_worker_down-lookup :
    (f : Fleet) (ip : String) (t : ℕ) (w : Conn)
    → lookup ip f.workers ≡ some w
    → lookup ip (set_worker_down f ip t).1.workers ≡ some (mark_worker_down w t)
unfolding set_worker_down
set_worker_down-lookup f ip t w e =
    rw (e, set_worker_down)
      (ground (arith, lookup-insert ip ip (mark_worker_down w t) f.workers, eq_iff ip ip))

is_down-down : (w : Conn) → w.reachable ≡ down → is_down w.reachable ≡ true
unfolding is_down
is_down-down w e = ground arith

unreachable-down : (w : Conn) → w.reachable ≡ down → unreachable_conn w w.reachable ≡ true
unfolding unreachable_conn
unreachable-down w e = ground arith

-- worker-down holds against a recovery that is under way: after both, in this order, for any conn
-- the recovery was for, the registered worker is down, and calls to it are pointless.
pub recover_worker-set_worker_down :
    (f : Fleet) (ip : String) (id t now : ℕ) (conn_ok : Bool) (w : Conn)
    → lookup ip f.workers ≡ some w
    → let f' = recover_worker (set_worker_down f ip t).1 ip id conn_ok now in
      ((v : Conn) × (lookup ip f'.workers ≡ some v) × (v.reachable ≡ down))
      × (worker_unreachable f' ip ≡ true)
recover_worker-set_worker_down f ip id t now conn_ok w e =
    let v = mark_worker_down w t in
    let there = set_worker_down-lookup f ip t w e in
    let asserted = mark_worker_down-down w t in
    rw
      (recover_worker_refused (set_worker_down f ip t).1 ip id conn_ok now v there
        (inl (is_down-down v asserted)))
      (
        (v, there, asserted),
        unreachable-lookup (set_worker_down f ip t).1 ip v there ∙ unreachable-down v asserted,
      )

-- A recovery that goes through puts a new conn at the ip: unresponsive, so not placeable before its
-- reconcile pass, yet worth calling, with an open channel, an address that no conn of a consistent
-- fleet has, and the ejections of the old conn. Nothing else in the map changes.
pub recover_worker_lem :
    (f : Fleet) (ip : String) (now : ℕ) (w : Conn)
    → IsConsistent f
    → lookup ip f.workers ≡ some w
    → is_down w.reachable ≡ false
    → let f' = recover_worker f ip w.id true now in
      (lookup ip f'.workers ≡ some (recovered_conn f ip w now))
      × (placeable (recovered_conn f ip w now) ≡ false)
      × (worker_unreachable f' ip ≡ false)
      × ((recovered_conn f ip w now).id ≢ w.id)
      × ((recovered_conn f ip w now).unreach_closes ≡ 0)
      × ((recovered_conn f ip w now).ejections ≡ w.ejections)
      × ((j : String)
          → lookup j f'.workers
            ≡ (if str_eq ip j then some (recovered_conn f ip w now) else lookup j f.workers))
unfolding new_worker_conn placeable unreachable_conn
recover_worker_lem f ip now w h e up =
    let there : lookup ip (publish f ip (recovered_conn f ip w now)).workers
        ≡ some (recovered_conn f ip w now) =
      ground (arith, recovered-lookup f ip ip w now, eq_iff ip ip) in
    rw (recover_worker-eq f ip now w e up) (
      there,
      refl,
      unreachable-lookup (publish f ip (recovered_conn f ip w now)) ip (recovered_conn f ip w now)
          there,
      (λ same. omega (arith, same, h.fresh ip w e)),
      refl,
      refl,
      λ j. recovered-lookup f ip j w now,
    )
