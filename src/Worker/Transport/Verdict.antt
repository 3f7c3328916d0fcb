-- ===== src/Worker/Transport/Verdict.antt =====
-- What a failed call says of the worker, and what it does not.
use challenge_orchestrator.Common.{
  ℕ, ◌≡◌, ◌⊎◌, inl, inr, refl, ap, ◌∙◌, arith, String, Bool, true, false, not, ◌||◌, Option, none,
  some, str_eq, eq_refl, if-both, Option-cases, Bool-cases,
}
use challenge_orchestrator.Common.Assoc.{lookup, insert, lookup-insert}
use challenge_orchestrator.Errors.{Err, is_transport_error, is_deadline}
use challenge_orchestrator.Worker.Timing.{Timing, timing}
use challenge_orchestrator.Worker.Conn.{Conn, Reason, stalled, eject, is_ok}
use challenge_orchestrator.Worker.Timeouts.{note_timeout}
use challenge_orchestrator.Worker.Fleet.{Fleet}
use challenge_orchestrator.Worker.Fleet.Consistent.{IsConsistent, replace-IsConsistent}
use challenge_orchestrator.Worker.Transport.{
  other_client, strike, judge_timeout, judge, judged, note_worker_transport_error,
}

-- Whether the stall that this timeout is reaches the limit.
abbrev pub reaches_limit : Timing → ℕ → Conn → Bool
reaches_limit t now w =
    (note_timeout w now (timing t).control_timeout (timing t).timeout_window
      (timing t).timeouts_to_eject).2

-- What the code takes for a daemon that is gone or wedged.
abbrev pub condemned : Timing → ℕ → Option Err → Err → Conn → Bool
condemned t now none err w = not (is_deadline err) || reaches_limit t now w
condemned t now (some e) err w = true

eject-out : (w : Conn) (r : Reason) (now : ℕ) → is_ok (eject w r now).reachable ≡ false
unfolding eject is_ok
eject-out w r now = ground arith

note_timeout-state :
    (w : Conn) (now d window limit : ℕ)
    → ((note_timeout w now d window limit).0.reachable ≡ w.reachable)
      × ((note_timeout w now d window limit).0.id ≡ w.id)
      × ((note_timeout w now d window limit).0.ip ≡ w.ip)
unfolding note_timeout
note_timeout-state w now d window limit = (refl, refl, refl)

strike-condemned :
    (t : Timing) (now : ℕ) (err : Err) (w : Conn)
    → is_ok w.reachable ≡ true
    → is_ok (strike t now err w).reachable ≡ not (reaches_limit t now w)
unfolding strike
strike-condemned t now err w up = elim (Bool-cases (reaches_limit t now w)) [
  | inl wedged ↦
      let (w', n, reached) =
        note_timeout w now (timing t).control_timeout (timing t).timeout_window
          (timing t).timeouts_to_eject in
      rw wedged (eject-out w' (stalled n err) now)
  | inr slow ↦ rw slow (
      ap is_ok
        (note_timeout-state w now (timing t).control_timeout (timing t).timeout_window
          (timing t).timeouts_to_eject).0
      ∙ up)
]

judge-condemned :
    (t : Timing) (now : ℕ) (ping : Option Err) (err : Err) (w : Conn)
    → is_ok w.reachable ≡ true
    → is_ok (judge t now ping err w).reachable ≡ not (condemned t now ping err w)
unfolding judge judge_timeout
judge-condemned t now none err w up = elim (Bool-cases (is_deadline err)) [
  | inl late ↦ rw late (strike-condemned t now err w up)
  | inr refused ↦ rw refused (eject-out w _ now)
]
judge-condemned t now (some e) err w up = elim (Bool-cases (is_deadline err)) [
  | inl late ↦ rw late (eject-out w _ now)
  | inr refused ↦ rw refused (eject-out w _ now)
]

acted :
    (f : Fleet) (t : Timing) (worker : String) (cli : Option ℕ) (err : Err) (ping : Option Err)
    (now : ℕ) (w : Conn)
    → str_eq worker "" ≡ false
    → is_transport_error err ≡ true
    → lookup worker f.workers ≡ some w
    → other_client cli w ≡ false
    → w.reconciled ≡ true
    → note_worker_transport_error f t worker cli err ping now
      ≡ record f { workers = insert worker (judged t now ping err w) f.workers }
unfolding note_worker_transport_error
acted f t worker cli err ping now w named transport there mine done = ground arith

-- A call that failed at the connection, out on the conn that is registered for the worker and that
-- has been reconciled, takes a worker out of placement exactly if the daemon did not merely time
-- out, or did not answer a ping after it, or its separate stalls reach the limit; and wakes its
-- poller.
pub note_worker_transport_error_lem :
    (f : Fleet) (t : Timing) (worker : String) (cli : Option ℕ) (err : Err) (ping : Option Err)
    (now : ℕ) (w : Conn)
    → str_eq worker "" ≡ false
    → is_transport_error err ≡ true
    → lookup worker f.workers ≡ some w
    → other_client cli w ≡ false
    → w.reconciled ≡ true
    → is_ok w.reachable ≡ true
    → let f' = note_worker_transport_error f t worker cli err ping now in
      (v : Conn) × (lookup worker f'.workers ≡ some v)
      × (is_ok v.reachable ≡ not (condemned t now ping err w))
      × (v.probe_now ≡ true)
note_worker_transport_error_lem f t worker cli err ping now w named transport there mine done up =
    rw (acted f t worker cli err ping now w named transport there mine done) (
      judged t now ping err w,
      lookup-insert worker worker (judged t now ping err w) f.workers ∙ rw (eq_refl worker) refl,
      judge-condemned t now ping err w up,
      refl,
    )

-- A failed call to the local daemon, an answer of the daemon rather than a failure of the
-- connection, a call on a connection since replaced, and one before the worker's first reconcile
-- pass is over change nothing.
pub note_worker_transport_error_ignored :
    (f : Fleet) (t : Timing) (worker : String) (cli : Option ℕ) (err : Err) (ping : Option Err)
    (now : ℕ) (w : Conn)
    → lookup worker f.workers ≡ some w
    → (str_eq worker "" ≡ true)
      ⊎ (is_transport_error err ≡ false)
      ⊎ (other_client cli w ≡ true)
      ⊎ (w.reconciled ≡ false)
    → note_worker_transport_error f t worker cli err ping now ≡ f
unfolding note_worker_transport_error
note_worker_transport_error_ignored f t worker cli err ping now w there why = ground arith

judge-same :
    (t : Timing) (now : ℕ) (ping : Option Err) (err : Err) (w : Conn)
    → ((judge t now ping err w).ip ≡ w.ip) × ((judge t now ping err w).id ≡ w.id)
unfolding judge judge_timeout strike note_timeout eject
judge-same t now none err w = (ground arith, ground arith)
judge-same t now (some e) err w = (ground arith, ground arith)

-- A failed call keeps the fleet consistent.
pub note_worker_transport_error-IsConsistent :
    (f : Fleet) (t : Timing) (worker : String) (cli : Option ℕ) (err : Err) (ping : Option Err)
    (now : ℕ)
    → IsConsistent f
    → IsConsistent (note_worker_transport_error f t worker cli err ping now)
unfolding note_worker_transport_error
note_worker_transport_error-IsConsistent f t worker cli err ping now h =
    if-both IsConsistent (str_eq worker "" || not (is_transport_error err)) f _ h
      (elim (Option-cases (lookup worker f.workers)) [
        | inl absent ↦ rw absent h
        | inr (w, there) ↦
            let same = judge-same t now ping err w in
            rw there (
              if-both IsConsistent (other_client cli w) f _ h (
                if-both IsConsistent (not w.reconciled) f _ h (
                  replace-IsConsistent f worker w (judged t now ping err w) there same.0 same.1 h)))
      ])
