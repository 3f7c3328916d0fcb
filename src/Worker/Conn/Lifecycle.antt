-- ===== src/Worker/Conn/Lifecycle.antt =====
-- A conn is a one-shot object, whatever calls are made on it and in whatever order.
use challenge_orchestrator.Common.{
  ℕ, ◌+◌, ◌≡◌, ◌≢◌, ◌⊎◌, refl, arith, Bool, true, false, not, ◌&&◌, ◌||◌, Option, none, List, [],
  ◌∷◌, String, if◌then◌else◌,
}
use challenge_orchestrator.Worker.Conn.{
  Conn, Reachable, Load, Reason, unresponsive, down, ok, new_worker_conn, set_reachable, set_load,
  eject, mark_worker_down, placeable, is_ok, is_down,
}

-- The calls that move a conn's health: the end of its reconcile pass, an ejection by a probe or by
-- a failed control call, worker-down, and a telemetry verdict.
pub data Event : Type 0 where
  admitted : Event
  ejected : Reason → Event
  taken_down : Event
  loaded : Load → Event

unfoldable pub apply : Conn → ℕ × Event → Conn
unfolding set_reachable eject mark_worker_down set_load
apply w (now, admitted) = (set_reachable w ok none now).0
apply w (now, ejected r) = eject w r now
apply w (now, taken_down) = mark_worker_down w now
apply w (now, loaded l) = set_load w l

pub run : Conn → List (ℕ × Event) → Conn
run w [] = w
run w (e ∷ es) = run (apply w e) es

-- unreachCh is closed once a conn has left ok, exactly then, and a closed one is never ok.
pub record IsOneShot (w : Conn) : Type 0 where
  pub closes : w.unreach_closes ≡ (if w.retired then 1 else 0)
  pub not_back : is_ok w.reachable ≡ true → w.retired ≡ false

new_worker_conn-IsOneShot :
    (id : ℕ) (ip public : String) (from_recovery : Bool) (n now : ℕ)
    → IsOneShot (new_worker_conn id ip public from_recovery n now)
unfolding new_worker_conn is_ok
new_worker_conn-IsOneShot id ip public from_recovery n now = record {
  closes = refl;
  not_back = λ h. cc;
}

pub apply-IsOneShot : (w : Conn) (e : ℕ × Event) → IsOneShot w → IsOneShot (apply w e)
unfolding apply
apply-IsOneShot w (now, admitted) h = ground arith
apply-IsOneShot w (now, ejected r) h = ground arith
apply-IsOneShot w (now, taken_down) h = ground arith
apply-IsOneShot w (now, loaded l) h = ground arith

-- After any calls on a new conn, in any order, unreachCh has been closed at most once, exactly if
-- the conn is retired, and a retired conn is not in placement.
pub run-IsOneShot : (w : Conn) (es : List (ℕ × Event)) → IsOneShot w → IsOneShot (run w es)
unfolding run
run-IsOneShot w [] h = h
run-IsOneShot w (e ∷ es) h = run-IsOneShot (apply w e) es (apply-IsOneShot w e h)

apply-retired : (w : Conn) (e : ℕ × Event) → w.retired ≡ true → (apply w e).retired ≡ true
unfolding apply
apply-retired w (now, admitted) h = ground arith
apply-retired w (now, ejected r) h = ground arith
apply-retired w (now, taken_down) h = ground arith
apply-retired w (now, loaded l) h = ground arith

run-retired : (w : Conn) (es : List (ℕ × Event)) → w.retired ≡ true → (run w es).retired ≡ true
unfolding run
run-retired w [] h = h
run-retired w (e ∷ es) h = run-retired (apply w e) es (apply-retired w e h)

not_placeable : (w : Conn) → IsOneShot w → w.retired ≡ true → placeable w ≡ false
unfolding placeable
not_placeable w h r = ground (arith, h.not_back)

leaving-retired :
    (w : Conn) (e : ℕ × Event)
    → is_ok w.reachable ≡ true
    → is_ok (apply w e).reachable ≡ false
    → (apply w e).retired ≡ true
unfolding apply
leaving-retired w (now, admitted) was left = ground arith
leaving-retired w (now, ejected r) was left = ground arith
leaving-retired w (now, taken_down) was left = ground arith
leaving-retired w (now, loaded l) was left = ground arith

apply-down : (w : Conn) (e : ℕ × Event) → w.reachable ≡ down → (apply w e).reachable ≡ down
unfolding apply
apply-down w (now, admitted) h = ground arith
apply-down w (now, ejected r) h = ground arith
apply-down w (now, taken_down) h = ground arith
apply-down w (now, loaded l) h = ground arith

-- A conn that an operator took down stays down under any later calls on it: no probe, no finished
-- reconcile pass and no failed call lifts the assertion.
pub run-down : (w : Conn) (es : List (ℕ × Event)) → w.reachable ≡ down → (run w es).reachable ≡ down
unfolding run
run-down w [] h = h
run-down w (e ∷ es) h = run-down (apply w e) es (apply-down w e h)

-- setReachable either reports a transition, and then the state changed to the one asked for and its
-- time and reason are recorded; or it reports none, and then the state, its time, the retirement,
-- the closes and the ejections are as they were.
pub set_reachable_reports :
    (w : Conn) (to : Reachable) (reason : Option Reason) (now : ℕ)
    → let (w', moved) = set_reachable w to reason now in
      ((moved ≡ true)
        × (w'.reachable ≢ w.reachable)
        × (w'.reachable ≡ to)
        × (w'.since ≡ now)
        × (w'.reason ≡ reason))
      ⊎ ((moved ≡ false)
          × (w'.reachable ≡ w.reachable)
          × (w'.since ≡ w.since)
          × (w'.retired ≡ w.retired)
          × (w'.unreach_closes ≡ w.unreach_closes)
          × (w'.ejections ≡ w.ejections))
unfolding set_reachable
set_reachable_reports w to reason now = ground arith

-- An ejection records that the daemon failed, takes every worker but one that is down out of
-- placement, and counts once if it moved the worker or ended a recovery whose daemon had not failed
-- before; a worker already unresponsive keeps the time at which it became so.
pub eject_lem :
    (w : Conn) (r : Reason) (now : ℕ)
    → ((eject w r now).daemon_failed ≡ true)
      × ((eject w r now).reachable ≡ (if is_down w.reachable then down else unresponsive))
      × ((eject w r now).ejections ≡ (
          if is_ok w.reachable || (not w.daemon_failed && w.from_recovery)
          then w.ejections + 1
          else w.ejections))
      × ((eject w r now).since ≡ (if is_ok w.reachable then now else w.since))
unfolding eject is_down is_ok
eject_lem w r now = (ground arith, ground arith, ground arith, ground arith)

-- Once a conn that had been in placement is ejected or taken down, no later calls on it, reconcile
-- passes that finish included, make it placeable again.
pub placeable-run_after_leaving :
    (w : Conn) (e : ℕ × Event) (es : List (ℕ × Event))
    → IsOneShot w
    → is_ok w.reachable ≡ true
    → is_ok (apply w e).reachable ≡ false
    → placeable (run (apply w e) es) ≡ false
placeable-run_after_leaving w e es h was left =
    not_placeable (run (apply w e) es) (run-IsOneShot (apply w e) es (apply-IsOneShot w e h))
      (run-retired (apply w e) es (leaving-retired w e was left))
