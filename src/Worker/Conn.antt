-- ===== src/Worker/Conn.antt =====
-- The connection to one worker (workerConn of cork/workers.go): its two health axes and the
-- operations that move them. Each operation here is one call with no other in between. Times are
-- nanoseconds on one clock.
pub mod Lifecycle
pub mod Backoff
mod Examples
use challenge_orchestrator.Common.{
  ℕ, ◌+◌, ◌-◌, ◌*◌, min, String, Bool, true, false, not, ◌&&◌, ◌||◌, Option, none, some, List, [],
  ◌∷◌, ◌++◌, ltb, leb, ◌==◌, if◌then◌else◌, length, keep, get_elem?,
}
use challenge_orchestrator.Errors.{Err}
use challenge_orchestrator.Worker.Timing.{Timing}
use challenge_orchestrator.Launch.Queue.{DaemonQueue, new_daemon_queue, slots}

pub data Reachable : Type 0 where
  unresponsive down ok : Reachable

pub data Load : Type 0 where
  unknown overloaded normal : Load

-- What put a worker into its state, in place of the text of the message.
pub data Reason : Type 0 where
  taken_down not_reconciled : Reason
  probe_failed : Bool → Err → Reason
  ping_failed call_failed : Err → Reason
  stalled : ℕ → Err → Reason

-- `id` stands for the address of the conn, and for that of its docker client, which it never
-- shares. `unreach_closes` counts the calls of close(unreachCh): a second one is a panic.
pub record Conn : Type 0 where
  pub id : ℕ
  pub ip : String
  pub public : String
  pub reachable : Reachable
  pub load : Load
  pub since : ℕ
  pub reason : Option Reason
  pub ejections : ℕ
  pub unreach_closes : ℕ
  pub retired : Bool
  pub reconciled : Bool
  pub from_recovery : Bool
  pub daemon_failed : Bool
  pub timeouts : List ℕ
  pub queue : DaemonQueue
  pub done : Bool
  pub probe_now : Bool
  pub preload_now : Bool

-- newWorkerConn, without the docker client and its goroutine.
unfoldable pub new_worker_conn : ℕ → String → String → Bool → ℕ → ℕ → Conn
unfolding new_daemon_queue slots
new_worker_conn id ip public from_recovery launch_concurrency now = record {
  id = id;
  ip = ip;
  public = public;
  reachable = unresponsive;
  load = unknown;
  since = now;
  reason = none;
  ejections = 0;
  unreach_closes = 0;
  retired = false;
  reconciled = false;
  from_recovery = from_recovery;
  daemon_failed = false;
  timeouts = [];
  queue = new_daemon_queue (slots launch_concurrency);
  done = false;
  probe_now = false;
  preload_now = false;
}

unfoldable pub is_ok : Reachable → Bool
is_ok ok = true
is_ok _ = false

unfoldable pub is_down : Reachable → Bool
is_down down = true
is_down _ = false

unfoldable pub same_state : Reachable → Reachable → Bool
same_state unresponsive unresponsive = true
same_state down down = true
same_state ok ok = true
same_state _ _ = false

unfoldable pub is_overloaded : Load → Bool
is_overloaded overloaded = true
is_overloaded _ = false

refresh_reason : Conn → Option Reason → Conn
refresh_reason w none = w
refresh_reason w (some r) = record w { reason = some r }

-- The transition itself, once it is allowed.
move : Conn → Reachable → Option Reason → ℕ → Conn
unfolding is_ok
move w to reason now =
    let moved = record w { reachable = to; since = now; reason = reason } in
    if is_ok w.reachable
    then record moved { retired = true; unreach_closes = w.unreach_closes + 1 }
    else moved

unfoldable pub set_reachable : Conn → Reachable → Option Reason → ℕ → Conn × Bool
unfolding refresh_reason move same_state is_down is_ok
set_reachable w to reason now =
    if same_state w.reachable to
    then (refresh_reason w reason, false)
    else if is_down w.reachable && not (is_down to)
    then (w, false)
    else if is_ok to && w.retired
    then (w, false)
    else (move w to reason now, true)

unfoldable pub set_load : Conn → Load → Conn
set_load w to = record w { load = to }

-- daemonFailed is set before the transition, and the ejection counted after it.
unfoldable pub eject : Conn → Reason → ℕ → Conn
unfolding set_reachable
eject w reason now =
    let first = not w.daemon_failed in
    let (w', moved) =
      set_reachable (record w { daemon_failed = true }) unresponsive (some reason) now in
    if moved || (first && w.from_recovery) then record w' { ejections = w'.ejections + 1 } else w'

unfoldable pub mark_worker_down : Conn → ℕ → Conn
unfolding set_reachable
mark_worker_down w now = (set_reachable w down (some taken_down) now).0

unfoldable pub recover_backoff_for : Conn → Timing → ℕ
recover_backoff_for w t =
    let n = if ltb w.ejections 1 then 1 else w.ejections in
    min (n * t.recover_backoff) t.recover_backoff_max

-- time.Since(since) >= the backoff
unfoldable pub ready_to_recover : Conn → ℕ → Timing → ℕ → Bool
unfolding recover_backoff_for
ready_to_recover w good_probes t now =
    if ltb good_probes t.healthy_threshold
    then false
    else leb (w.since + recover_backoff_for w t) now

unfoldable pub reachable_text : Reachable → String
reachable_text ok = "ok"
reachable_text down = "down"
reachable_text unresponsive = "unresponsive"

unfoldable pub load_text : Load → String
load_text normal = "ok"
load_text overloaded = "overloaded"
load_text unknown = "unknown"

unfoldable pub derived_health : Reachable → Load → String
unfolding reachable_text is_ok is_overloaded
derived_health r l =
    if not (is_ok r) then reachable_text r else if is_overloaded l then "overloaded" else "ok"

unfoldable pub placeable : Conn → Bool
unfolding is_ok is_overloaded
placeable w = is_ok w.reachable && not (is_overloaded w.load)
