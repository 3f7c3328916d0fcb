-- ===== src/Worker/Transport.antt =====
-- Failed docker calls to a worker (noteWorkerTransportError of cork/workers.go). The conn that it
-- finds in the map is still there when it acts on it: nothing else happens in between.
pub mod Verdict
mod Examples
use challenge_orchestrator.Common.{
  ℕ, String, Bool, true, false, not, ◌&&◌, ◌||◌, Option, none, some, str_eq, ◌==◌, if◌then◌else◌,
}
use challenge_orchestrator.Common.Assoc.{lookup, insert}
use challenge_orchestrator.Errors.{Err, is_transport_error, is_deadline}
use challenge_orchestrator.Worker.Timing.{Timing, timing}
use challenge_orchestrator.Worker.Conn.{Conn, ping_failed, call_failed, stalled, eject}
use challenge_orchestrator.Worker.Timeouts.{note_timeout}
use challenge_orchestrator.Worker.Fleet.{Fleet}

-- cli != nil && w.cli != cli, for the address of the conn whose client the call went out on.
unfoldable pub other_client : Option ℕ → Conn → Bool
other_client none w = false
other_client (some id) w = not (w.id == id)

-- A timeout that the daemon's answer to a ping makes one stall.
unfoldable pub strike : Timing → ℕ → Err → Conn → Conn
unfolding note_timeout eject timing
strike t now err w =
    let u = timing t in
    let (w', n, reached) =
      note_timeout w now u.control_timeout u.timeout_window u.timeouts_to_eject in
    if reached then eject w' (stalled n err) now else w'

-- `ping` is what the ping after a timeout answers.
unfoldable pub judge_timeout : Timing → ℕ → Option Err → Err → Conn → Conn
unfolding strike eject
judge_timeout t now none err w = strike t now err w
judge_timeout t now (some e) err w = eject w (ping_failed err) now

unfoldable pub judge : Timing → ℕ → Option Err → Err → Conn → Conn
unfolding judge_timeout eject is_deadline
judge t now ping err w =
    if is_deadline err then judge_timeout t now ping err w else eject w (call_failed err) now

-- The conn as the handler leaves it, with its poller woken.
abbrev pub judged : Timing → ℕ → Option Err → Err → Conn → Conn
judged t now ping err w = record (judge t now ping err w) { probe_now = true }

unfoldable pub note_worker_transport_error :
    Fleet → Timing → String → Option ℕ → Err → Option Err → ℕ → Fleet
unfolding is_transport_error other_client
note_worker_transport_error f t worker cli err ping now =
    if str_eq worker "" || not (is_transport_error err) then f else elim (lookup worker f.workers) [
      | none ↦ f
      | some w ↦
          if other_client cli w
          then f
          else if not w.reconciled
          then f
          else record f { workers = insert worker (judged t now ping err w) f.workers }
    ]
