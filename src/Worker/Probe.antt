-- ===== src/Worker/Probe.antt =====
-- The poller of one worker (pollWorker of cork/workers.go): its local state and the probe closure
-- that it runs on every tick. One probe is one step; what the telemetry agent and the daemon
-- answer, and what the clock shows, are arguments. Other calls on the conn fall between the probes.
pub mod Misses
pub mod Wedged
pub mod Hysteresis
pub mod Telemetry
pub mod Silence
pub mod Reasons
mod Examples
use challenge_orchestrator.Common.{
  ℕ, ◌+◌, ◌-◌, Bool, true, false, not, ◌&&◌, ◌||◌, Option, none, some, List, [], ◌∷◌, ltb, leb,
  if◌then◌else◌,
}
use challenge_orchestrator.Errors.{Err}
use challenge_orchestrator.Worker.Timing.{Timing}
use challenge_orchestrator.Worker.Conn.{
  Conn, Reachable, Reason, probe_failed, unknown, overloaded, normal, set_load, eject, is_ok,
  is_down, same_state, ready_to_recover,
}

-- `last_deep` is `none` while it is the zero time, and `miss_reason` while it is empty.
pub record Poller : Type 0 where
  pub load_misses : ℕ
  pub misses : ℕ
  pub good_probes : ℕ
  pub last_deep : Option ℕ
  pub last_decay : ℕ
  pub deep_wedged : Bool
  pub miss_reason : Option Reason
  pub last_seen : Reachable

unfoldable pub new_poller : Conn → ℕ → Poller
new_poller w now = record {
  load_misses = 0;
  misses = 0;
  good_probes = 0;
  last_deep = none;
  last_decay = now;
  deep_wedged = false;
  miss_reason = none;
  last_seen = w.reachable;
}

-- The answers during one probe. Telemetry's is its verdict, or `none` if it failed to answer; those
-- of the daemon are `none` for success. `deep` counts only if the deep probe is made.
pub record Answers : Type 0 where
  pub telemetry : Option Bool
  pub ping : Option Err
  pub deep : Option Err
  pub now : ℕ
  pub after_deep : ℕ
  pub acted : ℕ

-- An ejection from under the loop restarts the count of good probes.
unfoldable pub notice : Poller → Conn → Poller
unfolding same_state is_ok
notice p w = if same_state w.reachable p.last_seen then p else record p {
  good_probes = if is_ok w.reachable then p.good_probes else 0;
  last_seen = w.reachable;
}

unfoldable pub poll_load : Timing → Option Bool → Poller → Conn → Poller × Conn
unfolding set_load
poll_load t none p w = (
  record p { load_misses = p.load_misses + 1 },
  if leb t.load_misses (p.load_misses + 1) then set_load w unknown else w,
)
poll_load t (some hot) p w =
    (record p { load_misses = 0 }, set_load w (if hot then overloaded else normal))

-- time.Since(lastDeep) >= timing.deepProbeInterval
unfoldable pub deep_due : Timing → Option ℕ → ℕ → Bool
deep_due t none now = true
deep_due t (some at) now = leb (at + t.deep_probe_interval) now

unfoldable pub is_some : Option Err → Bool
is_some none = false
is_some (some e) = true

-- Whether the container list is tried, once the ping has answered.
unfoldable pub goes_deep : Timing → Answers → Poller → Bool
unfolding deep_due is_some
goes_deep t a p = not (is_some a.ping) && (p.deep_wedged || deep_due t p.last_deep a.now)

-- The daemon's verdict, and what the loop remembers of the deep probe.
unfoldable pub check_daemon : Bool → Answers → Poller → Poller × Option Err
unfolding is_some
check_daemon true a p =
    (record p { last_deep = some a.after_deep; deep_wedged = is_some a.deep }, a.deep)
check_daemon false a p = (p, a.ping)

unfoldable pub count_probe : Bool → Option Err → Poller → Poller
count_probe deep none p = record p { misses = 0; good_probes = p.good_probes + 1 }
count_probe deep (some e) p = record p {
  good_probes = 0;
  misses = p.misses + 1;
  miss_reason = some (probe_failed deep e);
}

-- One ejection is forgiven per decay period of clean running.
unfoldable pub decay : Timing → ℕ → Poller → Conn → Poller × Conn
decay t now p w =
    if ltb 0 w.ejections && leb (p.last_decay + t.ejection_decay) now
    then (record p { last_decay = now }, record w { ejections = w.ejections - 1 })
    else (p, w)

-- The end of a probe, after the counts. There are misses exactly if this probe failed, and then
-- missReason has just been set to this failure. The last component is whether recoverWorker is
-- called.
unfoldable pub settle : Timing → ℕ → Bool → Option Err → Poller → Conn → Poller × Conn × Bool
unfolding eject decay ready_to_recover is_ok
settle t now deep (some e) p w =
    if leb t.max_misses p.misses
    then (let w' = eject w (probe_failed deep e) now in
        (record p { last_seen = w'.reachable }, w', false))
    else (p, w, false)
settle t now deep none p w =
    if is_ok w.reachable
    then (let (p', w') = decay t now p w in (p', w', false))
    else (p, w, ready_to_recover w p.good_probes t now)

-- The body of the closure, for a worker that is not down.
unfoldable pub probe_daemon : Timing → Answers → Poller → Conn → Poller × Conn × Bool
unfolding goes_deep check_daemon count_probe settle
probe_daemon t a p w =
    let deep = goes_deep t a p in
    let (p', err) = check_daemon deep a p in settle t a.acted deep err (count_probe deep err p') w

unfoldable pub probe : Timing → Answers → Poller → Conn → Poller × Conn × Bool
unfolding notice poll_load probe_daemon is_down
probe t a p w =
    if is_down w.reachable
    then (p, w, false)
    else let (p', w') = poll_load t a.telemetry (notice p w) w in probe_daemon t a p' w'

-- The probes of one poller, one after the other, and whether any of them called recoverWorker.
unfoldable pub probes : Timing → List Answers → Poller → Conn → Poller × Conn × Bool
unfolding probe
probes t [] p w = (p, w, false)
probes t (a ∷ rest) p w =
    let (p', w', asked) = probe t a p w in
    let (p'', w'', later) = probes t rest p' w' in (p'', w'', asked || later)
