-- ===== src/Worker/Probe/Silence.antt =====
-- When a worker's load goes unknown.
use challenge_orchestrator.Common.{
  ℕ, ◌+◌, ◌≤◌, ◌<◌, ◌≡◌, refl, ap, ◌∙◌, arith, Bool, true, false, Option, none, some, List, [], ◌∷◌,
  length, if◌then◌else◌, leb, All,
}
use challenge_orchestrator.Errors.{Err}
use challenge_orchestrator.Worker.Timing.{Timing}
use challenge_orchestrator.Worker.Conn.{Conn, unknown, eject, is_down}
use challenge_orchestrator.Worker.Probe.{
  Poller, Answers, notice, poll_load, goes_deep, check_daemon, count_probe, decay, settle,
  probe_daemon, probe, probes,
}
use challenge_orchestrator.Worker.Probe.Wedged.{probe-up}

-- What the daemon's half of a probe leaves alone.
record Spared (p : Poller) (w : Conn) (p' : Poller) (w' : Conn) : Type 0 where
  silent : p'.load_misses ≡ p.load_misses
  load : w'.load ≡ w.load
  up : is_down w'.reachable ≡ false

settle-Spared :
    (t : Timing) (now : ℕ) (deep : Bool) (err : Option Err) (p : Poller) (w : Conn)
    → is_down w.reachable ≡ false
    → Spared p w
        (settle t now deep err (count_probe deep err p) w).0
        (settle t now deep err (count_probe deep err p) w).1
unfolding settle count_probe decay eject is_down
settle-Spared t now deep none p w h = record {
  silent = ground arith;
  load = ground arith;
  up = ground arith;
}
settle-Spared t now deep (some e) p w h = record {
  silent = ground arith;
  load = ground arith;
  up = ground arith;
}

check_daemon-silent :
    (deep : Bool) (a : Answers) (p : Poller) → (check_daemon deep a p).0.load_misses ≡ p.load_misses
unfolding check_daemon
check_daemon-silent true a p = refl
check_daemon-silent false a p = refl

probe_daemon-Spared :
    (t : Timing) (a : Answers) (p : Poller) (w : Conn)
    → is_down w.reachable ≡ false
    → Spared p w (probe_daemon t a p w).0 (probe_daemon t a p w).1
unfolding probe_daemon
probe_daemon-Spared t a p w h =
    let deep = goes_deep t a p in
    let (p', err) = check_daemon deep a p in
    let r = settle-Spared t a.acted deep err p' w h in
    record { silent = r.silent ∙ check_daemon-silent deep a p; load = r.load; up = r.up }

-- One silent round.
record Unheard (t : Timing) (p : Poller) (w : Conn) (p' : Poller) (w' : Conn) : Type 0 where
  counted : p'.load_misses ≡ p.load_misses + 1
  load : w'.load ≡ (if leb t.load_misses (p.load_misses + 1) then unknown else w.load)
  up : is_down w'.reachable ≡ false

poll_load-silent :
    (t : Timing) (heard : Option Bool) (p : Poller) (w : Conn)
    → heard ≡ none
    → ((poll_load t heard (notice p w) w).0.load_misses ≡ p.load_misses + 1)
      × ((poll_load t heard (notice p w) w).1.load
          ≡ (if leb t.load_misses (p.load_misses + 1) then unknown else w.load))
      × ((poll_load t heard (notice p w) w).1.reachable ≡ w.reachable)
unfolding poll_load notice
poll_load-silent t none p w silent = ground arith
poll_load-silent t (some hot) p w silent = cc

probe-Unheard :
    (t : Timing) (a : Answers) (p : Poller) (w : Conn)
    → a.telemetry ≡ none
    → is_down w.reachable ≡ false
    → Unheard t p w (probe t a p w).0 (probe t a p w).1
probe-Unheard t a p w silent up =
    let (count, load, state) = poll_load-silent t a.telemetry p w silent in
    let q = poll_load t a.telemetry (notice p w) w in
    let r = probe_daemon-Spared t a q.0 q.1 (ap is_down state ∙ up) in
    rw (probe-up t a p w up)
      (record { counted = r.silent ∙ count; load = r.load ∙ load; up = r.up })

silence :
    (t : Timing) (rounds : List Answers) (p : Poller) (w : Conn)
    → is_down w.reachable ≡ false
    → All (λ (a : Answers). a.telemetry ≡ none) rounds
    → (t.load_misses ≤ p.load_misses → w.load ≡ unknown)
    → (probes t rounds p w).1.load
      ≡ (if leb t.load_misses (p.load_misses + length rounds) then unknown else w.load)
unfolding probes
silence t [] p w up all known = ground arith
silence t (a ∷ rest) p w up all known =
    let (p', w', asked) = probe t a p w in
    let r = probe-Unheard t a p w all.0 up in
    silence t rest p' w' r.up all.1 (λ h. ground (arith, r.load, r.counted))
    ∙ ground (arith, r.load, r.counted)

-- From a poller that last heard telemetry, rounds in which it says nothing leave the load as it was
-- until there are as many as the tunable says, and then it is unknown; for a worker that is not
-- down.
pub probes-silent :
    (t : Timing) (rounds : List Answers) (p : Poller) (w : Conn)
    → is_down w.reachable ≡ false
    → p.load_misses ≡ 0
    → 0 < t.load_misses
    → All (λ (a : Answers). a.telemetry ≡ none) rounds
    → (probes t rounds p w).1.load ≡ (if leb t.load_misses (length rounds) then unknown else w.load)
probes-silent t rounds p w up zero_misses some_tolerance all =
    silence t rounds p w up all (λ h. absurd (omega arith))
    ∙ ap (λ n. if leb t.load_misses n then unknown else w.load) (omega arith)
