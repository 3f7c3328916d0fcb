-- ===== src/Worker/Probe/Misses.antt =====
-- An ejection by the poller takes as many failed probes in a row as the tunables say.
use challenge_orchestrator.Common.{
  ℕ, ◌+◌, ◌≤◌, ◌<◌, ◌≡◌, refl, ◌∙◌, arith, Bool, true, false, Option, none, some, List, [], ◌∷◌,
  length, if-cases,
}
use challenge_orchestrator.Errors.{Err}
use challenge_orchestrator.Worker.Timing.{Timing}
use challenge_orchestrator.Worker.Conn.{Conn, is_down}
use challenge_orchestrator.Worker.Probe.{
  Poller, Answers, notice, poll_load, goes_deep, check_daemon, count_probe, decay, settle,
  probe_daemon, probe, probes,
}

-- A probe adds one miss at most, and below the threshold it leaves the conn's state alone.
record Counted (t : Timing) (misses : ℕ) (w : Conn) (p' : Poller) (w' : Conn) : Type 0 where
  one_more : p'.misses ≤ misses + 1
  kept : misses + 1 < t.max_misses → w'.reachable ≡ w.reachable

settle-Counted :
    (t : Timing) (now : ℕ) (deep : Bool) (err : Option Err) (p : Poller) (w : Conn)
    → Counted t p.misses w
        (settle t now deep err (count_probe deep err p) w).0
        (settle t now deep err (count_probe deep err p) w).1
unfolding settle count_probe decay
settle-Counted t now deep none p w = record { one_more = ground arith; kept = λ h. ground arith }
settle-Counted t now deep (some e) p w = record {
  one_more = ground arith;
  kept = λ h. ground arith;
}

check_daemon-misses :
    (deep : Bool) (a : Answers) (p : Poller) → (check_daemon deep a p).0.misses ≡ p.misses
unfolding check_daemon
check_daemon-misses true a p = refl
check_daemon-misses false a p = refl

poll_load-kept :
    (t : Timing) (heard : Option Bool) (p : Poller) (w : Conn)
    → ((poll_load t heard (notice p w) w).0.misses ≡ p.misses)
      × ((poll_load t heard (notice p w) w).1.reachable ≡ w.reachable)
unfolding poll_load notice
poll_load-kept t none p w = ground arith
poll_load-kept t (some hot) p w = ground arith

probe_daemon-Counted :
    (t : Timing) (a : Answers) (p : Poller) (w : Conn)
    → Counted t p.misses w (probe_daemon t a p w).0 (probe_daemon t a p w).1
unfolding probe_daemon
probe_daemon-Counted t a p w =
    let deep = goes_deep t a p in
    let (p', err) = check_daemon deep a p in
    let c = settle-Counted t a.acted deep err p' w in
    let same = check_daemon-misses deep a p in
    record { one_more = omega (arith, c.one_more, same); kept = λ h. c.kept (omega (arith, same)) }

probe-Counted :
    (t : Timing) (a : Answers) (p : Poller) (w : Conn)
    → Counted t p.misses w (probe t a p w).0 (probe t a p w).1
unfolding probe
probe-Counted t a p w =
    if-cases (λ (r : Poller × Conn × Bool). Counted t p.misses w r.0 r.1) (is_down w.reachable) _ _
      (λ h. record { one_more = omega arith; kept = λ h. refl })
      (λ h.
        let (p', w') = poll_load t a.telemetry (notice p w) w in
        let (same, state) = poll_load-kept t a.telemetry p w in
        let c = probe_daemon-Counted t a p' w' in
        record {
          one_more = omega (arith, c.one_more, same);
          kept = λ h. c.kept (omega (arith, same)) ∙ state;
        })

-- As long as the misses on record and the probes still to come are together fewer than the tunable
-- says, the poller moves the conn's state in no direction, whatever the probes find.
pub probes-below_threshold :
    (t : Timing) (rounds : List Answers) (p : Poller) (w : Conn)
    → p.misses + length rounds < t.max_misses
    → (probes t rounds p w).1.reachable ≡ w.reachable
unfolding probes
probes-below_threshold t [] p w h = refl
probes-below_threshold t (a ∷ rest) p w h =
    let (p', w', asked) = probe t a p w in
    let c = probe-Counted t a p w in
    probes-below_threshold t rest p' w' (omega (arith, c.one_more)) ∙ c.kept (omega arith)
