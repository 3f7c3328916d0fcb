-- ===== src/Worker/Probe/Hysteresis.antt =====
-- A worker ejected from under its poller comes back only after enough good probes.
use challenge_orchestrator.Common.{
  ℕ, ◌+◌, ◌≤◌, ◌<◌, ◌≡◌, refl, ap, ◌∙◌, arith, Bool, true, false, Option, none, some, List, [], ◌∷◌,
  length, if-cases,
}
use challenge_orchestrator.Errors.{Err}
use challenge_orchestrator.Worker.Timing.{Timing}
use challenge_orchestrator.Worker.Conn.{
  Conn, unresponsive, eject, is_ok, is_down, same_state, ready_to_recover,
}
use challenge_orchestrator.Worker.Probe.{
  Poller, Answers, notice, poll_load, goes_deep, check_daemon, count_probe, settle, probe_daemon,
  probe, probes,
}

-- What a probe of an unresponsive worker leaves, given the good probes before it that count.
record Waits (t : Timing) (good : ℕ) (p' : Poller) (w' : Conn) (asked : Bool) : Type 0 where
  out : w'.reachable ≡ unresponsive
  seen : p'.last_seen ≡ unresponsive
  one_more : p'.good_probes ≤ good + 1
  early : good + 1 < t.healthy_threshold → asked ≡ false

settle-Waits :
    (t : Timing) (now : ℕ) (deep : Bool) (err : Option Err) (p : Poller) (w : Conn)
    → w.reachable ≡ unresponsive
    → p.last_seen ≡ unresponsive
    → Waits t p.good_probes
        (settle t now deep err (count_probe deep err p) w).0
        (settle t now deep err (count_probe deep err p) w).1
        (settle t now deep err (count_probe deep err p) w).2
unfolding settle count_probe ready_to_recover is_ok eject
settle-Waits t now deep none p w u s = record {
  out = ground arith;
  seen = ground arith;
  one_more = ground arith;
  early = λ h. ground arith;
}
settle-Waits t now deep (some e) p w u s = record {
  out = ground arith;
  seen = ground arith;
  one_more = ground arith;
  early = λ h. ground arith;
}

check_daemon-kept :
    (deep : Bool) (a : Answers) (p : Poller)
    → ((check_daemon deep a p).0.good_probes ≡ p.good_probes)
      × ((check_daemon deep a p).0.last_seen ≡ p.last_seen)
unfolding check_daemon
check_daemon-kept true a p = (refl, refl)
check_daemon-kept false a p = (refl, refl)

probe_daemon-Waits :
    (t : Timing) (a : Answers) (p : Poller) (w : Conn) (good : ℕ)
    → p.good_probes ≡ good
    → w.reachable ≡ unresponsive
    → p.last_seen ≡ unresponsive
    → Waits t good (probe_daemon t a p w).0 (probe_daemon t a p w).1 (probe_daemon t a p w).2
unfolding probe_daemon
probe_daemon-Waits t a p w good g u s =
    let deep = goes_deep t a p in
    let (p', err) = check_daemon deep a p in
    let (same, seen) = check_daemon-kept deep a p in
    let r = settle-Waits t a.acted deep err p' w u (seen ∙ s) in
    record {
      out = r.out;
      seen = r.seen;
      one_more = omega (arith, r.one_more, same);
      early = λ h. r.early (omega (arith, same));
    }

poll_load-kept :
    (t : Timing) (heard : Option Bool) (p : Poller) (w : Conn)
    → ((poll_load t heard p w).0.good_probes ≡ p.good_probes)
      × ((poll_load t heard p w).0.last_seen ≡ p.last_seen)
      × ((poll_load t heard p w).1.reachable ≡ w.reachable)
unfolding poll_load
poll_load-kept t none p w = ground arith
poll_load-kept t (some hot) p w = ground arith

notice-seen :
    (p : Poller) (w : Conn) → w.reachable ≡ unresponsive → (notice p w).last_seen ≡ unresponsive
unfolding notice
notice-seen p w u = ground arith

not_down : (w : Conn) → w.reachable ≡ unresponsive → is_down w.reachable ≡ true → ⊥
unfolding is_down
not_down w u h = ground arith

probe-Waits :
    (t : Timing) (a : Answers) (p : Poller) (w : Conn)
    → w.reachable ≡ unresponsive
    → Waits t (notice p w).good_probes (probe t a p w).0 (probe t a p w).1 (probe t a p w).2
unfolding probe
probe-Waits t a p w u =
    if-cases (λ (r : Poller × Conn × Bool). Waits t (notice p w).good_probes r.0 r.1 r.2)
      (is_down w.reachable) _ _ (λ h. absurd (not_down w u h))
      (λ h.
        let (p', w') = poll_load t a.telemetry (notice p w) w in
        let (good, seen, state) = poll_load-kept t a.telemetry (notice p w) w in
        probe_daemon-Waits t a p' w' (notice p w).good_probes good (state ∙ u)
          (seen ∙ notice-seen p w u))

notice-later :
    (p : Poller) (w : Conn)
    → p.last_seen ≡ unresponsive
    → w.reachable ≡ unresponsive
    → notice p w ≡ p
unfolding notice same_state
notice-later p w s u = ground arith

waits_on :
    (t : Timing) (rounds : List Answers) (p : Poller) (w : Conn)
    → w.reachable ≡ unresponsive
    → (notice p w).good_probes + length rounds < t.healthy_threshold
    → (probes t rounds p w).2 ≡ false
unfolding probes
waits_on t [] p w u h = refl
waits_on t (a ∷ rest) p w u h =
    let (p', w', asked) = probe t a p w in
    let r = probe-Waits t a p w u in
    let again : (notice p' w').good_probes ≡ p'.good_probes =
      ap (λ (q : Poller). q.good_probes) (notice-later p' w' r.seen r.out) in
    rw (r.early (omega arith), waits_on t rest p' w' r.out (omega (arith, r.one_more, again))) refl

notice-fresh :
    (p : Poller) (w : Conn)
    → is_ok p.last_seen ≡ true
    → w.reachable ≡ unresponsive
    → (notice p w).good_probes ≡ 0
unfolding notice is_ok same_state
notice-fresh p w s u = ground arith

-- A worker ejected from under its poller, which last saw it ok, is not recovered before the poller
-- has made as many probes as the tunable says, however many had answered before the ejection.
pub probes-no_early_recovery :
    (t : Timing) (rounds : List Answers) (p : Poller) (w : Conn)
    → is_ok p.last_seen ≡ true
    → w.reachable ≡ unresponsive
    → length rounds < t.healthy_threshold
    → (probes t rounds p w).2 ≡ false
probes-no_early_recovery t rounds p w s u h =
    waits_on t rounds p w u (omega (arith, notice-fresh p w s u))
