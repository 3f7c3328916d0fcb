-- ===== src/Worker/Probe/Wedged.antt =====
-- A daemon that answers pings while its store is wedged is ejected all the same.
use challenge_orchestrator.Common.{
  ℕ, suc, ◌+◌, ◌≤◌, ◌≡◌, ◌≢◌, ◌⊎◌, inl, inr, refl, ap, ◌∙◌, arith, Bool, true, false, Option, none,
  some, List, [], ◌∷◌, length, Option-cases, Bool-cases, if-cases, All,
}
use challenge_orchestrator.Errors.{Err}
use challenge_orchestrator.Worker.Timing.{Timing}
use challenge_orchestrator.Worker.Conn.{Conn, eject, is_ok, is_down}
use challenge_orchestrator.Worker.Probe.{
  Poller, Answers, notice, poll_load, is_some, goes_deep, deep_due, check_daemon, count_probe,
  settle, probe_daemon, probe, probes,
}

-- The next ping that answers is not taken for an answer: the store is tried as well.
abbrev pub Suspects : Poller → Type 0
Suspects p = (p.deep_wedged ≡ true) ⊎ (p.last_deep ≡ none)

-- The ping fails, or the container list would.
abbrev pub Fails : Answers → Type 0
Fails a = (a.ping ≢ none) ⊎ (a.deep ≢ none)

-- What a failing probe leaves.
record Missed (t : Timing) (misses : ℕ) (p' : Poller) (w' : Conn) : Type 0 where
  suspects : Suspects p'
  counted : p'.misses ≡ misses + 1
  ejected : t.max_misses ≤ misses + 1 → is_ok w'.reachable ≡ false

settle-Missed :
    (t : Timing) (now : ℕ) (deep : Bool) (e : Err) (p : Poller) (w : Conn)
    → Suspects p
    → Missed t p.misses
        (settle t now deep (some e) (count_probe deep (some e) p) w).0
        (settle t now deep (some e) (count_probe deep (some e) p) w).1
unfolding settle count_probe is_ok
settle-Missed t now deep e p w s = record {
  suspects = ground arith;
  counted = ground arith;
  ejected = λ h. ground arith;
}

shallow :
    (t : Timing) (a : Answers) (p : Poller) (e : Err) → a.ping ≡ some e → goes_deep t a p ≡ false
unfolding goes_deep is_some
shallow t a p e silent = ground arith

deeper :
    (t : Timing) (a : Answers) (p : Poller) → a.ping ≡ none → Suspects p → goes_deep t a p ≡ true
unfolding goes_deep is_some deep_due
deeper t a p pings (inl wedged) = ground arith
deeper t a p pings (inr never) = ground arith

wedged_again :
    (a : Answers) (p : Poller) (e : Err)
    → a.deep ≡ some e
    → (check_daemon true a p).0.deep_wedged ≡ true
unfolding check_daemon is_some
wedged_again a p e wedged = ground arith

-- What the daemon's check says of a failing round: its error, and the suspicion stays.
record Refuted (p p' : Poller) (verdict : Option Err) : Type 0 where
  error : Err
  is_error : verdict ≡ some error
  suspects : Suspects p'
  same : p'.misses ≡ p.misses

check_daemon-Refuted :
    (t : Timing) (a : Answers) (p : Poller)
    → Suspects p
    → Fails a
    → Refuted p (check_daemon (goes_deep t a p) a p).0 (check_daemon (goes_deep t a p) a p).1
unfolding check_daemon
check_daemon-Refuted t a p s f = elim (Option-cases a.ping) [
  | inr (e, silent) ↦
      rw (shallow t a p e silent)
        (record { error = e; is_error = silent; suspects = s; same = refl })
  | inl pings ↦ elim (Option-cases a.deep) [
    | inr (e, wedged) ↦ rw (deeper t a p pings s) (record {
      error = e;
      is_error = wedged;
      suspects = inl (wedged_again a p e wedged);
      same = refl;
    })
    | inl fine ↦ absurd (elim f [ inl h ↦ h pings | inr h ↦ h fine ])
  ]
]

probe_daemon-Missed :
    (t : Timing) (a : Answers) (p : Poller) (w : Conn)
    → Suspects p
    → Fails a
    → Missed t p.misses (probe_daemon t a p w).0 (probe_daemon t a p w).1
unfolding probe_daemon
probe_daemon-Missed t a p w s f =
    let deep = goes_deep t a p in
    let p' = (check_daemon deep a p).0 in
    let r = check_daemon-Refuted t a p s f in
    let c = settle-Missed t a.acted deep r.error p' w r.suspects in
    rw r.is_error (record {
      suspects = c.suspects;
      counted = omega (arith, c.counted, r.same);
      ejected = λ h. c.ejected (omega (arith, r.same));
    })

poll_load-Suspects :
    (t : Timing) (heard : Option Bool) (p : Poller) (w : Conn)
    → Suspects p
    → Suspects (poll_load t heard (notice p w) w).0
      × ((poll_load t heard (notice p w) w).0.misses ≡ p.misses)
unfolding poll_load notice
poll_load-Suspects t none p w s = ground arith
poll_load-Suspects t (some hot) p w s = ground arith

pub ok-up : (w : Conn) → is_ok w.reachable ≡ true → is_down w.reachable ≡ false
unfolding is_ok is_down
ok-up w h = ground arith

pub probe-up :
    (t : Timing) (a : Answers) (p : Poller) (w : Conn)
    → is_down w.reachable ≡ false
    → probe t a p w
      ≡ (let (p', w') = poll_load t a.telemetry (notice p w) w in probe_daemon t a p' w')
unfolding probe
probe-up t a p w h = rw h refl

probe-Missed :
    (t : Timing) (a : Answers) (p : Poller) (w : Conn)
    → is_ok w.reachable ≡ true
    → Suspects p
    → Fails a
    → Missed t p.misses (probe t a p w).0 (probe t a p w).1
probe-Missed t a p w up s f =
    let (p', w') = poll_load t a.telemetry (notice p w) w in
    let (s', same) = poll_load-Suspects t a.telemetry p w s in
    let c = probe_daemon-Missed t a p' w' s' f in
    rw (probe-up t a p w (ok-up w up)) (record {
      suspects = c.suspects;
      counted = omega (arith, c.counted, same);
      ejected = λ h. c.ejected (omega (arith, same));
    })

-- No probe puts a conn into placement.
settle-out :
    (t : Timing) (now : ℕ) (deep : Bool) (err : Option Err) (p : Poller) (w : Conn)
    → is_ok w.reachable ≡ false
    → is_ok (settle t now deep err p w).1.reachable ≡ false
unfolding settle is_ok eject
settle-out t now deep none p w h = ground arith
settle-out t now deep (some e) p w h = ground arith

pub poll_load-out :
    (t : Timing) (heard : Option Bool) (p : Poller) (w : Conn)
    → (poll_load t heard p w).1.reachable ≡ w.reachable
unfolding poll_load
poll_load-out t none p w = ground arith
poll_load-out t (some hot) p w = refl

probe-out :
    (t : Timing) (a : Answers) (p : Poller) (w : Conn)
    → is_ok w.reachable ≡ false
    → is_ok (probe t a p w).1.reachable ≡ false
unfolding probe_daemon probe
probe-out t a p w h =
    if-cases (λ (r : Poller × Conn × Bool). is_ok r.1.reachable ≡ false) (is_down w.reachable) _ _
      (λ d. h)
      (λ d.
        settle-out t a.acted _ _ _ (poll_load t a.telemetry (notice p w) w).1
          (ap is_ok (poll_load-out t a.telemetry (notice p w) w) ∙ h))

probes-out :
    (t : Timing) (rounds : List Answers) (p : Poller) (w : Conn)
    → is_ok w.reachable ≡ false
    → is_ok (probes t rounds p w).1.reachable ≡ false
unfolding probes
probes-out t [] p w h = h
probes-out t (a ∷ rest) p w h = probes-out t rest _ _ (probe-out t a p w h)

-- If in every round the ping fails or the container list would fail, a worker whose poller has not
-- yet made a deep probe, or whose last one failed, is out of placement once there have been as many
-- rounds as the tunable says (less the misses already on record): a daemon that answers pings over
-- a wedged store is ejected as fast as one that is gone.
pub probes-wedged :
    (t : Timing) (a : Answers) (rest : List Answers) (p : Poller) (w : Conn)
    → Suspects p
    → Fails a
    → All Fails rest
    → t.max_misses ≤ p.misses + suc (length rest)
    → is_ok (probes t (a ∷ rest) p w).1.reachable ≡ false
unfolding probes
probes-wedged t a [] p w s f fs h = elim (Bool-cases (is_ok w.reachable)) [
  | inr out ↦ probe-out t a p w out
  | inl up ↦ let m = probe-Missed t a p w up s f in m.ejected (omega arith)
]
probes-wedged t a (b ∷ bs) p w s f fs h = elim (Bool-cases (is_ok w.reachable)) [
  | inr out ↦ probes-out t (b ∷ bs) _ _ (probe-out t a p w out)
  | inl up ↦
      let m = probe-Missed t a p w up s f in
      probes-wedged t b bs (probe t a p w).0 (probe t a p w).1 m.suspects fs.0 fs.1
        (omega (arith, m.counted))
]
