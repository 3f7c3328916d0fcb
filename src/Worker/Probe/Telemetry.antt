-- ===== src/Worker/Probe/Telemetry.antt =====
-- Telemetry moves the load and nothing else.
use challenge_orchestrator.Common.{
  ℕ, ◌≡◌, inl, inr, refl, sym, ap, ◌∙◌, arith, Bool, true, false, Option, none, some, Bool-cases,
}
use challenge_orchestrator.Errors.{Err}
use challenge_orchestrator.Worker.Timing.{Timing}
use challenge_orchestrator.Worker.Conn.{Conn, Load, unknown, eject, is_down, ready_to_recover}
use challenge_orchestrator.Worker.Probe.{
  Poller, Answers, notice, poll_load, goes_deep, check_daemon, count_probe, decay, settle,
  probe_daemon, probe,
}

-- The result of a probe with another load and another count of silent telemetry polls.
abbrev pub with_load : ℕ → Load → Poller × Conn × Bool → Poller × Conn × Bool
with_load n l (p, w, asked) = (record p { load_misses = n }, record w { load = l }, asked)

settle-load :
    (t : Timing) (now : ℕ) (deep : Bool) (err : Option Err) (p : Poller) (w : Conn) (n : ℕ)
    (l : Load)
    → settle t now deep err
        (count_probe deep err (record p { load_misses = n }))
        (record w { load = l })
      ≡ with_load n l (settle t now deep err (count_probe deep err p) w)
unfolding settle count_probe decay eject ready_to_recover
settle-load t now deep none p w n l = ground arith
settle-load t now deep (some e) p w n l = ground arith

probe_daemon-load :
    (t : Timing) (a : Answers) (p : Poller) (w : Conn) (n : ℕ) (l : Load)
    → probe_daemon t a (record p { load_misses = n }) (record w { load = l })
      ≡ with_load n l (probe_daemon t a p w)
unfolding probe_daemon check_daemon goes_deep
probe_daemon-load t a p w n l = elim (Bool-cases (goes_deep t a p)) [
  | inl deep ↦ rw deep (settle-load t a.acted true a.deep _ w n l)
  | inr shallow ↦ rw shallow (settle-load t a.acted false a.ping p w n l)
]

poll_load-load :
    (t : Timing) (heard : Option Bool) (p : Poller) (w : Conn)
    → poll_load t heard p w ≡ (
      record p { load_misses = (poll_load t heard p w).0.load_misses },
      record w { load = (poll_load t heard p w).1.load },
    )
unfolding poll_load
poll_load-load t none p w = ground arith
poll_load-load t (some hot) p w = ground arith

-- The part of a probe's result that is not about load.
abbrev pub but_load : Poller × Conn × Bool → Poller × Conn × Bool
but_load r = with_load 0 unknown r

probe_daemon-but_load :
    (t : Timing) (a : Answers) (heard : Option Bool) (p : Poller) (w : Conn)
    → but_load (let (p', w') = poll_load t heard p w in probe_daemon t a p' w')
      ≡ but_load (probe_daemon t a p w)
probe_daemon-but_load t a heard p w =
    ap (λ (q : Poller × Conn). but_load (probe_daemon t a q.0 q.1)) (poll_load-load t heard p w)
    ∙ ap but_load (probe_daemon-load t a p w _ _)

unheard :
    (t : Timing) (a : Answers) (heard : Option Bool) (p : Poller) (w : Conn)
    → probe_daemon t (record a { telemetry = heard }) p w ≡ probe_daemon t a p w
unfolding probe_daemon check_daemon goes_deep
unheard t a heard p w = elim (Bool-cases (goes_deep t a p)) [
  | inl deep ↦ rw deep refl
  | inr shallow ↦ rw shallow refl
]

-- Whatever telemetry says, or if it says nothing, a probe does the same to everything but the load
-- and the count of silent polls: to the conn's state, its ejections, the poller's other counts, and
-- whether it recovers the worker.
pub probe-telemetry :
    (t : Timing) (a : Answers) (heard : Option Bool) (p : Poller) (w : Conn)
    → but_load (probe t (record a { telemetry = heard }) p w) ≡ but_load (probe t a p w)
unfolding probe
probe-telemetry t a heard p w = elim (Bool-cases (is_down w.reachable)) [
  | inl down_now ↦ rw down_now refl
  | inr up ↦ rw up (
      probe_daemon-but_load t (record a { telemetry = heard }) heard (notice p w) w
      ∙ ap but_load (unheard t a heard (notice p w) w)
      ∙ sym (probe_daemon-but_load t a a.telemetry (notice p w) w))
]
