-- ===== src/Worker/Conn/Backoff.antt =====
-- How long an ejected worker waits before it is recovered.
use challenge_orchestrator.Common.{
  ℕ, ◌+◌, ◌*◌, ◌≤◌, ◌≡◌, ◌↔◌, arith, min, max, dec_lt, lt→ltb, true,
}
use challenge_orchestrator.Worker.Timing.{Timing}
use challenge_orchestrator.Worker.Conn.{Conn, recover_backoff_for, ready_to_recover}

backoff_steps :
    (w : Conn) (t : Timing)
    → recover_backoff_for w t ≡ min (max 1 w.ejections * t.recover_backoff) t.recover_backoff_max
unfolding recover_backoff_for
backoff_steps w t = elim (dec_lt w.ejections 1) [
  | yes h ↦ let e : max 1 w.ejections ≡ 1 = omega arith in rw (e, lt→ltb _ _ h)
  | no h ↦ let e : max 1 w.ejections ≡ w.ejections = omega arith in rw e (ground arith)
]

product_mono : (a b k : ℕ) → a ≤ b → a * k ≤ b * k
product_mono a b k h = grind arith

-- For two conns of which the second has been ejected at least as often, under the same tunables,
-- the second waits at least as long; each wait is the backoff times the ejections (times 1 for a
-- worker never ejected), up to the cap.
pub recover_backoff_for_mono :
    (w v : Conn) (t : Timing)
    → w.ejections ≤ v.ejections
    → (recover_backoff_for w t ≤ recover_backoff_for v t)
      × (recover_backoff_for v t
          ≡ min (max 1 v.ejections * t.recover_backoff) t.recover_backoff_max)
recover_backoff_for_mono w v t h = (
  omega (
    arith,
    backoff_steps w t,
    backoff_steps v t,
    product_mono (max 1 w.ejections) (max 1 v.ejections) t.recover_backoff (omega arith),
  ),
  backoff_steps v t,
)

-- A worker is recovered exactly when it has answered the threshold of probes in a row and the wait
-- has passed since it was ejected.
pub ready_to_recover_iff :
    (w : Conn) (good_probes now : ℕ) (t : Timing)
    → (ready_to_recover w good_probes t now ≡ true)
      ↔ ((t.healthy_threshold ≤ good_probes) × (w.since + recover_backoff_for w t ≤ now))
unfolding ready_to_recover
ready_to_recover_iff w good_probes now t = ground arith
