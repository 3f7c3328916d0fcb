-- ===== src/Launch/Ring/History.antt =====
-- The summary of a daemon's ring, after any launches.
use challenge_orchestrator.Common.{
  ◌+◌, ◌≤◌, ◌<◌, ◌≡◌, refl, ◌∙◌, arith, dec_lt, min, some, List, length,
}
use challenge_orchestrator.Launch.Ring.{
  LaunchRing, LaunchStats, launch_ring_size, empty_ring, stats,
}
use challenge_orchestrator.Launch.Ring.Window.{
  Sample, add_all, successes, failures, add_all-empty_ring-Holds,
}
use challenge_orchestrator.Launch.Ring.Quantile.{stats-percentiles}

empty_window :
    (r : LaunchRing)
    → r.filled ≡ 0
    → (s : LaunchStats) × (stats r ≡ some s)
      × (s.count ≡ r.total)
      × (s.failed ≡ r.failed)
      × (s.samples ≡ r.filled)
unfolding stats
empty_window r e = (
  record { count = r.total; failed = r.failed; samples = 0; p50_ms = 0; p90_ms = 0; max_ms = 0 },
  ground arith,
  refl,
  refl,
  ground arith,
)

some_window :
    (r : LaunchRing)
    → 0 < r.filled
    → r.filled ≤ length r.buf
    → (s : LaunchStats) × (stats r ≡ some s)
      × (s.count ≡ r.total)
      × (s.failed ≡ r.failed)
      × (s.samples ≡ r.filled)
some_window r h k =
    let (a, b, c, e, pa, pb, pc) = stats-percentiles r h k in (_, e, refl, refl, refl)

-- After any launches on a daemon, the summary is produced with no index out of range; it counts the
-- launches and the failed ones, and its samples are the successes, 256 at most.
pub stats-add_all :
    (samples : List Sample)
    → (s : LaunchStats) × (stats (add_all empty_ring samples) ≡ some s)
      × (s.count ≡ length (successes samples) + failures samples)
      × (s.failed ≡ failures samples)
      × (s.samples ≡ min launch_ring_size (length (successes samples)))
stats-add_all samples =
    let h = add_all-empty_ring-Holds samples in
    elim (dec_lt 0 (add_all empty_ring samples).filled) [
      | yes some_sample ↦
          let (s, e, c, f, n) =
            some_window (add_all empty_ring samples) some_sample
              (omega (arith, h.filled, h.size)) in
          (s, e, c ∙ h.total, f ∙ h.failed, n ∙ h.filled)
      | no none_yet ↦
          let (s, e, c, f, n) = empty_window (add_all empty_ring samples) (omega arith) in
          (s, e, c ∙ h.total, f ∙ h.failed, n ∙ h.filled)
    ]
