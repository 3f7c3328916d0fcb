-- ===== src/Launch/Examples.antt =====
-- Tests of the launch path (cork/launch.go, cork/launchmetrics.go), and its theorems at concrete
-- inputs.
use challenge_orchestrator.Common.{
  ℕ, zero, suc, ◌+◌, ◌*◌, ◌/◌, ◌-◌, ◌≤◌, ◌<◌, ◌≡◌, ◌↔◌, ◌⊎◌, refl, arith, true, false, none, some,
  List, [], ◌∷◌, get_elem?,
}
use challenge_orchestrator.Common.Int.{pos, quot, wrap64, scale}
use challenge_orchestrator.Errors.{Err, call, other, worker_busy}
use challenge_orchestrator.Launch.Ring.{LaunchRing, empty_ring, stats}
use challenge_orchestrator.Launch.Ring.Window.{
  Sample, add_all, successes, failures, Holds, add_all-empty_ring-Holds,
}
use challenge_orchestrator.Launch.Ring.Quantile.{IsPercentile, stats-percentiles}
use challenge_orchestrator.Launch.Queue.{DaemonQueue, expected_wait}
use challenge_orchestrator.Launch.Admission.{request_limits, admit}
use challenge_orchestrator.Launch.Admission.Decision.{admit_iff}
use challenge_orchestrator.Launch.Slots.{
  Slots, Thread, arriving, taken, Move, moves, arrive, take as take_slot, Reach, here, next,
  IsFresh,
}
use challenge_orchestrator.Launch.Slots.Count.{Counts, Reach-Counts}
use challenge_orchestrator.Launch.Slots.Progress.{is_over, slots_progress}
use challenge_orchestrator.Launch.Stages.{Image, Answers}
use challenge_orchestrator.Worker.Timing.{default_worker_timing, second}
use challenge_orchestrator.Worker.Fleet.{Fleet, daemon_queue}

abbrev local_queue : DaemonQueue
local_queue = record {
  slots = 2;
  launch_held = 2;
  teardown_held = 0;
  waiting = 3;
  teardown_waiting = 0;
  hold_nanos = pos (4 * second);
  launches = empty_ring;
}

abbrev local_fleet : Fleet
local_fleet = record {
  workers = [];
  order = [];
  cursor = 0;
  placement_enabled = false;
  external_build_plane = false;
  worker_rows = [];
  instance_rows = [];
  local_queue = local_queue;
  launch_concurrency = 2;
  next_id = 0;
}

-- Three waiting and two running launches on two slots take two rounds of four seconds.
wait_of_queue : expected_wait local_queue ≡ (pos (8 * second), 3)
unfolding expected_wait quot wrap64 scale
wait_of_queue = refl

admit_iff_example :
    ((admit local_fleet "" (request_limits default_worker_timing) ≡ none)
      ↔ ((3 + 2 < 2) ⊎ (4 * second * (3 + 2 - 2 + 1) / 2 ≤ 10 * second)))
    × ((admit local_fleet "" (request_limits default_worker_timing) ≡ none)
        ⊎ (admit local_fleet "" (request_limits default_worker_timing) ≡ some worker_busy))
unfolding request_limits daemon_queue
admit_iff_example =
    admit_iff local_fleet "" (request_limits default_worker_timing) (4 * second) refl (omega arith)
      (omega arith) (omega arith) (omega arith)

abbrev timed_out : Err
timed_out = call (record {
  deadline = true;
  conn_failed = false;
  is_net = false;
  is_url = false;
  is_not_found = false;
  is_conflict = false;
})

abbrev three_samples : List Sample
three_samples = (30_000_000, true) ∷ (5, false) ∷ (10_000_000, true) ∷ []

add_all-empty_ring-Holds_example :
    Holds (add_all empty_ring three_samples) (successes three_samples) (failures three_samples)
add_all-empty_ring-Holds_example = add_all-empty_ring-Holds three_samples

abbrev two_held : LaunchRing
two_held = record {
  buf = 30_000_000 ∷ 10_000_000 ∷ 0 ∷ [];
  next = 2;
  filled = 2;
  total = 3;
  failed = 1;
}

stats-percentiles_example :
    (p50 p90 top : ℕ) × (stats two_held
      ≡ some (record {
        count = 3;
        failed = 1;
        samples = 2;
        p50_ms = p50 / 1_000_000;
        p90_ms = p90 / 1_000_000;
        max_ms = top / 1_000_000;
      }))
    × IsPercentile (30_000_000 ∷ 10_000_000 ∷ []) 50 p50
    × IsPercentile (30_000_000 ∷ 10_000_000 ∷ []) 90 p90
    × IsPercentile (30_000_000 ∷ 10_000_000 ∷ []) 100 top
stats-percentiles_example = stats-percentiles two_held (omega arith) (omega arith)

-- One slot and two launches, the first with no bounded wait.
abbrev two_launches : Slots
two_launches = record {
  capacity = 1;
  held = 0;
  waiting_count = 0;
  closed = false;
  unreachable = false;
  threads =
      record { phase = arriving; bounded = false }
      ∷ record { phase = arriving; bounded = true }
      ∷ [];
}

two_launches-IsFresh : IsFresh two_launches
two_launches-IsFresh = record { none_held = refl; none_waiting = refl; all_arriving = all_arriving }
  where
    all_arriving :
        (i : ℕ) (t : Thread) → get_elem? two_launches.threads i ≡ some t → t.phase ≡ arriving
    all_arriving zero t e = ground arith
    all_arriving (suc zero) t e = ground arith
    all_arriving (suc (suc i)) t e = cc

abbrev one_taken : Slots
one_taken = record two_launches {
  held = 1;
  waiting_count = 1;
  threads =
      record { phase = taken; bounded = false } ∷ record { phase = arriving; bounded = true } ∷ [];
}

one_taken_reached : Reach two_launches one_taken
one_taken_reached =
    next (next here (moves (arrive two_launches 0 false refl)))
      (moves (take_slot _ 0 false refl (omega arith)))

Reach-Counts_example : Counts one_taken
Reach-Counts_example = Reach-Counts two_launches-IsFresh one_taken_reached

one_taken-Counts : Counts one_taken
one_taken-Counts = Reach-Counts two_launches-IsFresh one_taken_reached

slots_progress_example : (s : Slots) × Move one_taken s
slots_progress_example =
    slots_progress one_taken 1 (record { phase = arriving; bounded = true }) one_taken-Counts
      (omega arith) refl (unfold is_over in refl)

abbrev answers : Answers
answers = record {
  inspect = λ name. some (
      call (record {
        deadline = false;
        conn_failed = false;
        is_net = false;
        is_url = false;
        is_not_found = true;
        is_conflict = false;
      }));
  pull = λ name. none;
  slot = none;
  network = some other;
  containers = none;
}

abbrev images : List Image
images = record { host = "web"; name = "r/web:1" } ∷ record { host = "builder"; name = "b" } ∷ []
