-- ===== src/Launch/Ring.antt =====
-- A daemon's recent launch durations and their quantiles (launchRing of cork/launchmetrics.go). One
-- call holds the ring's lock throughout, so each operation is one step.
pub mod Window
pub mod Quantile
pub mod History
use challenge_orchestrator.Common.{
  ℕ, zero, suc, ◌+◌, ◌-◌, ◌*◌, ◌/◌, ◌%◌, Bool, true, false, Option, none, some, List, [], ◌∷◌, ltb,
  leb, ◌==◌, if◌then◌else◌, length, get_elem?, take, set, replicate,
}

abbrev pub launch_ring_size : ℕ
launch_ring_size = 256

pub record LaunchRing : Type 0 where
  pub buf : List ℕ
  pub next : ℕ
  pub filled : ℕ
  pub total : ℕ
  pub failed : ℕ

pub empty_ring : LaunchRing
empty_ring = record {
  buf = replicate launch_ring_size 0;
  next = 0;
  filled = 0;
  total = 0;
  failed = 0;
}

record_success : LaunchRing → ℕ → LaunchRing
record_success r d = record r {
  buf = set r.buf r.next d;
  next = (r.next + 1) % launch_ring_size;
  filled = if ltb r.filled launch_ring_size then r.filled + 1 else r.filled;
  total = r.total + 1;
}

pub add : LaunchRing → ℕ → Bool → LaunchRing
unfolding record_success
add r d ok =
    if ok then record_success r d else record r { total = r.total + 1; failed = r.failed + 1 }

-- ceil(n * pct / 100), clamped to 1 … n, as an index from 0.
pub quantile_index : ℕ → ℕ → ℕ
quantile_index n pct =
    let i = (n * pct + 99) / 100 in
    let j = if ltb i 1 then 1 else i in let k = if ltb n j then n else j in k - 1

-- sort.Slice
insert_sorted : ℕ → List ℕ → List ℕ
insert_sorted x [] = x ∷ []
insert_sorted x (y ∷ ys) = if leb x y then x ∷ y ∷ ys else y ∷ insert_sorted x ys

sort : List ℕ → List ℕ
unfolding insert_sorted
sort [] = []
sort (x ∷ xs) = insert_sorted x (sort xs)

pub record LaunchStats : Type 0 where
  pub count : ℕ
  pub failed : ℕ
  pub samples : ℕ
  pub p50_ms : ℕ
  pub p90_ms : ℕ
  pub max_ms : ℕ

abbrev milliseconds : ℕ → ℕ
milliseconds d = d / 1_000_000

-- sorted[i], whose index the code never checks: `none` is Go's panic.
quantiles : LaunchRing → List ℕ → Option LaunchStats
quantiles r sorted = elim (get_elem? sorted (quantile_index r.filled 50)) [
  | none ↦ none
  | some p50 ↦ elim (get_elem? sorted (quantile_index r.filled 90)) [
    | none ↦ none
    | some p90 ↦ elim (get_elem? sorted (r.filled - 1)) [
      | none ↦ none
      | some top ↦ some (record {
        count = r.total;
        failed = r.failed;
        samples = r.filled;
        p50_ms = milliseconds p50;
        p90_ms = milliseconds p90;
        max_ms = milliseconds top;
      })
    ]
  ]
]

pub stats : LaunchRing → Option LaunchStats
unfolding quantiles
stats r =
    if r.filled == 0
    then some (record {
      count = r.total;
      failed = r.failed;
      samples = 0;
      p50_ms = 0;
      p90_ms = 0;
      max_ms = 0;
    })
    else quantiles r (sort (take r.filled r.buf))
