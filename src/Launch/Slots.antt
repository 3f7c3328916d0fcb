-- ===== src/Launch/Slots.antt =====
-- The launches of one daemon as interleaved threads (acquireLaunchSlot and acquireSlot of
-- cork/launch.go): each step is one atomic operation of one launch, on the waiting count or on the
-- channel that holds the slots.
pub mod Count
pub mod Progress
use challenge_orchestrator.Common.{
  ◌⊎◌, ℕ, zero, suc, ◌+◌, ◌-◌, ◌≤◌, ◌<◌, ◌≡◌, Bool, true, false, Option, none, some, List, [], ◌∷◌,
  get_elem?, set,
}

-- Where a launch stands: `arriving` before waiting.Add(1); `waiting` in the select, `taken` after
-- `sem <- struct{}{}` and before the worker is checked again; `granted` between acquireSlot's
-- return and waiting.Add(-1); `holding` while the slot's stage runs; `refused` between a refusal
-- and waiting.Add(-1); `finished` after the release, and `gone` after a refusal.
pub data Phase : Type 0 where
  arriving waiting taken granted holding refused finished gone : Phase

-- `bounded` is whether the launch's wait has a timer.
pub record Thread : Type 0 where
  pub phase : Phase
  pub bounded : Bool

-- `closed` is whether the worker's unreachable channel has been closed, `unreachable` what
-- workerUnreachable answers.
pub record Slots : Type 0 where
  pub capacity : ℕ
  pub held : ℕ
  pub waiting_count : ℕ
  pub closed : Bool
  pub unreachable : Bool
  pub threads : List Thread

abbrev pub AtPhase : Slots → ℕ → Bool → Phase → Type 0
AtPhase s i b p = get_elem? s.threads i ≡ some (record { phase = p; bounded = b })

abbrev pub to_phase : Slots → ℕ → Bool → Phase → List Thread
to_phase s i b p = set s.threads i (record { phase = p; bounded = b })

-- One step of one launch.
pub data Move : Slots → Slots → Type 0 where
  -- q.waiting.Add(1)
  arrive :
      (s : Slots) (i : ℕ) (b : Bool)
      → AtPhase s i b arriving
      → Move s (record s { waiting_count = s.waiting_count + 1; threads = to_phase s i b waiting })
  -- The check before the select, or its unreachable case.
  turned_away :
      (s : Slots) (i : ℕ) (b : Bool)
      → AtPhase s i b waiting
      → (s.unreachable ≡ true) ⊎ (s.closed ≡ true)
      → Move s (record s { threads = to_phase s i b refused })
  -- case sem <- struct{}{}
  take :
      (s : Slots) (i : ℕ) (b : Bool)
      → AtPhase s i b waiting
      → s.held < s.capacity
      → Move s (record s { held = s.held + 1; threads = to_phase s i b taken })
  -- case <-expired
  expire :
      (s : Slots) (i : ℕ)
      → AtPhase s i true waiting
      → Move s (record s { threads = to_phase s i true refused })
  -- The check after the select fails: <-sem.
  give_back :
      (s : Slots) (i : ℕ) (b : Bool)
      → AtPhase s i b taken
      → s.unreachable ≡ true
      → Move s (record s { held = s.held - 1; threads = to_phase s i b refused })
  -- The check after the select passes.
  grant :
      (s : Slots) (i : ℕ) (b : Bool)
      → AtPhase s i b taken
      → s.unreachable ≡ false
      → Move s (record s { threads = to_phase s i b granted })
  -- q.waiting.Add(-1), of a launch that got its slot and of one that did not.
  start :
      (s : Slots) (i : ℕ) (b : Bool)
      → AtPhase s i b granted
      → Move s (record s { waiting_count = s.waiting_count - 1; threads = to_phase s i b holding })
  leave :
      (s : Slots) (i : ℕ) (b : Bool)
      → AtPhase s i b refused
      → Move s (record s { waiting_count = s.waiting_count - 1; threads = to_phase s i b gone })
  -- release()
  release :
      (s : Slots) (i : ℕ) (b : Bool)
      → AtPhase s i b holding
      → Move s (record s { held = s.held - 1; threads = to_phase s i b finished })

-- A launch moves, or meanwhile the worker is given up on, its channel is closed, or the worker
-- comes back on another conn, whose channel and slots are others.
pub data Step : Slots → Slots → Type 0 where
  moves : {s t : Slots} → Move s t → Step s t
  lose : (s : Slots) → Step s (record s { unreachable = true })
  close : (s : Slots) → Step s (record s { closed = true })
  come_back : (s : Slots) → Step s (record s { unreachable = false })

pub data Reach (s : Slots) : Slots → Type 0 where
  here : Reach s s
  next : {t u : Slots} → Reach s t → Step t u → Reach s u

-- No launch has begun.
pub record IsFresh (s : Slots) : Type 0 where
  pub none_held : s.held ≡ 0
  pub none_waiting : s.waiting_count ≡ 0
  pub all_arriving : (i : ℕ) (t : Thread) → get_elem? s.threads i ≡ some t → t.phase ≡ arriving
