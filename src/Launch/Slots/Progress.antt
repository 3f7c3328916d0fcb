-- ===== src/Launch/Slots/Progress.antt =====
-- No launch is stuck: while one is not over, some launch can move.
use challenge_orchestrator.Common.{
  ℕ, suc, ◌<◌, ◌≡◌, inl, inr, refl, arith, dec_lt, Bool, true, false, some, List, [], ◌∷◌,
  get_elem?, Bool-cases,
}
use challenge_orchestrator.Launch.Slots.{
  Slots, Thread, Phase, arriving, waiting, taken, granted, holding, refused, finished, gone, Move,
  arrive, take, give_back, grant, start, leave, release, AtPhase,
}
use challenge_orchestrator.Launch.Slots.Count.{Counts, has_slot, total}

-- A launch that is over.
unfoldable pub is_over : Phase → Bool
is_over finished = true
is_over gone = true
is_over _ = false

-- A slot that is held is held by some launch.
some_holder :
    (ts : List Thread)
    → 0 < total has_slot ts
    → (i : ℕ) × (t : Thread) × (get_elem? ts i ≡ some t) × (has_slot t.phase ≡ 1)
unfolding total has_slot
some_holder [] h = absurd (omega arith)
some_holder (t ∷ ts) h = elim (dec_lt 0 (has_slot t.phase)) [
  | yes holds ↦ (0, t, refl, ground arith)
  | no free ↦ let (i, u, e, p) = some_holder ts (omega arith) in (suc i, u, e, p)
]

abbrev CanMove : Slots → Type 0
CanMove s = (s' : Slots) × Move s s'

holder_moves :
    (s : Slots) (i : ℕ) (b : Bool) (p : Phase) → AtPhase s i b p → has_slot p ≡ 1 → CanMove s
unfolding has_slot
holder_moves s i b taken at h = elim (Bool-cases s.unreachable) [
  | inl lost ↦ (_, give_back s i b at lost)
  | inr ok ↦ (_, grant s i b at ok)
]
holder_moves s i b granted at h = (_, start s i b at)
holder_moves s i b holding at h = (_, release s i b at)
holder_moves s i b _ at h = absurd (omega (arith, h))

-- A launch that waits takes a free slot; if there is none, a launch that holds one can move.
waiter_moves :
    (s : Slots) (i : ℕ) (b : Bool) → Counts s → 0 < s.capacity → AtPhase s i b waiting → CanMove s
waiter_moves s i b c some_slot at = elim (dec_lt s.held s.capacity) [
  | yes room ↦ (_, take s i b at room)
  | no full ↦
      let (j, t, e, p) = some_holder s.threads (omega (arith, c.slots_held)) in
      holder_moves s j t.bounded t.phase e p
]

phase_moves :
    (s : Slots) (i : ℕ) (b : Bool) (p : Phase)
    → Counts s
    → 0 < s.capacity
    → AtPhase s i b p
    → is_over p ≡ false
    → CanMove s
unfolding is_over
phase_moves s i b arriving c some_slot at h = (_, arrive s i b at)
phase_moves s i b waiting c some_slot at h = waiter_moves s i b c some_slot at
phase_moves s i b taken c some_slot at h = holder_moves s i b taken at (unfold has_slot in refl)
phase_moves s i b granted c some_slot at h = (_, start s i b at)
phase_moves s i b holding c some_slot at h = (_, release s i b at)
phase_moves s i b refused c some_slot at h = (_, leave s i b at)
phase_moves s i b finished c some_slot at h = cc
phase_moves s i b gone c some_slot at h = cc

-- With at least one slot and true counts, as long as some launch is not over some launch can take a
-- step: the slots never deadlock, not even for launches with no bounded wait.
pub slots_progress :
    (s : Slots) (i : ℕ) (t : Thread)
    → Counts s
    → 0 < s.capacity
    → get_elem? s.threads i ≡ some t
    → is_over t.phase ≡ false
    → (s' : Slots) × Move s s'
slots_progress s i t c some_slot at h = phase_moves s i t.bounded t.phase c some_slot at h
