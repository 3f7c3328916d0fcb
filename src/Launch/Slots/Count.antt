-- ===== src/Launch/Slots/Count.antt =====
-- The channel and the waiting count tell the truth, under every interleaving.
use challenge_orchestrator.Common.{
  ℕ, zero, suc, ◌+◌, ◌≤◌, ◌≡◌, refl, arith, Bool, true, some, List, [], ◌∷◌, get_elem?, set,
}
use challenge_orchestrator.Launch.Slots.{
  Slots, Thread, Phase, arriving, waiting, taken, granted, holding, refused, finished, gone, Move,
  Step, moves, arrive, turned_away, take, expire, give_back, grant, start, leave, release, lose,
  close, come_back, Reach, here, next, IsFresh, AtPhase, to_phase,
}

-- Whether a launch in this phase has a slot, and whether the waiting count includes it.
unfoldable pub has_slot : Phase → ℕ
has_slot taken = 1
has_slot granted = 1
has_slot holding = 1
has_slot _ = 0

pub is_waiting : Phase → ℕ
is_waiting waiting = 1
is_waiting taken = 1
is_waiting granted = 1
is_waiting refused = 1
is_waiting _ = 0

unfoldable pub total : (Phase → ℕ) → List Thread → ℕ
total w [] = 0
total w (t ∷ ts) = w t.phase + total w ts

total-set :
    (w : Phase → ℕ) (ts : List Thread) (i : ℕ) (t t' : Thread)
    → get_elem? ts i ≡ some t
    → total w (set ts i t') + w t.phase ≡ total w ts + w t'.phase
unfolding total
total-set w [] i t t' e = cc
total-set w (u ∷ ts) zero t t' e = ground arith
total-set w (u ∷ ts) (suc i) t t' e = omega (arith, total-set w ts i t t' e)

-- The slots held are those of the launches that have one, no more than there are, and the waiting
-- count is that of the launches that wait.
pub record Counts (s : Slots) : Type 0 where
  pub slots_held : s.held ≡ total has_slot s.threads
  pub within : s.held ≤ s.capacity
  pub waiters : s.waiting_count ≡ total is_waiting s.threads

total-zero :
    (w : Phase → ℕ) (ts : List Thread)
    → ((i : ℕ) (t : Thread) → get_elem? ts i ≡ some t → w t.phase ≡ 0)
    → total w ts ≡ 0
unfolding total
total-zero w [] h = refl
total-zero w (t ∷ ts) h = omega (arith, h 0 t refl, total-zero w ts (λ i u e. h (suc i) u e))

IsFresh-Counts : (s : Slots) → IsFresh s → Counts s
unfolding has_slot is_waiting
IsFresh-Counts s h = record {
  slots_held = omega (
    arith,
    h.none_held,
    total-zero has_slot s.threads (λ i t e. ground (arith, h.all_arriving i t e)),
  );
  within = omega (arith, h.none_held);
  waiters = omega (
    arith,
    h.none_waiting,
    total-zero is_waiting s.threads (λ i t e. ground (arith, h.all_arriving i t e)),
  );
}

-- What moving launch `i` does to the two totals.
module _ (s : Slots) (i : ℕ) (b : Bool) (p p' : Phase) (at : AtPhase s i b p) where
  moved_slots :
      total has_slot (to_phase s i b p') + has_slot p ≡ total has_slot s.threads + has_slot p'
  moved_slots = total-set has_slot s.threads i _ _ at

  moved_waiters :
      total is_waiting (to_phase s i b p') + is_waiting p
      ≡ total is_waiting s.threads + is_waiting p'
  moved_waiters = total-set is_waiting s.threads i _ _ at

Move-Counts : {s t : Slots} → Move s t → Counts s → Counts t
unfolding has_slot is_waiting
Move-Counts (arrive s i b at) c =
    omega (arith, moved_slots s i b arriving waiting at, moved_waiters s i b arriving waiting at)
Move-Counts (turned_away s i b at why) c =
    omega (arith, moved_slots s i b waiting refused at, moved_waiters s i b waiting refused at)
Move-Counts (take s i b at room) c =
    omega (arith, moved_slots s i b waiting taken at, moved_waiters s i b waiting taken at)
Move-Counts (expire s i at) c =
    omega
      (arith, moved_slots s i true waiting refused at, moved_waiters s i true waiting refused at)
Move-Counts (give_back s i b at lost) c =
    omega (arith, moved_slots s i b taken refused at, moved_waiters s i b taken refused at)
Move-Counts (grant s i b at ok) c =
    omega (arith, moved_slots s i b taken granted at, moved_waiters s i b taken granted at)
Move-Counts (start s i b at) c =
    omega (arith, moved_slots s i b granted holding at, moved_waiters s i b granted holding at)
Move-Counts (leave s i b at) c =
    omega (arith, moved_slots s i b refused gone at, moved_waiters s i b refused gone at)
Move-Counts (release s i b at) c =
    omega (arith, moved_slots s i b holding finished at, moved_waiters s i b holding finished at)

pub Step-Counts : {s t : Slots} → Step s t → Counts s → Counts t
Step-Counts (moves m) c = Move-Counts m c
Step-Counts (lose s) c = record {
  slots_held = c.slots_held;
  within = c.within;
  waiters = c.waiters;
}
Step-Counts (close s) c = record {
  slots_held = c.slots_held;
  within = c.within;
  waiters = c.waiters;
}
Step-Counts (come_back s) c = record {
  slots_held = c.slots_held;
  within = c.within;
  waiters = c.waiters;
}

-- From a daemon on which no launch has begun, whatever the launches do, in whatever order, and
-- whatever becomes of the worker, the slots held are exactly those of the launches that have one,
-- never more than there are, and the waiting count, which admission reads, is exactly the number of
-- launches that wait.
pub Reach-Counts : {s t : Slots} → IsFresh s → Reach s t → Counts t
Reach-Counts {s} h here = IsFresh-Counts s h
Reach-Counts h (next r st) = Step-Counts st (Reach-Counts h r)
