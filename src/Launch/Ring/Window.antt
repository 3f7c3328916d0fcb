-- ===== src/Launch/Ring/Window.antt =====
-- The ring keeps the newest successful durations, and counts every launch.
use mathlib.Core.List.{append-nil, append_assoc}
use native.Mathlib.Nat.{add-zero}
use challenge_orchestrator.Common.{
  subst, ℕ, ◌+◌, ◌%◌, ◌≤◌, ◌<◌, ◌≡◌, refl, ◌∙◌, sym, ap, arith, dec_lt, min, Bool, true, false,
  List, [], ◌∷◌, ◌++◌, length, length-append, length-set, get_elem?, set, if◌then◌else◌,
}
use challenge_orchestrator.Common.Lists.Index.{
  get_elem?-append_left, get_elem?-append_end, get_elem?-set_self, get_elem?-set_ne,
}
use challenge_orchestrator.Launch.Ring.{
  LaunchRing, launch_ring_size, empty_ring, record_success, add,
}

-- One launch: how long it took and whether it succeeded.
abbrev pub Sample : Type 0
Sample = ℕ × Bool

pub add_all : LaunchRing → List Sample → LaunchRing
add_all r [] = r
add_all r ((d, ok) ∷ rest) = add_all (add r d ok) rest

-- The durations of the launches that succeeded, oldest first.
pub successes : List Sample → List ℕ
successes [] = []
successes ((d, true) ∷ rest) = d ∷ successes rest
successes ((d, false) ∷ rest) = successes rest

-- `r` is the ring of a daemon on which `oks` succeeded, oldest first, and `bad` launches failed.
pub record Holds (r : LaunchRing) (oks : List ℕ) (bad : ℕ) : Type 0 where
  pub size : length r.buf ≡ launch_ring_size
  pub next : r.next ≡ length oks % launch_ring_size
  pub filled : r.filled ≡ min launch_ring_size (length oks)
  pub total : r.total ≡ length oks + bad
  pub failed : r.failed ≡ bad
  pub newest :
      (j : ℕ)
      → j < length oks
      → length oks ≤ j + launch_ring_size
      → get_elem? r.buf (j % launch_ring_size) ≡ get_elem? oks j

empty_ring-Holds : Holds empty_ring [] 0
unfolding empty_ring
empty_ring-Holds = record {
  size = refl;
  next = refl;
  filled = refl;
  total = refl;
  failed = refl;
  newest = λ j h k. absurd (omega arith);
}

slot_written :
    (r : LaunchRing) (oks : List ℕ) (bad d : ℕ)
    → Holds r oks bad
    → (j : ℕ) → j < length (oks ++ d ∷ [])
    → length (oks ++ d ∷ []) ≤ j + launch_ring_size
    → get_elem? (set r.buf r.next d) (j % launch_ring_size) ≡ get_elem? (oks ++ d ∷ []) j
slot_written r oks bad d h j lt le = elim (dec_lt j (length oks)) [
  | yes old ↦
      get_elem?-set_ne r.buf r.next (j % launch_ring_size) d
        (omega (arith, h.next, length-append oks (d ∷ [])))
      ∙ h.newest j old (omega (arith, length-append oks (d ∷ [])))
      ∙ sym (get_elem?-append_left oks (d ∷ []) j old)
  | no new ↦
      let e : j ≡ length oks = omega (arith, length-append oks (d ∷ [])) in
      let at : j % launch_ring_size ≡ r.next = omega (arith, h.next) in
      ap (get_elem? (set r.buf r.next d)) at
      ∙ get_elem?-set_self r.buf r.next d (omega (arith, h.next, h.size))
      ∙ sym (ap (get_elem? (oks ++ d ∷ [])) e ∙ get_elem?-append_end oks d)
]

success-Holds :
    (r : LaunchRing) (oks : List ℕ) (bad d : ℕ)
    → Holds r oks bad
    → Holds (record_success r d) (oks ++ d ∷ []) bad
unfolding record_success
success-Holds r oks bad d h = record {
  size = length-set r.buf r.next d ∙ h.size;
  next = ground (arith, length-append oks (d ∷ []), h.next);
  filled = ground (arith, length-append oks (d ∷ []), h.filled);
  total = ground (arith, length-append oks (d ∷ []), h.total);
  failed = h.failed;
  newest = slot_written r oks bad d h;
}

add-Holds :
    (r : LaunchRing) (oks : List ℕ) (bad d : ℕ) (ok : Bool)
    → Holds r oks bad
    → Holds (add r d ok) (if ok then oks ++ d ∷ [] else oks) (if ok then bad else bad + 1)
unfolding add
add-Holds r oks bad d true h = success-Holds r oks bad d h
add-Holds r oks bad d false h = record {
  size = h.size;
  next = h.next;
  filled = h.filled;
  total = omega (arith, h.total);
  failed = omega (arith, h.failed);
  newest = h.newest;
}

pub failures : List Sample → ℕ
failures [] = 0
failures ((d, true) ∷ rest) = failures rest
failures ((d, false) ∷ rest) = failures rest + 1

add_all-Holds :
    (r : LaunchRing) (oks : List ℕ) (bad : ℕ) (samples : List Sample)
    → Holds r oks bad
    → Holds (add_all r samples) (oks ++ successes samples) (bad + failures samples)
unfolding add_all successes failures
add_all-Holds r oks bad [] h = rw (append-nil, add-zero) h
add_all-Holds r oks bad ((d, true) ∷ rest) h =
    rw (← append_assoc oks (d ∷ []) (successes rest))
      (add_all-Holds (add r d true) (oks ++ d ∷ []) bad rest (add-Holds r oks bad d true h))
add_all-Holds r oks bad ((d, false) ∷ rest) h =
    subst (λ n. Holds (add_all (add r d false) rest) (oks ++ successes rest) n) (omega arith)
      (add_all-Holds (add r d false) oks (bad + 1) rest (add-Holds r oks bad d false h))

-- After any launches, the ring of a daemon counts them all and the failed ones, and its slots hold
-- the durations of the newest successes, 256 at most: success number j is in slot j mod 256.
pub add_all-empty_ring-Holds :
    (samples : List Sample)
    → Holds (add_all empty_ring samples) (successes samples) (failures samples)
add_all-empty_ring-Holds samples =
    subst (λ n. Holds (add_all empty_ring samples) (successes samples) n) (omega arith)
      (add_all-Holds empty_ring [] 0 samples empty_ring-Holds)
