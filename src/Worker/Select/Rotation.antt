-- ===== src/Worker/Select/Rotation.antt =====
-- Nobody starves: while the fleet stays as it is, the selections go round.
use mathlib.Core.Bool.{false≢true}
use native.Mathlib.Nat.{mod-add-mod}
use challenge_orchestrator.Common.{
  ℕ, zero, suc, ◌+◌, ◌-◌, ◌%◌, ◌<◌, ◌≡◌, sym, ap, subst, ◌∙◌, arith, dec_lt, true, String, Option,
  none, some, length, get_elem?, some_eq, ◌⊎◌, inl, inr,
}
use challenge_orchestrator.Common.Assoc.{lookup}
use challenge_orchestrator.Common.Rotate.{round_covers}
use challenge_orchestrator.Worker.Conn.{Conn, placeable}
use challenge_orchestrator.Worker.Fleet.{Fleet}
use challenge_orchestrator.Worker.Fleet.Consistent.{IsConsistent}
use challenge_orchestrator.Worker.Fleet.Order.{is_some, indexed}
use challenge_orchestrator.Worker.Select.{Selection, chosen, worker_at, select_worker}
use challenge_orchestrator.Worker.Select.Choice.{select_worker-Chose, worker_at-eq}
use challenge_orchestrator.Worker.Select.Scan.{Chose}

state_of : Fleet → Option (Selection × Fleet) → Fleet
state_of f none = f
state_of f (some (s, f')) = f'

-- The fleet after `k` selections.
pub after : ℕ → Fleet → Fleet
after zero f = f
after (suc k) f = after k (state_of f (select_worker f))

-- The worker at `ip` is placeable and `j` places ahead of the cursor.
record IsAhead (j : ℕ) (ip : String) (w : Conn) (f : Fleet) : Type 0 where
  consistent : IsConsistent f
  place : get_elem? f.order ((f.cursor + j) % length f.order) ≡ some ip
  registered : lookup ip f.workers ≡ some w
  fits : placeable w ≡ true

IsAhead-moved :
    (i j : ℕ) (ip : String) (w : Conn) (f : Fleet)
    → i < j
    → IsAhead j ip w f
    → IsAhead (j - (i + 1)) ip w (record f { cursor = (f.cursor + (i + 1)) % length f.order })
IsAhead-moved i j ip w f lt a = record {
  consistent = record {
    keyed = a.consistent.keyed;
    unique = a.consistent.unique;
    stored = a.consistent.stored;
    named = a.consistent.named;
    fresh = a.consistent.fresh;
  };
  place =
      ap (get_elem? f.order) (
        mod-add-mod (f.cursor + (i + 1)) (length f.order) (j - (i + 1))
        ∙ ap (λ n. n % length f.order) (omega arith))
      ∙ a.place;
  registered = a.registered;
  fits = a.fits;
}

-- The selection reaches the worker now, or stops before it and leaves it nearer.
turn :
    (j : ℕ) (ip : String) (w : Conn) (f : Fleet) (ip' : String) (f' : Fleet)
    → IsAhead j ip w f
    → Chose f 0 (length f.order) ip' f'
    → (ip' ≡ ip) ⊎ ((j' : ℕ) × (j' < j) × IsAhead j' ip w f')
turn j ip w f ip' f' a c = elim (dec_lt c.index j) [
  | yes before ↦ inr (
    j - (c.index + 1),
    omega arith,
    subst (IsAhead (j - (c.index + 1)) ip w) (sym c.moved)
        (IsAhead-moved c.index j ip w f before a),
  )
  | no reached ↦ elim (dec_lt j c.index) [
    | yes beyond ↦ absurd (false≢true (sym (c.skipped j w (omega arith) beyond at) ∙ a.fits))
    | no here ↦
        let same : c.index ≡ j = omega arith in
        let found : c.conn ≡ w = some_eq (sym c.found ∙ ap (worker_at f) same ∙ at) in
        inl (sym c.is_ip ∙ ap (λ (v : Conn). v.ip) found ∙ a.consistent.named ip w a.registered)
  ]
]
  where
    at : worker_at f j ≡ some w
    at = worker_at-eq f j ip a.place ∙ a.registered

abbrev Reached : ℕ → String → Fleet → Type 0
Reached n ip f = (k : ℕ) × (k < n) × (select_worker (after k f) ≡ some (chosen ip, after (suc k) f))

after-selected :
    (f f' : Fleet) (ip : String) (k : ℕ)
    → select_worker f ≡ some (chosen ip, f')
    → after (suc k) f ≡ after k f'
unfolding after state_of
after-selected f f' ip k e = ap (λ r. after k (state_of f r)) e

now_reached :
    (f f' : Fleet) (ip ip' : String)
    → select_worker f ≡ some (chosen ip', f')
    → ip' ≡ ip
    → select_worker (after 0 f) ≡ some (chosen ip, after 1 f)
unfolding after state_of
now_reached f f' ip ip' e same =
    e
    ∙ ap {B = Option (Selection × Fleet)} (λ s. some (chosen s, f')) same
    ∙ ap {B = Option (Selection × Fleet)} (λ g. some (chosen ip, g)) (sym (ap (state_of f) e))

later-Reached :
    (f f' : Fleet) (ip' ip : String) (n : ℕ)
    → select_worker f ≡ some (chosen ip', f')
    → Reached n ip f'
    → Reached (suc n) ip f
later-Reached f f' ip' ip n e (k, below, e') = (
  suc k,
  omega arith,
  ap select_worker (after-selected f f' ip' k e)
      ∙ e'
      ∙ ap {B = Option (Selection × Fleet)} (λ g. some (chosen ip, g))
          (sym (after-selected f f' ip' (suc k) e)),
)

reach : (n j : ℕ) (ip : String) (w : Conn) (f : Fleet) → j < n → IsAhead j ip w f → Reached n ip f
reach zero j ip w f lt a = absurd (omega arith)
reach (suc n) j ip w f lt a =
    let (ip', f', e, c) =
      select_worker-Chose f a.consistent
        (record { ip = ip; conn = w; registered = a.registered; passes = a.fits }) in
    elim (turn j ip w f ip' f' a c) [
      | inl same ↦ (0, omega arith, now_reached f f' ip ip' e same)
      | inr (j', nearer, a') ↦ later-Reached f f' ip' ip n e (reach n j' ip w f' (omega arith) a')
    ]

-- In a consistent fleet, a registered worker that is placeable is chosen within as many selections
-- as there are workers, if nothing but the selections happens meanwhile, whatever the others are.
pub select_worker-no_starvation :
    (f : Fleet) (ip : String) (w : Conn)
    → IsConsistent f
    → lookup ip f.workers ≡ some w
    → placeable w ≡ true
    → (k : ℕ) × (k < length f.order)
      × (select_worker (after k f) ≡ some (chosen ip, after (suc k) f))
select_worker-no_starvation f ip w consistent registered fits =
    let (m, lt, e) = indexed ip f.order (sym (consistent.keyed ip) ∙ ap is_some registered) in
    let (j, below, at) = round_covers f.cursor (length f.order) m lt in
    reach (length f.order) j ip w f below (record {
      consistent = consistent;
      place = ap (get_elem? f.order) at ∙ e;
      registered = registered;
      fits = fits;
    })
