-- ===== src/Worker/Select/Scan.antt =====
-- The scan for a worker, round by round.
use mathlib.Core.Bool.{false≢true}
use challenge_orchestrator.Common.{
  ℕ, zero, suc, ◌+◌, ◌%◌, ◌≤◌, ◌<◌, ◌≡◌, ◌⊎◌, inl, inr, refl, sym, ap, ◌∙◌, arith, dec_le, Bool,
  true, false, ◌||◌, String, Option, none, some, length, get_elem?, some_eq, Option-cases,
  Bool-cases,
}
use challenge_orchestrator.Common.Rotate.{round_step}
use challenge_orchestrator.Common.Assoc.{lookup}
use challenge_orchestrator.Worker.Conn.{Conn, is_ok, placeable}
use challenge_orchestrator.Worker.Fleet.{Fleet}
use challenge_orchestrator.Worker.Select.{
  Selection, chosen, exhausted, is_unresponsive, worker_at, exhaustion, scan,
}

none-some : {w : Conn} → none ≡ some w → ⊥
none-some e = cc

-- The conn of a registered worker passes the test.
pub record Has (p : Conn → Bool) (f : Fleet) : Type 0 where
  pub ip : String
  pub conn : Conn
  pub registered : lookup ip f.workers ≡ some conn
  pub passes : p conn ≡ true

abbrev pub ok_conn : Conn → Bool
ok_conn w = is_ok w.reachable

abbrev pub unresponsive_conn : Conn → Bool
unresponsive_conn w = is_unresponsive w.reachable

pub test : (Conn → Bool) → Option Conn → Bool
test p none = false
test p (some w) = p w

-- One of the `k` workers from index `i` on passes the test.
pub any_from : (Conn → Bool) → Fleet → ℕ → ℕ → Bool
any_from p f i zero = false
any_from p f i (suc k) = test p (worker_at f i) || any_from p f (suc i) k

pub any_from-true :
    (p : Conn → Bool) (f : Fleet) (i k j : ℕ) (w : Conn)
    → i ≤ j
    → j < i + k
    → worker_at f j ≡ some w
    → p w ≡ true
    → any_from p f i k ≡ true
unfolding any_from test
any_from-true p f i zero j w h l e t = absurd (omega arith)
any_from-true p f i (suc k) j w h l e t = elim (dec_le (suc i) j) [
  | yes later ↦ rw (any_from-true p f (suc i) k j w later (omega arith) e t) (ground arith)
  | no here ↦ let same : j ≡ i = omega arith in rw (sym (ap (worker_at f) same) ∙ e) (rw t refl)
]

pub worker_at-registered :
    (f : Fleet) (i : ℕ) (w : Conn)
    → worker_at f i ≡ some w
    → (ip : String) × (lookup ip f.workers ≡ some w)
unfolding worker_at
worker_at-registered f i w e =
    elim (Option-cases (get_elem? f.order ((f.cursor + i) % length f.order))) [
      | inl outside ↦ absurd (none-some (sym (rw (outside, worker_at) refl) ∙ e))
      | inr (ip, inside) ↦ (ip, sym (rw (inside, worker_at) refl) ∙ e)
    ]

pub any_from-Has : (p : Conn → Bool) (f : Fleet) (i k : ℕ) → any_from p f i k ≡ true → Has p f
unfolding any_from test
any_from-Has p f i zero h = absurd (false≢true h)
any_from-Has p f i (suc k) h = elim (Option-cases (worker_at f i)) [
  | inl absent ↦ any_from-Has p f (suc i) k (ground arith)
  | inr (w, e) ↦ elim (Bool-cases (p w)) [
    | inl passed ↦
        let (ip, r) = worker_at-registered f i w e in
        record { ip = ip; conn = w; registered = r; passes = passed }
    | inr failed ↦ any_from-Has p f (suc i) k (ground arith)
  ]
]

-- The first placeable worker in turn is at `index`, and the cursor moves behind it.
pub record Chose (f : Fleet) (i k : ℕ) (ip : String) (f' : Fleet) : Type 0 where
  pub index : ℕ
  pub conn : Conn
  pub from : i ≤ index
  pub before_end : index < i + k
  pub found : worker_at f index ≡ some conn
  pub fits : placeable conn ≡ true
  pub is_ip : conn.ip ≡ ip
  pub skipped :
      (j : ℕ) (w : Conn) → i ≤ j → j < index → worker_at f j ≡ some w → placeable w ≡ false
  pub moved : f' ≡ record f { cursor = (f.cursor + (index + 1)) % length f.order }

module _ (f : Fleet) (i k : ℕ) (w : Conn) (here : worker_at f i ≡ some w) where
  any_step : (p : Conn → Bool) → any_from p f i (suc k) ≡ (p w || any_from p f (suc i) k)
  unfolding any_from test
  any_step p = rw here refl

  scan_hit :
      (so su : Bool)
      → placeable w ≡ true
      → scan f i (suc k) so su
        ≡ some (
          chosen w.ip,
          record f { cursor = ((f.cursor + i) % length f.order + 1) % length f.order },
        )
  unfolding scan
  scan_hit so su fits = ground arith

  scan_miss :
      (so su : Bool)
      → placeable w ≡ false
      → scan f i (suc k) so su
        ≡ scan f (suc i) k (so || is_ok w.reachable) (su || is_unresponsive w.reachable)
  unfolding scan
  scan_miss so su full = ground arith

or_false : (a : Bool) → (a || false) ≡ a
or_false a = ground arith

or_assoc : (a b c : Bool) → ((a || b) || c) ≡ (a || (b || c))
or_assoc a b c = ground arith

unfoldable pub exhausted_outcome : Fleet → ℕ → ℕ → Bool → Bool → Option (Selection × Fleet)
exhausted_outcome f i k so su = some (
  exhausted (exhaustion (so || any_from ok_conn f i k) (su || any_from unresponsive_conn f i k)),
  f,
)

exhausted_step :
    (f : Fleet) (i k : ℕ) (so su : Bool) (w : Conn)
    → worker_at f i ≡ some w
    → exhausted_outcome f (suc i) k (so || is_ok w.reachable) (su || is_unresponsive w.reachable)
      ≡ exhausted_outcome f i (suc k) so su
unfolding exhausted_outcome
exhausted_step f i k so su w e = rw (
  any_step f i k w e ok_conn,
  any_step f i k w e unresponsive_conn,
  or_assoc so (is_ok w.reachable) (any_from ok_conn f (suc i) k),
  or_assoc su (is_unresponsive w.reachable) (any_from unresponsive_conn f (suc i) k),
)

Chose-later :
    (f : Fleet) (i k : ℕ) (w : Conn) (ip : String) (f' : Fleet)
    → worker_at f i ≡ some w
    → placeable w ≡ false
    → Chose f (suc i) k ip f'
    → Chose f i (suc k) ip f'
Chose-later f i k w ip f' e full c = record {
  index = c.index;
  conn = c.conn;
  from = omega (arith, c.from);
  before_end = omega (arith, c.before_end);
  found = c.found;
  fits = c.fits;
  is_ip = c.is_ip;
  skipped = λ j v le lt at. elim (dec_le (suc i) j) [
    | yes later ↦ c.skipped j v later lt at
    | no now ↦
        let same : j ≡ i = omega arith in
        ap placeable (some_eq (sym at ∙ ap (worker_at f) same ∙ e)) ∙ full
  ];
  moved = c.moved;
}

-- Either a worker was chosen, or all `k` were skipped and the error says what was seen.
abbrev pub Outcome : Fleet → ℕ → ℕ → Bool → Bool → Type 0
Outcome f i k so su =
    ((ip : String) × (f' : Fleet) × (scan f i k so su ≡ some (chosen ip, f')) × Chose f i k ip f')
    ⊎ ((scan f i k so su ≡ exhausted_outcome f i k so su) × (any_from placeable f i k ≡ false))

scan_step :
    (f : Fleet) (i k : ℕ) (so su : Bool) (w : Conn)
    → worker_at f i ≡ some w
    → placeable w ≡ false
    → Outcome f (suc i) k (so || is_ok w.reachable) (su || is_unresponsive w.reachable)
    → Outcome f i (suc k) so su
scan_step f i k so su w e full (inl (ip, f', found, c)) =
    inl (ip, f', scan_miss f i k w e so su full ∙ found, Chose-later f i k w ip f' e full c)
scan_step f i k so su w e full (inr (out, skipped)) = inr (
  scan_miss f i k w e so su full ∙ out ∙ exhausted_step f i k so su w e,
  any_step f i k w e placeable ∙ rw (full, skipped) refl,
)

pub scan_outcome :
    (f : Fleet) (i k : ℕ) (so su : Bool)
    → ((j : ℕ) → (w : Conn) × (worker_at f j ≡ some w))
    → Outcome f i k so su
unfolding any_from exhausted_outcome scan
scan_outcome f i zero so su present = inr (rw (or_false so, or_false su) refl, refl)
scan_outcome f i (suc k) so su present =
    let (w, e) = present i in
    elim (Bool-cases (placeable w)) [
      | inl fits ↦ inl (
        w.ip,
        record f { cursor = (f.cursor + (i + 1)) % length f.order },
        scan_hit f i k w e so su fits
            ∙ ap {B = Option (Selection × Fleet)} (λ c. some (chosen w.ip, record f { cursor = c }))
                (round_step f.cursor i (length f.order)),
        record {
          index = i;
          conn = w;
          from = omega arith;
          before_end = omega arith;
          found = e;
          fits = fits;
          is_ip = refl;
          skipped = λ j v le lt at. absurd (omega arith);
          moved = refl;
        },
      )
      | inr full ↦ scan_step f i k so su w e full (scan_outcome f (suc i) k _ _ present)
    ]
