-- ===== src/Worker/Select/Choice.antt =====
-- What a selection returns: the first placeable worker in turn, or what is wrong with all of them.
use mathlib.Core.Bool.{false≢true}
use challenge_orchestrator.Common.{
  ℕ, ◌+◌, ◌%◌, ◌<◌, ◌≡◌, ◌⊎◌, inl, inr, refl, sym, ap, ◌∙◌, arith, Bool, true, false, String,
  Option, none, some, length, get_elem?, Bool-cases,
}
use challenge_orchestrator.Common.Rotate.{round_covers, round_bound}
use challenge_orchestrator.Common.Assoc.{lookup}
use challenge_orchestrator.Common.Lists.Index.{get_elem?-total}
use challenge_orchestrator.Errors.{
  all_workers_overloaded, all_workers_unresponsive, all_workers_down,
}
use challenge_orchestrator.Worker.Conn.{Conn, placeable}
use challenge_orchestrator.Worker.Fleet.{Fleet}
use challenge_orchestrator.Worker.Fleet.Consistent.{IsConsistent}
use challenge_orchestrator.Worker.Fleet.Order.{is_some, indexed, contains_indexed}
use challenge_orchestrator.Worker.Select.{
  chosen, exhausted, worker_at, exhaustion, scan, select_worker,
}
use challenge_orchestrator.Worker.Select.Scan.{
  Has, ok_conn, unresponsive_conn, any_from, any_from-true, any_from-Has, worker_at-registered,
  Chose, Outcome, exhausted_outcome, scan_outcome,
}

all_of_some : {o : Option Conn} → is_some o ≡ true → (w : Conn) × (o ≡ some w)
all_of_some {o = none} h = absurd (false≢true h)
all_of_some {o = some w} h = (w, refl)

pub worker_at-eq :
    (f : Fleet) (j : ℕ) (ip : String)
    → get_elem? f.order ((f.cursor + j) % length f.order) ≡ some ip
    → worker_at f j ≡ lookup ip f.workers
unfolding worker_at
worker_at-eq f j ip e = rw (e, worker_at) refl

module _ (f : Fleet) (consistent : IsConsistent f) where
  all_present : 0 < length f.order → (j : ℕ) → (w : Conn) × (worker_at f j ≡ some w)
  all_present some_worker j =
      let place = (f.cursor + j) % length f.order in
      let (ip, e) =
        get_elem?-total f.order place (round_bound (f.cursor + j) (length f.order) some_worker) in
      all_of_some (
        ap is_some (worker_at-eq f j ip e)
        ∙ consistent.keyed ip
        ∙ contains_indexed ip f.order place e)

  -- A registered worker is met on the way round.
  Has-any_from : (p : Conn → Bool) → Has p f → any_from p f 0 (length f.order) ≡ true
  Has-any_from p h =
      let (m, lt, e) =
        indexed h.ip f.order (sym (consistent.keyed h.ip) ∙ ap is_some h.registered) in
      let (j, below, at) = round_covers f.cursor (length f.order) m lt in
      any_from-true p f 0 (length f.order) j h.conn (omega arith) (omega arith)
        (worker_at-eq f j h.ip (ap (get_elem? f.order) at ∙ e) ∙ h.registered) h.passes

  missing : (p : Conn → Bool) → any_from p f 0 (length f.order) ≡ false → ¬ Has p f
  missing p none_passes h = false≢true (sym none_passes ∙ Has-any_from p h)

  outcome : 0 < length f.order → Outcome f 0 (length f.order) false false
  outcome some_worker = scan_outcome f 0 (length f.order) false false (all_present some_worker)

select_worker-scan :
    (f : Fleet) → 0 < length f.order → select_worker f ≡ scan f 0 (length f.order) false false
unfolding select_worker
select_worker-scan f h = ground arith

Has-worker : (p : Conn → Bool) (f : Fleet) → IsConsistent f → Has p f → 0 < length f.order
Has-worker p f consistent h =
    let (m, lt, e) = indexed h.ip f.order (sym (consistent.keyed h.ip) ∙ ap is_some h.registered) in
    omega arith

-- In a consistent fleet in which some registered worker is placeable, a selection returns the ip of
-- the first placeable worker from the cursor on, in placement order; every worker passed over was
-- not placeable, and only the cursor moves, to the place behind the worker chosen.
pub select_worker-Chose :
    (f : Fleet)
    → IsConsistent f
    → Has placeable f
    → (ip : String) × (f' : Fleet) × (select_worker f ≡ some (chosen ip, f'))
      × Chose f 0 (length f.order) ip f'
select_worker-Chose f consistent h =
    let some_worker = Has-worker placeable f consistent h in
    settle (outcome f consistent some_worker) (select_worker-scan f some_worker)
      (Has-any_from f consistent placeable h)
  where
    settle :
        Outcome f 0 (length f.order) false false
        → select_worker f ≡ scan f 0 (length f.order) false false
        → any_from placeable f 0 (length f.order) ≡ true
        → (ip : String) × (f' : Fleet) × (select_worker f ≡ some (chosen ip, f'))
          × Chose f 0 (length f.order) ip f'
    settle (inl (ip, f', e, c)) s t = (ip, f', s ∙ e, c)
    settle (inr (e, none_fits)) s t = absurd (false≢true (sym none_fits ∙ t))

-- In a consistent fleet with workers of which none is placeable, a selection changes nothing and
-- says which exhaustion it is: overloaded if some worker answers, else unresponsive if some worker
-- is that, else down.
pub select_worker-exhausted :
    (f : Fleet)
    → IsConsistent f
    → 0 < length f.order
    → ¬ Has placeable f
    → (select_worker f ≡ some (exhausted all_workers_overloaded, f) × Has ok_conn f)
      ⊎ (select_worker f ≡ some (exhausted all_workers_unresponsive, f)
          × ¬ Has ok_conn f
          × Has unresponsive_conn f)
      ⊎ (select_worker f ≡ some (exhausted all_workers_down, f)
          × ¬ Has ok_conn f
          × ¬ Has unresponsive_conn f)
unfolding exhaustion exhausted_outcome
select_worker-exhausted f consistent some_worker h =
    let n = length f.order in
    let e = select_worker-scan f some_worker ∙ settle (outcome f consistent some_worker) in
    elim (Bool-cases (any_from ok_conn f 0 n)) [
      | inl answers ↦ inl (e ∙ rw answers refl, any_from-Has ok_conn f 0 n answers)
      | inr silent ↦ elim (Bool-cases (any_from unresponsive_conn f 0 n)) [
        | inl failing ↦ inr (
            inl (
              e ∙ rw (silent, failing) refl,
              missing f consistent ok_conn silent,
              any_from-Has unresponsive_conn f 0 n failing,
            ))
        | inr absent ↦ inr (
            inr (
              e ∙ rw (silent, absent) refl,
              missing f consistent ok_conn silent,
              missing f consistent unresponsive_conn absent,
            ))
      ]
    ]
  where
    settle :
        Outcome f 0 (length f.order) false false
        → scan f 0 (length f.order) false false ≡ exhausted_outcome f 0 (length f.order) false false
    settle (inl (ip, f', e, c)) = absurd (
        h (
          let (at, r) = worker_at-registered f c.index c.conn c.found in
          record { ip = at; conn = c.conn; registered = r; passes = c.fits }))
    settle (inr (e, none_fits)) = e
