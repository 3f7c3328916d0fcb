-- ===== src/Worker/Fleet/Consistent.antt =====
-- The map of conns, the placement order and the database agree, through every operation.
use challenge_orchestrator.Common.{
  ℕ, ◌<◌, ◌≡◌, refl, sym, ap, ◌∙◌, arith, String, Bool, true, false, not, ◌&&◌, Option, some, List,
  [], ◌∷◌, ◌++◌, str_eq, eq_iff, ◌==◌, if-both, Option-cases, inl, inr,
}
use challenge_orchestrator.Common.Assoc.{lookup, insert, remove, lookup-insert, lookup-remove}
use challenge_orchestrator.Errors.{Err}
use challenge_orchestrator.Worker.Conn.{Conn, new_worker_conn, mark_worker_down, is_down}
use challenge_orchestrator.Worker.Fleet.Order.{
  contains, IsUnique, is_some, contains-end, end-IsUnique, contains-remove_first,
  remove_first-IsUnique, lookup-upsert, row_upserted,
}
use challenge_orchestrator.Worker.Fleet.{
  Fleet, InstanceRow, AddOutcome, added_public, recovered_conn, fresh_conn, publish, upsert,
  register, add_worker, remove_first, remove_worker, set_worker_down, recover_worker,
}

pub record IsConsistent (f : Fleet) : Type 0 where
  pub keyed : (ip : String) → is_some (lookup ip f.workers) ≡ contains ip f.order
  pub unique : IsUnique f.order
  pub stored : (ip : String) → contains ip f.order ≡ true → is_some (lookup ip f.worker_rows) ≡ true
  pub named : (ip : String) (w : Conn) → lookup ip f.workers ≡ some w → w.ip ≡ ip
  pub fresh : (ip : String) (w : Conn) → lookup ip f.workers ≡ some w → w.id < f.next_id

-- A conn built for `ip` at an address of its own takes its place in the map.
publish-IsConsistent :
    (f : Fleet) (ip : String) (w : Conn)
    → contains ip f.order ≡ true
    → w.ip ≡ ip
    → w.id ≡ f.next_id
    → IsConsistent f
    → IsConsistent (publish f ip w)
unfolding publish
publish-IsConsistent f ip w c e i h = record {
  keyed = λ j. ground (arith, lookup-insert ip j w f.workers, eq_iff ip j, h.keyed j);
  unique = h.unique;
  stored = h.stored;
  named = λ j v g. ground (arith, lookup-insert ip j w f.workers, eq_iff ip j, h.named j v);
  fresh = λ j v g. ground (arith, lookup-insert ip j w f.workers, eq_iff ip j, h.fresh j v);
}

-- A conn for a new `ip`, with the end of the placement order.
enlist-IsConsistent :
    (f : Fleet) (ip : String) (w : Conn)
    → contains ip f.order ≡ false
    → is_some (lookup ip f.worker_rows) ≡ true
    → w.ip ≡ ip
    → w.id ≡ f.next_id
    → IsConsistent f
    → IsConsistent (record (publish f ip w) { order = f.order ++ ip ∷ [] })
unfolding publish
enlist-IsConsistent f ip w c s e i h = record {
  keyed = λ j.
      ground
        (arith, lookup-insert ip j w f.workers, eq_iff ip j, h.keyed j, contains-end j ip f.order);
  unique = end-IsUnique ip f.order c h.unique;
  stored = λ j g. ground (arith, contains-end j ip f.order, eq_iff ip j, h.stored j);
  named = λ j v g. ground (arith, lookup-insert ip j w f.workers, eq_iff ip j, h.named j v);
  fresh = λ j v g. ground (arith, lookup-insert ip j w f.workers, eq_iff ip j, h.fresh j v);
}

upsert-IsConsistent :
    (f : Fleet) (ip public : String)
    → IsConsistent f
    → IsConsistent (record f { worker_rows = upsert ip public f.worker_rows })
upsert-IsConsistent f ip public h = record {
  keyed = h.keyed;
  unique = h.unique;
  stored = λ j g. ground (arith, lookup-upsert ip public j f.worker_rows, h.stored j);
  named = h.named;
  fresh = h.fresh;
}

register-IsConsistent :
    (f : Fleet) (ip : String) (w : Conn)
    → is_some (lookup ip f.worker_rows) ≡ true
    → w.ip ≡ ip
    → w.id ≡ f.next_id
    → IsConsistent f
    → IsConsistent (register f ip w)
unfolding register
register-IsConsistent f ip w s e i h = elim (Option-cases (lookup ip f.workers)) [
  | inl absent ↦
      rw (absent, register)
        (enlist-IsConsistent f ip w (sym (h.keyed ip) ∙ ap is_some absent) s e i h)
  | inr (old, present) ↦
      rw (present, register)
        (publish-IsConsistent f ip w (sym (h.keyed ip) ∙ ap is_some present) e i h)
]

fresh_conn_lem :
    (f : Fleet) (ip public : String) (from_recovery : Bool) (now : ℕ)
    → ((fresh_conn f ip public from_recovery now).ip ≡ ip)
      × ((fresh_conn f ip public from_recovery now).id ≡ f.next_id)
unfolding new_worker_conn
fresh_conn_lem f ip public from_recovery now = (refl, refl)

-- worker-add keeps the fleet consistent, whichever of its steps fails.
pub add_worker-IsConsistent :
    (f : Fleet) (ip public : String) (outcome : AddOutcome) (now : ℕ)
    → IsConsistent f
    → IsConsistent (add_worker f ip public outcome now).1
unfolding add_worker new_worker_conn
add_worker-IsConsistent f ip public outcome now h =
    let P : Option Err × Fleet → Type 0 = λ r. IsConsistent r.1 in
    let rows = upsert-IsConsistent f ip public h in
    if-both P (not outcome.addr_valid) _ _ h (
      if-both P (not outcome.insert_ok) _ _ h (
        if-both P (str_eq public "" && not outcome.read_back_ok) _ _ rows (
          if-both P (not outcome.conn_ok) _ _ rows (
            register-IsConsistent (record f { worker_rows = upsert ip public f.worker_rows }) ip
              (fresh_conn f ip (added_public ip public f.worker_rows) false now)
              (row_upserted ip public f.worker_rows) refl refl rows))))

purge-IsConsistent :
    (f : Fleet) (ip : String) (kept : List InstanceRow)
    → IsConsistent f
    → IsConsistent (record f {
      instance_rows = kept;
      worker_rows = remove ip f.worker_rows;
      workers = remove ip f.workers;
      order = remove_first ip f.order;
    })
purge-IsConsistent f ip kept h = record {
  keyed = λ j.
      ground (
        arith,
        lookup-remove ip j f.workers,
        h.keyed j,
        contains-remove_first j ip f.order h.unique,
      );
  unique = remove_first-IsUnique ip f.order h.unique;
  stored = λ j g. ground (
    arith,
    lookup-remove ip j f.worker_rows,
    h.stored j,
    contains-remove_first j ip f.order h.unique,
  );
  named = λ j v g. ground (arith, lookup-remove ip j f.workers, h.named j v);
  fresh = λ j v g. ground (arith, lookup-remove ip j f.workers, h.fresh j v);
}

-- worker-remove keeps the fleet consistent, whether its transaction goes through or not.
pub remove_worker-IsConsistent :
    (f : Fleet) (ip : String) (committed : Bool)
    → IsConsistent f
    → IsConsistent (remove_worker f ip committed).1
unfolding remove_worker
remove_worker-IsConsistent f ip committed h = elim (Option-cases (lookup ip f.workers)) [
  | inl absent ↦ rw (absent, remove_worker) h
  | inr (w, present) ↦
      rw (present, remove_worker)
        (if-both {A = Option Err × Fleet} (λ r. IsConsistent r.1) committed _ _
          (purge-IsConsistent f ip _ h) h)
]

pub replace-IsConsistent :
    (f : Fleet) (ip : String) (w v : Conn)
    → lookup ip f.workers ≡ some w
    → v.ip ≡ w.ip
    → v.id ≡ w.id
    → IsConsistent f
    → IsConsistent (record f { workers = insert ip v f.workers })
replace-IsConsistent f ip w v e same_ip same_id h = record {
  keyed = λ j. ground (arith, lookup-insert ip j v f.workers, eq_iff ip j, h.keyed j);
  unique = h.unique;
  stored = h.stored;
  named = λ j u g.
      ground (arith, lookup-insert ip j v f.workers, eq_iff ip j, h.named j u, h.named ip w);
  fresh = λ j u g.
      ground (arith, lookup-insert ip j v f.workers, eq_iff ip j, h.fresh j u, h.fresh ip w);
}

mark_worker_down_same :
    (w : Conn) (now : ℕ)
    → ((mark_worker_down w now).ip ≡ w.ip) × ((mark_worker_down w now).id ≡ w.id)
unfolding mark_worker_down
mark_worker_down_same w now = (ground arith, ground arith)

-- worker-down keeps the fleet consistent.
pub set_worker_down-IsConsistent :
    (f : Fleet) (ip : String) (now : ℕ) → IsConsistent f → IsConsistent (set_worker_down f ip now).1
unfolding set_worker_down
set_worker_down-IsConsistent f ip now h = elim (Option-cases (lookup ip f.workers)) [
  | inl absent ↦ rw (absent, set_worker_down) h
  | inr (w, present) ↦
      let same = mark_worker_down_same w now in
      rw (present, set_worker_down)
        (replace-IsConsistent f ip w (mark_worker_down w now) present same.0 same.1 h)
]

-- A recovery keeps the fleet consistent, whether the conn is replaced or not.
pub recover_worker-IsConsistent :
    (f : Fleet) (ip : String) (id : ℕ) (conn_ok : Bool) (now : ℕ)
    → IsConsistent f
    → IsConsistent (recover_worker f ip id conn_ok now)
unfolding recover_worker new_worker_conn
recover_worker-IsConsistent f ip id conn_ok now h = elim (Option-cases (lookup ip f.workers)) [
  | inl absent ↦ rw (absent, recover_worker) h
  | inr (w, present) ↦
      rw (present, recover_worker)
        (if-both IsConsistent (not (w.id == id)) f _ h (
          if-both IsConsistent (is_down w.reachable) f _ h (
            if-both IsConsistent (not conn_ok) f _ h (
              publish-IsConsistent f ip (recovered_conn f ip w now)
                (sym (h.keyed ip) ∙ ap is_some present) refl refl h))))
]
