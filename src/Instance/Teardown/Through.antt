-- ===== src/Instance/Teardown/Through.antt =====
-- How far a teardown goes: it sends every removal, or leaves the worker out of reach.
use challenge_orchestrator.Common.{
  String, Bool, true, false, ◌&&◌, Option, none, some, List, [], ◌∷◌, ◌++◌, str_eq, if◌then◌else◌,
  if-cases, if-both, ◌≡◌, ◌⊎◌, inl, inr, refl, ap, ◌∙◌, arith, Option-cases,
}
use challenge_orchestrator.Common.Assoc.{lookup}
use challenge_orchestrator.Errors.{Err, other, is_not_found, is_conflict, is_transport_error}
use challenge_orchestrator.Instance.{Metadata, Database, remove_containers_metadata}
use challenge_orchestrator.Instance.Teardown.{
  Answers, Removal, Torn, any_of, append_error, with_sent, with_error, after_removal, noted,
  unlogged, remove_each, stop_containers, stop_containers_on, after_containers, stop_network,
  stop_network_on, after_slot, teardown,
}
use challenge_orchestrator.Worker.Timing.{Timing}
use challenge_orchestrator.Worker.Fleet.{Fleet, Client, instance_client, worker_unreachable}

-- The loop sends every removal, or ends on a transport error with the worker out of reach.
abbrev Through : String → List String → Removal → Type 0
Through worker containers r =
    (r.sent ≡ containers)
    ⊎ ((any_of is_transport_error r.errors ≡ true) × (worker_unreachable r.fleet worker ≡ true))

module _ (t : Timing) (d : Answers) (worker : String) (cli : Client) where
  Through-sent :
      (container : String) (containers : List String) (r : Removal)
      → Through worker containers r
      → Through worker (container ∷ containers) (with_sent container r)
  Through-sent container containers r (inl e) = inl (ap (λ (l : List String). container ∷ l) e)
  Through-sent container containers r (inr out) = inr out

  Through-error :
      (e : Err) (containers : List String) (r : Removal)
      → Through worker containers r
      → Through worker containers (with_error e r)
  unfolding any_of
  Through-error e containers r (inl same) = inl same
  Through-error e containers r (inr (carried, out)) = inr (ground (arith, carried), out)

  after_removal-Through :
      (container : String) (answer : Option Err) (containers : List String) (f : Fleet)
      (rest : Fleet → Removal)
      → ((g : Fleet) → Through worker containers (rest g))
      → Through worker containers (after_removal t d worker cli container answer f rest)
  unfolding after_removal any_of
  after_removal-Through container none containers f rest h = h f
  after_removal-Through container (some e) containers f rest h =
      let f' = noted t d worker cli e (d.ping container) f in
      let broken = is_transport_error e && worker_unreachable f' worker in
      let stopped = with_error e (unlogged f') in
      let further = with_error e (rest f') in
      if-both (Through worker containers) (is_not_found e) (rest f) _ (h f) (
        if-both (Through worker containers) (is_conflict e) (record (rest f) { in_flight = true })
          (if broken then stopped else further) (h f)
          (if-cases (Through worker containers) broken stopped further
            (λ out. inr (ground (arith, out), ground (arith, out)))
            (λ stays. Through-error e containers (rest f') (h f'))))

  pub remove_each-Through :
      (containers : List String) (f : Fleet)
      → Through worker containers (remove_each t d worker cli containers f)
  unfolding remove_each
  remove_each-Through [] f = inl refl
  remove_each-Through (container ∷ containers) f =
      Through-sent container containers
        (after_removal t d worker cli container (d.remove container) f
          (remove_each t d worker cli containers))
        (after_removal-Through container (d.remove container) containers f
          (remove_each t d worker cli containers) (remove_each-Through containers))

any_of-append :
    (test : Err → Bool) (errors : List Err) (e : Err)
    → any_of test errors ≡ true
    → any_of test (errors ++ e ∷ []) ≡ true
unfolding any_of
any_of-append test [] e h = absurd (cc)
any_of-append test (first ∷ errors) e h = ground (arith, any_of-append test errors e)

any_of-append_error :
    (test : Err → Bool) (failure : Option Err) (errors : List Err)
    → any_of test errors ≡ true
    → any_of test (append_error failure errors) ≡ true
any_of-append_error test none errors h = h
any_of-append_error test (some e) errors h = any_of-append test errors e h

-- A teardown that was granted its slot went through to the network, or the worker is out of reach.
abbrev pub WentThrough : String → List String → Torn → Type 0
WentThrough worker containers torn =
    ((torn.sent ≡ containers) × (torn.network_sent ≡ true))
    ⊎ (worker_unreachable torn.fleet worker ≡ true)

module _ (t : Timing) (d : Answers) (meta : Metadata) (db : Database) where
  after_containers-WentThrough :
      (r : Removal) (meta' : Metadata) (db' : Database)
      → Through meta.worker meta.containers r
      → WentThrough meta.worker meta.containers (after_containers t d meta.worker (r, meta', db'))
  unfolding after_containers
  after_containers-WentThrough r meta' db' (inl same) =
      if-cases (WentThrough meta.worker meta.containers)
        (any_of is_transport_error r.errors && worker_unreachable r.fleet meta.worker) _ _
        (λ out. inr (ground arith)) (λ stays. inl (same, refl))
  after_containers-WentThrough r meta' db' (inr (carried, out)) = rw (carried, out) (inr out)

  append_error-Through :
      (failure : Option Err) (containers : List String) (r : Removal)
      → Through meta.worker containers r
      → Through meta.worker containers (record r { errors = append_error failure r.errors })
  append_error-Through failure containers r (inl same) = inl same
  append_error-Through failure containers r (inr (carried, out)) =
      inr (any_of-append_error is_transport_error failure r.errors carried, out)

  no_client-unreachable :
      (f : Fleet)
      → str_eq meta.worker "" ≡ false
      → instance_client f meta.worker ≡ none
      → worker_unreachable f meta.worker ≡ true
  unfolding instance_client worker_unreachable
  no_client-unreachable f remote missing = elim (Option-cases (lookup meta.worker f.workers)) [
    | inl gone ↦ rw (gone, worker_unreachable) refl
    | inr (w, there) ↦ absurd (ground (arith, missing, remote, there))
  ]

  without_client :
      (f : Fleet)
      → instance_client f meta.worker ≡ none
      → (after_containers t d meta.worker (stop_containers_on t d meta f db none)).fleet ≡ f
  unfolding stop_containers_on after_containers stop_network
  without_client f missing =
      if-both (λ (torn : Torn). torn.fleet ≡ f)
        (any_of is_transport_error (other ∷ []) && worker_unreachable f meta.worker) _ _ refl
        (ap (λ (c : Option Client). (stop_network_on t d meta.worker f c).1) missing
          ∙ unfold stop_network_on in refl)

  stop_containers_on-WentThrough :
      (f : Fleet) (client : Option Client)
      → str_eq meta.worker "" ≡ false
      → instance_client f meta.worker ≡ client
      → WentThrough meta.worker meta.containers
          (after_containers t d meta.worker (stop_containers_on t d meta f db client))
  stop_containers_on-WentThrough f none remote missing = inr (
      ap (λ (g : Fleet). worker_unreachable g meta.worker) (without_client f missing)
      ∙ no_client-unreachable f remote missing)
  stop_containers_on-WentThrough f (some cli) remote client =
      unfold stop_containers_on in
      after_containers-WentThrough _ (remove_containers_metadata d.forget meta db).1
        (remove_containers_metadata d.forget meta db).2
        (append_error-Through (remove_containers_metadata d.forget meta db).0 meta.containers
          (remove_each t d meta.worker cli meta.containers f)
          (remove_each-Through t d meta.worker cli meta.containers f))

  after_slot-WentThrough :
      (f : Fleet) (slot : Option Err)
      → slot ≡ none
      → str_eq meta.worker "" ≡ false
      → WentThrough meta.worker meta.containers (after_slot t d meta f db slot)
  after_slot-WentThrough f none granted remote =
      unfold after_slot stop_containers in
      stop_containers_on-WentThrough f (instance_client f meta.worker) remote refl
  after_slot-WentThrough f (some e) granted remote = absurd (cc)

  pub teardown-WentThrough :
      (f : Fleet)
      → d.slot ≡ none
      → str_eq meta.worker "" ≡ false
      → WentThrough meta.worker meta.containers (teardown t d meta f db)
  unfolding teardown
  teardown-WentThrough f granted remote =
      after_slot-WentThrough (d.meanwhile f) d.slot granted remote
