-- ===== src/Instance/Stop/Sent.antt =====
-- What a stop that gives the ports back has sent to the daemon.
use challenge_orchestrator.Common.{
  String, Bool, true, false, ◌||◌, Option, none, some, List, [], ◌∷◌, str_eq, if-both, ◌≡◌, inl,
  inr, refl, sym, ap, ◌∙◌, Option-cases, some_eq,
}
use challenge_orchestrator.Errors.{Err, is_deadline}
use challenge_orchestrator.Instance.{Metadata, Database, remove_instance_metadata}
use challenge_orchestrator.Instance.Teardown.{Answers, Torn, any_of, after_slot, teardown}
use challenge_orchestrator.Instance.Stop.{
  unreachable, Stopped, cleared, kept, gone, after_teardown, stop_instance,
}
use challenge_orchestrator.Worker.Timing.{Timing}
use challenge_orchestrator.Worker.Fleet.{Fleet, worker_unreachable}
use challenge_orchestrator.Instance.Teardown.Through.{teardown-WentThrough}

module _ (t : Timing) (d : Answers) (meta : Metadata) (db : Database) where
  -- The final DELETE changes neither the fleet nor what was sent.
  cleared-keeps :
      (f : Fleet) (sent : List String) (network_sent : Bool) (result : Option Err × Database)
      → ((cleared f sent network_sent result).fleet ≡ f)
        × ((cleared f sent network_sent result).sent ≡ sent)
        × ((cleared f sent network_sent result).network_sent ≡ network_sent)
  cleared-keeps f sent network_sent (none, db') = (refl, refl, refl)
  cleared-keeps f sent network_sent (some e, db') = (refl, refl, refl)

  abbrev Keeps : Torn → Stopped → Type 0
  Keeps torn s =
      (s.fleet ≡ torn.fleet) × (s.sent ≡ torn.sent) × (s.network_sent ≡ torn.network_sent)

  gone-Keeps : (delete : Option Err) (torn : Torn) → Keeps torn (gone delete meta.id torn)
  gone-Keeps delete torn =
      cleared-keeps torn.fleet torn.sent torn.network_sent
        (remove_instance_metadata delete meta.id torn.db)

  after_teardown-Keeps :
      (delete : Option Err) (torn : Torn) (errors : List Err)
      → Keeps torn (after_teardown delete meta.id meta.worker torn errors)
  unfolding after_teardown
  after_teardown-Keeps delete torn [] = gone-Keeps delete torn
  after_teardown-Keeps delete torn (e ∷ errors) =
      if-both (Keeps torn) (unreachable torn.fleet meta.worker || any_of is_deadline (e ∷ errors))
        (gone delete meta.id torn) (kept torn) (gone-Keeps delete torn) (refl, refl, refl)

  -- A refused slot is passed on with nothing done.
  refusal : Fleet → Err → Stopped
  refusal f e = record { errors = e ∷ []; fleet = f; db = db; sent = []; network_sent = false }

  after_slot-refused :
      (delete : Option Err) (f : Fleet) (slot : Option Err) (e : Err)
      → slot ≡ some e
      → is_deadline e ≡ false
      → unreachable f meta.worker ≡ false
      → let torn = after_slot t d meta f db slot in
        after_teardown delete meta.id meta.worker torn torn.errors ≡ refusal f e
  unfolding after_slot after_teardown any_of refusal
  after_slot-refused delete f none e slot calm near = absurd (cc)
  after_slot-refused delete f (some e') e slot calm near = rw (some_eq slot, near, calm) refl

  pub stop_instance-torn :
      (delete : Option Err) (f : Fleet)
      → unreachable f meta.worker ≡ false
      → let torn = teardown t d meta f db in
        stop_instance t d delete meta f db
        ≡ after_teardown delete meta.id meta.worker torn torn.errors
  unfolding stop_instance
  stop_instance-torn delete f near = rw near refl

  refused_fleet :
      (f : Fleet) (slot : Option Err) (e : Err)
      → slot ≡ some e
      → (after_slot t d meta (d.meanwhile f) db slot).fleet ≡ d.meanwhile f
  unfolding after_slot
  refused_fleet f none e slot = absurd (cc)
  refused_fleet f (some e') e slot = refl

  remote_unreachable :
      (f : Fleet)
      → str_eq meta.worker "" ≡ false
      → unreachable f meta.worker ≡ worker_unreachable f meta.worker
  unfolding unreachable
  remote_unreachable f remote = rw remote refl

  pub stop_instance-refused :
      (delete : Option Err) (f : Fleet) (e : Err)
      → unreachable f meta.worker ≡ false
      → unreachable (d.meanwhile f) meta.worker ≡ false
      → d.slot ≡ some e
      → is_deadline e ≡ false
      → stop_instance t d delete meta f db ≡ record {
        errors = e ∷ [];
        fleet = d.meanwhile f;
        db = db;
        sent = [];
        network_sent = false;
      }
  unfolding refusal teardown
  stop_instance-refused delete f e near still slot calm =
      stop_instance-torn delete f near
      ∙ after_slot-refused delete (d.meanwhile f) d.slot e slot calm still

  -- Where an instance is on a worker that its stop finds within reach, at its start and at its end,
  -- and the wait for a teardown slot does not end in a deadline's error, a stop that succeeds has
  -- sent the removal of each of the instance's containers, in order, and of its network.
  pub stop_instance-sent :
      (delete : Option Err) (f : Fleet)
      → str_eq meta.worker "" ≡ false
      → unreachable f meta.worker ≡ false
      → unreachable (stop_instance t d delete meta f db).fleet meta.worker ≡ false
      → ((e : Err) → d.slot ≡ some e → is_deadline e ≡ false)
      → (stop_instance t d delete meta f db).errors ≡ []
      → ((stop_instance t d delete meta f db).sent ≡ meta.containers)
        × ((stop_instance t d delete meta f db).network_sent ≡ true)
  unfolding teardown
  stop_instance-sent delete f remote near still slot_error success =
      let torn = teardown t d meta f db in
      let same = stop_instance-torn delete f near in
      let (fleet, sent, network) = after_teardown-Keeps delete torn torn.errors in
      let near_after : unreachable torn.fleet meta.worker ≡ false =
        ap (λ (g : Fleet). unreachable g meta.worker)
          (sym (ap (λ (s : Stopped). s.fleet) same ∙ fleet))
        ∙ still in
      elim (Option-cases d.slot) [
        | inl granted ↦ elim (teardown-WentThrough t d meta db f granted remote) [
          | inl (all, net) ↦ (
            ap (λ (s : Stopped). s.sent) same ∙ sent ∙ all,
            ap (λ (s : Stopped). s.network_sent) same ∙ network ∙ net,
          )
          | inr out ↦ absurd (cc (remote_unreachable torn.fleet remote, out, near_after))
        ]
        | inr (e, refused) ↦
            let waited = refused_fleet f d.slot e refused in
            let still' = ap (λ (g : Fleet). unreachable g meta.worker) (sym waited) ∙ near_after in
            let left =
              stop_instance-refused delete f e near still' refused (slot_error e refused) in
            absurd (cc (left, success))
      ]
