-- ===== src/Instance/Stop/Local.antt =====
-- A stop on the local daemon when the removal of the first container times out.
use challenge_orchestrator.Common.{
  ℕ, String, true, false, Option, none, some, List, [], ◌∷◌, ◌≡◌, refl, sym, ap, ap₂, subst, ◌∙◌,
  arith, some_eq,
}
use challenge_orchestrator.Common.Assoc.{Map, lookup}
use challenge_orchestrator.Errors.{
  Err, call, is_deadline, is_not_found, is_conflict, is_transport_error,
}
use challenge_orchestrator.Instance.{
  Metadata, Database, find_instance, remove_instance_metadata, remove_containers_metadata,
}
use challenge_orchestrator.Instance.Rows.{find_instance-forget_self}
use challenge_orchestrator.Instance.Teardown.{
  Answers, Removal, Torn, any_of, append_error, with_sent, with_error, unlogged, after_removal,
  remove_each, stop_containers, stop_containers_on, after_containers, after_slot, teardown,
}
use challenge_orchestrator.Instance.Stop.{unreachable, Stopped, gone, after_teardown, stop_instance}
use challenge_orchestrator.Instance.Stop.Sent.{stop_instance-torn}
use challenge_orchestrator.Worker.Timing.{Timing}
use challenge_orchestrator.Worker.Fleet.{
  Fleet, Client, local_client, instance_client, worker_unreachable,
}
use challenge_orchestrator.Worker.Transport.{note_worker_transport_error}

deadline-transport : (e : Err) → is_deadline e ≡ true → is_transport_error e ≡ true
unfolding is_deadline is_transport_error
deadline-transport (call e) h = ground (arith, h)
deadline-transport e h = absurd (cc)

abbrev meta_of : ℕ → ℕ → Map ℕ → List String → Metadata
meta_of id build ports containers = record {
  id = id;
  build = build;
  worker = "";
  ports = ports;
  containers = containers;
}

module _ (t : Timing) (d : Answers) (f : Fleet) (e : Err) where
  -- The one removal that is sent, and the break.
  after_removal-broken :
      (container : String) (answer : Option Err) (rest : Fleet → Removal)
      → answer ≡ some e
      → is_deadline e ≡ true
      → is_not_found e ≡ false
      → is_conflict e ≡ false
      → worker_unreachable f "" ≡ true
      → after_removal t d "" local_client container answer f rest ≡ with_error e (unlogged f)
  unfolding after_removal note_worker_transport_error
  after_removal-broken container none rest answer late known clear away = absurd (cc)
  after_removal-broken container (some e') rest answer late known clear away =
      rw (some_eq answer, known, clear, deadline-transport e late, away) refl

  module _ (id build : ℕ) (ports : Map ℕ) (container : String) (others : List String)
      (db : Database) where
    abbrev meta : Metadata
    meta = meta_of id build ports (container ∷ others)

    abbrev broken : Removal
    broken = with_sent container (with_error e (unlogged f))

    abbrev joined : Removal → Option Err → Torn
    joined r forget =
        let (failure, meta', db') = remove_containers_metadata forget meta db in
        after_containers t d "" (record r { errors = append_error failure r.errors }, meta', db')

    abbrev stopped_early : Torn
    stopped_early = record {
      errors = e ∷ [];
      fleet = f;
      meta = meta_of id build [] [];
      db = (remove_containers_metadata none meta db).2;
      sent = container ∷ [];
      network_sent = false;
    }

    joined-broken :
        is_deadline e ≡ true → worker_unreachable f "" ≡ true → joined broken none ≡ stopped_early
    unfolding after_containers remove_containers_metadata any_of
    joined-broken late away = rw (deadline-transport e late, away) refl

    teardown-early :
        d.meanwhile f ≡ f
        → d.slot ≡ none
        → d.forget ≡ none
        → d.remove container ≡ some e
        → instance_client f "" ≡ some local_client
        → is_deadline e ≡ true
        → is_not_found e ≡ false
        → is_conflict e ≡ false
        → worker_unreachable f "" ≡ true
        → teardown t d meta f db ≡ stopped_early
    unfolding teardown after_slot stop_containers stop_containers_on remove_each
    teardown-early alone granted forget answer client late known clear away =
        let sent_one = ap (with_sent container) (
          after_removal-broken container (d.remove container)
            (remove_each t d "" local_client others) answer late known clear away) in
        ap₂ (λ (g : Fleet) (s : Option Err). after_slot t d meta g db s) alone granted
        ∙ ap (λ (c : Option Client). after_containers t d "" (stop_containers_on t d meta f db c))
            client
        ∙ ap₂ joined sent_one forget
        ∙ joined-broken late away

    after_teardown-late :
        unreachable f "" ≡ false
        → is_deadline e ≡ true
        → after_teardown none id "" stopped_early (e ∷ []) ≡ gone none id stopped_early
    unfolding after_teardown any_of
    after_teardown-late near late = rw (near, late) refl

    abbrev Succeeds : Stopped → Type 0
    Succeeds s =
        (s.errors ≡ [])
        × (s.sent ≡ container ∷ [])
        × (s.network_sent ≡ false)
        × (find_instance id s.db.instances ≡ none)

    gone-Succeeds :
        (torn : Torn)
        → torn.sent ≡ container ∷ []
        → torn.network_sent ≡ false
        → Succeeds (gone none id torn)
    unfolding remove_instance_metadata
    gone-Succeeds torn sent network =
        (refl, sent, network, find_instance-forget_self id torn.db.instances)

    -- On the local daemon, with no worker at the empty address, a removal of an instance's first
    -- container that times out ends the teardown: the removals of the other containers and of the
    -- network are not sent, and yet the stop succeeds and takes the instance's row with it.
    pub stop_instance-local_timeout :
        f.external_build_plane ≡ false
        → lookup "" f.workers ≡ none
        → d.meanwhile f ≡ f
        → d.slot ≡ none
        → d.forget ≡ none
        → d.remove container ≡ some e
        → is_deadline e ≡ true
        → is_not_found e ≡ false
        → is_conflict e ≡ false
        → let s = stop_instance t d none (meta_of id build ports (container ∷ others)) f db in
          (s.errors ≡ [])
          × (s.sent ≡ container ∷ [])
          × (s.network_sent ≡ false)
          × (find_instance id s.db.instances ≡ none)
    unfolding unreachable instance_client worker_unreachable
    stop_instance-local_timeout here no_entry alone granted forget answer late known clear =
        let near : unreachable f "" ≡ false = here in
        let away : worker_unreachable f "" ≡ true = rw (no_entry, worker_unreachable) refl in
        let client : instance_client f "" ≡ some local_client = rw here refl in
        let torn = teardown-early alone granted forget answer client late known clear away in
        let whole =
          stop_instance-torn t d meta db none f near
          ∙ ap (λ (x : Torn). after_teardown none id "" x x.errors) torn
          ∙ after_teardown-late near late in
        subst Succeeds (sym whole) (gone-Succeeds stopped_early refl refl)
