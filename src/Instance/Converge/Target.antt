-- ===== src/Instance/Converge/Target.antt =====
-- A converge that has instances to spare leaves its build the first ones of them.
use challenge_orchestrator.Common.{
  ℕ, ◌-◌, ◌≤◌, Bool, Option, none, some, [], ◌++◌, length, take, ◌≡◌, sym, ap, ◌∙◌, arith, some_eq,
}
use challenge_orchestrator.Ports.{PortRange}
use challenge_orchestrator.Instance.{Database}
use challenge_orchestrator.Instance.Create.{Build, Surroundings}
use challenge_orchestrator.Instance.Converge.{
  build_instances, StopAnswers, Progress, stop_surplus, drop, launch_missing, after_surplus,
  converge_build_instances,
}
use challenge_orchestrator.Instance.Converge.Surplus.{
  IsDistinct, stop_surplus-forgets, build_instances-forget_all, leave_all-drop, no_errors,
}
use challenge_orchestrator.Worker.Timing.{Timing}
use challenge_orchestrator.Worker.Fleet.{Fleet}

-- With at least as many instances as it is to have, a converge that meets no error leaves its build
-- exactly the first of its instances, as many as it is to have.
pub converge_build_instances-surplus :
    (t : Timing) (r : PortRange) (registry : Bool) (launches : ℕ → Surroundings)
    (looked_up : Option Build) (d : ℕ → StopAnswers) (build : Build) (target : ℕ) (f : Fleet)
    (db : Database) (p : Progress)
    → target ≤ length (build_instances build.id db.instances)
    → IsDistinct (build_instances build.id db.instances)
    → converge_build_instances t r registry launches looked_up none d build target f db ≡ some p
    → p.errors ≡ []
    → build_instances build.id p.db.instances ≡ take target (build_instances build.id db.instances)
unfolding converge_build_instances after_surplus launch_missing
converge_build_instances-surplus t r registry launches looked_up d build target f db p enough
      distinct result none_left =
    let ids = build_instances build.id db.instances in
    let q = stop_surplus t d (drop target ids) f db in
    let nothing : target - length ids ≡ 0 = omega arith in
    let whole : p ≡ record { errors = q.errors ++ []; fleet = q.fleet; db = q.db } = some_eq (
      sym result
      ∙ ap
          (λ (n : ℕ).
            after_surplus t r registry launches looked_up q
              (launch_missing t r registry launches looked_up n build q.fleet q.db))
          nothing) in
    let (fine, _) =
      no_errors q.errors [] (sym (ap (λ (x : Progress). x.errors) whole) ∙ none_left) in
    ap (λ (x : Progress). build_instances build.id x.db.instances) whole
    ∙ ap (build_instances build.id) (stop_surplus-forgets t d (drop target ids) f db fine)
    ∙ build_instances-forget_all build.id (drop target ids) db.instances
    ∙ leave_all-drop target ids distinct
