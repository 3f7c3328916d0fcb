-- ===== src/Launch/Stages.antt =====
-- One launch from its images to its containers (launch, launchStages, ensureImages and imagePresent
-- of cork/launch.go). What the daemon answers to each call is an argument; the calls made, and the
-- errors handed to noteWorkerTransportError, come back as a list.
pub mod Trace
pub mod Images
use challenge_orchestrator.Common.{
  String, Bool, true, false, not, ◌&&◌, ◌||◌, Option, none, some, List, [], ◌∷◌, ◌++◌, str_eq,
  if◌then◌else◌,
}
use challenge_orchestrator.Errors.{Err, other, worker_unreachable, is_not_found, is_pull_timeout}
use challenge_orchestrator.Launch.Admission.{LaunchLimits, launch_failure}
use challenge_orchestrator.Worker.Fleet.{Fleet, instance_client}
use challenge_orchestrator.Worker.Fleet

pub record Image : Type 0 where
  pub host : String
  pub name : String

pub data Action : Type 0 where
  pulled : String → Action
  noted : Err → Action
  slot_taken network_started containers_started slot_released : Action

-- The answers of the daemon, and of the wait for a launch slot; `none` is success.
pub record Answers : Type 0 where
  pub inspect : String → Option Err
  pub pull : String → Option Err
  pub slot : Option Err
  pub network : Option Err
  pub containers : Option Err

pub record Ensured : Type 0 where
  pub any_pulled : Bool
  pub failure : Option Err
  pub actions : List Action

-- A failed pull is noted against the worker unless it ran out of time.
pull_failed : Bool → Err → Ensured
pull_failed any e = record {
  any_pulled = any;
  failure = some e;
  actions = if is_pull_timeout e then [] else noted e ∷ [];
}

abbrev prepend : Action → Ensured → Ensured
prepend a r = record r { actions = a ∷ r.actions }

-- A pull, and the rest of the images, which are ensured by `absent` after it.
unfoldable pub after_pull : Bool → String → Option Err → Ensured → Ensured
unfolding pull_failed
after_pull any name none absent = prepend (pulled name) absent
after_pull any name (some e) absent = pull_failed any e

-- What becomes of one image that the inspect answered for, the rest being ensured by `absent` after
-- a pull and by `present` with none.
unfoldable pub after_inspect : Answers → Bool → String → Option Err → Ensured → Ensured → Ensured
unfolding after_pull
after_inspect d any name none present absent = present
after_inspect d any name (some e) present absent =
    if is_not_found e
    then after_pull any name (d.pull name) absent
    else record { any_pulled = any; failure = some e; actions = noted e ∷ [] }

unfoldable pub ensure_each : Answers → Bool → List Image → Ensured
unfolding after_inspect
ensure_each d any [] = record { any_pulled = any; failure = none; actions = [] }
ensure_each d any (image ∷ rest) =
    let present = ensure_each d any rest in
    let absent = ensure_each d true rest in
    if str_eq image.host "builder"
    then present
    else after_inspect d any image.name (d.inspect image.name) present absent

unfoldable pub ensure_images : Bool → LaunchLimits → Answers → List Image → Ensured
unfolding ensure_each
ensure_images registry limits d images =
    if limits.images_ensured || not registry
    then record { any_pulled = false; failure = none; actions = [] }
    else ensure_each d false images

-- `started` is whether the launch slot was taken.
pub record Launched : Type 0 where
  pub started : Bool
  pub failure : Option Err
  pub actions : List Action

-- The stages within the slot, which the deferred release ends.
within_slot : Answers → List Action → Launched
within_slot d before = elim d.network [
  | some e ↦ record {
    started = true;
    failure = some e;
    actions = before ++ slot_taken ∷ network_started ∷ slot_released ∷ [];
  }
  | none ↦ record {
    started = true;
    failure = d.containers;
    actions = before ++ slot_taken ∷ network_started ∷ containers_started ∷ slot_released ∷ [];
  }
]

after_images : Answers → Ensured → Launched
unfolding within_slot
after_images d r = elim r.failure [
  | some e ↦ record { started = false; failure = some e; actions = r.actions }
  | none ↦ elim d.slot [
    | some e ↦ record { started = false; failure = some e; actions = r.actions }
    | none ↦ within_slot d r.actions
  ]
]

unfoldable pub launch_stages :
    Fleet → String → Bool → LaunchLimits → Answers → List Image → Launched
unfolding after_images
launch_stages f worker registry limits d images = elim (instance_client f worker) [
  | none ↦ record { started = false; failure = some other; actions = [] }
  | some cli ↦
      if not (str_eq worker "") && Fleet.worker_unreachable f worker
      then record { started = false; failure = some worker_unreachable; actions = [] }
      else after_images d (ensure_images registry limits d images)
]

-- `f'` is the fleet when the stages are over, which they or other calls may have changed.
unfoldable pub launch :
    Fleet → Fleet → String → Bool → LaunchLimits → Answers → List Image → Launched
unfolding launch_stages
launch f f' worker registry limits d images =
    let r = launch_stages f worker registry limits d images in
    record r { failure = launch_failure f' worker r.failure }
