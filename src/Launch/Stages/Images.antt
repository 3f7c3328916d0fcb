-- ===== src/Launch/Stages/Images.antt =====
-- A launch that goes past its images has them all.
use challenge_orchestrator.Common.{
  ◌≡◌, ◌⊎◌, inl, inr, refl, sym, arith, String, Bool, true, false, Option, none, some, List, [],
  ◌∷◌, str_eq, eq_iff, if-both, if-cases, subst, All,
}
use challenge_orchestrator.Errors.{Err, is_not_found}
use challenge_orchestrator.Launch.Admission.{LaunchLimits}
use challenge_orchestrator.Launch.Stages.{
  Image, Action, pulled, Answers, Ensured, after_pull, after_inspect, ensure_each, ensure_images,
}
use challenge_orchestrator.Launch.Stages.Trace.{pulls}

-- The image is a builder's, or the daemon answered that it holds it, or it was pulled.
abbrev pub IsHeld : Answers → List Action → Image → Type 0
IsHeld d acts image =
    (str_eq image.host "builder" ≡ true)
    ⊎ (d.inspect image.name ≡ none)
    ⊎ (pulls image.name acts ≡ true)

AreHeld-pulled :
    (d : Answers) (name : String) (acts : List Action) (images : List Image)
    → All (IsHeld d acts) images
    → All (IsHeld d (pulled name ∷ acts)) images
unfolding pulls
AreHeld-pulled d name acts [] h = tt
AreHeld-pulled d name acts (image ∷ rest) h = ground (arith, AreHeld-pulled d name acts rest)

-- What the recursion gives for the rest of the images, whichever way the first one goes.
Rest : Answers → List Image → Ensured → Type 0
Rest d images r = r.failure ≡ none → All (IsHeld d r.actions) images

pulled_or_failed :
    (d : Answers) (any : Bool) (image : Image) (rest : List Image) (o : Option Err)
    (absent : Ensured)
    → Rest d rest absent
    → Rest d (image ∷ rest) (after_pull any image.name o absent)
unfolding Rest after_pull pulls
pulled_or_failed d any image rest none absent a ok = (
  inr (inr (ground (arith, eq_iff image.name image.name))),
  AreHeld-pulled d image.name absent.actions rest (a ok),
)
pulled_or_failed d any image rest (some e) absent a ok = cc

held_or_pulled :
    (d : Answers) (any : Bool) (image : Image) (rest : List Image) (o : Option Err)
    (present absent : Ensured)
    → d.inspect image.name ≡ o
    → Rest d rest present
    → Rest d rest absent
    → Rest d (image ∷ rest) (after_inspect d any image.name o present absent)
unfolding Rest after_inspect
held_or_pulled d any image rest none present absent there p a = λ ok. (inr (inl there), p ok)
held_or_pulled d any image rest (some e) present absent there p a =
    if-both (Rest d (image ∷ rest)) (is_not_found e) _ _
      (pulled_or_failed d any image rest (d.pull image.name) absent a) (λ ok. cc)

ensure_each-held :
    (d : Answers) (any : Bool) (images : List Image) → Rest d images (ensure_each d any images)
unfolding ensure_each Rest
ensure_each-held d any [] = λ ok. tt
ensure_each-held d any (image ∷ rest) =
    if-cases (Rest d (image ∷ rest)) (str_eq image.host "builder") _ _
      (λ builder ok. (inl builder, ensure_each-held d any rest ok))
      (λ runs.
        held_or_pulled d any image rest (d.inspect image.name) (ensure_each d any rest)
          (ensure_each d true rest) refl (ensure_each-held d any rest)
          (ensure_each-held d true rest))

ensure_images-each :
    (limits : LaunchLimits) (d : Answers) (images : List Image)
    → limits.images_ensured ≡ false
    → ensure_images true limits d images ≡ ensure_each d false images
unfolding ensure_images
ensure_images-each limits d images mine = ground arith

-- With a registry, and unless its caller did so itself, a launch whose images were ensured with no
-- failure has every image of its build but the builder's: the daemon held it, or it was pulled.
pub ensure_images-IsHeld :
    (limits : LaunchLimits) (d : Answers) (images : List Image)
    → limits.images_ensured ≡ false
    → (ensure_images true limits d images).failure ≡ none
    → All (IsHeld d (ensure_images true limits d images).actions) images
unfolding Rest
ensure_images-IsHeld limits d images mine =
    subst (Rest d images) (sym (ensure_images-each limits d images mine))
      (ensure_each-held d false images)
