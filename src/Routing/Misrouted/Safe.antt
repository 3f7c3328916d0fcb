-- ===== src/Routing/Misrouted/Safe.antt =====
-- A run that reports no problem makes no second server of a schema.
use challenge_orchestrator.Common.{
  ◌≡◌, ◌⊎◌, ◌≤◌, inl, inr, refl, arith, Bool, true, false, not, String, Option, none, some, List,
  [], ◌∷◌, ◌++◌, str_eq, keep, length, All, if-cases,
}
use challenge_orchestrator.Common.Assoc.{lookup}
use challenge_orchestrator.Routing.{Schema, Destinations, Route, server_route_name}
use challenge_orchestrator.Routing.Misrouted.{
  Serves, is_dead, answered, ask, Found, nowhere, unknown, served_by, found_or, served_among,
  schema_served_elsewhere, Problem, elsewhere_problem, target_problem, check_elsewhere,
  check_target, misrouted_schema, misrouted_route, misrouted_in_route, misrouted_in_routes,
  misrouted_schemas,
}

answered-plain :
    (name : String) (dead : List String) (o : Option Bool) (has : Bool)
    → (answered name dead o).0 ≡ some has
    → o ≡ some has
unfolding answered
answered-plain name dead none has h = h
answered-plain name dead (some b) has h = h

ask-answer :
    (serves : Serves) (dead : List String) (name address schema : String) (has : Bool)
    → (ask serves dead name address schema).0 ≡ some has
    → serves address schema ≡ some has
unfolding ask
ask-answer serves dead name address schema has =
    if-cases (λ (r : Option Bool × List String). r.0 ≡ some has → serves address schema ≡ some has)
      (is_dead name dead) _ _ (λ silent h. cc)
      (λ asked. answered-plain name dead (serves address schema) has)

-- Of these destinations each has been asked and does not serve the schema.
abbrev pub NotServed : Serves → String → List (String × String) → Type 0
NotServed serves schema = All (λ (e : String × String). serves e.1 schema ≡ some false)

found_or-nowhere :
    (name : String) (r : Option Bool × List String) (later : List String → Found × List String)
    → (found_or name r later).0 ≡ nowhere
    → (r.0 ≡ some false) × ((later r.1).0 ≡ nowhere)
unfolding found_or
found_or-nowhere name (none, dead) later h = cc
found_or-nowhere name (some true, dead) later h = cc
found_or-nowhere name (some false, dead) later h = (refl, h)

served_among-NotServed :
    (serves : Serves) (schema : String) (es : List (String × String)) (dead : List String)
    → (served_among serves schema es dead).0 ≡ nowhere
    → NotServed serves schema es
unfolding served_among
served_among-NotServed serves schema [] dead h = tt
served_among-NotServed serves schema ((name, address) ∷ rest) dead h =
    let (not_here, later) = found_or-nowhere name (ask serves dead name address schema) _ h in
    (
      ask-answer serves dead name address schema false not_here,
      served_among-NotServed serves schema rest _ later,
    )

-- The destination that the schema is routed to serves it already, or no other one does.
abbrev pub IsSafe : Serves → Destinations → String → Schema → Type 0
IsSafe serves d name s =
    ((address : String) × (lookup name d.by_name ≡ some address)
      × (serves address s.name ≡ some true))
    ⊎ NotServed serves s.name (keep (λ e. not (str_eq e.0 name)) d.by_name)

elsewhere-none :
    (schema : String) (r : Found × List String)
    → (elsewhere_problem schema r).0 ≡ []
    → r.0 ≡ nowhere
unfolding elsewhere_problem
elsewhere-none schema (nowhere, dead) h = refl
elsewhere-none schema (unknown, dead) h = cc
elsewhere-none schema (served_by name, dead) h = cc

target-none :
    (schema : String) (r : Option Bool × List String)
    (later : List String → List Problem × List String)
    → (target_problem schema r later).0 ≡ []
    → (r.0 ≡ some true) ⊎ ((later r.1).0 ≡ [])
unfolding target_problem
target-none schema (none, dead) later h = cc
target-none schema (some true, dead) later h = inl refl
target-none schema (some false, dead) later h = inr h

check_elsewhere-NotServed :
    (serves : Serves) (d : Destinations) (name schema : String) (dead : List String)
    → (check_elsewhere serves d name schema dead).0 ≡ []
    → NotServed serves schema (keep (λ e. not (str_eq e.0 name)) d.by_name)
unfolding check_elsewhere schema_served_elsewhere
check_elsewhere-NotServed serves d name schema dead h =
    served_among-NotServed serves schema _ dead (elsewhere-none schema _ h)

check_target-IsSafe :
    (serves : Serves) (d : Destinations) (name : String) (s : Schema) (dead : List String)
    (target : Option String)
    → lookup name d.by_name ≡ target
    → (check_target serves d name s.name dead target).0 ≡ []
    → IsSafe serves d name s
unfolding check_target
check_target-IsSafe serves d name s dead none e h =
    inr (check_elsewhere-NotServed serves d name s.name dead h)
check_target-IsSafe serves d name s dead (some address) e h =
    let asked = ask serves dead name address s.name in
    elim (target-none s.name asked (check_elsewhere serves d name s.name) h) [
      | inl already ↦ inl (address, e, ask-answer serves dead name address s.name true already)
      | inr none_else ↦ inr (check_elsewhere-NotServed serves d name s.name asked.1 none_else)
    ]

append-none : {A : Type 0} (xs ys : List A) → xs ++ ys ≡ [] → (xs ≡ []) × (ys ≡ [])
append-none [] ys h = (refl, h)
append-none (x ∷ xs) ys h = cc

misrouted_in_route-IsSafe :
    (serves : Serves) (d : Destinations) (name : String) (ss : List Schema) (dead : List String)
    → (misrouted_in_route serves d name ss dead).0 ≡ []
    → All (IsSafe serves d name) ss
unfolding misrouted_in_route misrouted_schema
misrouted_in_route-IsSafe serves d name [] dead h = tt
misrouted_in_route-IsSafe serves d name (s ∷ rest) dead h =
    let (first, later) = append-none (misrouted_schema serves d name s.name dead).0 _ h in
    (
      check_target-IsSafe serves d name s dead (lookup name d.by_name) refl first,
      misrouted_in_route-IsSafe serves d name rest _ later,
    )

-- A route that --server made, or one whose schemas are all safe to hand over.
abbrev pub IsSafeRoute : Serves → Destinations → Route → Type 0
IsSafeRoute serves d r =
    (str_eq r.name server_route_name ≡ true) ⊎ All (IsSafe serves d r.name) r.schemas

misrouted_route-IsSafeRoute :
    (serves : Serves) (d : Destinations) (r : Route) (dead : List String)
    → (misrouted_route serves d r dead).0 ≡ []
    → IsSafeRoute serves d r
unfolding misrouted_route
misrouted_route-IsSafeRoute serves d r dead =
    if-cases (λ (x : List Problem × List String). x.0 ≡ [] → IsSafeRoute serves d r)
      (str_eq r.name server_route_name) _ _ (λ server h. inl server)
      (λ named h. inr (misrouted_in_route-IsSafe serves d r.name r.schemas dead h))

misrouted_in_routes-IsSafe :
    (serves : Serves) (d : Destinations) (routes : List Route) (dead : List String)
    → (misrouted_in_routes serves d routes dead).0 ≡ []
    → All (IsSafeRoute serves d) routes
unfolding misrouted_in_routes
misrouted_in_routes-IsSafe serves d [] dead h = tt
misrouted_in_routes-IsSafe serves d (r ∷ routes) dead h =
    let (first, later) = append-none (misrouted_route serves d r dead).0 _ h in
    (
      misrouted_route-IsSafeRoute serves d r dead first,
      misrouted_in_routes-IsSafe serves d routes _ later,
    )

-- With two destinations or more, if no problem is reported, every schema of a route that --server
-- did not make is safe to hand over: its own destination answered that it serves it already, or
-- every other destination answered that it does not.
pub misrouted_schemas-IsSafe :
    (serves : Serves) (routes : List Route) (d : Destinations)
    → 2 ≤ length d.by_name
    → misrouted_schemas serves routes d ≡ []
    → All (IsSafeRoute serves d) routes
unfolding misrouted_schemas
misrouted_schemas-IsSafe serves routes d several h =
    misrouted_in_routes-IsSafe serves d routes [] (ground arith)
