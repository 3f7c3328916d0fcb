-- ===== src/Routing/Load/Injective.antt =====
-- One orchestrator is one destination.
use challenge_orchestrator.Common.{
  ◌≡◌, ◌≢◌, inl, inr, refl, sym, ◌∙◌, arith, true, false, not, ◌||◌, String, Option, none, some,
  List, [], ◌∷◌, str_eq, eq_iff, length, Option-cases, if-cases, some_eq,
}
use challenge_orchestrator.Common.Assoc.{Map, lookup, insert, lookup-insert}
use challenge_orchestrator.Routing.{Destinations, resolve}
use challenge_orchestrator.Routing.Load.{
  UrlParse, trim_right, valid_address, load_each, only_name, finish_load, File, absent, unreadable,
  unparsable, parsed, load_destinations,
}

-- Every destination has a name and a valid address, and its address leads back to it.
record IsInverse (parse : UrlParse) (by_address by_name : Map String) : Type 0 where
  back :
      (name address : String)
      → lookup name by_name ≡ some address
      → lookup address by_address ≡ some name
  valid :
      (name address : String)
      → lookup name by_name ≡ some address
      → (name ≢ "") × (valid_address parse address ≡ true)

insert-IsInverse :
    (parse : UrlParse) (by_address by_name : Map String) (name address : String)
    → str_eq name "" ≡ false
    → valid_address parse address ≡ true
    → lookup address by_address ≡ none
    → IsInverse parse by_address by_name
    → IsInverse parse (insert address name by_address) (insert name address by_name)
insert-IsInverse parse by_address by_name name address named valid fresh h = record {
  back = λ n a e. ground (
    arith,
    lookup-insert name n address by_name,
    lookup-insert address a name by_address,
    eq_iff name n,
    eq_iff address a,
    h.back n a,
  );
  valid = λ n a e.
      ground
        (arith, lookup-insert name n address by_name, eq_iff name n, eq_iff name "", h.valid n a);
}

-- What holds of the loop's result, if it has one.
Loaded : UrlParse → Option (Map String) → Type 0
Loaded parse none = Unit
Loaded parse (some by_name) = (by_address : Map String) × IsInverse parse by_address by_name

load_each-Loaded :
    (parse : UrlParse) (rows : List (String × String)) (by_address by_name : Map String)
    → IsInverse parse by_address by_name
    → Loaded parse (load_each parse rows by_address by_name)
unfolding load_each Loaded
load_each-Loaded parse [] by_address by_name h = (by_address, h)
load_each-Loaded parse ((name, value) ∷ rest) by_address by_name h =
    let address = trim_right value in
    if-cases (Loaded parse) (str_eq name "" || not (valid_address parse address)) none _ (λ bad. tt)
      (λ good. elim (Option-cases (lookup address by_address)) [
        | inr (first, taken) ↦ rw taken tt
        | inl fresh ↦ rw fresh (
            load_each-Loaded parse rest (insert address name by_address)
              (insert name address by_name)
              (insert-IsInverse parse by_address by_name name address (ground arith) (ground arith)
                fresh h))
      ])

empty-IsInverse : (parse : UrlParse) → IsInverse parse [] []
unfolding lookup
empty-IsInverse parse = record { back = λ n a e. cc; valid = λ n a e. cc }

finish_load-Loaded :
    (parse : UrlParse) (o : Option (Map String)) (d : Destinations)
    → Loaded parse o
    → finish_load o ≡ some d
    → ((by_address : Map String) × IsInverse parse by_address d.by_name)
      × (d.def_name ≡ only_name d.by_name)
unfolding finish_load Loaded
finish_load-Loaded parse none d h e = cc
finish_load-Loaded parse (some by_name) d (by_address, h) e =
    rw⁻¹ (some_eq e) ((by_address, h), refl)

no_destinations :
    (parse : UrlParse) (d : Destinations)
    → some (record { by_name = []; def_name = "" }) ≡ some d
    → ((by_address : Map String) × IsInverse parse by_address d.by_name)
      × (d.def_name ≡ only_name d.by_name)
unfolding only_name
no_destinations parse d e = rw⁻¹ (some_eq e) (([], empty-IsInverse parse), refl)

load_destinations-Loaded :
    (parse : UrlParse) (path : String) (file : File) (d : Destinations)
    → load_destinations parse path file ≡ some d
    → ((by_address : Map String) × IsInverse parse by_address d.by_name)
      × (d.def_name ≡ only_name d.by_name)
unfolding load_destinations
load_destinations-Loaded parse path file d =
    if-cases
      (λ (o : Option Destinations).
        o ≡ some d
        → ((by_address : Map String) × IsInverse parse by_address d.by_name)
          × (d.def_name ≡ only_name d.by_name))
      (str_eq path "") _ _ (λ unnamed e. no_destinations parse d e) (λ named. of_file file)
  where
    of_file :
        (file : File)
        → (elim file [
          | absent ↦ some (record { by_name = []; def_name = "" })
          | unreadable ↦ none
          | unparsable ↦ none
          | parsed rows ↦ finish_load (load_each parse rows [] [])
        ])
          ≡ some d
        → ((by_address : Map String) × IsInverse parse by_address d.by_name)
          × (d.def_name ≡ only_name d.by_name)
    of_file absent e = no_destinations parse d e
    of_file unreadable e = cc
    of_file unparsable e = cc
    of_file (parsed rows) e =
        finish_load-Loaded parse (load_each parse rows [] []) d
          (load_each-Loaded parse rows [] [] (empty-IsInverse parse)) e

-- Destinations that were loaded, whatever the file holds: each has a name and a valid address, and
-- two with one address are one.
pub load_destinations-injective :
    (parse : UrlParse) (path : String) (file : File) (d : Destinations)
    (name other address : String)
    → load_destinations parse path file ≡ some d
    → lookup name d.by_name ≡ some address
    → lookup other d.by_name ≡ some address
    → (name ≡ other) × (name ≢ "") × (valid_address parse address ≡ true)
load_destinations-injective parse path file d name other address e a b =
    let ((by_address, h), def) = load_destinations-Loaded parse path file d e in
    let (named, valid) = h.valid name address a in
    (some_eq (sym (h.back name address a) ∙ h.back other address b), named, valid)

only_one :
    (by_name : Map String) (def_name : String)
    → length by_name ≡ 1
    → def_name ≡ only_name by_name
    → (name address : String) × (by_name ≡ (name, address) ∷ [])
      × (resolve (record { by_name = by_name; def_name = def_name }) "" ≡ some address)
unfolding resolve only_name lookup
only_one [] def_name h e = absurd (omega (arith, h))
only_one ((name, address) ∷ []) def_name h e =
    (name, address, refl, ground (arith, eq_iff name name))
only_one (r ∷ s ∷ rest) def_name h e = absurd (omega (arith, h))

-- With exactly one destination loaded, a schema that names none goes to it.
pub resolve-load_destinations :
    (parse : UrlParse) (path : String) (file : File) (d : Destinations)
    → load_destinations parse path file ≡ some d
    → length d.by_name ≡ 1
    → (name address : String) × (d.by_name ≡ (name, address) ∷ []) × (resolve d "" ≡ some address)
resolve-load_destinations parse path file d e one =
    only_one d.by_name d.def_name one (load_destinations-Loaded parse path file d e).1
