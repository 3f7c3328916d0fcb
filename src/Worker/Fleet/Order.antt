-- ===== src/Worker/Fleet/Order.antt =====
-- The placement order as a list of distinct ips, and the database rows beside it.
use mathlib.Core.Bool.{false≢true}
use challenge_orchestrator.Common.{
  ℕ, zero, suc, length, get_elem?, some_eq, ◌<◌, ◌≡◌, refl, sym, ap, ◌∙◌, arith, String, Bool, true,
  false, Option, none, some, List, [], ◌∷◌, ◌++◌, str_eq, eq_iff, if◌then◌else◌, Option-cases,
  Bool-cases, inl, inr,
}
use challenge_orchestrator.Common.Assoc.{Map, lookup, lookup-insert}
use challenge_orchestrator.Worker.Fleet.{upsert, remove_first}

unfoldable pub contains : String → List String → Bool
contains ip [] = false
contains ip (o ∷ os) = if str_eq o ip then true else contains ip os

unfoldable pub IsUnique : List String → Type 0
IsUnique [] = Unit
IsUnique (o ∷ os) = (contains o os ≡ false) × IsUnique os

abbrev pub is_some {ℓ} : {A : Type ℓ} → Option A → Bool
is_some none = false
is_some (some a) = true

pub contains-end :
    (j ip : String) (os : List String)
    → contains j (os ++ ip ∷ []) ≡ (if str_eq ip j then true else contains j os)
unfolding contains
contains-end j ip [] = refl
contains-end j ip (o ∷ os) = ground (arith, contains-end j ip os)

pub end-IsUnique :
    (ip : String) (os : List String)
    → contains ip os ≡ false
    → IsUnique os
    → IsUnique (os ++ ip ∷ [])
unfolding contains IsUnique
end-IsUnique ip [] c u = (refl, tt)
end-IsUnique ip (o ∷ os) c u =
    ground (arith, contains-end o ip os, end-IsUnique ip os, eq_iff ip o, eq_iff o ip)

pub contains-remove_first :
    (j ip : String) (os : List String)
    → IsUnique os
    → contains j (remove_first ip os) ≡ (if str_eq ip j then false else contains j os)
unfolding contains IsUnique remove_first
contains-remove_first j ip [] u = ground arith
contains-remove_first j ip (o ∷ os) u =
    ground (arith, contains-remove_first j ip os u.1, eq_iff o ip, eq_iff o j, eq_iff ip j)

pub remove_first-IsUnique :
    (ip : String) (os : List String) → IsUnique os → IsUnique (remove_first ip os)
unfolding contains IsUnique remove_first
remove_first-IsUnique ip [] u = tt
remove_first-IsUnique ip (o ∷ os) u = ground (
  arith,
  contains-remove_first o ip os u.1,
  remove_first-IsUnique ip os u.1,
  eq_iff o ip,
  eq_iff ip o,
)

pub lookup-upsert :
    (ip public j : String) (rows : Map String)
    → is_some (lookup j (upsert ip public rows))
      ≡ (if str_eq ip j then true else is_some (lookup j rows))
unfolding upsert
lookup-upsert ip public j rows = elim (Option-cases (lookup ip rows)) [
  | inl absent ↦ rw (absent, upsert) (ground (arith, lookup-insert ip j public rows, eq_iff ip j))
  | inr (old, present) ↦
      rw (present, upsert)
        (ground
          (arith, lookup-insert ip j (if str_eq public "" then old else public) rows, eq_iff ip j))
]

pub row_upserted :
    (ip public : String) (rows : Map String) → is_some (lookup ip (upsert ip public rows)) ≡ true
row_upserted ip public rows = ground (arith, lookup-upsert ip public ip rows, eq_iff ip ip)

-- A registered worker stands in the placement order.
pub indexed :
    (ip : String) (os : List String)
    → contains ip os ≡ true
    → (m : ℕ) × (m < length os) × (get_elem? os m ≡ some ip)
unfolding contains
indexed ip [] h = absurd (false≢true h)
indexed ip (o ∷ os) h = elim (Bool-cases (str_eq o ip)) [
  | inl here ↦ (0, omega arith, ap some ((eq_iff o ip).0 here))
  | inr later ↦ let (m, lt, e) = indexed ip os (sym (rw later refl) ∙ h) in (suc m, omega arith, e)
]

pub contains_indexed :
    (ip : String) (os : List String) (m : ℕ) → get_elem? os m ≡ some ip → contains ip os ≡ true
unfolding contains
contains_indexed ip [] m e = cc
contains_indexed ip (o ∷ os) zero e = rw ((eq_iff o ip).1 (some_eq e)) refl
contains_indexed ip (o ∷ os) (suc m) e = rw (contains_indexed ip os m e) (ground arith)
