-- ===== src/Ports/Allocator.antt =====
-- The table of port assignments as an allocator: a function from a worker and a port to the
-- instance that has it, and the claims and releases on that function.
use challenge_orchestrator.Common.{
  ℕ, ◌==◌, leb, String, Bool, true, false, not, ◌&&◌, ◌||◌, Option, none, some, List, [], ◌∷◌, ◌++◌,
  if◌then◌else◌, ◌≡◌, refl, ap, subst, arith, eq_iff, fun_ext, Bool-cases, inl, inr,
}
use challenge_orchestrator.Errors.{Err}
use challenge_orchestrator.Ports.{
  PortRow, holds, is_taken, Claim, claimed, claim_port, release_ports,
}
use challenge_orchestrator.Ports.Table.{
  IsUnique, IsUnique-append, IsUnique-release, is_taken-release,
}

-- The statements that change the table, one at a time.
pub data Statement : Type 0 where
  claim : Option Err → PortRow → Statement
  release : ℕ → Statement

abbrev is_claimed : Claim → Bool
is_claimed claimed = true
is_claimed _ = false

-- Whether each claim was granted, and the table that is left.
unfoldable pub run : List Statement → List PortRow → List Bool × List PortRow
run [] rows = ([], rows)
run (claim error row ∷ later) rows =
    let (answer, rows') = claim_port error row rows in
    let (answers, end) = run later rows' in (is_claimed answer ∷ answers, end)
run (release id ∷ later) rows = run later (release_ports id rows)

abbrev pub Owners : Type 0
Owners = String → ℕ → Option ℕ

abbrev pub is_none : Option ℕ → Bool
is_none none = true
is_none (some id) = false

abbrev pub give : PortRow → Owners → Owners
give row f worker port = if holds worker port row then some row.instance_id else f worker port

abbrev pub without : ℕ → Option ℕ → Option ℕ
without id none = none
without id (some owner) = if owner == id then none else some owner

abbrev pub take_back : ℕ → Owners → Owners
take_back id f worker port = without id (f worker port)

abbrev pub is_granted : Option Err → PortRow → Owners → Bool
is_granted (some e) row f = false
is_granted none row f = is_none (f row.worker row.port) && not (row.port == 0 || leb 65536 row.port)

-- The same statements on the function.
unfoldable pub replay : List Statement → Owners → List Bool × Owners
replay [] f = ([], f)
replay (claim error row ∷ later) f =
    let granted = is_granted error row f in
    let (answers, end) = replay later (if granted then give row f else f) in
    (granted ∷ answers, end)
replay (release id ∷ later) f = replay later (take_back id f)

-- The function that a table stands for.
unfoldable pub owner : List PortRow → Owners
owner [] worker port = none
owner (row ∷ rows) worker port =
    if holds worker port row then some row.instance_id else owner rows worker port

pub is_taken-owner :
    (worker : String) (port : ℕ) (rows : List PortRow)
    → is_taken worker port rows ≡ not (is_none (owner rows worker port))
unfolding is_taken owner
is_taken-owner worker port [] = refl
is_taken-owner worker port (row ∷ rows) = ground (arith, is_taken-owner worker port rows)

pub owner-append :
    (rows : List PortRow) (row : PortRow) (worker : String) (port : ℕ)
    → owner (rows ++ row ∷ []) worker port ≡ (
        if is_taken worker port rows
        then owner rows worker port
        else if holds worker port row
        then some row.instance_id
        else none)
unfolding is_taken owner
owner-append [] row worker port = refl
owner-append (first ∷ rows) row worker port = ground (arith, owner-append rows row worker port)

holds_same :
    (row : PortRow) (worker : String) (port : ℕ)
    → holds worker port row ≡ true
    → (row.worker ≡ worker) × (row.port ≡ port)
unfolding holds
holds_same row worker port h = ground (arith, eq_iff row.worker worker)

pub owner-claim :
    (rows : List PortRow) (row : PortRow) (worker : String) (port : ℕ)
    → is_taken row.worker row.port rows ≡ false
    → owner (rows ++ row ∷ []) worker port ≡ give row (owner rows) worker port
owner-claim rows row worker port free = elim (Bool-cases (holds worker port row)) [
  | inl e ↦
      let (w, p) = holds_same row worker port e in
      let free' : is_taken worker port rows ≡ false =
        subst (λ (x : String). is_taken x port rows ≡ false) w
          (subst (λ (x : ℕ). is_taken row.worker x rows ≡ false) p free) in
      ground (arith, owner-append rows row worker port, e, free')
  | inr e ↦ ground (arith, owner-append rows row worker port, e, is_taken-owner worker port rows)
]

pub owner-release :
    (id : ℕ) (rows : List PortRow) (worker : String) (port : ℕ)
    → IsUnique rows
    → owner (release_ports id rows) worker port ≡ take_back id (owner rows) worker port
unfolding owner release_ports IsUnique
owner-release id [] worker port u = refl
owner-release id (row ∷ rows) worker port (free, u) = elim (Bool-cases (holds worker port row)) [
  | inl e ↦
      let (w, p) = holds_same row worker port e in
      let free' : is_taken worker port rows ≡ false =
        subst (λ (x : String). is_taken x port rows ≡ false) w
          (subst (λ (x : ℕ). is_taken row.worker x rows ≡ false) p free) in
      ground (
        arith,
        e,
        owner-release id rows worker port u,
        is_taken-owner worker port (release_ports id rows),
        is_taken-release worker port id rows free',
      )
  | inr e ↦ ground (arith, e, owner-release id rows worker port u)
]

-- A claim on the table and on its function.
claim_port-refines :
    (error : Option Err) (row : PortRow) (rows : List PortRow)
    → IsUnique rows
    → IsUnique (claim_port error row rows).1
      × (is_claimed (claim_port error row rows).0 ≡ is_granted error row (owner rows))
      × (owner (claim_port error row rows).1
          ≡ (if is_granted error row (owner rows) then give row (owner rows) else owner rows))
unfolding claim_port
claim_port-refines (some e) row rows u = (u, refl, refl)
claim_port-refines none row rows u = elim (Bool-cases (is_taken row.worker row.port rows)) [
  | inl e ↦
      let held_by : is_none (owner rows row.worker row.port) ≡ false =
        ground (arith, is_taken-owner row.worker row.port rows, e) in
      rw (e, held_by) (u, refl, refl)
  | inr e ↦
      let unheld : is_none (owner rows row.worker row.port) ≡ true =
        ground (arith, is_taken-owner row.worker row.port rows, e) in
      rw (e, unheld)
        (elim (Bool-cases (row.port == 0 || leb 65536 row.port)) [
          | inl off ↦ rw off (u, refl, refl)
          | inr on ↦ rw on (
            IsUnique-append rows row u e,
            refl,
            fun_ext (λ worker. fun_ext (λ port. owner-claim rows row worker port e)),
          )
        ])
]

-- Whatever is claimed and released, starting from a table with no port of a worker assigned twice,
-- the claims are granted as the function grants them, the table stays such a table, and it stands
-- for the function that the same statements leave.
pub run_refines :
    (statements : List Statement) (rows : List PortRow)
    → IsUnique rows
    → ((run statements rows).0 ≡ (replay statements (owner rows)).0)
      × (owner (run statements rows).1 ≡ (replay statements (owner rows)).1)
      × IsUnique (run statements rows).1
unfolding run replay
run_refines [] rows u = (refl, refl, u)
run_refines (claim error row ∷ later) rows u =
    let (u', answer, next) = claim_port-refines error row rows u in
    let (answers, end, u'') = run_refines later (claim_port error row rows).1 u' in
    rw⁻¹ (next, answer)
      (ap (λ (l : List Bool). is_claimed (claim_port error row rows).0 ∷ l) answers, end, u'')
run_refines (release id ∷ later) rows u =
    let next : owner (release_ports id rows) ≡ take_back id (owner rows) =
      fun_ext (λ worker. fun_ext (λ port. owner-release id rows worker port u)) in
    rw⁻¹ (next, replay) (run_refines later (release_ports id rows) (IsUnique-release id rows u))
