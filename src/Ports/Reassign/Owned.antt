-- ===== src/Ports/Reassign/Owned.antt =====
-- The ports that newInstance and reassignPorts end with belong to the instance in the table, and a
-- failed reassignment leaves it none.
use challenge_orchestrator.Common.{
  ℕ, ◌≤◌, ◌<◌, String, false, Option, none, some, List, [], ◌∷◌, ◌++◌, str_eq, ◌≡◌, ◌≢◌, refl, sym,
  ap, subst, ◌∙◌, arith, eq_refl, Bool-cases, some_eq, inl, inr,
}
use challenge_orchestrator.Common.Assoc.{Map, lookup, lookup-insert}
use challenge_orchestrator.Errors.{Err}
use challenge_orchestrator.Ports.{PortRow, PortRange, is_taken, row_of, holds}
use challenge_orchestrator.Ports.Table.{IsUnique, IsUnique-append}
use challenge_orchestrator.Ports.Allocator.{owner, owner-append, owner-release, is_taken-owner}
use challenge_orchestrator.Ports.Reassign.{
  PortAnswers, Assignment, Unassigned, purpose, given_back, reassign_ports,
  reassign_ports_unchecked, reserve_ports,
}
use challenge_orchestrator.Ports.Reassign.Recorded.{
  Grows, reserve_ports_lem, reassign_ports_unchecked_lem,
}

module _ (answers : List String → PortAnswers) (r : PortRange) (id : ℕ) (worker : String) where
  -- Each port of the instance is a row of it.
  abbrev Backed : Map ℕ → List PortRow → Type 0
  Backed assigned rows =
      (name : String) (port : ℕ)
      → lookup name assigned ≡ some port
      → owner rows worker port ≡ some id

  owner-row :
      (before : List PortRow) (name : String) (port : ℕ)
      → is_taken worker port before ≡ false
      → owner (before ++ row_of (purpose id worker name) port ∷ []) worker port ≡ some id
  unfolding holds
  owner-row before name port free = ground (
    arith,
    owner-append before (row_of (purpose id worker name) port) worker port,
    eq_refl worker,
  )

  owner-older :
      (before : List PortRow) (row : PortRow) (port : ℕ)
      → owner before worker port ≡ some id
      → owner (before ++ row ∷ []) worker port ≡ some id
  owner-older before row port own =
      ground (arith, owner-append before row worker port, is_taken-owner worker port before)

  Backed-Grows : Grows Backed answers r id worker
  Backed-Grows assigned before name port q free asked found e =
      let row = row_of (purpose id worker name) port in
      elim (Bool-cases (str_eq name asked)) [
        | inl same ↦
            let here : port ≡ found =
              some_eq (ground (arith, lookup-insert name asked port assigned, same, e)) in
            subst (λ (p : ℕ). owner (before ++ row ∷ []) worker p ≡ some id) here
              (owner-row before name port free)
        | inr other ↦
            let there : lookup asked assigned ≡ some found =
              ground (arith, lookup-insert name asked port assigned, other, e) in
            owner-older before row found (q asked found there)
      ]

  Backed-none : (rows : List PortRow) → Backed [] rows
  unfolding lookup
  Backed-none rows asked found e = cc

  -- Where others leave alone the ports that the instance owns, every port recorded on a new instance
  -- once the reservations end, all made or not, is a row of that instance on its worker.
  pub reserve_ports-owner :
      (names : Map String) (ports : List String) (rows : List PortRow) (name : String) (port : ℕ)
      → r.low ≤ r.high
      → ((left : List String) (n port : ℕ) (table : List PortRow)
          → owner table worker port ≡ some id
          → owner ((answers left).surroundings.others n table) worker port ≡ some id)
      → lookup name (reserve_ports answers r id worker names ports [] rows).assigned ≡ some port
      → owner (reserve_ports answers r id worker names ports [] rows).rows worker port ≡ some id
  reserve_ports-owner names ports rows name port ordered keeps e =
      reserve_ports_lem Backed answers r id worker names ports [] rows ordered Backed-Grows
        (λ left n assigned table q asked found e'. keeps left n found table (q asked found e'))
        (Backed-none rows) name port e

  AllUnique : Map ℕ → List PortRow → Type 0
  AllUnique assigned rows = IsUnique rows

  -- Where others keep each port of a worker to one row, the reservations of a new instance do too,
  -- however they end.
  pub reserve_ports-IsUnique :
      (names : Map String) (ports : List String) (assigned : Map ℕ) (rows : List PortRow)
      → r.low ≤ r.high
      → ((left : List String) (n : ℕ) (table : List PortRow)
          → IsUnique table
          → IsUnique ((answers left).surroundings.others n table))
      → IsUnique rows
      → IsUnique (reserve_ports answers r id worker names ports assigned rows).rows
  unfolding AllUnique
  reserve_ports-IsUnique names ports assigned rows ordered keeps u =
      reserve_ports_lem AllUnique answers r id worker names ports assigned rows ordered
        (λ assigned before name port. IsUnique-append before (row_of (purpose id worker name) port))
        (λ left n assigned. keeps left n) u

  unchecked-IsUnique :
      (names : Map String) (previous : Map ℕ) (ports : List String) (assigned : Map ℕ)
      (rows : List PortRow)
      → r.low ≤ r.high
      → ((left : List String) (n : ℕ) (table : List PortRow)
          → IsUnique table
          → IsUnique ((answers left).surroundings.others n table))
      → IsUnique rows
      → IsUnique
          (reassign_ports_unchecked answers r id worker names previous ports assigned rows).rows
  unfolding AllUnique
  unchecked-IsUnique names previous ports assigned rows ordered keeps u =
      reassign_ports_unchecked_lem AllUnique answers r id worker names previous ports assigned rows
        ordered
        (λ assigned before name port. IsUnique-append before (row_of (purpose id worker name) port))
        (λ left n assigned. keeps left n) u

  given_back-failure :
      (release_error : Option Err) (failure : Option Unassigned) (a : Assignment)
      → a.failure ≡ failure
      → (given_back id release_error failure a).failure ≡ failure
  unfolding given_back
  given_back-failure release_error none a e = e
  given_back-failure release_error (some why) a e = e

  reassign_ports-tried :
      (release_error : Option Err) (names : Map String) (previous current : Map ℕ)
      (ports : List String) (rows : List PortRow)
      → 0 < r.low
      → let tried = reassign_ports_unchecked answers r id worker names previous ports [] rows in
        reassign_ports answers r id worker release_error names previous ports current rows
        ≡ given_back id release_error tried.failure tried
  unfolding reassign_ports
  reassign_ports-tried release_error names previous current ports rows low = ground arith

  given_back-released :
      (failure : Option Unassigned) (a : Assignment) (why : Unassigned) (worker' : String)
      (port : ℕ)
      → failure ≡ some why
      → IsUnique a.rows
      → owner (given_back id none failure a).rows worker' port ≢ some id
  unfolding given_back
  given_back-released none a why worker' port e u own = absurd (cc)
  given_back-released (some why') a why worker' port e u own =
      ground (arith, owner-release id a.rows worker' port u)

  -- With a port range, where others keep each port of a worker to one row, a reassignment that fails
  -- and can release its ports leaves no port of any worker to the instance.
  pub reassign_ports-released :
      (names : Map String) (previous current : Map ℕ) (ports : List String) (rows : List PortRow)
      (why : Unassigned) (worker' : String) (port : ℕ)
      → 0 < r.low
      → r.low ≤ r.high
      → ((left : List String) (n : ℕ) (table : List PortRow)
          → IsUnique table
          → IsUnique ((answers left).surroundings.others n table))
      → IsUnique rows
      → (reassign_ports answers r id worker none names previous ports current rows).failure
        ≡ some why
      → owner
          (reassign_ports answers r id worker none names previous ports current rows).rows
          worker'
          port
        ≢ some id
  reassign_ports-released names previous current ports rows why worker' port low ordered keeps u e =
      let tried = reassign_ports_unchecked answers r id worker names previous ports [] rows in
      let same = reassign_ports-tried none names previous current ports rows low in
      let failed : tried.failure ≡ some why =
        sym (given_back-failure none tried.failure tried refl)
        ∙ (ap (λ (a : Assignment). a.failure) (sym same) ∙ e) in
      subst (λ (a : Assignment). owner a.rows worker' port ≢ some id) (sym same)
        (given_back-released tried.failure tried why worker' port failed
          (unchecked-IsUnique names previous ports [] rows ordered keeps u))
