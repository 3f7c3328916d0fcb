-- ===== src/Ports/Reassign/Recorded.antt =====
-- The ports that an instance is given are recorded for it, and for no other instance.
use challenge_orchestrator.Common.{
  ℕ, ◌≤◌, String, true, false, Option, none, some, List, [], ◌∷◌, ◌++◌, str_eq, ◌≡◌, sym, subst,
  arith, if-both, if-cases,
}
use challenge_orchestrator.Common.Assoc.{Map, lookup, insert}
use challenge_orchestrator.Ports.{
  PortRow, PortRange, in_range, is_taken, Claim, claimed, held, refused, claim_port, Reservation,
  reserved, disabled, all_in_use, contention, failed, Purpose, row_of, reserve_port,
}
use challenge_orchestrator.Ports.Reserve.{Outcome, reserve_port_lem}
use challenge_orchestrator.Ports.Table.{ClaimOutcome, claim_port_lem}
use challenge_orchestrator.Ports.Reassign.{
  PortAnswers, Assignment, after_previous, assign_port, after_assign, purpose, under_name, or_empty,
  reassign_ports_unchecked, reserve_ports,
}

module _ {κ} (P : List PortRow → Type κ) (r : PortRange) (who : Purpose) where
  after_previous_lem :
      (prev : ℕ) (rows : List PortRow) (answer : Claim × List PortRow)
      (anew : List PortRow → Reservation × List PortRow)
      → P rows
      → in_range r prev ≡ true
      → ClaimOutcome (row_of who prev) rows answer
      → ((table : List PortRow) → P table → Outcome P r who (anew table))
      → Outcome P r who (after_previous prev answer anew)
  unfolding after_previous
  after_previous_lem prev rows (claimed, rows') anew p inside (free, pos, below, e) h =
      (rows, p, free, e, ground arith, ground arith, pos, below)
  after_previous_lem prev rows (held, rows') anew p inside (taken, e) h =
      h rows' (subst P (sym e) p)
  after_previous_lem prev rows (refused e, rows') anew p inside same h = subst P (sym same) p

  pub assign_port_lem :
      (d : PortAnswers) (previous : Option ℕ) (rows : List PortRow)
      → r.low ≤ r.high
      → ((n : ℕ) (table : List PortRow) → P table → P (d.surroundings.others n table))
      → P rows
      → Outcome P r who (assign_port d r who previous rows)
  unfolding assign_port
  assign_port_lem d none rows ordered keeps p =
      reserve_port_lem P r who d.surroundings rows ordered keeps p
  assign_port_lem d (some prev) rows ordered keeps p =
      let anew = λ (table : List PortRow) (q : P table).
        reserve_port_lem P r who d.surroundings table ordered keeps q in
      if-cases (Outcome P r who) (in_range r prev) _ (reserve_port d.surroundings r who rows)
        (λ inside.
          after_previous_lem prev rows (claim_port d.previous_claim (row_of who prev) rows)
            (reserve_port d.surroundings r who) p inside
            (claim_port_lem d.previous_claim (row_of who prev) rows) anew)
        (λ outside. anew rows p)

-- What holds of instance.Ports and the table through every reservation that a loop makes.
module _ {κ} (Q : Map ℕ → List PortRow → Type κ) (answers : List String → PortAnswers)
    (r : PortRange) (id : ℕ) (worker : String) where
  -- A new entry of the ports comes with its row, in a table where the port was free.
  abbrev pub Grows : Type κ
  Grows =
      (assigned : Map ℕ) (before : List PortRow) (name : String) (port : ℕ)
      → Q assigned before
      → is_taken worker port before ≡ false
      → Q (insert name port assigned) (before ++ row_of (purpose id worker name) port ∷ [])

  abbrev pub Stays : Type κ
  Stays =
      (left : List String) (n : ℕ) (assigned : Map ℕ) (table : List PortRow)
      → Q assigned table
      → Q assigned ((answers left).surroundings.others n table)

  after_assign_lem :
      (name : String) (assigned : Map ℕ) (result : Reservation × List PortRow)
      (rest : Map ℕ → List PortRow → Assignment)
      → Grows
      → Outcome (Q assigned) r (purpose id worker name) result
      → ((assigned' : Map ℕ) (table : List PortRow)
          → Q assigned' table
          → Q (rest assigned' table).assigned (rest assigned' table).rows)
      → Q
          (after_assign name assigned result rest).assigned
          (after_assign name assigned result rest).rows
  unfolding after_assign
  after_assign_lem name assigned (reserved port, rows) rest grows (before, q, free, e, _, _, _, _)
        ih =
      let grown = grows assigned before name port q free in
      ih (insert name port assigned) rows (subst (Q (insert name port assigned)) (sym e) grown)
  after_assign_lem name assigned (disabled, rows) rest grows q ih = q
  after_assign_lem name assigned (all_in_use, rows) rest grows q ih = q
  after_assign_lem name assigned (contention, rows) rest grows q ih = q
  after_assign_lem name assigned (failed e, rows) rest grows q ih = q

  Ends : Assignment → Type κ
  Ends a = Q a.assigned a.rows

  under_name_lem :
      (port : String) (found : Option String) (go : String → Assignment) (assigned : Map ℕ)
      (rows : List PortRow)
      → Q assigned rows
      → ((name : String) → Ends (go name))
      → Ends (under_name port found go assigned rows)
  unfolding under_name Ends
  under_name_lem port none go assigned rows q h = q
  under_name_lem port (some name) go assigned rows q h =
      if-both Ends (str_eq name "") _ (go name) q (h name)

  pub reassign_ports_unchecked_lem :
      (names : Map String) (previous : Map ℕ) (ports : List String) (assigned : Map ℕ)
      (rows : List PortRow)
      → r.low ≤ r.high
      → Grows
      → Stays
      → Q assigned rows
      → Q
          (reassign_ports_unchecked answers r id worker names previous ports assigned rows).assigned
          (reassign_ports_unchecked answers r id worker names previous ports assigned rows).rows
  unfolding reassign_ports_unchecked Ends
  reassign_ports_unchecked_lem names previous [] assigned rows ordered grows stays q = q
  reassign_ports_unchecked_lem names previous (port ∷ ports) assigned rows ordered grows stays q =
      under_name_lem port (lookup port names) _ assigned rows q (λ name.
        after_assign_lem name assigned
          (assign_port (answers (port ∷ ports)) r (purpose id worker name) (lookup name previous)
            rows)
          (reassign_ports_unchecked answers r id worker names previous ports) grows
          (assign_port_lem (Q assigned) r (purpose id worker name) (answers (port ∷ ports))
            (lookup name previous) rows ordered (λ n table. stays (port ∷ ports) n assigned table)
            q)
          (λ assigned' table q'.
            reassign_ports_unchecked_lem names previous ports assigned' table ordered grows stays
              q'))

  pub reserve_ports_lem :
      (names : Map String) (ports : List String) (assigned : Map ℕ) (rows : List PortRow)
      → r.low ≤ r.high
      → Grows
      → Stays
      → Q assigned rows
      → Q
          (reserve_ports answers r id worker names ports assigned rows).assigned
          (reserve_ports answers r id worker names ports assigned rows).rows
  unfolding reserve_ports
  reserve_ports_lem names [] assigned rows ordered grows stays q = q
  reserve_ports_lem names (port ∷ ports) assigned rows ordered grows stays q =
      let name = or_empty (lookup port names) in
      after_assign_lem name assigned
        (reserve_port (answers (port ∷ ports)).surroundings r (purpose id worker name) rows)
        (reserve_ports answers r id worker names ports) grows
        (reserve_port_lem (Q assigned) r (purpose id worker name)
          (answers (port ∷ ports)).surroundings rows ordered
          (λ n table. stays (port ∷ ports) n assigned table) q)
        (λ assigned' table q'. reserve_ports_lem names ports assigned' table ordered grows stays q')
