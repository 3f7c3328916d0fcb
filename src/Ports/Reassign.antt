-- ===== src/Ports/Reassign.antt =====
-- The ports of an instance (cork/api.go: the reservations of newInstance;
-- cork/database_instances.go: reassignPorts and reassignPortsUnchecked). A loop over the images and
-- their ports is a recursion on the ports of the images in order; what each port's statements meet
-- is keyed by the ports that are left.
pub mod Recorded
pub mod Owned
use challenge_orchestrator.Common.{
  ℕ, ◌==◌, String, Bool, true, false, ◌&&◌, ◌||◌, Option, none, some, List, [], ◌∷◌, ◌++◌, str_eq,
  if◌then◌else◌, ◌≡◌, refl, sym, ap, subst, ◌∙◌, arith,
}
use challenge_orchestrator.Common.Assoc.{Map, lookup, insert}
use challenge_orchestrator.Errors.{Err}
use challenge_orchestrator.Ports.{
  PortRow, PortRange, in_range, Claim, claimed, held, refused, claim_port, Surroundings,
  Reservation, reserved, disabled, all_in_use, contention, failed, Purpose, row_of, reserve_port,
  release_ports,
}

-- The host and the published ports of an image.
pub record PortImage : Type 0 where
  pub host : String
  pub ports : List String

unfoldable pub published_ports : List PortImage → List String
published_ports [] = []
published_ports (image ∷ images) =
    if str_eq image.host "builder"
    then published_ports images
    else image.ports ++ published_ports images

-- Why the ports of an instance are not all there.
pub data Unassigned : Type 0 where
  unnamed : String → Unassigned
  unreserved : Reservation → Unassigned

-- instance.Ports and the table, with the failure that ended the loop.
pub record Assignment : Type 0 where
  pub failure : Option Unassigned
  pub assigned : Map ℕ
  pub rows : List PortRow

-- What the statements for one port meet: the claim of its previous number, and a reservation.
pub record PortAnswers : Type 0 where
  pub previous_claim : Option Err
  pub surroundings : Surroundings

-- Once the previous number was tried: the row is there, the claim failed, or a new one is reserved.
unfoldable pub after_previous :
    ℕ
    → Claim × List PortRow
    → (List PortRow → Reservation × List PortRow)
    → Reservation × List PortRow
after_previous prev (claimed, rows) anew = (reserved prev, rows)
after_previous prev (refused e, rows) anew = (failed e, rows)
after_previous prev (held, rows) anew = anew rows

unfoldable pub assign_port :
    PortAnswers → PortRange → Purpose → Option ℕ → List PortRow → Reservation × List PortRow
assign_port d r who none rows = reserve_port d.surroundings r who rows
assign_port d r who (some prev) rows =
    if in_range r prev
    then after_previous prev (claim_port d.previous_claim (row_of who prev) rows)
        (reserve_port d.surroundings r who)
    else reserve_port d.surroundings r who rows

-- The loop goes on with the port recorded under its name, or stops.
unfoldable pub after_assign :
    String → Map ℕ → Reservation × List PortRow → (Map ℕ → List PortRow → Assignment) → Assignment
after_assign name assigned (reserved port, rows) rest = rest (insert name port assigned) rows
after_assign name assigned (other, rows) rest = record {
  failure = some (unreserved other);
  assigned = assigned;
  rows = rows;
}

abbrev pub purpose : ℕ → String → String → Purpose
purpose id worker name = record { instance_id = id; worker = worker; name = name }

abbrev pub done : Map ℕ → List PortRow → Assignment
done assigned rows = record { failure = none; assigned = assigned; rows = rows }

abbrev unnamed_port : String → Map ℕ → List PortRow → Assignment
unnamed_port port assigned rows = record {
  failure = some (unnamed port);
  assigned = assigned;
  rows = rows;
}

abbrev pub or_empty : Option String → String
or_empty none = ""
or_empty (some name) = name

-- A port whose name is missing or empty ends the loop.
unfoldable pub under_name :
    String → Option String → (String → Assignment) → Map ℕ → List PortRow → Assignment
under_name port none go assigned rows = unnamed_port port assigned rows
under_name port (some name) go assigned rows =
    if str_eq name "" then unnamed_port port assigned rows else go name

-- The DELETE of releasePorts, whose error is only logged.
abbrev pub try_release : Option Err → ℕ → List PortRow → List PortRow
try_release none id rows = release_ports id rows
try_release (some e) id rows = rows

-- A failure gives back what was reserved.
unfoldable pub given_back : ℕ → Option Err → Option Unassigned → Assignment → Assignment
given_back id release_error none a = a
given_back id release_error (some why) a = record a {
  assigned = [];
  rows = try_release release_error id a.rows;
}

module _ (answers : List String → PortAnswers) (r : PortRange) (id : ℕ) (worker : String) where
  unfoldable pub reassign_ports_unchecked :
      Map String → Map ℕ → List String → Map ℕ → List PortRow → Assignment
  reassign_ports_unchecked names previous [] assigned rows = done assigned rows
  reassign_ports_unchecked names previous (port ∷ ports) assigned rows =
      let rest = reassign_ports_unchecked names previous ports in
      under_name port (lookup port names)
        (λ name.
          after_assign name assigned
            (assign_port (answers (port ∷ ports)) r (purpose id worker name) (lookup name previous)
              rows)
            rest)
        assigned rows

  unfoldable pub reassign_ports :
      Option Err → Map String → Map ℕ → List String → Map ℕ → List PortRow → Assignment
  reassign_ports release_error names previous ports current rows =
      if r.low == 0
      then done current rows
      else let tried = reassign_ports_unchecked names previous ports [] rows in
        given_back id release_error tried.failure tried

  -- The reservations of a new instance.
  unfoldable pub reserve_ports : Map String → List String → Map ℕ → List PortRow → Assignment
  reserve_ports names [] assigned rows = done assigned rows
  reserve_ports names (port ∷ ports) assigned rows =
      let name = or_empty (lookup port names) in
      after_assign name assigned
        (reserve_port (answers (port ∷ ports)).surroundings r (purpose id worker name) rows)
        (reserve_ports names ports)
