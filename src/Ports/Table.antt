-- ===== src/Ports/Table.antt =====
-- The table of port assignments under its statements: no port of a worker is assigned twice.
use challenge_orchestrator.Common.{
  ℕ, ◌<◌, String, true, false, ◌||◌, Option, none, some, List, [], ◌∷◌, ◌++◌, ◌≡◌, refl, arith,
  eq_iff,
}
use challenge_orchestrator.Errors.{Err}
use challenge_orchestrator.Ports.{
  PortRow, holds, is_taken, Claim, claimed, held, refused, claim_port, release_ports,
}

-- No two rows have the same port of the same worker.
unfoldable pub IsUnique : List PortRow → Type 0
IsUnique [] = Unit
IsUnique (row ∷ rows) = (is_taken row.worker row.port rows ≡ false) × IsUnique rows

-- The CHECK of the table: a port is a number above 0 and below 65536.
unfoldable pub IsNumbered : List PortRow → Type 0
IsNumbered [] = Unit
IsNumbered (row ∷ rows) = (0 < row.port) × (row.port < 65536) × IsNumbered rows

pub is_taken-append :
    (worker : String) (port : ℕ) (rows : List PortRow) (row : PortRow)
    → is_taken worker port (rows ++ row ∷ []) ≡ (is_taken worker port rows || holds worker port row)
unfolding is_taken
is_taken-append worker port [] row = ground arith
is_taken-append worker port (first ∷ rows) row =
    ground (arith, is_taken-append worker port rows row)

pub holds_comm :
    (row row' : PortRow) → holds row.worker row.port row' ≡ holds row'.worker row'.port row
unfolding holds
holds_comm row row' = ground (arith, eq_iff row.worker row'.worker, eq_iff row'.worker row.worker)

pub IsUnique-append :
    (rows : List PortRow) (row : PortRow)
    → IsUnique rows
    → is_taken row.worker row.port rows ≡ false
    → IsUnique (rows ++ row ∷ [])
unfolding IsUnique is_taken
IsUnique-append [] row u free = (refl, tt)
IsUnique-append (first ∷ rows) row (free', u) free = (
  ground (arith, is_taken-append first.worker first.port rows row, holds_comm first row),
  IsUnique-append rows row u (ground arith),
)

pub is_taken-release :
    (worker : String) (port id : ℕ) (rows : List PortRow)
    → is_taken worker port rows ≡ false
    → is_taken worker port (release_ports id rows) ≡ false
unfolding is_taken release_ports
is_taken-release worker port id [] free = refl
is_taken-release worker port id (row ∷ rows) free =
    ground (arith, is_taken-release worker port id rows)

pub IsUnique-release :
    (id : ℕ) (rows : List PortRow) → IsUnique rows → IsUnique (release_ports id rows)
unfolding IsUnique release_ports
IsUnique-release id [] u = u
IsUnique-release id (row ∷ rows) (free, u) =
    ground (arith, is_taken-release row.worker row.port id rows, IsUnique-release id rows u)

pub IsNumbered-append :
    (rows : List PortRow) (row : PortRow)
    → IsNumbered rows
    → 0 < row.port
    → row.port < 65536
    → IsNumbered (rows ++ row ∷ [])
unfolding IsNumbered
IsNumbered-append [] row h pos below = (pos, below, tt)
IsNumbered-append (first ∷ rows) row (p, b, h) pos below =
    (p, b, IsNumbered-append rows row h pos below)

-- What a claim comes to: it inserts its row where the port was free, and else changes nothing.
abbrev pub ClaimOutcome : PortRow → List PortRow → Claim × List PortRow → Type 0
ClaimOutcome row rows (claimed, rows') =
    (is_taken row.worker row.port rows ≡ false)
    × (0 < row.port)
    × (row.port < 65536)
    × (rows' ≡ rows ++ row ∷ [])
ClaimOutcome row rows (held, rows') = (is_taken row.worker row.port rows ≡ true) × (rows' ≡ rows)
ClaimOutcome row rows (refused e, rows') = rows' ≡ rows

pub claim_port_lem :
    (error : Option Err) (row : PortRow) (rows : List PortRow)
    → ClaimOutcome row rows (claim_port error row rows)
unfolding claim_port
claim_port_lem (some e) row rows = refl
claim_port_lem none row rows = ground arith
