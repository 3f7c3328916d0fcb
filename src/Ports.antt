-- ===== src/Ports.antt =====
-- Host ports (cork/database_instances.go: reservePort, claimPort, releasePorts; cork/database.go:
-- usedPortBitset; cork/docker.go: getPortRange). The portAssignments table is a list of rows. One
-- SQL statement is one step: what other launches do to the table before each claim of a
-- reservation is an argument, and so are the draws of the random start and the errors of the
-- database.
pub mod Bits
pub mod Bitset
pub mod Scan
pub mod Table
pub mod Reserve
pub mod Complete
pub mod Quiet
pub mod Allocator
pub mod Reassign
pub mod Top
mod Examples
use Prim.Native.Nat.{bit_and, bit_or}
use challenge_orchestrator.Common.{
  ℕ, zero, suc, ◌+◌, ◌-◌, ◌/◌, ◌%◌, ◌^◌, ◌==◌, ltb, leb, String, Bool, true, false, ◌&&◌, ◌||◌, not,
  Option, none, some, List, [], ◌∷◌, ◌++◌, get_elem?, set, replicate, str_eq, if◌then◌else◌,
}
use challenge_orchestrator.Errors.{Err, other}

-- A row of portAssignments; the worker of the local daemon is "".
pub record PortRow : Type 0 where
  pub instance_id : ℕ
  pub name : String
  pub port : ℕ
  pub worker : String

-- portLow and portHigh of the Manager; a low of 0 is no range.
pub record PortRange : Type 0 where
  pub low : ℕ
  pub high : ℕ

-- portHigh - portLow + 1; getPortRange has the high no lower than the low.
abbrev pub num_ports : PortRange → ℕ
num_ports r = r.high + 1 - r.low

-- The range as CORK_PORTS gives it, from the numbers on either side of its one '-'; `none` stands
-- for an unset variable, and `some none` for one that does not parse.
unfoldable pub get_port_range : Option (Option (ℕ × ℕ)) → Option PortRange
get_port_range none = some (record { low = 0; high = 0 })
get_port_range (some none) = none
get_port_range (some (some (low, high))) =
    if ltb low 1024 || (ltb (2 ^ 16) high || ltb high low)
    then none
    else some (record { low = low; high = high })

-- WHERE port = ? AND worker = ?
unfoldable pub holds : String → ℕ → PortRow → Bool
holds worker port row = row.port == port && str_eq row.worker worker

unfoldable pub is_taken : String → ℕ → List PortRow → Bool
is_taken worker port [] = false
is_taken worker port (row ∷ rows) = holds worker port row || is_taken worker port rows

abbrev pub or_zero : Option ℕ → ℕ
or_zero none = 0
or_zero (some w) = w

-- bitset[i]; every index the code forms is within the words.
unfoldable pub word : List ℕ → ℕ → ℕ
word bits i = or_zero (get_elem? bits i)

-- bitset[p/64] |= 1 << (uint(p) % 64)
unfoldable pub mark : ℕ → List ℕ → List ℕ
mark p bits = set bits (p / 64) (bit_or (word bits (p / 64)) (2 ^ (p % 64)))

-- (bitset[p/64] & (1 << (uint(p) % 64))) == 0
unfoldable pub is_clear : List ℕ → ℕ → Bool
is_clear bits p = bit_and (word bits (p / 64)) (2 ^ (p % 64)) == 0

-- port BETWEEN portLow AND portHigh
abbrev pub in_range : PortRange → ℕ → Bool
in_range r port = leb r.low port && leb port r.high

unfoldable pub mark_rows : String → PortRange → List PortRow → List ℕ → List ℕ
mark_rows worker r [] bits = bits
mark_rows worker r (row ∷ rows) bits =
    mark_rows worker r rows (
      if str_eq row.worker worker && in_range r row.port
      then mark (row.port - r.low) bits
      else bits)

unfoldable pub used_port_bitset : String → PortRange → List PortRow → List ℕ
used_port_bitset worker r rows = mark_rows worker r rows (replicate ((num_ports r + 63) / 64) 0)

abbrev pub next_port : PortRange → ℕ → ℕ
next_port r port = if ltb r.high (port + 1) then r.low else port + 1

-- The candidate of one scan of the given number of rounds, and 0 for none.
unfoldable pub scan : ℕ → PortRange → List ℕ → ℕ → ℕ
scan zero r bits port = 0
scan (suc rounds) r bits port =
    let rest = scan rounds r bits (next_port r port) in
    if is_clear bits (port - r.low) then port else rest

-- What one INSERT ... WHERE NOT EXISTS comes to; the table checks the number of a row it inserts.
pub data Claim : Type 0 where
  claimed held : Claim
  refused : Err → Claim

unfoldable pub claim_port : Option Err → PortRow → List PortRow → Claim × List PortRow
claim_port (some e) row rows = (refused e, rows)
claim_port none row rows =
    if is_taken row.worker row.port rows
    then (held, rows)
    else if row.port == 0 || leb 65536 row.port
    then (refused other, rows)
    else (claimed, rows ++ row ∷ [])

-- What a reservation meets, by the number of attempts that are left: the draw of rand.Intn, which
-- is below its argument, the error of the claim, and what others did to the table before it.
pub record Surroundings : Type 0 where
  pub bitset_read : Option Err
  pub draw : ℕ → ℕ
  pub claim_error : ℕ → Option Err
  pub others : ℕ → List PortRow → List PortRow

pub data Reservation : Type 0 where
  reserved : ℕ → Reservation
  disabled all_in_use contention : Reservation
  failed : Err → Reservation

-- The instance, its worker and the name of the port that a reservation is for.
pub record Purpose : Type 0 where
  pub instance_id : ℕ
  pub worker : String
  pub name : String

abbrev pub row_of : Purpose → ℕ → PortRow
row_of who port = record {
  instance_id = who.instance_id;
  name = who.name;
  port = port;
  worker = who.worker;
}

-- The rest of an attempt once the claim has answered; a port that was taken is tried no more.
unfoldable pub after_claim :
    ℕ
    → Claim × List PortRow
    → (List PortRow → Reservation × List PortRow)
    → Reservation × List PortRow
after_claim candidate (claimed, rows) retry = (reserved candidate, rows)
after_claim candidate (refused e, rows) retry = (failed e, rows)
after_claim candidate (held, rows) retry = retry rows

unfoldable pub reserve_attempts :
    ℕ → Surroundings → PortRange → Purpose → List ℕ → List PortRow → Reservation × List PortRow
reserve_attempts zero env r who bits rows = (contention, rows)
reserve_attempts (suc left) env r who bits rows =
    let candidate = scan (num_ports r) r bits (env.draw left % num_ports r + r.low) in
    let rest =
      after_claim candidate
        (claim_port (env.claim_error left) (row_of who candidate) (env.others left rows))
        (reserve_attempts left env r who (mark (candidate - r.low) bits)) in
    if candidate == 0 then (all_in_use, rows) else rest

abbrev pub max_attempts : ℕ
max_attempts = 50

unfoldable pub reserve_port :
    Surroundings → PortRange → Purpose → List PortRow → Reservation × List PortRow
reserve_port env r who rows = if r.low == 0 then (disabled, rows) else (elim env.bitset_read [
  | some e ↦ (failed e, rows)
  | none ↦ reserve_attempts max_attempts env r who (used_port_bitset who.worker r rows) rows
])

-- DELETE FROM portAssignments WHERE instance = ?
unfoldable pub release_ports : ℕ → List PortRow → List PortRow
release_ports id [] = []
release_ports id (row ∷ rows) =
    if row.instance_id == id then release_ports id rows else row ∷ release_ports id rows
