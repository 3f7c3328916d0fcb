-- ===== src/Ports/Examples.antt =====
-- Tests of the port assignments, and the theorems at concrete tables.
use challenge_orchestrator.Common.{
  ℕ, ◌≤◌, String, true, false, not, none, some, List, [], ◌∷◌, ◌++◌, ◌≡◌, refl, arith,
}
use challenge_orchestrator.Common.Assoc.{Map, lookup, insert}
use challenge_orchestrator.Ports.{
  PortRow, PortRange, is_taken, holds, is_clear, used_port_bitset, Surroundings, Purpose, reserved,
  all_in_use, row_of, reserve_port, mark_rows, mark, word, scan, reserve_attempts, claim_port,
  after_claim, release_ports,
}
use challenge_orchestrator.Ports.Bitset.{used_port_bitset_lem}
use challenge_orchestrator.Ports.Reserve.{Outcome, reserve_port_lem}
use challenge_orchestrator.Ports.Table.{IsUnique}
use challenge_orchestrator.Ports.Complete.{reserve_port-all_in_use}
use challenge_orchestrator.Ports.Quiet.{reserve_port-free}
use challenge_orchestrator.Ports.Allocator.{claim, release, run, replay, owner, run_refines}
use challenge_orchestrator.Ports.Reassign.{
  PortAnswers, published_ports, reassign_ports, reassign_ports_unchecked, reserve_ports, under_name,
  after_assign, assign_port, after_previous, given_back, unreserved,
}
use challenge_orchestrator.Ports.Reassign.Owned.{reserve_ports-IsUnique}

abbrev four_ports : PortRange
four_ports = record { low = 30000; high = 30003 }

abbrev one_port : PortRange
one_port = record { low = 30000; high = 30000 }

abbrev row : ℕ → String → ℕ → PortRow
row id worker port = record { instance_id = id; name = "http"; port = port; worker = worker }

-- Instance 1 has the first port of worker a, instance 2 the first of worker b.
abbrev two_rows : List PortRow
two_rows = row 1 "a" 30000 ∷ row 2 "b" 30000 ∷ []

abbrev undisturbed : Surroundings
undisturbed = record {
  bitset_read = none;
  draw = λ left. 0;
  claim_error = λ left. none;
  others = λ left rows. rows;
}

abbrev for_three : Purpose
for_three = record { instance_id = 3; worker = "a"; name = "ssh" }

two_rows-IsUnique : IsUnique two_rows
unfolding IsUnique is_taken holds
two_rows-IsUnique = (refl, (refl, tt))

-- The scan passes over the port that is taken on this worker.
reserves_second :
    reserve_port undisturbed four_ports for_three two_rows
    ≡ (reserved 30001, two_rows ++ row_of for_three 30001 ∷ [])
unfolding reserve_port reserve_attempts scan is_clear word mark mark_rows used_port_bitset
    claim_port after_claim is_taken holds
reserves_second = refl

-- The one port of the range is taken.
finds_none : reserve_port undisturbed one_port for_three two_rows ≡ (all_in_use, two_rows)
unfolding reserve_port reserve_attempts scan is_clear word mark mark_rows used_port_bitset
    claim_port after_claim is_taken holds
finds_none = refl

used_port_bitset_lem_example :
    is_clear (used_port_bitset "a" four_ports two_rows) 0 ≡ not (is_taken "a" 30000 two_rows)
used_port_bitset_lem_example = used_port_bitset_lem "a" four_ports two_rows 0 (omega arith)

reserve_port_lem_example :
    Outcome IsUnique four_ports for_three (reserve_port undisturbed four_ports for_three two_rows)
reserve_port_lem_example =
    reserve_port_lem IsUnique four_ports for_three undisturbed two_rows (omega arith)
      (λ n table u. u) two_rows-IsUnique

reserve_port-all_in_use_example : is_taken "a" 30000 two_rows ≡ true
reserve_port-all_in_use_example =
    reserve_port-all_in_use one_port for_three undisturbed two_rows two_rows 30000
      (λ n p table t. t) (omega arith) (omega arith) finds_none

third_free : is_taken "a" 30002 two_rows ≡ false
unfolding is_taken holds
third_free = refl

reserve_port-free_example :
    (p : ℕ) × (30000 ≤ p)
    × (p ≤ 30003)
    × (is_taken "a" p two_rows ≡ false)
    × (reserve_port undisturbed four_ports for_three two_rows
        ≡ (reserved p, two_rows ++ row_of for_three p ∷ []))
reserve_port-free_example =
    reserve_port-free four_ports for_three undisturbed two_rows 30002 (omega arith) (omega arith)
      (omega arith) (omega arith) third_free refl refl refl

run_refines_example :
    ((run (claim none (row 3 "a" 30000) ∷ release 1 ∷ claim none (row 3 "a" 30000) ∷ []) two_rows).0
      ≡ (replay
          (claim none (row 3 "a" 30000) ∷ release 1 ∷ claim none (row 3 "a" 30000) ∷ [])
          (owner two_rows)).0)
    × (owner
          (run
            (claim none (row 3 "a" 30000) ∷ release 1 ∷ claim none (row 3 "a" 30000) ∷ [])
            two_rows).1
        ≡ (replay
            (claim none (row 3 "a" 30000) ∷ release 1 ∷ claim none (row 3 "a" 30000) ∷ [])
            (owner two_rows)).1)
    × IsUnique
        (run
          (claim none (row 3 "a" 30000) ∷ release 1 ∷ claim none (row 3 "a" 30000) ∷ [])
          two_rows).1
run_refines_example =
    run_refines (claim none (row 3 "a" 30000) ∷ release 1 ∷ claim none (row 3 "a" 30000) ∷ [])
      two_rows two_rows-IsUnique

-- The first claim meets a row, the one after the release does not.
grants_after_release :
    (run (claim none (row 3 "a" 30000) ∷ release 1 ∷ claim none (row 3 "a" 30000) ∷ []) two_rows).0
    ≡ false ∷ true ∷ []
unfolding run claim_port release_ports is_taken holds
grants_after_release = refl

abbrev quiet_answers : List String → PortAnswers
quiet_answers left = record { previous_claim = none; surroundings = undisturbed }

abbrev names : Map String
names = ("80/tcp", "http") ∷ ("22/tcp", "ssh") ∷ []

two_reserved :
    lookup "ssh"
      (reserve_ports quiet_answers four_ports 3 "a" names
        ("80/tcp" ∷ "22/tcp" ∷ [])
        []
        two_rows).assigned
    ≡ some 30002
unfolding reserve_ports after_assign reserve_port reserve_attempts scan is_clear word mark mark_rows
    used_port_bitset claim_port after_claim is_taken holds lookup insert
two_reserved = refl

reserve_ports-IsUnique_example :
    IsUnique
      (reserve_ports quiet_answers four_ports 3 "a" names
        ("80/tcp" ∷ "22/tcp" ∷ [])
        []
        two_rows).rows
reserve_ports-IsUnique_example =
    reserve_ports-IsUnique quiet_answers four_ports 3 "a" names ("80/tcp" ∷ "22/tcp" ∷ []) []
      two_rows (omega arith) (λ left n table u. u) two_rows-IsUnique

no_second_port :
    (reassign_ports quiet_answers one_port 3 "b" none names [] ("80/tcp" ∷ []) [] two_rows).failure
    ≡ some (unreserved all_in_use)
unfolding reassign_ports reassign_ports_unchecked under_name assign_port after_previous given_back
    after_assign reserve_port reserve_attempts scan is_clear word mark mark_rows used_port_bitset
    claim_port after_claim is_taken holds lookup insert
no_second_port = refl

abbrev to_the_top : PortRange
to_the_top = record { low = 65530; high = 65536 }

abbrev draws_top : Surroundings
draws_top = record {
  bitset_read = none;
  draw = λ left. 6;
  claim_error = λ left. none;
  others = λ left rows. rows;
}

skips_builder :
    published_ports (
      record { host = "builder"; ports = "1/tcp" ∷ [] }
      ∷ record { host = "web"; ports = "80/tcp" ∷ [] }
      ∷ [])
    ≡ "80/tcp" ∷ []
unfolding published_ports
skips_builder = refl
