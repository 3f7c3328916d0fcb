-- ===== src/Ports/Reserve.antt =====
-- What a reservation comes to, whatever other launches do to the table between its statements.
use challenge_orchestrator.Common.{
  ℕ, zero, suc, ◌+◌, ◌-◌, ◌%◌, ◌≤◌, ◌<◌, ◌==◌, false, none, some, List, [], ◌∷◌, ◌++◌, inl, inr,
  if-both, if-cases, ◌≡◌, sym, subst, arith,
}
use challenge_orchestrator.Ports.{
  PortRow, PortRange, num_ports, is_taken, mark, scan, Claim, claimed, held, refused, claim_port,
  Surroundings, Reservation, reserved, disabled, all_in_use, contention, failed, Purpose, row_of,
  after_claim, reserve_attempts, max_attempts, reserve_port, used_port_bitset,
}
use challenge_orchestrator.Ports.Scan.{Found, scan_lem}
use challenge_orchestrator.Ports.Table.{ClaimOutcome, claim_port_lem}

-- A port was inserted where it was free, into a table of which `P` holds, or the table that is left
-- is one of which `P` holds.
abbrev pub Outcome {κ} :
    (List PortRow → Type κ) → PortRange → Purpose → Reservation × List PortRow → Type κ
Outcome P r who (reserved port, rows) =
    (before : List PortRow) × P before
    × (is_taken who.worker port before ≡ false)
    × (rows ≡ before ++ row_of who port ∷ [])
    × (r.low ≤ port)
    × (port ≤ r.high)
    × (0 < port)
    × (port < 65536)
Outcome P r who (disabled, rows) = P rows
Outcome P r who (all_in_use, rows) = P rows
Outcome P r who (contention, rows) = P rows
Outcome P r who (failed e, rows) = P rows

module _ {κ} (P : List PortRow → Type κ) (r : PortRange) (who : Purpose) where
  after_claim_lem :
      (candidate : ℕ) (rows : List PortRow) (answer : Claim × List PortRow)
      (retry : List PortRow → Reservation × List PortRow)
      → P rows
      → r.low ≤ candidate
      → candidate ≤ r.high
      → ClaimOutcome (row_of who candidate) rows answer
      → ((table : List PortRow) → P table → Outcome P r who (retry table))
      → Outcome P r who (after_claim candidate answer retry)
  unfolding after_claim
  after_claim_lem candidate rows (claimed, rows') retry p low high (free, pos, below, e) ih =
      (rows, p, free, e, low, high, pos, below)
  after_claim_lem candidate rows (held, rows') retry p low high (taken, e) ih =
      ih rows' (subst P (sym e) p)
  after_claim_lem candidate rows (refused e, rows') retry p low high same ih = subst P (sym same) p

  found_bounds : (bits : List ℕ) (port : ℕ) → Found r bits port → (r.low ≤ port) × (port ≤ r.high)
  found_bounds bits port (p, below, at, free) = (omega arith, omega arith)

  reserve_attempts_lem :
      (left : ℕ) (env : Surroundings) (bits : List ℕ) (rows : List PortRow)
      → r.low ≤ r.high
      → ((n : ℕ) (table : List PortRow) → P table → P (env.others n table))
      → P rows
      → Outcome P r who (reserve_attempts left env r who bits rows)
  unfolding reserve_attempts
  reserve_attempts_lem zero env bits rows ordered keeps p = p
  reserve_attempts_lem (suc left) env bits rows ordered keeps p =
      let candidate = scan (num_ports r) r bits (env.draw left % num_ports r + r.low) in
      if-cases (Outcome P r who) (candidate == 0) (all_in_use, rows) _ (λ e. p)
        (λ e. elim (scan_lem r bits (env.draw left) (omega arith)) [
          | inl found ↦
              let (low, high) = found_bounds bits candidate found in
              after_claim_lem candidate (env.others left rows)
                (claim_port (env.claim_error left) (row_of who candidate) (env.others left rows))
                (reserve_attempts left env r who (mark (candidate - r.low) bits))
                (keeps left rows p) low high
                (claim_port_lem (env.claim_error left) (row_of who candidate)
                  (env.others left rows))
                (λ table q.
                  reserve_attempts_lem left env (mark (candidate - r.low) bits) table ordered keeps
                    q)
          | inr (nothing, all) ↦ absurd (ground (arith, nothing, e))
        ])

  -- Where other launches keep the table in `P`, a reservation either inserts its row into a table of
  -- which `P` holds, at a port of the range that no row of that worker had, or leaves a table of
  -- which `P` holds.
  pub reserve_port_lem :
      (env : Surroundings) (rows : List PortRow)
      → r.low ≤ r.high
      → ((n : ℕ) (table : List PortRow) → P table → P (env.others n table))
      → P rows
      → Outcome P r who (reserve_port env r who rows)
  unfolding reserve_port
  reserve_port_lem env rows ordered keeps p =
      if-both (Outcome P r who) (r.low == 0) (disabled, rows) _ p
        (elim env.bitset_read
          as (λ read. Outcome P r who (elim read [
            | some e ↦ (failed e, rows)
            | none ↦
                reserve_attempts max_attempts env r who (used_port_bitset who.worker r rows) rows
          ])) [
            | some e ↦ p
            | none ↦
                reserve_attempts_lem max_attempts env (used_port_bitset who.worker r rows) rows
                  ordered keeps p
          ])
