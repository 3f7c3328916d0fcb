-- ===== src/Ports/Quiet.antt =====
-- A reservation that nobody interferes with takes a free port at its first attempt.
use challenge_orchestrator.Common.{
  ℕ, suc, ◌+◌, ◌-◌, ◌%◌, ◌≤◌, ◌<◌, false, none, List, [], ◌∷◌, ◌++◌, inl, inr, ◌≡◌, ap, arith,
}
use challenge_orchestrator.Ports.{
  PortRow, PortRange, num_ports, is_taken, scan, claimed, claim_port, Surroundings, reserved,
  Purpose, row_of, after_claim, reserve_attempts, reserve_port, used_port_bitset,
}
use challenge_orchestrator.Ports.Bitset.{used_port_bitset_lem}
use challenge_orchestrator.Ports.Scan.{scan_lem}

claim_port-free :
    (row : PortRow) (rows : List PortRow)
    → is_taken row.worker row.port rows ≡ false
    → 0 < row.port
    → row.port < 65536
    → claim_port none row rows ≡ (claimed, rows ++ row ∷ [])
unfolding claim_port
claim_port-free row rows free pos below = ground arith

module _ (r : PortRange) (who : Purpose) (env : Surroundings) (rows : List PortRow) where
  -- The first attempt, its candidate given.
  attempt-found :
      (left : ℕ) (bits : List ℕ) (p : ℕ)
      → let candidate = scan (num_ports r) r bits (env.draw left % num_ports r + r.low) in
        candidate ≡ p
        → 0 < p
        → p < 65536
        → env.claim_error left ≡ none
        → env.others left rows ≡ rows
        → is_taken who.worker p rows ≡ false
        → reserve_attempts (suc left) env r who bits rows ≡ (reserved p, rows ++ row_of who p ∷ [])
  unfolding reserve_attempts after_claim
  attempt-found left bits p at pos below no_error alone free =
      rw (at, no_error, alone, claim_port-free (row_of who p) rows free pos below) (ground arith)

  -- Where the first claim meets no error and nobody has touched the table since it was read, and
  -- some port of a range below 65536 is free on the worker, a reservation records one of the free
  -- ports of the range for the instance.
  pub reserve_port-free :
      (port : ℕ)
      → 0 < r.low
      → r.high < 65536
      → r.low ≤ port
      → port ≤ r.high
      → is_taken who.worker port rows ≡ false
      → env.bitset_read ≡ none
      → env.claim_error 49 ≡ none
      → env.others 49 rows ≡ rows
      → (p : ℕ) × (r.low ≤ p)
        × (p ≤ r.high)
        × (is_taken who.worker p rows ≡ false)
        × (reserve_port env r who rows ≡ (reserved p, rows ++ row_of who p ∷ []))
  unfolding reserve_port
  reserve_port-free port pos small low high free read no_error alone =
      let bits = used_port_bitset who.worker r rows in
      let back : r.low + (port - r.low) ≡ port = omega arith in
      elim (scan_lem r bits (env.draw 49) (omega arith)) [
        | inr (nothing, all) ↦ absurd (
            ground (
              arith,
              all (port - r.low) (omega arith),
              used_port_bitset_lem who.worker r rows (port - r.low),
              ap (λ (q : ℕ). is_taken who.worker q rows) back,
            ))
        | inl (p, below, at, clear) ↦
            let order : r.low + p ≡ p + r.low = omega arith in
            let free' : is_taken who.worker (p + r.low) rows ≡ false = ground (
              arith,
              used_port_bitset_lem who.worker r rows p below,
              ap (λ (q : ℕ). is_taken who.worker q rows) order,
            ) in
            let done =
              attempt-found 49 bits (p + r.low) at (omega arith) (omega arith) no_error alone
                free' in
            (p + r.low, omega arith, omega arith, free', rw read (ground (arith, done)))
      ]
