-- ===== src/Ports/Complete.antt =====
-- A reservation gives up for want of a port only when every port of the range is taken, and takes
-- one at the first attempt when nobody interferes.
use challenge_orchestrator.Common.{
  ℕ, zero, suc, ◌+◌, ◌-◌, ◌*◌, ◌%◌, ◌≤◌, ◌<◌, ◌==◌, String, true, false, none, some, List, length,
  inl, inr, if-cases, ◌≡◌, sym, ap, subst, arith,
}
use challenge_orchestrator.Ports.{
  PortRow, PortRange, num_ports, is_taken, is_clear, mark, scan, Claim, claimed, held, refused,
  claim_port, Surroundings, Reservation, disabled, all_in_use, failed, Purpose, row_of, after_claim,
  reserve_attempts, max_attempts, reserve_port, used_port_bitset,
}
use challenge_orchestrator.Ports.Bitset.{
  is_clear-mark, length-mark, used_port_bitset_lem, length-used_port_bitset,
}
use challenge_orchestrator.Ports.Scan.{Found, scan_lem}
use challenge_orchestrator.Ports.Table.{ClaimOutcome, claim_port_lem}

-- Every port that the bitset has is taken in the table.
record Reflects (r : PortRange) (worker : String) (bits : List ℕ) (rows : List PortRow)
    : Type 0 where
  fits : num_ports r ≤ 64 * length bits
  taken :
      (p : ℕ) → p < num_ports r → is_clear bits p ≡ false → is_taken worker (p + r.low) rows ≡ true

-- With no port left, every port of the range is taken.
abbrev Exhausts : PortRange → String → Reservation × List PortRow → Type 0
Exhausts r worker (all_in_use, rows) =
    (p : ℕ) → p < num_ports r → is_taken worker (p + r.low) rows ≡ true
Exhausts r worker _ = Unit

module _ (r : PortRange) (who : Purpose) where
  Reflects-others :
      (bits : List ℕ) (rows rows' : List PortRow)
      → ((port : ℕ) → is_taken who.worker port rows ≡ true → is_taken who.worker port rows' ≡ true)
      → Reflects r who.worker bits rows
      → Reflects r who.worker bits rows'
  Reflects-others bits rows rows' stays h = record {
    fits = h.fits;
    taken = λ p below set. stays (p + r.low) (h.taken p below set);
  }

  Reflects-used_port_bitset :
      (rows : List PortRow) → Reflects r who.worker (used_port_bitset who.worker r rows) rows
  Reflects-used_port_bitset rows = record {
    fits = length-used_port_bitset who.worker r rows;
    taken = λ p below set.
        let order : r.low + p ≡ p + r.low = omega arith in
        ground (
          arith,
          used_port_bitset_lem who.worker r rows p below,
          ap (λ (q : ℕ). is_taken who.worker q rows) order,
        );
  }

  Reflects-mark :
      (bits : List ℕ) (rows : List PortRow) (p : ℕ)
      → p < num_ports r
      → is_taken who.worker (p + r.low) rows ≡ true
      → Reflects r who.worker bits rows
      → Reflects r who.worker (mark p bits) rows
  Reflects-mark bits rows p below t h = record {
    fits = omega (arith, length-mark p bits, h.fits);
    taken =
        λ q lt set. ground (arith, is_clear-mark p q bits (omega (arith, h.fits)), h.taken q lt);
  }

  after_claim-Exhausts :
      (bits : List ℕ) (candidate : ℕ) (rows : List PortRow) (answer : Claim × List PortRow)
      (retry : List PortRow → Reservation × List PortRow)
      → Found r bits candidate
      → Reflects r who.worker bits rows
      → ClaimOutcome (row_of who candidate) rows answer
      → ((table : List PortRow)
          → Reflects r who.worker (mark (candidate - r.low) bits) table
          → Exhausts r who.worker (retry table))
      → Exhausts r who.worker (after_claim candidate answer retry)
  unfolding after_claim
  after_claim-Exhausts bits candidate rows (claimed, rows') retry found h o ih = tt
  after_claim-Exhausts bits candidate rows (refused e, rows') retry found h o ih = tt
  after_claim-Exhausts bits candidate rows (held, rows') retry (p, below, at, free) h (t, e) ih =
      let back : p ≡ candidate - r.low = omega arith in
      let same = subst (λ (c : ℕ). is_taken who.worker c rows ≡ true) at t in
      ih rows' (
        subst (Reflects r who.worker (mark (candidate - r.low) bits)) (sym e) (
          subst (λ (q : ℕ). Reflects r who.worker (mark q bits) rows) back
            (Reflects-mark bits rows p below same h)))

  reserve_attempts-Exhausts :
      (left : ℕ) (env : Surroundings) (bits : List ℕ) (rows : List PortRow)
      → 0 < num_ports r
      → 0 < r.low
      → ((n port : ℕ) (table : List PortRow)
          → is_taken who.worker port table ≡ true
          → is_taken who.worker port (env.others n table) ≡ true)
      → Reflects r who.worker bits rows
      → Exhausts r who.worker (reserve_attempts left env r who bits rows)
  unfolding reserve_attempts
  reserve_attempts-Exhausts zero env bits rows some_port low stays h = tt
  reserve_attempts-Exhausts (suc left) env bits rows some_port low stays h =
      let candidate = scan (num_ports r) r bits (env.draw left % num_ports r + r.low) in
      let table = env.others left rows in
      let scanned = scan_lem r bits (env.draw left) some_port in
      if-cases (Exhausts r who.worker) (candidate == 0) (all_in_use, rows) _
        (λ e. elim scanned [
          | inl (p, below, at, free) ↦ absurd (ground (arith, e, at))
          | inr (nothing, all) ↦ λ p below. h.taken p below (all p below)
        ])
        (λ e. elim scanned [
          | inl found ↦
              after_claim-Exhausts bits candidate table
                (claim_port (env.claim_error left) (row_of who candidate) table)
                (reserve_attempts left env r who (mark (candidate - r.low) bits)) found
                (Reflects-others bits rows table (λ port. stays left port rows) h)
                (claim_port_lem (env.claim_error left) (row_of who candidate) table)
                (λ table' h'.
                  reserve_attempts-Exhausts left env (mark (candidate - r.low) bits) table'
                    some_port low stays h')
          | inr (nothing, all) ↦ absurd (ground (arith, nothing, e))
        ])

  -- Where other launches free no port of the worker, a reservation that reports every port in use
  -- leaves a table in which every port of the range is taken on that worker.
  pub reserve_port-all_in_use :
      (env : Surroundings) (rows rows' : List PortRow) (port : ℕ)
      → ((n p : ℕ) (table : List PortRow)
          → is_taken who.worker p table ≡ true
          → is_taken who.worker p (env.others n table) ≡ true)
      → r.low ≤ port
      → port ≤ r.high
      → reserve_port env r who rows ≡ (all_in_use, rows')
      → is_taken who.worker port rows' ≡ true
  unfolding reserve_port
  reserve_port-all_in_use env rows rows' port stays low high e =
      let exhausts : Exhausts r who.worker (reserve_port env r who rows) =
        if-cases (Exhausts r who.worker) (r.low == 0) (disabled, rows) _ (λ z. tt)
          (λ z.
            elim env.bitset_read
              as (λ read. Exhausts r who.worker (elim read [
                | some e ↦ (failed e, rows)
                | none ↦
                    reserve_attempts max_attempts env r who (used_port_bitset who.worker r rows)
                      rows
              ])) [
                | some e ↦ tt
                | none ↦
                    reserve_attempts-Exhausts max_attempts env (used_port_bitset who.worker r rows)
                      rows (omega arith) (ground arith) stays (Reflects-used_port_bitset rows)
              ]) in
      let all = subst (Exhausts r who.worker) e exhausts in
      let at : port - r.low + r.low ≡ port = omega arith in
      subst (λ (p : ℕ). is_taken who.worker p rows' ≡ true) at (all (port - r.low) (omega arith))
