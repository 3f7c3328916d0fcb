-- ===== src/Ports/Bitset.antt =====
-- The bitset of the used ports reads as the table that it is made from.
use Prim.Native.Nat.{bit_and, bit_or}
use challenge_orchestrator.Common.{
  ℕ, zero, suc, ◌+◌, ◌-◌, ◌*◌, ◌/◌, ◌%◌, ◌^◌, ◌≤◌, ◌<◌, ◌==◌, ==_iff, String, Bool, true, false,
  not, ◌&&◌, List, [], ◌∷◌, length, replicate, length-set, str_eq, if◌then◌else◌, ◌≡◌, ◌≢◌, refl,
  ap, ◌∙◌, arith, ℕ_discrete,
}
use challenge_orchestrator.Common.Lists.Index.{
  get_elem?-set_self, get_elem?-set_ne, length-replicate,
}
use challenge_orchestrator.Ports.{
  PortRow, PortRange, num_ports, in_range, or_zero, holds, is_taken, word, mark, is_clear,
  mark_rows, used_port_bitset,
}
use challenge_orchestrator.Ports.Bits.{and-or_bit, and-zero_bit}

word-mark_other : (p i : ℕ) (bits : List ℕ) → p / 64 ≢ i → word (mark p bits) i ≡ word bits i
unfolding word mark
word-mark_other p i bits h =
    ap or_zero (get_elem?-set_ne bits (p / 64) i (bit_or (word bits (p / 64)) (2 ^ (p % 64))) h)

word-mark_self :
    (p : ℕ) (bits : List ℕ)
    → p / 64 < length bits
    → word (mark p bits) (p / 64) ≡ bit_or (word bits (p / 64)) (2 ^ (p % 64))
unfolding word mark
word-mark_self p bits h =
    ap or_zero (get_elem?-set_self bits (p / 64) (bit_or (word bits (p / 64)) (2 ^ (p % 64))) h)

pub length-mark : (p : ℕ) (bits : List ℕ) → length (mark p bits) ≡ length bits
unfolding mark
length-mark p bits = length-set bits (p / 64) (bit_or (word bits (p / 64)) (2 ^ (p % 64)))

-- Marking one port changes the reading of that port alone.
pub is_clear-mark :
    (p q : ℕ) (bits : List ℕ)
    → p / 64 < length bits
    → is_clear (mark p bits) q ≡ (if p == q then false else is_clear bits q)
unfolding is_clear
is_clear-mark p q bits h = elim (ℕ_discrete (p / 64) (q / 64)) [
  | yes e ↦ ground (
    arith,
    word-mark_self p bits h,
    and-or_bit (word bits (q / 64)) (p % 64) (q % 64),
    ap (word (mark p bits)) e,
    ap (word bits) e,
    ==_iff p q,
  )
  | no n ↦ ground (arith, word-mark_other p (q / 64) bits n)
]

-- The bit of a port after one row.
bit-row :
    (worker : String) (r : PortRange) (row : PortRow) (bits : List ℕ) (p : ℕ)
    → num_ports r ≤ 64 * length bits
    → p < num_ports r
    → is_clear
        (if str_eq row.worker worker && in_range r row.port
          then mark (row.port - r.low) bits
          else bits)
        p
      ≡ (is_clear bits p && not (holds worker (r.low + p) row))
unfolding holds
bit-row worker r row bits p fits h = ground (arith, is_clear-mark (row.port - r.low) p bits)

length-row :
    (b : Bool) (p : ℕ) (bits : List ℕ) → length (if b then mark p bits else bits) ≡ length bits
length-row true p bits = length-mark p bits
length-row false p bits = refl

length-mark_rows :
    (worker : String) (r : PortRange) (rows : List PortRow) (bits : List ℕ)
    → length (mark_rows worker r rows bits) ≡ length bits
unfolding mark_rows
length-mark_rows worker r [] bits = refl
length-mark_rows worker r (row ∷ rows) bits =
    let test = str_eq row.worker worker && in_range r row.port in
    length-mark_rows worker r rows (if test then mark (row.port - r.low) bits else bits)
    ∙ length-row test (row.port - r.low) bits

-- The words hold a bit for each port of the range.
pub length-used_port_bitset :
    (worker : String) (r : PortRange) (rows : List PortRow)
    → num_ports r ≤ 64 * length (used_port_bitset worker r rows)
unfolding used_port_bitset
length-used_port_bitset worker r rows =
    let n = (num_ports r + 63) / 64 in
    omega (arith, length-mark_rows worker r rows (replicate n 0), length-replicate {A = ℕ} n 0)

mark_rows_lem :
    (worker : String) (r : PortRange) (rows : List PortRow) (bits : List ℕ) (p : ℕ)
    → num_ports r ≤ 64 * length bits
    → p < num_ports r
    → is_clear (mark_rows worker r rows bits) p
      ≡ (is_clear bits p && not (is_taken worker (r.low + p) rows))
unfolding mark_rows is_taken
mark_rows_lem worker r [] bits p fits h = ground arith
mark_rows_lem worker r (row ∷ rows) bits p fits h =
    let test = str_eq row.worker worker && in_range r row.port in
    let marked = if test then mark (row.port - r.low) bits else bits in
    let same = length-row test (row.port - r.low) bits in
    ground (
      arith,
      bit-row worker r row bits p fits h,
      mark_rows_lem worker r rows marked p (omega (arith, same)) h,
    )

zeros : (n i : ℕ) → word (replicate n 0) i ≡ 0
unfolding word
zeros zero i = refl
zeros (suc n) zero = refl
zeros (suc n) (suc i) = zeros n i

clear_at_first : (n p : ℕ) → is_clear (replicate n 0) p ≡ true
unfolding is_clear
clear_at_first n p =
    ap (λ (t : ℕ). bit_and t (2 ^ (p % 64)) == 0) (zeros n (p / 64)) ∙ and-zero_bit (p % 64)

-- The bit of a port of the range is clear exactly when no row of the worker has the port.
pub used_port_bitset_lem :
    (worker : String) (r : PortRange) (rows : List PortRow) (p : ℕ)
    → p < num_ports r
    → is_clear (used_port_bitset worker r rows) p ≡ not (is_taken worker (r.low + p) rows)
unfolding used_port_bitset
used_port_bitset_lem worker r rows p h =
    let n = (num_ports r + 63) / 64 in
    ground (
      arith,
      clear_at_first n p,
      length-replicate {A = ℕ} n 0,
      mark_rows_lem worker r rows (replicate n 0) p,
    )
