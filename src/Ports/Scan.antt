-- ===== src/Ports/Scan.antt =====
-- The circular scan for a free port meets every port of the range once.
use native.Mathlib.Nat.{mod-eq_of_lt, mod_self, mod-add-mod}
use challenge_orchestrator.Common.{
  ℕ, zero, suc, ◌+◌, ◌-◌, ◌%◌, ◌<◌, true, false, List, ◌⊎◌, inl, inr, Bool-cases, if◌then◌else◌,
  ◌≡◌, refl, ap, ap₂, subst, ◌∙◌, arith, dec_lt,
}
use challenge_orchestrator.Common.Rotate.{round_bound, round_covers}
use challenge_orchestrator.Ports.{PortRange, num_ports, is_clear, next_port, scan}

next_port_lem :
    (r : PortRange) (q : ℕ)
    → q < num_ports r
    → next_port r (q + r.low) ≡ (q + 1) % num_ports r + r.low
next_port_lem r q h = elim (dec_lt (q + 1) (num_ports r)) [
  | yes p ↦ ground (arith, mod-eq_of_lt p)
  | no p ↦
      let e : q + 1 ≡ num_ports r = omega arith in
      ground (arith, mod_self (num_ports r), ap (λ (t : ℕ). t % num_ports r) e)
]

-- What a scan comes to: a free port of the range, or 0 with no port free in any of its rounds.
abbrev pub Found : PortRange → List ℕ → ℕ → Type 0
Found r bits port = (p : ℕ) × (p < num_ports r) × (port ≡ p + r.low) × (is_clear bits p ≡ true)

abbrev AllSet : PortRange → List ℕ → ℕ → ℕ → Type 0
AllSet r bits start rounds =
    (i : ℕ) → i < rounds → is_clear bits ((start + i) % num_ports r) ≡ false

AllSet-step :
    (r : PortRange) (bits : List ℕ) (start rounds : ℕ)
    → is_clear bits (start % num_ports r) ≡ false
    → AllSet r bits (start + 1) rounds
    → AllSet r bits start (suc rounds)
AllSet-step r bits start rounds here later zero h =
    subst (λ (t : ℕ). is_clear bits (t % num_ports r) ≡ false) (omega arith) here
AllSet-step r bits start rounds here later (suc i) h =
    subst (λ (t : ℕ). is_clear bits (t % num_ports r) ≡ false) (omega arith) (later i (omega arith))

scan-suc :
    (rounds : ℕ) (r : PortRange) (bits : List ℕ) (start : ℕ)
    → 0 < num_ports r
    → scan (suc rounds) r bits (start % num_ports r + r.low) ≡ (
        if is_clear bits (start % num_ports r)
        then start % num_ports r + r.low
        else scan rounds r bits ((start + 1) % num_ports r + r.low))
unfolding scan
scan-suc rounds r bits start h =
    let q = start % num_ports r in
    let next : next_port r (q + r.low) ≡ (start + 1) % num_ports r + r.low =
      next_port_lem r q (round_bound start (num_ports r) h)
      ∙ ap (λ (t : ℕ). t + r.low) (mod-add-mod start (num_ports r) 1) in
    let back : q + r.low - r.low ≡ q = omega arith in
    ap₂ (λ (t u : ℕ). if is_clear bits t then q + r.low else u) back (ap (scan rounds r bits) next)

scan_from :
    (rounds : ℕ) (r : PortRange) (bits : List ℕ) (start : ℕ)
    → 0 < num_ports r
    → Found r bits (scan rounds r bits (start % num_ports r + r.low))
      ⊎ ((scan rounds r bits (start % num_ports r + r.low) ≡ 0) × AllSet r bits start rounds)
scan_from zero r bits start h = unfold scan in inr (refl, λ i lt. absurd (omega arith))
scan_from (suc rounds) r bits start h =
    let q = start % num_ports r in
    let step = scan-suc rounds r bits start h in
    elim (Bool-cases (is_clear bits q)) [
      | inl e ↦ inl (q, round_bound start (num_ports r) h, ground (arith, step, e), e)
      | inr e ↦
          let same : scan (suc rounds) r bits (q + r.low)
              ≡ scan rounds r bits ((start + 1) % num_ports r + r.low) =
            ground (arith, step, e) in
          elim (scan_from rounds r bits (start + 1) h) [
            | inl (p, below, at, free) ↦ inl (p, below, same ∙ at, free)
            | inr (none_found, later) ↦
                inr (same ∙ none_found, AllSet-step r bits start rounds e later)
          ]
    ]

-- A scan of as many rounds as there are ports finds a free one, or there is none.
pub scan_lem :
    (r : PortRange) (bits : List ℕ) (start : ℕ)
    → 0 < num_ports r
    → Found r bits (scan (num_ports r) r bits (start % num_ports r + r.low))
      ⊎ ((scan (num_ports r) r bits (start % num_ports r + r.low) ≡ 0)
          × ((p : ℕ) → p < num_ports r → is_clear bits p ≡ false))
scan_lem r bits start h = elim (scan_from (num_ports r) r bits start h) [
  | inl found ↦ inl found
  | inr (none_found, all) ↦ inr (
    none_found,
    λ p below.
        let (j, lt, meets) = round_covers start (num_ports r) p below in
        subst (λ (t : ℕ). is_clear bits t ≡ false) meets (all j lt),
  )
]
