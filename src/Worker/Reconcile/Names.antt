-- ===== src/Worker/Reconcile/Names.antt =====
-- A network's name leads back to its instance, so a pass never takes a live instance's network.
use challenge_orchestrator.Common.{
  ℕ, zero, suc, ◌+◌, ◌-◌, ◌*◌, ◌/◌, ◌%◌, ◌^◌, ◌<◌, ◌≡◌, ◌≢◌, refl, ap, ap₂, ◌∙◌, arith, Bool, true,
  false, not, ◌&&◌, some, List, [], ◌∷◌, ◌++◌, ltb, if◌then◌else◌, keep, map, All, dec_lt, lt→ltb,
}
use challenge_orchestrator.Worker.Reconcile.{
  Bytes, digits_upto, get_network_name, cut_prefix, is_digit, all_digits, decimal, parse_digits,
  parse_cut, network_instance, is_live, orphaned, orphan_networks,
}

decimal-end : (n : ℕ) (s : Bytes) (c : ℕ) → decimal n (s ++ c ∷ []) ≡ decimal n s * 10 + (c - b'0')
unfolding decimal
decimal-end n [] c = refl
decimal-end n (d ∷ s) c = decimal-end (n * 10 + (d - b'0')) s c

all_digits-end : (s : Bytes) (c : ℕ) → all_digits (s ++ c ∷ []) ≡ (all_digits s && is_digit c)
unfolding all_digits
all_digits-end [] c = ground arith
all_digits-end (d ∷ s) c = rw (all_digits-end s c) (ground arith)

is_digit-low : (d : ℕ) → d < 10 → is_digit (b'0' + d) ≡ true
unfolding is_digit
is_digit-low d h = ground arith

-- What the digits of a number are.
record Shows (n : ℕ) (s : Bytes) : Type 0 where
  value : decimal 0 s ≡ n
  digits : all_digits s ≡ true
  some_digit : s ≢ []

one_digit : (n : ℕ) → n < 10 → Shows n ((b'0' + n) ∷ [])
unfolding decimal all_digits
one_digit n h = record {
  value = omega arith;
  digits = rw (is_digit-low n h) refl;
  some_digit = λ e. cc;
}

more_digits : (n : ℕ) (s : Bytes) → Shows (n / 10) s → Shows n (s ++ (b'0' + n % 10) ∷ [])
more_digits n s h = record {
  value = decimal-end 0 s (b'0' + n % 10) ∙ omega (arith, h.value);
  digits =
      all_digits-end s (b'0' + n % 10)
      ∙ ap₂ (λ p q. p && q) h.digits (is_digit-low (n % 10) (omega arith));
  some_digit = not_nil s;
}
  where
    not_nil : (s : Bytes) → s ++ (b'0' + n % 10) ∷ [] ≢ []
    not_nil [] e = cc
    not_nil (c ∷ s) e = cc

digits_upto-Shows : (k n : ℕ) → n < k → Shows n (digits_upto k n)
unfolding digits_upto
digits_upto-Shows zero n h = absurd (omega arith)
digits_upto-Shows (suc k) n h = elim (dec_lt n 10) [
  | yes low ↦ rw (lt→ltb n 10 low) (one_digit n low)
  | no high ↦ rw (not_below high) (more_digits n _ (digits_upto-Shows k (n / 10) (omega arith)))
]
  where
    not_below : ¬ (n < 10) → ltb n 10 ≡ false
    not_below g = ground arith

parse_digits-Shows : (n : ℕ) (s : Bytes) → n < 2 ^ 63 → Shows n s → parse_digits s ≡ some n
unfolding parse_digits
parse_digits-Shows n [] fits h = absurd (h.some_digit refl)
parse_digits-Shows n (c ∷ s) fits h = rw (h.digits, h.value, lt→ltb n (2 ^ 63) fits) refl

-- An instance's network name, of an id that an int64 holds, is attributed to that instance.
pub network_instance-get_network_name :
    (id : ℕ) → id < 2 ^ 63 → network_instance (get_network_name id) ≡ some id
unfolding network_instance get_network_name cut_prefix parse_cut
network_instance-get_network_name id fits =
    parse_digits-Shows id (digits_upto (suc id) id) fits
      (digits_upto-Shows (suc id) id (omega arith))

-- Of cork's own networks on a worker, a pass removes exactly those of instances with no row there.
pub orphan_networks-get_network_name :
    (ids live : List ℕ)
    → All (λ id. id < 2 ^ 63) ids
    → orphan_networks (map get_network_name ids) live
      ≡ map get_network_name (keep (λ id. not (is_live live id)) ids)
unfolding orphan_networks orphaned
orphan_networks-get_network_name [] live fits = refl
orphan_networks-get_network_name (id ∷ ids) live (low, fits) =
    let rest = orphan_networks-get_network_name ids live fits in
    rw (network_instance-get_network_name id low) (go (not (is_live live id)) _ _ rest)
  where
    go :
        (b : Bool) (xs : List Bytes) (ys : List ℕ)
        → xs ≡ map get_network_name ys
        → (if b then get_network_name id ∷ xs else xs)
          ≡ map get_network_name (if b then id ∷ ys else ys)
    go true xs ys e = ap (λ r. get_network_name id ∷ r) e
    go false xs ys e = e
