-- ===== src/Worker/Reconcile.antt =====
-- The reconcile pass that a worker goes through before it takes placements (reconcileWorker and
-- findOrphans of cork/worker_reconcile.go, runWorker and reconcileWithRetries of cork/workers.go).
-- Names are lists of bytes. What the daemon and the database answer is an argument.
pub mod Names
pub mod Pass
pub mod Retries
pub mod Reclaim
mod Examples
use challenge_orchestrator.Common.{
  ℕ, zero, suc, ◌+◌, ◌-◌, ◌*◌, ◌/◌, ◌%◌, ◌^◌, Bool, true, false, not, ◌&&◌, ◌||◌, Option, none,
  some, List, [], ◌∷◌, ◌++◌, ltb, leb, ◌==◌, if◌then◌else◌, keep, take, length,
}
use challenge_orchestrator.Errors.{Err, is_transport_error, is_not_found, is_conflict}
use challenge_orchestrator.Worker.Conn.{Conn, Reason, ok, not_reconciled, set_reachable, eject}

abbrev pub Bytes : Type 0
Bytes = List ℕ

-- The decimal digits of a number, the first first; `k` bounds how many there are.
unfoldable pub digits_upto : ℕ → ℕ → Bytes
digits_upto zero n = []
digits_upto (suc k) n =
    let rest = digits_upto k (n / 10) in
    if ltb n 10 then (b'0' + n) ∷ [] else rest ++ (b'0' + n % 10) ∷ []

abbrev pub network_prefix : Bytes
network_prefix = b'c' ∷ b'm' ∷ b'g' ∷ b'r' ∷ b'-' ∷ []

-- fmt.Sprintf("cmgr-%d", id), for an id that the database gave: a number from 0.
pub get_network_name : ℕ → Bytes
get_network_name id = network_prefix ++ digits_upto (suc id) id

-- strings.CutPrefix
unfoldable pub cut_prefix : Bytes → Bytes → Option Bytes
cut_prefix [] s = some s
cut_prefix (p ∷ ps) [] = none
cut_prefix (p ∷ ps) (c ∷ s) = let rest = cut_prefix ps s in if p == c then rest else none

unfoldable pub is_digit : ℕ → Bool
is_digit c = leb b'0' c && leb c b'9'

unfoldable pub all_digits : Bytes → Bool
unfolding is_digit
all_digits [] = true
all_digits (c ∷ s) = is_digit c && all_digits s

-- The number that the digits say, after those that say `n`.
unfoldable pub decimal : ℕ → Bytes → ℕ
decimal n [] = n
decimal n (c ∷ s) = decimal (n * 10 + (c - b'0')) s

unfoldable pub parse_digits : Bytes → Option ℕ
unfolding all_digits decimal
parse_digits [] = none
parse_digits (c ∷ s) =
    if not (all_digits (c ∷ s))
    then none
    else if ltb (decimal 0 (c ∷ s)) (2 ^ 63)
    then some (decimal 0 (c ∷ s))
    else none

unfoldable pub parse_cut : Option Bytes → Option ℕ
unfolding parse_digits
parse_cut none = none
parse_cut (some digits) = parse_digits digits

unfoldable pub network_instance : Bytes → Option ℕ
unfolding parse_cut cut_prefix
network_instance name = parse_cut (cut_prefix network_prefix name)

-- The networks that a container is attached to, in the order in which the loop meets them.
pub record Container : Type 0 where
  pub id : Bytes
  pub networks : List Bytes

unfoldable pub first_instance : Option ℕ → Option ℕ → Option ℕ
first_instance (some id) later = some id
first_instance none later = later

unfoldable pub attached : List Bytes → Option ℕ
unfolding first_instance
attached [] = none
attached (name ∷ rest) = first_instance (network_instance name) (attached rest)

unfoldable pub container_instance : Container → Option ℕ
container_instance c = attached c.networks

unfoldable pub is_live : List ℕ → ℕ → Bool
is_live [] id = false
is_live (l ∷ live) id = (l == id) || is_live live id

unfoldable pub orphaned : List ℕ → Option ℕ → Bool
unfolding is_live
orphaned live none = false
orphaned live (some id) = not (is_live live id)

unfoldable pub orphan_networks : List Bytes → List ℕ → List Bytes
unfolding orphaned
orphan_networks names live = keep (λ n. orphaned live (network_instance n)) names

unfoldable pub orphan_containers : List Container → List ℕ → List Container
unfolding orphaned
orphan_containers containers live = keep (λ c. orphaned live (container_instance c)) containers

-- Ordered by severity.
pub data Result : Type 0 where
  reconciled incomplete unreachable : Result

unfoldable pub worst : Result → Result → Result
worst unreachable r = unreachable
worst incomplete unreachable = unreachable
worst incomplete _ = incomplete
worst reconciled r = r

unfoldable pub reconcile_failed : Err → Result
unfolding is_transport_error
reconcile_failed e = if is_transport_error e then unreachable else incomplete

-- A not-found counts as removed.
unfoldable pub removal : Option Err → Result
unfolding reconcile_failed is_not_found
removal none = reconciled
removal (some e) = if is_not_found e then reconciled else reconcile_failed e

-- Of a container, so does a removal that is under way.
unfoldable pub container_removal : Option Err → Result
unfolding removal is_conflict
container_removal none = reconciled
container_removal (some e) = if is_conflict e then reconciled else removal (some e)

unfoldable pub worst_of {ℓ} : {A : Type ℓ} → (A → Result) → List A → Result
unfolding worst
worst_of answer [] = reconciled
worst_of answer (a ∷ rest) = worst (answer a) (worst_of answer rest)

-- The removals are handed out in order, a few at a time, until the conn is gone or one of those
-- that have come back says that the daemon is unreachable. How far that is depends on their timing:
-- `handed` is how many are handed out.
unfoldable pub remove_orphans {ℓ} : {A : Type ℓ} → (A → Result) → List A → ℕ → Result
unfolding worst_of
remove_orphans answer names handed = worst_of answer (take handed names)

pub record Answers : Type 0 where
  pub list_failed : Option Err
  pub containers : List Container
  pub networks : List Bytes
  pub rows : Option (List ℕ)
  pub remove_container : Container → Option Err
  pub remove_network : Bytes → Option Err
  pub containers_handed : ℕ
  pub networks_handed : ℕ

unfoldable pub remove_networks : Answers → Result → List Bytes → Result
unfolding removal worst
remove_networks d unreachable names = unreachable
remove_networks d result names =
    worst result (remove_orphans (λ n. removal (d.remove_network n)) names d.networks_handed)

-- Both lists empty or not, the removals of none are no removals.
unfoldable pub remove_leftovers : Answers → List ℕ → Result
unfolding container_removal remove_networks
remove_leftovers d live =
    remove_networks d
      (remove_orphans (λ c. container_removal (d.remove_container c))
        (orphan_containers d.containers live) d.containers_handed)
      (orphan_networks d.networks live)

unfoldable pub with_rows : Answers → Option (List ℕ) → Result
unfolding remove_leftovers
with_rows d none = incomplete
with_rows d (some live) = remove_leftovers d live

unfoldable pub after_lists : Answers → Option Err → Result
unfolding with_rows reconcile_failed
after_lists d (some e) = reconcile_failed e
after_lists d none = with_rows d d.rows

unfoldable pub reconcile_worker : Answers → Result
unfolding after_lists
reconcile_worker d = after_lists d d.list_failed
