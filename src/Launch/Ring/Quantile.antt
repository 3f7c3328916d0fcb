-- ===== src/Launch/Ring/Quantile.antt =====
-- The quantiles are order statistics of what the ring holds.
use challenge_orchestrator.Common.{
  ℕ, zero, suc, ◌+◌, ◌-◌, ◌*◌, ◌/◌, ◌≤◌, ◌<◌, ◌≡◌, refl, ◌∙◌, ap, subst, arith, some, List, [], ◌∷◌,
  length, get_elem?, take, ltb, leb, if◌then◌else◌, All,
}
use challenge_orchestrator.Common.Lists.Index.{get_elem?-total, length-take_le}
use challenge_orchestrator.Launch.Ring.{
  LaunchRing, quantile_index, insert_sorted, sort, quantiles, stats,
}

-- How many elements are at most `x`, and how many are below it.
pub count_le : ℕ → List ℕ → ℕ
count_le x [] = 0
count_le x (y ∷ ys) = (if leb y x then 1 else 0) + count_le x ys

pub count_lt : ℕ → List ℕ → ℕ
count_lt x [] = 0
count_lt x (y ∷ ys) = (if ltb y x then 1 else 0) + count_lt x ys

-- The nearest-rank percentile: at least `pct` percent of the list are at most `x`, and fewer than
-- that are below it.
abbrev pub IsPercentile : List ℕ → ℕ → ℕ → Type 0
IsPercentile xs pct x =
    (length xs * pct ≤ 100 * count_le x xs) × (100 * count_lt x xs < length xs * pct)

quantile_index_rank :
    (n pct : ℕ)
    → 0 < n
    → 0 < pct
    → pct ≤ 100
    → (quantile_index n pct < n)
      × (n * pct ≤ 100 * (quantile_index n pct + 1))
      × (100 * quantile_index n pct < n * pct)
unfolding quantile_index
quantile_index_rank n pct hn hp hq =
    let above : n * pct ≤ n * 100 = grind arith in
    let below : 1 ≤ n * pct = grind arith in (ground arith, ground arith, ground arith)

module _ (x : ℕ) where
  count_le-insert_sorted :
      (y : ℕ) (ys : List ℕ) → count_le x (insert_sorted y ys) ≡ count_le x (y ∷ ys)
  unfolding count_le insert_sorted
  count_le-insert_sorted y [] = refl
  count_le-insert_sorted y (z ∷ zs) = ground (arith, count_le-insert_sorted y zs)

  count_lt-insert_sorted :
      (y : ℕ) (ys : List ℕ) → count_lt x (insert_sorted y ys) ≡ count_lt x (y ∷ ys)
  unfolding count_lt insert_sorted
  count_lt-insert_sorted y [] = refl
  count_lt-insert_sorted y (z ∷ zs) = ground (arith, count_lt-insert_sorted y zs)

  count_le-sort : (ys : List ℕ) → count_le x (sort ys) ≡ count_le x ys
  unfolding count_le sort
  count_le-sort [] = refl
  count_le-sort (y ∷ ys) = omega (arith, count_le-insert_sorted y (sort ys), count_le-sort ys)

  count_lt-sort : (ys : List ℕ) → count_lt x (sort ys) ≡ count_lt x ys
  unfolding count_lt sort
  count_lt-sort [] = refl
  count_lt-sort (y ∷ ys) = omega (arith, count_lt-insert_sorted y (sort ys), count_lt-sort ys)

length-insert_sorted : (y : ℕ) (ys : List ℕ) → length (insert_sorted y ys) ≡ suc (length ys)
unfolding insert_sorted
length-insert_sorted y [] = refl
length-insert_sorted y (z ∷ zs) = ground (arith, length-insert_sorted y zs)

length-sort : (ys : List ℕ) → length (sort ys) ≡ length ys
unfolding sort
length-sort [] = refl
length-sort (y ∷ ys) = length-insert_sorted y (sort ys) ∙ ap suc (length-sort ys)

IsSorted : List ℕ → Type 0
IsSorted [] = Unit
IsSorted (x ∷ xs) = All (λ y. x ≤ y) xs × IsSorted xs

All-insert_sorted :
    (x y : ℕ) (ys : List ℕ) → x ≤ y → All (λ z. x ≤ z) ys → All (λ z. x ≤ z) (insert_sorted y ys)
unfolding insert_sorted
All-insert_sorted x y [] h a = (h, tt)
All-insert_sorted x y (z ∷ zs) h a = ground (arith, All-insert_sorted x y zs h)

All-weaken : (x y : ℕ) (ys : List ℕ) → x ≤ y → All (λ z. y ≤ z) ys → All (λ z. x ≤ z) ys
All-weaken x y [] h a = tt
All-weaken x y (z ∷ zs) h a = (omega arith, All-weaken x y zs h a.1)

insert_sorted-IsSorted : (y : ℕ) (ys : List ℕ) → IsSorted ys → IsSorted (insert_sorted y ys)
unfolding insert_sorted IsSorted
insert_sorted-IsSorted y [] s = (tt, tt)
insert_sorted-IsSorted y (z ∷ zs) s =
    ground (arith, All-weaken y z zs, All-insert_sorted z y zs, insert_sorted-IsSorted y zs)

sort-IsSorted : (ys : List ℕ) → IsSorted (sort ys)
unfolding sort IsSorted
sort-IsSorted [] = tt
sort-IsSorted (y ∷ ys) = insert_sorted-IsSorted y (sort ys) (sort-IsSorted ys)

count_lt-none : (x : ℕ) (ys : List ℕ) → All (λ z. x ≤ z) ys → count_lt x ys ≡ 0
unfolding count_lt
count_lt-none x [] a = refl
count_lt-none x (z ∷ zs) a = ground (arith, count_lt-none x zs)

All-get_elem? :
    (x y : ℕ) (ys : List ℕ) (i : ℕ) → All (λ z. x ≤ z) ys → get_elem? ys i ≡ some y → x ≤ y
All-get_elem? x y [] i a e = cc
All-get_elem? x y (z ∷ zs) zero a e = ground arith
All-get_elem? x y (z ∷ zs) (suc i) a e = All-get_elem? x y zs i a.1 e

-- In a sorted list, what stands at index `i` has at most `i` elements below it, and more than `i`
-- that are at most it.
sorted_rank :
    (ys : List ℕ) (i x : ℕ)
    → IsSorted ys
    → get_elem? ys i ≡ some x
    → (count_lt x ys ≤ i) × (i + 1 ≤ count_le x ys)
unfolding count_le count_lt IsSorted
sorted_rank [] i x s e = cc
sorted_rank (y ∷ ys) zero x s e = ground (arith, count_lt-none y ys)
sorted_rank (y ∷ ys) (suc i) x s e =
    ground (arith, sorted_rank ys i x s.1 e, All-get_elem? y x ys i s.0 e)

IsPercentile-of_sort :
    (xs : List ℕ) (pct x : ℕ)
    → 0 < length xs
    → 0 < pct
    → pct ≤ 100
    → get_elem? (sort xs) (quantile_index (length xs) pct) ≡ some x
    → IsPercentile xs pct x
IsPercentile-of_sort xs pct x hn hp hq e =
    let rank = quantile_index_rank (length xs) pct hn hp hq in
    let at = sorted_rank (sort xs) (quantile_index (length xs) pct) x (sort-IsSorted xs) e in
    (omega (arith, count_le-sort x xs), omega (arith, count_lt-sort x xs))

top_index : (n : ℕ) → n - 1 ≡ quantile_index n 100
unfolding quantile_index
top_index n = ground arith

-- The sort.Slice element at the index of a percentile exists, and is that percentile.
IsPercentile-found :
    (xs : List ℕ) (pct : ℕ)
    → 0 < length xs
    → 0 < pct
    → pct ≤ 100
    → (x : ℕ) × (get_elem? (sort xs) (quantile_index (length xs) pct) ≡ some x)
      × IsPercentile xs pct x
IsPercentile-found xs pct hn hp hq =
    let (x, e) =
      get_elem?-total (sort xs) (quantile_index (length xs) pct)
        (omega (arith, length-sort xs, (quantile_index_rank (length xs) pct hn hp hq).0)) in
    (x, e, IsPercentile-of_sort xs pct x hn hp hq e)

quantiles-some :
    (r : LaunchRing) (sorted : List ℕ) (a b c : ℕ)
    → get_elem? sorted (quantile_index r.filled 50) ≡ some a
    → get_elem? sorted (quantile_index r.filled 90) ≡ some b
    → get_elem? sorted (quantile_index r.filled 100) ≡ some c
    → quantiles r sorted
      ≡ some (record {
        count = r.total;
        failed = r.failed;
        samples = r.filled;
        p50_ms = a / 1_000_000;
        p90_ms = b / 1_000_000;
        max_ms = c / 1_000_000;
      })
unfolding quantiles
quantiles-some r sorted a b c ea eb ec = ground (arith, ap (get_elem? sorted) (top_index r.filled))

IsPercentile-found_at :
    (xs : List ℕ) (n pct : ℕ)
    → length xs ≡ n
    → 0 < n
    → 0 < pct
    → pct ≤ 100
    → (x : ℕ) × (get_elem? (sort xs) (quantile_index n pct) ≡ some x) × IsPercentile xs pct x
IsPercentile-found_at xs n pct size hn hp hq =
    subst
      (λ m. (x : ℕ) × (get_elem? (sort xs) (quantile_index m pct) ≡ some x) × IsPercentile xs pct x)
      size (IsPercentile-found xs pct (omega arith) hp hq)

-- For a ring with at least one success and no more than its buffer holds, the summary is produced
-- with no index out of range: it has the counts of the ring, and in milliseconds the nearest-rank
-- 50th and 90th percentiles and the maximum of the durations that the ring holds.
pub stats-percentiles :
    (r : LaunchRing)
    → 0 < r.filled
    → r.filled ≤ length r.buf
    → (p50 p90 top : ℕ) × (stats r
        ≡ some (record {
          count = r.total;
          failed = r.failed;
          samples = r.filled;
          p50_ms = p50 / 1_000_000;
          p90_ms = p90 / 1_000_000;
          max_ms = top / 1_000_000;
        }))
      × IsPercentile (take r.filled r.buf) 50 p50
      × IsPercentile (take r.filled r.buf) 90 p90
      × IsPercentile (take r.filled r.buf) 100 top
unfolding stats
stats-percentiles r h k =
    let xs = take r.filled r.buf in
    let size : length xs ≡ r.filled = length-take_le r.filled r.buf k in
    let (a, ea, pa) = IsPercentile-found_at xs r.filled 50 size h (omega arith) (omega arith) in
    let (b, eb, pb) = IsPercentile-found_at xs r.filled 90 size h (omega arith) (omega arith) in
    let (c, ec, pc) = IsPercentile-found_at xs r.filled 100 size h (omega arith) (omega arith) in
    let found = quantiles-some r (sort xs) a b c ea eb ec in
    (a, b, c, ground (arith, found), pa, pb, pc)
