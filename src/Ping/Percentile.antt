-- ===== src/Ping/Percentile.antt =====
-- src/ping.rs: the statistics are nearest-rank percentiles of the samples.
use deptool.Base.{
  ◌≡◌, refl, sym, ◌∙◌, ap, ℕ, suc, ◌+◌, ◌-◌, ◌*◌, ◌/◌, ◌≤◌, ◌<◌, true, Option, none, some, List, [],
  ◌∷◌, ltb, leb, if◌then◌else◌, length, sort, nat_ord, arith,
}
use deptool.Deploy.Progress.{PingStats}
use deptool.Ping.{get_elem?, p95_min_samples, rank, pct, compute}
use deptool.Ping.Ranks.{
  count, count-sort, sort-IsRising, at_most, below, at_most-get_elem?, below-get_elem?,
  get_elem?-lt, get_elem?-nil,
}

-- At least p % of the samples are at most this one, and of no smaller number is that so.
pub record IsPercentile (p v : ℕ) (samples : List ℕ) : Type 0 where
  pub reached : length samples * p ≤ 100 * at_most v samples
  pub least : (w : ℕ) → w < v → 100 * at_most w samples < length samples * p

count-all : (xs : List ℕ) → count (λ x. true) xs ≡ length xs
count-all [] = refl
count-all (x ∷ xs) = ap suc (count-all xs)

length-sort : (xs : List ℕ) → length (sort xs) ≡ length xs
length-sort xs = sym (count-all (sort xs)) ∙ count-sort (λ x. true) xs ∙ count-all xs

at_most-le-below : (w v : ℕ) (xs : List ℕ) → w < v → at_most w xs ≤ below v xs
at_most-le-below w v [] h = omega arith
at_most-le-below w v (x ∷ xs) h = ground (arith, at_most-le-below w v xs h)

rank-lt : (m n : ℕ) → 0 < m → m ≤ n * 100 → (m + 99) / 100 - 1 < n
rank-lt m n h k = omega arith

rank_bounds :
    (m : ℕ) → 0 < m → (m ≤ 100 * ((m + 99) / 100 - 1) + 100) × (100 * ((m + 99) / 100 - 1) < m)
rank_bounds m h = (omega arith, omega arith)

times_pos : (n p : ℕ) → 0 < n → 0 < p → 0 < n * p
times_pos n p h k = grind arith

times-le : (n p : ℕ) → p ≤ 100 → n * p ≤ n * 100
times-le n p h = grind arith

pct-IsPercentile :
    (samples : List ℕ) (p : ℕ)
    → 0 < length samples
    → 0 < p
    → p ≤ 100
    → (v : ℕ) × (pct (sort samples) (length (sort samples)) p ≡ some v) × IsPercentile p v samples
unfolding pct
pct-IsPercentile samples p some_samples positive percent =
    let n = length samples in
    let (v, at) = get_elem?-lt (sort samples) (rank n p) (
      omega (
        arith,
        rank-lt (n * p) n (times_pos n p some_samples positive) (times-le n p percent),
        length-sort samples,
      )) in
    let (up, down) = rank_bounds (n * p) (times_pos n p some_samples positive) in
    (
      v,
      rw (length-sort samples) at,
      record {
        reached = omega (
          arith,
          up,
          at_most-get_elem? (sort samples) (rank n p) v (sort-IsRising samples) at,
          count-sort (λ x. leb x v) samples,
        );
        least = λ w lower. omega (
          arith,
          down,
          below-get_elem? (sort samples) (rank n p) v (sort-IsRising samples) at,
          at_most-le-below w v samples lower,
          count-sort (λ x. ltb x v) samples,
        );
      },
    )

-- No sample is below the first of the sorted ones, which is a sample.
abbrev pub IsLeast : ℕ → List ℕ → Type 0
IsLeast v samples = (below v samples ≡ 0) × (0 < at_most v samples)

min-IsLeast :
    (samples : List ℕ)
    → 0 < length samples
    → (v : ℕ) × (get_elem? (sort samples) 0 ≡ some v) × IsLeast v samples
min-IsLeast samples h =
    let (v, at) = get_elem?-lt (sort samples) 0 (omega (arith, length-sort samples)) in
    (
      v,
      at,
      (
        omega (
          arith,
          below-get_elem? (sort samples) 0 v (sort-IsRising samples) at,
          count-sort (λ x. ltb x v) samples,
        ),
        omega (
          arith,
          at_most-get_elem? (sort samples) 0 v (sort-IsRising samples) at,
          count-sort (λ x. leb x v) samples,
        ),
      ),
    )

-- The statistics of samples.
pub record AreStats (samples : List ℕ) (stats : PingStats) : Type 0 where
  pub count_all : stats.count ≡ length samples
  pub nothing : length samples ≡ 0 → (stats.min ≡ none) × (stats.p50 ≡ none)
  pub min_least : 0 < length samples → (v : ℕ) × (stats.min ≡ some v) × IsLeast v samples
  pub median : 0 < length samples → (v : ℕ) × (stats.p50 ≡ some v) × IsPercentile 50 v samples
  pub tail :
      p95_min_samples ≤ length samples → (v : ℕ) × (stats.p95 ≡ some v) × IsPercentile 95 v samples
  pub hidden_tail : length samples < p95_min_samples → stats.p95 ≡ none

sort-nil : (samples : List ℕ) → length samples ≡ 0 → sort samples ≡ []
unfolding sort
sort-nil [] h = refl
sort-nil (x ∷ xs) h = absurd (omega arith)

shown_p95 :
    (n : ℕ) (o : Option ℕ) → p95_min_samples ≤ n → (if leb p95_min_samples n then o else none) ≡ o
shown_p95 n o h = ground arith

hidden_p95 :
    (n : ℕ) (o : Option ℕ)
    → n < p95_min_samples
    → (if leb p95_min_samples n then o else none) ≡ none
hidden_p95 n o h = ground arith

-- The statistics of samples count them all. If there is a sample, the minimum is the least one,
-- and the median is the least sample that at least half of them do not exceed. The 95th percentile
-- is that for 95 %, and is shown exactly from 20 samples on.
pub compute-AreStats : (samples : List ℕ) → AreStats samples (compute samples)
unfolding compute pct
compute-AreStats samples = record {
  count_all = length-sort samples;
  nothing = λ h. rw (sort-nil samples h) (get_elem?-nil _, get_elem?-nil _);
  min_least = λ h. min-IsLeast samples h;
  median = λ h. pct-IsPercentile samples 50 h (omega arith) (omega arith);
  tail = λ h.
      let (v, at, is) = pct-IsPercentile samples 95 (omega arith) (omega arith) (omega arith) in
      (v, shown_p95 (length (sort samples)) _ (omega (arith, length-sort samples)) ∙ at, is);
  hidden_tail = λ h. hidden_p95 (length (sort samples)) _ (omega (arith, length-sort samples));
}
