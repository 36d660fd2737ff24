-- ===== src/Ping.antt =====
-- src/ping.rs: the order statistics over the round-trip times of a host, and the series of pings. A
-- duration is a number of nanoseconds.
pub mod Ranks
pub mod Percentile
pub mod Series
use deptool.Base.{
  ℕ, zero, suc, ◌+◌, ◌-◌, ◌*◌, ◌/◌, Option, none, some, List, [], ◌∷◌, leb, if◌then◌else◌, length,
  sort, nat_ord,
}
use deptool.Deploy.Progress.{PingStats}

-- `slice::get`
unfoldable pub get_elem? : List ℕ → ℕ → Option ℕ
get_elem? [] i = none
get_elem? (x ∷ xs) zero = some x
get_elem? (x ∷ xs) (suc i) = get_elem? xs i

abbrev pub p95_min_samples : ℕ
p95_min_samples = 20

-- The position of the p-th percentile: `(n * p).div_ceil(100).saturating_sub(1)`.
abbrev pub rank : ℕ → ℕ → ℕ
rank n p = (n * p + 99) / 100 - 1

unfoldable pub pct : List ℕ → ℕ → ℕ → Option ℕ
pct sorted n p = get_elem? sorted (rank n p)

-- `PingStats::compute`
unfoldable pub compute : List ℕ → PingStats
compute samples =
    let sorted = sort samples in
    let n = length sorted in
    record {
      count = n;
      min = get_elem? sorted 0;
      p50 = pct sorted n 50;
      p95 = if leb p95_min_samples n then pct sorted n 95 else none;
    }
