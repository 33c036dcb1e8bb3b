-- ===== src/Perf.antt =====
-- backend/ebpf_perf.py behind the parsing of the collector's maps: percentiles, and the performance
-- of a device's queues. A fraction of 1 is a number of thousandths, and the comparison with it is
-- exact where the source compares floats.
pub mod Percentile
pub mod Sums
pub mod Ticks
pub mod Segment
pub mod Service
use telemetryd.Base.{
  ℕ, zero, suc, ◌+◌, ◌*◌, ℤ, pos, negsuc, int_eq, int_ltb, Bool, true, false, ◌&&◌, ◌||◌, Option,
  none, some, List, [], ◌∷◌, map, sum, Text, codes, text_keys, nat_keys, int_keys, pair_keys, Dict,
  get, put, get_or, ltb, leb, ◌==◌, if◌then◌else◌, sort_by,
}
use telemetryd.Names.{match_device}
use telemetryd.Models.Perf.{QueuePerf, DevicePerf}

-- `(lo_ns, hi_ns, count)`
pub record Bucket : Type 0 where
  pub lo : ℕ
  pub hi : ℕ
  pub count : ℕ

abbrev pub Counters : Type 0
Counters = Dict Text ℕ

-- A controller and a queue.
abbrev pub QueueKey : Type 0
QueueKey = ℤ × ℤ

abbrev pub lo_before : Bucket → Bucket → Bool
lo_before a b = ltb a.lo b.lo

abbrev pub total_count : List Bucket → ℕ
total_count [] = 0
total_count (b ∷ bs) = b.count + total_count bs

-- The loop: the upper bound of the first bucket with which the target is reached.
unfoldable pub first_reaching : ℕ → ℕ → ℕ → List Bucket → Option ℕ
first_reaching p total cum [] = none
first_reaching p total cum (b ∷ bs) =
    let rest = first_reaching p total (cum + b.count) bs in
    if leb (p * total) (1000 * (cum + b.count)) then some b.hi else rest

-- `sorted(...)[-1][1]`
abbrev pub last_hi : List Bucket → ℕ
last_hi [] = 0
last_hi (b ∷ []) = b.hi
last_hi (b ∷ c ∷ bs) = last_hi (c ∷ bs)

unfoldable pub percentile_ns : List Bucket → ℕ → ℕ
percentile_ns buckets p =
    let sorted = sort_by lo_before buckets in
    let total = total_count buckets in
    if total == 0
    then 0
    else elim (first_reaching p total 0 sorted) [ none ↦ last_hi sorted | some hi ↦ hi ]

unfoldable pub merge_into : Dict (ℕ × ℕ) ℕ → List Bucket → Dict (ℕ × ℕ) ℕ
merge_into merged [] = merged
merge_into merged (b ∷ bs) =
    merge_into (put merged (b.lo, b.hi) (get_or merged (b.lo, b.hi) 0 + b.count)) bs

unfoldable pub merge_all : Dict (ℕ × ℕ) ℕ → List (List Bucket) → Dict (ℕ × ℕ) ℕ
merge_all merged [] = merged
merge_all merged (bs ∷ lists) = merge_all (merge_into merged bs) lists

abbrev pub buckets_of : Dict (ℕ × ℕ) ℕ → List Bucket
buckets_of [] = []
buckets_of (((lo, hi), n) ∷ d) = record { lo = lo; hi = hi; count = n } ∷ buckets_of d

unfoldable pub merge_buckets : List (List Bucket) → List Bucket
merge_buckets lists = buckets_of (merge_all [] lists)

unfoldable pub build_queue_perf : ℤ → Counters → List Bucket → QueuePerf
build_queue_perf qid counters buckets =
    let lat_count = get_or counters (codes "lat_count") 0 in
    record {
      qid = qid;
      iops = get_or counters (codes "op_count") 0;
      read_iops = get_or counters (codes "read_count") 0;
      write_iops = get_or counters (codes "write_count") 0;
      bandwidth_bytes_per_sec = get_or counters (codes "bytes_sum") 0;
      avg_latency_ns =
          if lat_count == 0 then (0, 0) else (get_or counters (codes "lat_sum") 0, lat_count);
      p50_latency_ns = percentile_ns buckets 500;
      p95_latency_ns = percentile_ns buckets 950;
      p99_latency_ns = percentile_ns buckets 990;
      p999_latency_ns = percentile_ns buckets 999;
    }

abbrev pub key_before : QueueKey × Counters → QueueKey × Counters → Bool
key_before ((a, b), x) ((c, d), y) = int_ltb a c || int_eq a c && int_ltb b d

-- The entries of the controller, by rising queue.
unfoldable pub of_device : ℕ → List (QueueKey × Counters) → List (ℤ × Counters)
of_device i [] = []
of_device i (((ctrl, qid), counters) ∷ rest) =
    let others = of_device i rest in
    if int_eq ctrl (pos i) then (qid, counters) ∷ others else others

unfoldable pub add_counters : Counters → Counters → Counters
add_counters sums [] = sums
add_counters sums ((k, v) ∷ rest) = add_counters (put sums k (get_or sums k 0 + v)) rest

unfoldable pub sum_counters : Counters → List (ℤ × Counters) → Counters
sum_counters sums [] = sums
sum_counters sums ((qid, counters) ∷ rest) = sum_counters (add_counters sums counters) rest

abbrev pub hist_of : Dict QueueKey (List Bucket) → ℕ → ℤ → List Bucket
hist_of hists i qid = get_or hists (pos i, qid) []

abbrev pub queue_perfs : Dict QueueKey (List Bucket) → ℕ → List (ℤ × Counters) → List QueuePerf
queue_perfs hists i [] = []
queue_perfs hists i ((qid, counters) ∷ rest) =
    build_queue_perf qid counters (hist_of hists i qid) ∷ queue_perfs hists i rest

-- The queues' performance and that of all together.
unfoldable pub with_aggregate :
    Dict QueueKey (List Bucket) → ℕ → List (ℤ × Counters) → List QueuePerf × Option QueuePerf
with_aggregate hists i [] = ([], none)
with_aggregate hists i (q ∷ qs) = (
  queue_perfs hists i (q ∷ qs),
  some (
      build_queue_perf (negsuc 0) (sum_counters [] (q ∷ qs))
        (merge_buckets (map (λ (x : ℤ × Counters). hist_of hists i x.0) (q ∷ qs)))),
)

-- `read_latest_performance` behind the parsing of the last whole tick into its maps.
unfoldable pub performance_of :
    Dict QueueKey Counters → Dict QueueKey (List Bucket) → ℕ → List QueuePerf × Option QueuePerf
performance_of scalars hists i = with_aggregate hists i (of_device i (sort_by key_before scalars))
