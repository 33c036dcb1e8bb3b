-- ===== src/Tests/Loads.antt =====
-- Percentiles and rates of concrete histograms and counters.
use telemetryd.Base.{
  ◌*◌, ◌≤◌, ◌<◌, ◌≡◌, refl, pos, negsuc, Bool, true, false, Option, none, Dict, ℤ, some, List, [],
  ◌∷◌, ◌++◌, map, sum, Text, codes, text_keys, int_keys, pair_keys, put, read_int, sort_by,
  insert_by, get, strip_prefix, Option-cases, inl, inr, arith,
}
use telemetryd.Models.Perf.{QueuePerf, DevicePerf}
use telemetryd.Platform.LogFile.{FileLogSource, available, read_all}
use telemetryd.Names.{match_device}
use telemetryd.Perf.{
  Bucket, Counters, QueueKey, lo_before, total_count, percentile_ns, first_reaching, with_aggregate,
  of_device, performance_of, build_queue_perf, sum_counters, merge_buckets, add_counters, merge_all,
  merge_into,
}
use telemetryd.Perf.Percentile.{Rising, count_up_to, count_below, percentile_ns-covers}
use telemetryd.Perf.Ticks.{
  tick_mark, printed, NoMark, last_complete_tick, last_complete_tick-printed,
}
use telemetryd.Perf.Segment.{parse_last_complete_tick, parse_bucket_bound}
use telemetryd.Perf.Service.{get_performance}
use telemetryd.Perf.Service.Totals.{get_performance-AddsUp}

abbrev buckets : List Bucket
buckets =
    record { lo = 1024; hi = 2048; count = 10 } ∷ record { lo = 512; hi = 1024; count = 90 } ∷ []

p95 : percentile_ns buckets 950 ≡ 2048
unfolding percentile_ns first_reaching sort_by insert_by
p95 = refl

rising : Rising (sort_by lo_before buckets)
unfolding sort_by insert_by
rising = ((omega arith, tt), (tt, tt))

percentile_ns-covers_example :
    (500 * total_count buckets ≤ 1000 * count_up_to (percentile_ns buckets 500) buckets)
    × (0 < 500 * total_count buckets
        → 1000 * count_below (percentile_ns buckets 500) buckets < 500 * total_count buckets)
    × (percentile_ns buckets 500 ≤ percentile_ns buckets 950)
percentile_ns-covers_example =
    percentile_ns-covers buckets 500 950 rising (omega arith) (omega arith)

abbrev first_counters : Counters
first_counters = (codes "op_count", 30) ∷ (codes "bytes_sum", 4096) ∷ []

abbrev scalars : Dict QueueKey Counters
scalars = ((pos 0, pos 1), first_counters) ∷ []

abbrev mine : List (ℤ × Counters)
mine = (pos 1, first_counters) ∷ []

abbrev whole : QueuePerf
whole = build_queue_perf (negsuc 0) (sum_counters [] mine) (merge_buckets ([] ∷ []))

whole_row : (performance_of scalars [] 0).1 ≡ some whole
unfolding performance_of with_aggregate of_device sort_by insert_by get
whole_row = refl

abbrev sample_tick : Text
sample_tick =
    codes
      "@op_count[0, 1]: 150\n@bytes_sum[0, 1]: 6291456\n\n@lat_hist[0, 1]:\n[512, 1K)   80 |@@@  |\n[1K, 2K)    9 |@    |\n@op_count[1, 2]: 200"

abbrev attaching : Text
attaching = codes "Attaching 5 probes..."

abbrev unfinished : Text
unfinished = codes "@op_count[0, 1]: 999"

abbrev sample_log : Text
sample_log = printed (attaching ∷ sample_tick ∷ []) unfinished

-- A test for the mark.
unfoldable no_mark : Text → Bool
unfolding strip_prefix
no_mark [] = true
no_mark (c ∷ cs) = elim (strip_prefix tick_mark (c ∷ cs)) [ none ↦ no_mark cs | some rest ↦ false ]

no_mark-NoMark : (t : Text) → no_mark t ≡ true → NoMark t
unfolding no_mark
no_mark-NoMark [] e = tt
no_mark-NoMark (c ∷ cs) e = elim (Option-cases (strip_prefix tick_mark (c ∷ cs))) [
  | inl f ↦ (f, no_mark-NoMark cs (rw (f, no_mark) at e))
  | inr (rest, f) ↦ absurd (ground (arith, f, e))
]

samples_unmarked :
    (no_mark attaching ≡ true) × ((no_mark sample_tick ≡ true) × (no_mark unfinished ≡ true))
unfolding no_mark
samples_unmarked = (refl, (refl, refl))

last_complete_tick-printed_example :
    (last_complete_tick sample_log ≡ some (sample_tick ++ (10 ∷ [])))
    × (last_complete_tick unfinished ≡ none)
last_complete_tick-printed_example =
    last_complete_tick-printed (attaching ∷ []) sample_tick unfinished
      (no_mark-NoMark attaching samples_unmarked.0, tt)
      (no_mark-NoMark sample_tick samples_unmarked.1.0)
      (no_mark-NoMark unfinished samples_unmarked.1.1)

parsed :
    parse_last_complete_tick sample_log
    ≡ some record {
      scalars =
          ((pos 0, pos 1), (codes "op_count", 150) ∷ (codes "bytes_sum", 6291456) ∷ [])
          ∷ ((pos 1, pos 2), (codes "op_count", 200) ∷ [])
          ∷ [];
      hists =
          (
            (pos 0, pos 1),
            record { lo = 512; hi = 1024; count = 80 }
                ∷ record { lo = 1024; hi = 2048; count = 9 }
                ∷ [],
          )
          ∷ [];
    }
unfolding parse_last_complete_tick read_int put get
parsed = refl

bounds_read :
    (parse_bucket_bound (codes "1.5K") ≡ some 1536) × (parse_bucket_bound (codes "1.2.3") ≡ none)
unfolding parse_bucket_bound
bounds_read = (refl, refl)

abbrev log : FileLogSource
log = record { path = some (codes "/var/log/nvme_perf.log") }

abbrev as_is : Text → Text
as_is t = t

abbrev answer : Option DevicePerf
answer = get_performance as_is as_is log true true (some sample_log) (codes "nvme0")

abbrev row : QueuePerf
row =
    build_queue_perf (pos 1) ((codes "op_count", 150) ∷ (codes "bytes_sum", 6291456) ∷ [])
      (record { lo = 512; hi = 1024; count = 80 } ∷ record { lo = 1024; hi = 2048; count = 9 } ∷ [])

abbrev totals : QueuePerf
totals =
    build_queue_perf (negsuc 0) ((codes "op_count", 150) ∷ (codes "bytes_sum", 6291456) ∷ [])
      (record { lo = 512; hi = 1024; count = 80 } ∷ record { lo = 1024; hi = 2048; count = 9 } ∷ [])

abbrev perf : DevicePerf
perf = record {
  device = codes "nvme0";
  queues = row ∷ [];
  available = true;
  error = none;
  aggregate = some totals;
}

answered : answer ≡ some perf
unfolding get_performance available match_device read_all read_int performance_of with_aggregate
    of_device sort_by put get sum_counters merge_buckets add_counters merge_all merge_into
answered = refl

get_performance-AddsUp_example :
    (totals.iops ≡ sum (map (λ q. q.iops) (row ∷ [])))
    × (totals.bandwidth_bytes_per_sec ≡ sum (map (λ q. q.bandwidth_bytes_per_sec) (row ∷ [])))
get_performance-AddsUp_example =
    get_performance-AddsUp as_is as_is log true true (some sample_log) (codes "nvme0") perf answered
      totals refl
