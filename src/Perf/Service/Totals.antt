-- ===== src/Perf/Service/Totals.antt =====
-- The service's answer: its aggregate row sums up its queues' rows.
use telemetryd.Base.{
  ℕ, ◌≡◌, refl, subst, Bool, true, Option, none, some, List, [], ◌∷◌, map, sum, Text, text_keys,
  int_keys, pair_keys, Bool-cases, Option-cases, inl, inr, arith,
}
use telemetryd.Names.{match_device}
use telemetryd.Models.Perf.{QueuePerf, DevicePerf}
use telemetryd.Platform.LogFile.{Bytes, Decoder, FileLogSource, available, read_all}
use telemetryd.Perf.{performance_of}
use telemetryd.Perf.Sums.{performance_of-sums}
use telemetryd.Perf.Segment.{Maps, parse_last_complete_tick}
use telemetryd.Perf.Service.{
  rows_of, read_latest_performance, unavailable, device_perf, read_device_performance,
  get_performance, no_tick, no_log, bad_name,
}
use telemetryd.Perf.Segment.Clean.{parse_last_complete_tick-IsClean}

-- What an answer says: the rates of its aggregate row, where there is one, are the queues' summed.
abbrev pub AddsUp : DevicePerf → Type 0
AddsUp p =
    (whole : QueuePerf)
    → p.aggregate ≡ some whole
    → (whole.iops ≡ sum (map (λ q. q.iops) p.queues))
      × (whole.bandwidth_bytes_per_sec ≡ sum (map (λ q. q.bandwidth_bytes_per_sec) p.queues))

unavailable-AddsUp : (device message : Text) → AddsUp (unavailable device message)
unavailable-AddsUp device message whole e = absurd (ground (arith, e))

device_perf-AddsUp :
    (device : Text) (rows : List QueuePerf × Option QueuePerf)
    → AddsUp record {
      device = device;
      queues = rows.0;
      available = true;
      error = none;
      aggregate = rows.1;
    }
    → AddsUp (device_perf device rows)
unfolding device_perf
device_perf-AddsUp device ([], aggregate) h = unavailable-AddsUp device no_tick
device_perf-AddsUp device (q ∷ qs, aggregate) h = h

rows_injective : (a b : List QueuePerf × Option QueuePerf) → some a ≡ some b → a ≡ b
rows_injective a b e = cc

rows-AddsUp :
    (device text : Text) (i : ℕ) (o : Option Maps) (rows : List QueuePerf × Option QueuePerf)
    → parse_last_complete_tick text ≡ o
    → rows_of i o ≡ some rows
    → AddsUp (device_perf device rows)
rows-AddsUp device text i none rows f e = absurd (ground (arith, e))
rows-AddsUp device text i (some maps) rows f e =
    subst (λ r. AddsUp (device_perf device r))
      (rows_injective (performance_of maps.scalars maps.hists i) rows e)
      (device_perf-AddsUp device (performance_of maps.scalars maps.hists i) (λ whole h.
        performance_of-sums maps.scalars maps.hists i whole
          (parse_last_complete_tick-IsClean text maps f) h))

answer_injective : (p q : DevicePerf) → some p ≡ some q → p ≡ q
answer_injective p q e = cc

unavailable_answer :
    (device message : Text) (p : DevicePerf) → some (unavailable device message) ≡ some p → AddsUp p
unavailable_answer device message p e =
    subst AddsUp (answer_injective (unavailable device message) p e)
      (unavailable-AddsUp device message)

read_latest_performance-AddsUp :
    (decode : Decoder) (log : FileLogSource) (exists : Bool) (content : Option Bytes)
    (device : Text) (i : ℕ) (rows : List QueuePerf × Option QueuePerf)
    → read_latest_performance decode log exists content i ≡ some rows
    → AddsUp (device_perf device rows)
unfolding read_latest_performance device_perf
read_latest_performance-AddsUp decode log exists content device i rows e =
    let text = read_all decode log content in
    elim (Bool-cases (available log exists)) [
      | inl present ↦
          rows-AddsUp device text i (parse_last_complete_tick text) rows refl
            (rw (present, read_latest_performance) at e)
      | inr absent ↦
          subst (λ r. AddsUp (device_perf device r))
            (rows_injective ([], none) rows (rw (absent, read_latest_performance) at e))
            (unavailable-AddsUp device no_tick)
    ]

-- Whatever the log holds: the aggregate row of an answer of the service, where there is one, has as
-- its rate and its bandwidth the sums of those of the queues' rows.
pub get_performance-AddsUp :
    (repr : Text → Text) (decode : Decoder) (log : FileLogSource) (exists exists_later : Bool)
    (content : Option Bytes) (device : Text) (p : DevicePerf)
    → get_performance repr decode log exists exists_later content device ≡ some p
    → AddsUp p
unfolding get_performance read_device_performance
get_performance-AddsUp repr decode log exists exists_later content device p e =
    elim (Bool-cases (available log exists)) [
      | inr absent ↦ unavailable_answer device no_log p (rw (absent, get_performance) at e)
      | inl present ↦ elim (Option-cases (match_device device)) [
        | inl f ↦
            unavailable_answer device (bad_name (repr device)) p
              (rw (present, get_performance, f, read_device_performance) at e)
        | inr (i, f) ↦
            elim (Option-cases (read_latest_performance decode log exists_later content i)) [
              | inl g ↦ absurd (
                  ground (arith, rw (present, get_performance, f, read_device_performance, g) at e))
              | inr (rows, g) ↦
                  subst AddsUp
                    (answer_injective (device_perf device rows) p
                      (rw (present, get_performance, f, read_device_performance, g) at e))
                    (read_latest_performance-AddsUp decode log exists_later content device i rows g)
            ]
      ]
    ]
