-- ===== src/Profiler/Collected.antt =====
-- backend/proc_stats.py: `parse_tick`, `_to_stat` and `read_process_stats`.
pub mod Printed
use telemetryd.Base.{
  ℕ, zero, suc, ◌+◌, ◌*◌, ◌^◌, ℤ, pos, int_eq, int_ltb, Bool, Option, none, some, List, [], ◌∷◌,
  ◌++◌, map, Text, codes, decimal_ℤ, strip, ltb, ◌==◌, if◌then◌else◌, select, sort_by, Dict, get_or,
  put, int_keys, pair_keys,
}
use telemetryd.Names.{match_device}
use telemetryd.Models.Profile.{ThreadIoStat, ProcessIoStat}
use telemetryd.Platform.LogFile.{Bytes, Decoder, SourceArgument, as_log_source, read_tail}
use telemetryd.Events.Stats.{splitlines}
use telemetryd.Perf.Ticks.{last_complete_tick}
use telemetryd.Profiler.Lines.{
  Counted, bytes, read, write, lat_sum, lat_cnt, seq, rand, Table, sizes, queues, Line, proc_ops,
  thr_ops, counted, table, read_line,
}

pub record Thread : Type 0 where
  pub comm : Text
  pub ops : ℕ

-- The counters of a process on a controller.
pub record Raw : Type 0 where
  pub comm : Text
  pub ops : ℕ
  pub read : ℕ
  pub write : ℕ
  pub bytes : ℕ
  pub lat_sum : ℕ
  pub lat_cnt : ℕ
  pub seq : ℕ
  pub rand : ℕ
  pub sizes : Dict ℤ ℕ
  pub queues : Dict ℤ ℕ
  pub threads : Dict ℤ Thread

abbrev pub new_raw : Raw
new_raw = record {
  comm = [];
  ops = 0;
  read = 0;
  write = 0;
  bytes = 0;
  lat_sum = 0;
  lat_cnt = 0;
  seq = 0;
  rand = 0;
  sizes = [];
  queues = [];
  threads = [];
}

-- Controllers and processes.
abbrev pub Procs : Type 0
Procs = Dict (ℤ × ℤ) Raw

-- `slot`, and what is then done to its dictionary.
unfoldable pub at_slot : Procs → ℤ → ℤ → (Raw → Raw) → Procs
at_slot procs ctrl tgid change = put procs (ctrl, tgid) (change (get_or procs (ctrl, tgid) new_raw))

unfoldable pub add_ops : Text → ℕ → Raw → Raw
add_ops comm n s = record s { comm = comm; ops = s.ops + n }

unfoldable pub add_thread : ℤ → Text → ℕ → Raw → Raw
add_thread tid comm n s =
    let t = get_or s.threads tid (record { comm = comm; ops = 0 }) in
    record s { threads = put s.threads tid (record { comm = comm; ops = t.ops + n }) }

unfoldable pub add_counted : Counted → ℕ → Raw → Raw
add_counted bytes v s = record s { bytes = s.bytes + v }
add_counted read v s = record s { read = s.read + v }
add_counted write v s = record s { write = s.write + v }
add_counted lat_sum v s = record s { lat_sum = s.lat_sum + v }
add_counted lat_cnt v s = record s { lat_cnt = s.lat_cnt + v }
add_counted seq v s = record s { seq = s.seq + v }
add_counted rand v s = record s { rand = s.rand + v }

unfoldable pub add_table : Table → ℤ → ℕ → Raw → Raw
add_table sizes k v s = record s { sizes = put s.sizes k (get_or s.sizes k 0 + v) }
add_table queues k v s = record s { queues = put s.queues k (get_or s.queues k 0 + v) }

unfoldable pub add_line : Procs → Option Line → Procs
unfolding at_slot add_ops add_thread add_counted add_table
add_line procs none = procs
add_line procs (some (proc_ops ctrl tgid comm n)) = at_slot procs ctrl tgid (add_ops comm n)
add_line procs (some (thr_ops ctrl tgid tid comm n)) =
    at_slot procs ctrl tgid (add_thread tid comm n)
add_line procs (some (counted ctrl tgid what v)) = at_slot procs ctrl tgid (add_counted what v)
add_line procs (some (table ctrl tgid which k v)) = at_slot procs ctrl tgid (add_table which k v)

unfoldable pub add_lines : Procs → List Text → Procs
unfolding add_line read_line strip
add_lines procs [] = procs
add_lines procs (line ∷ lines) = add_lines (add_line procs (read_line (strip line))) lines

unfoldable pub parse_tick : Text → Procs
unfolding add_lines splitlines
parse_tick segment = add_lines [] (splitlines segment)

abbrev pub more : ℤ × ℕ → ℤ × ℕ → Bool
more a b = ltb b.1 a.1

abbrev pub busier : ℤ × Thread → ℤ × Thread → Bool
busier a b = ltb b.1.ops a.1.ops

abbrev pub lower_key : ℤ × ℕ → ℤ × ℕ → Bool
lower_key a b = int_ltb a.0 b.0

abbrev pub thread_of : ℤ × Thread → ThreadIoStat
thread_of (tid, t) = record { tid = tid; comm = t.comm; iops = t.ops }

-- `raw["comm"] or ...`
abbrev pub comm_of : Text → List ThreadIoStat → Text
comm_of [] [] = []
comm_of [] (t ∷ ts) = t.comm
comm_of (c ∷ comm) ts = c ∷ comm

abbrev pub dominant : List (ℤ × ℕ) → ℤ
dominant [] = pos 0
dominant ((size, n) ∷ rest) = size

-- `iops * (avg_lat_us / 1_000_000.0)`, the average being in nanoseconds here.
abbrev pub queue_depth : ℕ → ℕ → ℕ → ℕ × ℕ
queue_depth ops total zero = (0, 1)
queue_depth ops total (suc n) = (ops * total, suc n * 10 ^ 9)

-- `_to_stat`
unfoldable pub to_stat : ℤ → ℤ → Raw → ProcessIoStat
unfolding sort_by decimal_ℤ
to_stat ctrl_id tgid raw =
    let by_size = sort_by more raw.sizes in
    let by_ops = map thread_of (sort_by busier raw.threads) in
    record {
      device = codes "nvme" ++ decimal_ℤ ctrl_id;
      pid = tgid;
      comm = comm_of raw.comm by_ops;
      iops = raw.ops;
      read_iops = raw.read;
      write_iops = raw.write;
      bandwidth_bps = raw.bytes;
      avg_latency_ns = if raw.lat_cnt == 0 then (0, 0) else (raw.lat_sum, raw.lat_cnt);
      io_size_dominant = dominant by_size;
      io_size_hist = by_size;
      queues = sort_by lower_key raw.queues;
      queue_depth_est = queue_depth raw.ops raw.lat_sum raw.lat_cnt;
      seq_ratio = if raw.seq + raw.rand == 0 then none else some (raw.seq, raw.seq + raw.rand);
      threads = by_ops;
    }

-- `_TAIL_BYTES`
abbrev pub tail_bytes : ℕ
tail_bytes = 2 * 1024 * 1024

abbrev pub faster : ProcessIoStat → ProcessIoStat → Bool
faster a b = ltb b.iops a.iops

abbrev pub stat_of : (ℤ × ℤ) × Raw → ProcessIoStat
stat_of ((ctrl, tgid), raw) = to_stat ctrl tgid raw

abbrev pub is_on : ℕ → (ℤ × ℤ) × Raw → Bool
is_on want entry = int_eq entry.0.0 (pos want)

-- The statistics of a tick, of one controller or of all.
unfoldable pub stats_in : Option ℕ → Text → List ProcessIoStat
unfolding parse_tick to_stat sort_by
stats_in none segment = sort_by faster (map stat_of (parse_tick segment))
stats_in (some want) segment =
    sort_by faster (map stat_of (select (is_on want) (parse_tick segment)))

-- `_last_complete_tick`: without a whole tick, an empty text.
abbrev pub tick_or_nothing : Text → Text
tick_or_nothing text = elim (last_complete_tick text) [ none ↦ [] | some segment ↦ segment ]

-- `size` and `content` are what the file system answers of the log.
unfoldable pub read_process_stats :
    Decoder → SourceArgument → Option ℕ → Option Bytes → Option Text → List ProcessIoStat
unfolding stats_in last_complete_tick read_tail
read_process_stats decode log_path size content device =
    let segment =
      tick_or_nothing (read_tail decode (as_log_source log_path) tail_bytes size content) in
    elim device [
      | none ↦ stats_in none segment
      | some name ↦ elim (match_device name) [
        | none ↦ []
        | some want ↦ stats_in (some want) segment
      ]
    ]
