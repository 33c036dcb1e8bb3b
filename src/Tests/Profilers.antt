-- ===== src/Tests/Profilers.antt =====
-- The profiler on a tick, processes and rules that are concrete.
use telemetryd.Base.{
  ℕ, ◌≡◌, refl, pos, true, false, none, some, [], ◌∷◌, ◌++◌, List, Text, codes, text_keys, int_keys,
  pair_keys, get, put, read_int, arith, ok, raise,
}
use telemetryd.Models.Profile.{ProcessListEntry}
use telemetryd.Platform.LogFile.{null_log_source}
use telemetryd.Platform.Cache.Reads.{IsStale}
use telemetryd.Targets.Registry.{refresh}
use telemetryd.Profiler.Collected.{Raw, parse_tick, to_stat}
use telemetryd.Profiler.Entries.{list_entries}
use telemetryd.Profiler.Entries.Conserved.{listed, measured}
use telemetryd.Profiler.Service.{
  Profiler, World, with_kernel, registry_of, process_stats, list_processes, get_profile, marked,
  stats_given, proc_info_cache_key,
}
use telemetryd.Profiler.Service.Shared.{get_profile-shares}
use telemetryd.Profiler.Service.Inventory.{list_processes-conserves}
use telemetryd.Procinfo
use telemetryd.Tests.Processes.{sys, walk}
use telemetryd.Tests.Profiles.{no_pattern, fio, adapters, now}

abbrev tick : Text
tick =
    codes
      "\n@proc_ops[0, 328, fio]: 734\n@proc_bytes[0, 328]: 12026368\n@proc_rd[0, 328]: 360\n@proc_wr[0, 328]: 374\n@proc_bs[0, 328, 16384]: 734\n@proc_q[0, 328, 3]: 700\n@proc_q[0, 328, 5]: 34\n@proc_seq[0, 328]: 12\n@proc_rand[0, 328]: 722\n@thr_ops[0, 328, 328, my fio]: 734\n"

abbrev raw : Raw
raw = record {
  comm = codes "fio";
  ops = 734;
  read = 360;
  write = 374;
  bytes = 12026368;
  lat_sum = 0;
  lat_cnt = 0;
  seq = 12;
  rand = 722;
  sizes = (pos 16384, 734) ∷ [];
  queues = (pos 3, 700) ∷ (pos 5, 34) ∷ [];
  threads = (pos 328, record { comm = codes "my fio"; ops = 734 }) ∷ [];
}

tick_parsed : parse_tick tick ≡ ((pos 0, pos 328), raw) ∷ []
unfolding parse_tick get put read_int
tick_parsed = refl

ratio_kept :
    ((to_stat (pos 0) (pos 328) raw).seq_ratio ≡ some (12, 734))
    × ((to_stat (pos 0) (pos 328) raw).device ≡ codes "nvme0")
unfolding to_stat
ratio_kept = (refl, refl)

abbrev odd_name : Text
odd_name = codes "a, b]: 7"

abbrev Failure : Type 0
Failure = Text

abbrev fresh : Profiler ℕ ℕ Failure
fresh = record {
  cache = record { min_ttl = 30; duration_factor = 3; entries = [] };
  targets = none;
}

abbrev world : World ℕ ℕ Failure
world = record {
  decode = λ b. b;
  log = null_log_source;
  exists = false;
  exists_later = false;
  size = none;
  content = none;
  saved = none;
  started = 100;
  finished = 160;
  kernel = ok (fio ∷ []);
}

never_read : IsStale fresh.cache proc_info_cache_key 100
unfolding get
never_read hit found = absurd (ground (arith, found))

abbrev later : World ℕ ℕ Failure
later = record world { started = 170 }

get_profile-shares_example :
    ((list_processes no_pattern world fresh false).1
      ≡ ok (
          list_entries no_pattern
            (registry_of fresh world).rules
            (process_stats world)
            (fio ∷ [])
            false))
    × ((get_profile adapters no_pattern now
          (with_kernel later (raise (codes "fault")))
          (list_processes no_pattern world fresh false).0).1
        ≡ ok (
            marked later
              (refresh adapters no_pattern now
                (registry_of fresh world)
                (fio ∷ [])
                (stats_given later)).1))
get_profile-shares_example =
    get_profile-shares no_pattern fresh world (fio ∷ []) refl never_read adapters now later false
      (raise (codes "fault")) (omega arith)

-- The collector's log has a whole tick, and the kernel's list is that of its tasks.
abbrev measured_world : World ℕ ℕ Failure
measured_world = record world {
  log = record { path = some (codes "/var/log/nvme_perf.log") };
  exists = true;
  size = some 300;
  content = some (tick ++ codes "---TICK---\n");
  kernel = ok (Procinfo.list_processes sys walk true);
}

list_processes-conserves_example :
    (entries : List ProcessListEntry) × ((list_processes no_pattern measured_world fresh true).1
      ≡ ok entries)
    × (listed entries ≡ measured (process_stats measured_world))
list_processes-conserves_example =
    list_processes-conserves no_pattern fresh measured_world sys walk true refl never_read
