-- ===== src/Profiler/Service/Shared.antt =====
-- The list of processes is asked of the kernel once for the list and for the profiles after it.
use telemetryd.Base.{
  ◌+◌, ◌-◌, ◌*◌, ◌<◌, ◌≡◌, refl, max, Bool, some, List, Text, text_keys, put, get-put, beq_refl,
  Result, ok, arith,
}
use telemetryd.Models.Profile.{ProcessInfo}
use telemetryd.Platform.Cache.{Entry, AdaptiveTtlCache, store_computed}
use telemetryd.Platform.Cache.Reads.{IsStale, get_or_compute-computes, get_or_compute-fresh}
use telemetryd.Targets.Rules.{Search}
use telemetryd.Targets.Sessions.{Adapters, Now}
use telemetryd.Targets.Registry.{refresh}
use telemetryd.Profiler.Entries.{list_entries}
use telemetryd.Profiler.Service.{
  Profiler, World, with_kernel, registry_of, process_stats, proc_infos, list_processes, get_profile,
  marked, stats_given, proc_info_cache_key,
}

module _ {Groups Aggregate E : Type 0} (search : Search) (p : Profiler Groups Aggregate E)
    (w : World Groups Aggregate E) (procs : List ProcessInfo) (read : w.kernel ≡ ok procs)
    (stale : IsStale p.cache proc_info_cache_key w.started) where
  -- The cache with the list that was read.
  abbrev pub cache_with : AdaptiveTtlCache Text (List ProcessInfo)
  cache_with = record p.cache {
    entries = put p.cache.entries proc_info_cache_key (record {
      cached_at = w.finished;
      value = procs;
      ttl = max p.cache.min_ttl ((w.finished - w.started) * p.cache.duration_factor);
    });
  }

  pub proc_infos-read : proc_infos p w ≡ (cache_with, ok procs)
  unfolding proc_infos store_computed
  proc_infos-read = rw read (
      get_or_compute-computes {E = E} p.cache proc_info_cache_key w.started w.finished (ok procs)
        stale)

  -- The profiler after its list.
  abbrev pub after_list : Profiler Groups Aggregate E
  after_list = record p { cache = cache_with; targets = some (registry_of p w) }

  cached :
      (w' : World Groups Aggregate E)
      → w'.started < w.finished + p.cache.min_ttl
      → proc_infos after_list w' ≡ (cache_with, ok procs)
  unfolding proc_infos
  cached w' soon =
      let hit : Entry (List ProcessInfo) = record {
        cached_at = w.finished;
        value = procs;
        ttl = max p.cache.min_ttl ((w.finished - w.started) * p.cache.duration_factor);
      } in
      get_or_compute-fresh cache_with proc_info_cache_key w'.started w'.finished hit w'.kernel
        (ground (
          arith,
          get-put p.cache.entries proc_info_cache_key proc_info_cache_key hit,
          beq_refl proc_info_cache_key,
        ))
        (omega (arith, soon))

  -- After the list of processes was read of the kernel, a profile within the cache's least time to
  -- live is made of that list: it is answered whatever the kernel would say now, and as if it said
  -- the same again.
  pub get_profile-shares :
      (adapters : Adapters Groups Aggregate) (now : Now) (w' : World Groups Aggregate E)
      (only_io : Bool) (now_read : Result E (List ProcessInfo))
      → w'.started < w.finished + p.cache.min_ttl
      → ((list_processes search w p only_io).1
          ≡ ok (list_entries search (registry_of p w).rules (process_stats w) procs only_io))
        × ((get_profile adapters search now
              (with_kernel w' now_read)
              (list_processes search w p only_io).0).1
            ≡ ok (
                marked w' (refresh adapters search now (registry_of p w) procs (stats_given w')).1))
  unfolding list_processes get_profile process_stats marked
  get_profile-shares adapters now w' only_io now_read soon =
      rw proc_infos-read (refl, rw (cached (with_kernel w' now_read) soon) refl)
