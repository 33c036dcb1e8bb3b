-- ===== src/Profiler/Service.antt =====
-- services/profiler/service.py `NvmeProfilerService`. What it is made with is in `World`: the log,
-- what the file system answers of it and of the state file, the clock around the kernel's list, and
-- that list, if it is asked for. The saving of rules and sessions is left to the caller.
pub mod Shared
pub mod Inventory
use telemetryd.Base.{
  ℕ, Bool, true, false, Option, none, some, List, [], Text, codes, if◌then◌else◌, text_keys, Result,
  ok, raise,
}
use telemetryd.Models.Profile.{
  ProcessInfo, ProcessIoStat, ProcessListEntry, ProfileSnapshot, TargetRule,
}
use telemetryd.Platform.Cache.{AdaptiveTtlCache, get_or_compute}
use telemetryd.Platform.LogFile.{Bytes, Decoder, FileLogSource, available, source}
use telemetryd.Targets.Rules.{Search, add_rule, remove_rule}
use telemetryd.Targets.Sessions.{Adapters, Now, Registry}
use telemetryd.Targets.Registry.{refresh}
use telemetryd.Targets.State.{Saved, load}
use telemetryd.Profiler.Collected.{read_process_stats}
use telemetryd.Profiler.Entries.{list_entries}

-- `PROC_INFO_CACHE_KEY`
abbrev pub proc_info_cache_key : Text
proc_info_cache_key = codes "procinfo.list_processes"

abbrev pub no_collector : Text
no_collector = codes "eBPF 수집기 없음 — 프로세스별 I/O 측정값이 비어 있다. 세션 자체는 만들어지므로 대상 선택은 계속 쓸 수 있다"

module _ (Groups Aggregate E : Type 0) where
  pub record Profiler : Type 0 where
    pub cache : AdaptiveTtlCache Text (List ProcessInfo)
    pub targets : Option (Registry Groups Aggregate)

  pub record World : Type 0 where
    pub decode : Decoder
    pub log : FileLogSource
    pub exists : Bool
    -- the second answer within `get_profile`
    pub exists_later : Bool
    pub size : Option ℕ
    pub content : Option Bytes
    pub saved : Option (Saved Groups Aggregate)
    pub started : ℕ
    pub finished : ℕ
    pub kernel : Result E (List ProcessInfo)

module _ {Groups Aggregate E : Type 0} where
  abbrev pub with_kernel :
      World Groups Aggregate E → Result E (List ProcessInfo) → World Groups Aggregate E
  with_kernel w k = record w { kernel = k }

  -- `_registry`: read from the file when it is first asked for.
  abbrev pub registry_of :
      Profiler Groups Aggregate E → World Groups Aggregate E → Registry Groups Aggregate
  registry_of p w = elim p.targets [ none ↦ load w.saved | some r ↦ r ]

  unfoldable pub process_stats : World Groups Aggregate E → List ProcessIoStat
  process_stats w =
      if available w.log w.exists
      then read_process_stats w.decode (source w.log) w.size w.content none
      else []

  unfoldable pub proc_infos :
      Profiler Groups Aggregate E
      → World Groups Aggregate E
      → AdaptiveTtlCache Text (List ProcessInfo) × Result E (List ProcessInfo)
  proc_infos p w = get_or_compute p.cache proc_info_cache_key w.started w.finished w.kernel

  -- Behind the kernel's list.
  abbrev pub listed_from :
      Search
      → World Groups Aggregate E
      → Profiler Groups Aggregate E
      → Bool
      → AdaptiveTtlCache Text (List ProcessInfo) × Result E (List ProcessInfo)
      → Profiler Groups Aggregate E × Result E (List ProcessListEntry)
  listed_from search w p only_io (cache, raise err) = (record p { cache = cache }, raise err)
  listed_from search w p only_io (cache, ok procs) =
      let r = registry_of p w in
      (
        record p { cache = cache; targets = some r },
        ok (list_entries search r.rules (process_stats w) procs only_io),
      )

  unfoldable pub list_processes :
      Search
      → World Groups Aggregate E
      → Profiler Groups Aggregate E
      → Bool
      → Profiler Groups Aggregate E × Result E (List ProcessListEntry)
  list_processes search w p only_io = listed_from search w p only_io (proc_infos p w)

  unfoldable pub list_targets :
      World Groups Aggregate E
      → Profiler Groups Aggregate E
      → Profiler Groups Aggregate E × List TargetRule
  list_targets w p = let r = registry_of p w in (record p { targets = some r }, r.rules)

  abbrev pub with_rules :
      Profiler Groups Aggregate E
      → Registry Groups Aggregate
      → Result Text (List TargetRule)
      → Profiler Groups Aggregate E × Result Text (List TargetRule)
  with_rules p r (raise kind) = (record p { targets = some r }, raise kind)
  with_rules p r (ok rules) = (record p { targets = some (record r { rules = rules }) }, ok rules)

  unfoldable pub add_target :
      World Groups Aggregate E
      → Profiler Groups Aggregate E
      → TargetRule
      → Profiler Groups Aggregate E × Result Text (List TargetRule)
  add_target w p rule = let r = registry_of p w in with_rules p r (add_rule r.rules rule)

  unfoldable pub remove_target :
      World Groups Aggregate E
      → Profiler Groups Aggregate E
      → Text
      → Text
      → Profiler Groups Aggregate E × Result Text (List TargetRule)
  remove_target w p kind value =
      let r = registry_of p w in with_rules p r (ok (remove_rule r.rules kind value))

  -- The statistics that `refresh` is given, and what is then said of its snapshot.
  abbrev pub stats_given : World Groups Aggregate E → List ProcessIoStat
  stats_given w = if available w.log w.exists_later then process_stats w else []

  unfoldable pub marked :
      World Groups Aggregate E → ProfileSnapshot Groups Aggregate → ProfileSnapshot Groups Aggregate
  marked w snap =
      if available w.log w.exists_later
      then snap
      else record snap { available = false; error = some no_collector }

  -- `refresh`, where there is a list of processes.
  abbrev pub profiled :
      Adapters Groups Aggregate
      → Search
      → Now
      → World Groups Aggregate E
      → Profiler Groups Aggregate E
      → AdaptiveTtlCache Text (List ProcessInfo) × Result E (List ProcessInfo)
      → Profiler Groups Aggregate E × Result E (ProfileSnapshot Groups Aggregate)
  profiled adapters search now w p (cache, raise err) =
      (record p { cache = cache; targets = some (registry_of p w) }, raise err)
  profiled adapters search now w p (cache, ok procs) =
      let (next, snap) = refresh adapters search now (registry_of p w) procs (stats_given w) in
      (record p { cache = cache; targets = some next }, ok (marked w snap))

  unfoldable pub get_profile :
      Adapters Groups Aggregate
      → Search
      → Now
      → World Groups Aggregate E
      → Profiler Groups Aggregate E
      → Profiler Groups Aggregate E × Result E (ProfileSnapshot Groups Aggregate)
  get_profile adapters search now w p = profiled adapters search now w p (proc_infos p w)
