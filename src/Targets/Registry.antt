-- ===== src/Targets/Registry.antt =====
-- backend/targets.py: `TargetRegistry.refresh`, and the snapshot that it returns.
use telemetryd.Base.{
  ℕ, Bool, true, ◌&&◌, ◌||◌, not, none, some, List, [], ◌∷◌, map, Text, text_keys, nat_keys, Dict,
  get, put, ltb, sort_by,
}
use telemetryd.Models.Profile.{
  ProcessInfo, ProcessIoStat, TargetRule, Session, ProfileSnapshot, UnmonitoredIo,
  DeviceAttribution,
}
use telemetryd.Targets.Rules.{Search, resolve}
use telemetryd.Targets.Attribution.{is_active, Owner, attribute_all, unmonitored_of, warned}
use telemetryd.Targets.Sessions.{Adapters, Now, Registry, text_ltb, observe_all, finish_missing}

-- `{p.pid: p for p in processes}`
unfoldable pub processes_by_pid : Dict ℕ ProcessInfo → List ProcessInfo → Dict ℕ ProcessInfo
processes_by_pid d [] = d
processes_by_pid d (p ∷ ps) = processes_by_pid (put d p.pid p) ps

abbrev pub pid_before : ℕ × TargetRule → ℕ × TargetRule → Bool
pid_before a b = ltb a.0 b.0

-- The matched processes with their rules. Each matched pid is that of a process.
unfoldable pub with_processes :
    Dict ℕ ProcessInfo → List (ℕ × TargetRule) → List (ProcessInfo × TargetRule)
with_processes by_pid [] = []
with_processes by_pid ((pid, rule) ∷ rest) = elim (get by_pid pid) [
  | none ↦ with_processes by_pid rest
  | some p ↦ (p, rule) ∷ with_processes by_pid rest
]

unfoldable pub matched :
    Search → List TargetRule → List ProcessInfo → List (ProcessInfo × TargetRule)
matched search rules processes =
    with_processes (processes_by_pid [] processes)
      (sort_by pid_before (resolve search rules processes))

module _ {Groups Aggregate : Type 0} where
  abbrev pub values : Dict Text (Session Groups Aggregate) → List (Session Groups Aggregate)
  values [] = []
  values ((k, s) ∷ d) = s ∷ values d

  abbrev pub owner_of : Session Groups Aggregate → Owner
  owner_of s = (s.session_id, (s.pid, is_active s.status))

  -- `(s.status != "active", -s.session_start_ns)`
  abbrev pub session_before : Session Groups Aggregate → Session Groups Aggregate → Bool
  session_before a b =
      is_active a.status && not (is_active b.status)
      || (not (is_active a.status) || is_active b.status)
        && (is_active a.status || not (is_active b.status))
        && ltb b.session_start_ns a.session_start_ns

  -- The registry after the first half of `refresh`.
  unfoldable pub refreshed :
      Adapters Groups Aggregate
      → Search
      → Now
      → Registry Groups Aggregate
      → List ProcessInfo
      → List ProcessIoStat
      → Registry Groups Aggregate
  refreshed adapters search now r processes stats =
      let (next, ids) = observe_all adapters now stats r (matched search r.rules processes) in
      record next { sessions = finish_missing now.ns ids next.sessions }

abbrev pub rate_before : UnmonitoredIo → UnmonitoredIo → Bool
rate_before a b = ltb b.io_rate a.io_rate

abbrev pub name_before : DeviceAttribution → DeviceAttribution → Bool
name_before a b = text_ltb a.name b.name

abbrev pub attributions : Dict Text DeviceAttribution → List DeviceAttribution
attributions [] = []
attributions ((k, d) ∷ rest) = d ∷ attributions rest

module _ {Groups Aggregate : Type 0} where
  unfoldable pub snapshot_from :
      Now → Registry Groups Aggregate → List ProcessIoStat → ProfileSnapshot Groups Aggregate
  snapshot_from now r stats =
      let sessions = values r.sessions in
      let owners = map owner_of sessions in
      record {
        collected_at_ns = now.ns;
        sessions = sort_by session_before sessions;
        unmonitored_io = sort_by rate_before (unmonitored_of owners stats);
        devices =
            sort_by name_before (map (warned stats) (attributions (attribute_all owners [] stats)));
        rules = r.rules;
        available = true;
        error = none;
      }

  unfoldable pub refresh :
      Adapters Groups Aggregate
      → Search
      → Now
      → Registry Groups Aggregate
      → List ProcessInfo
      → List ProcessIoStat
      → Registry Groups Aggregate × ProfileSnapshot Groups Aggregate
  refresh adapters search now r processes stats =
      let next = refreshed adapters search now r processes stats in
      (next, snapshot_from now next stats)
