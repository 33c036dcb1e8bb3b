-- ===== src/Targets/Sessions.antt =====
-- backend/targets.py: the sessions of `TargetRegistry` and the part of `refresh` that keeps them.
pub mod Observed
use telemetryd.Base.{
  ℕ, pos, int_eq, Bool, true, false, ◌&&◌, ◌||◌, not, Option, none, some, List, [], ◌∷◌, ◌++◌, map,
  Text, text_eq, text_in, codes, text_keys, nat_keys, pair_keys, Dict, get, put, ◌==◌, ltb,
  if◌then◌else◌, sort_by,
}
use telemetryd.Models.Profile.{
  ProcessInfo, ProcessIoStat, TargetRule, Session, Status, active, finished,
}
use telemetryd.Targets.SessionIds.{session_id}
use telemetryd.Targets.Attribution.{is_active}

-- What backend/adapters offers: the name of the adapter that is selected, its groups (`none` where
-- it raises; `fallback` are then the groups), and the measurements.
pub record Adapters (Groups Aggregate : Type 0) : Type 0 where
  pub select_adapter : ProcessInfo → Option Text → Text
  pub get_logical_groups : Text → ProcessInfo → List ProcessIoStat → Option Groups
  pub fallback : ProcessInfo → Groups
  pub measured_from_stats : List ProcessIoStat → Aggregate

-- The answers of the clocks: `time.time_ns()`, and the local time in an id.
pub record Now : Type 0 where
  pub ns : ℕ
  pub stamp : Text

-- `(pid, start_time_ns)`
abbrev pub Identity : Type 0
Identity = ℕ × ℕ

pub record Registry (Groups Aggregate : Type 0) : Type 0 where
  pub rules : List TargetRule
  pub sessions : Dict Text (Session Groups Aggregate)
  pub by_identity : Dict Identity Text

abbrev pub text_ltb : Text → Text → Bool
text_ltb a [] = false
text_ltb [] (y ∷ ys) = true
text_ltb (x ∷ xs) (y ∷ ys) = ltb x y || x == y && text_ltb xs ys

abbrev pub add_text : Text → List Text → List Text
add_text t [] = t ∷ []
add_text t (x ∷ xs) = if text_eq t x then x ∷ xs else x ∷ add_text t xs

-- The statistics of a process.
abbrev pub stats_of : ℕ → List ProcessIoStat → List ProcessIoStat
stats_of pid [] = []
stats_of pid (st ∷ stats) =
    let rest = stats_of pid stats in if int_eq st.pid (pos pid) then st ∷ rest else rest

-- `sorted({s.device for s in my_stats})`
abbrev pub devices_of : List ProcessIoStat → List Text
devices_of [] = []
devices_of (st ∷ stats) = add_text st.device (devices_of stats)

-- `proc.comm or sess.comm`
abbrev pub comm_or : Text → Text → Text
comm_or [] old = old
comm_or (c ∷ cs) old = c ∷ cs

-- `sess.logical_groups`: those of the adapter, or one group with the reason where it raised.
abbrev pub groups_or : {Groups : Type 0} → Option Groups → Groups → Groups
groups_or none other = other
groups_or (some g) other = g

module _ {Groups Aggregate : Type 0} where
  -- An active session of the pid with another start time ends.
  unfoldable pub close_reused :
      ProcessInfo → ℕ → Session Groups Aggregate → Session Groups Aggregate
  close_reused proc now_ns s =
      if s.pid == proc.pid && is_active s.status && not (s.start_time_ns == proc.start_time_ns)
      then record s { status = finished; session_end_ns = some now_ns }
      else s

  abbrev pub map_values :
      (Session Groups Aggregate → Session Groups Aggregate)
      → Dict Text (Session Groups Aggregate)
      → Dict Text (Session Groups Aggregate)
  map_values f [] = []
  map_values f ((k, s) ∷ d) = (k, f s) ∷ map_values f d

  abbrev pub keys : Dict Text (Session Groups Aggregate) → List Text
  keys [] = []
  keys ((k, s) ∷ d) = k ∷ keys d

  unfoldable pub new_session :
      Adapters Groups Aggregate → Now → ProcessInfo → TargetRule → Text → Session Groups Aggregate
  new_session adapters now proc rule sid = record {
    session_id = sid;
    pid = proc.pid;
    comm = proc.comm;
    cmdline = proc.cmdline;
    exe_path = proc.exe_path;
    adapter = adapters.select_adapter proc rule.adapter;
    status = active;
    start_time_ns = proc.start_time_ns;
    session_start_ns = now.ns;
    session_end_ns = none;
    devices = [];
    thread_count_active = 0;
    aggregate = none;
    logical_groups = none;
    matched_rule = some (rule.kind ++ (codes "=" ++ rule.value));
  }

  -- The session of the process that is known, if its id leads to one.
  unfoldable pub known_session : Registry Groups Aggregate → ProcessInfo → Option Text
  known_session r proc = elim (get r.by_identity (proc.pid, proc.start_time_ns)) [
    | none ↦ none
    | some sid ↦ elim (get r.sessions sid) [ none ↦ none | some s ↦ some sid ]
  ]

  -- The registry with a session for the process, and its id.
  unfoldable pub open_session :
      Adapters Groups Aggregate
      → Now
      → Registry Groups Aggregate
      → ProcessInfo
      → TargetRule
      → Registry Groups Aggregate × Text
  open_session adapters now r proc rule = elim (known_session r proc) [
    | some sid ↦ (r, sid)
    | none ↦
        let closed = map_values (close_reused proc now.ns) r.sessions in
        let sid = session_id now.stamp proc.pid proc.start_time_ns (keys closed) in
        (
          record r {
            sessions = put closed sid (new_session adapters now proc rule sid);
            by_identity = put r.by_identity (proc.pid, proc.start_time_ns) sid;
          },
          sid,
        )
  ]

  -- What a refresh notes in the session of a process.
  unfoldable pub observe :
      Adapters Groups Aggregate
      → ProcessInfo
      → TargetRule
      → List ProcessIoStat
      → Session Groups Aggregate
      → Session Groups Aggregate
  observe adapters proc rule mine s =
      let name = adapters.select_adapter proc rule.adapter in
      record s {
        session_end_ns = if is_active s.status then s.session_end_ns else none;
        status = active;
        comm = comm_or proc.comm s.comm;
        thread_count_active = proc.thread_count;
        devices = sort_by text_ltb (devices_of mine);
        adapter = name;
        logical_groups =
            some (groups_or (adapters.get_logical_groups name proc mine) (adapters.fallback proc));
        aggregate = some (adapters.measured_from_stats mine);
      }

  -- The session with an id, if there is one, is changed.
  unfoldable pub update_session :
      (Session Groups Aggregate → Session Groups Aggregate)
      → Dict Text (Session Groups Aggregate)
      → Text
      → Dict Text (Session Groups Aggregate)
  update_session f d sid = elim (get d sid) [ none ↦ d | some s ↦ put d sid (f s) ]

  -- One round of the loop over the matched processes.
  unfoldable pub observe_process :
      Adapters Groups Aggregate
      → Now
      → List ProcessIoStat
      → Registry Groups Aggregate
      → ProcessInfo
      → TargetRule
      → Registry Groups Aggregate × Text
  observe_process adapters now stats r proc rule =
      let (opened, sid) = open_session adapters now r proc rule in
      (
        record opened {
          sessions =
              update_session (observe adapters proc rule (stats_of proc.pid stats)) opened.sessions
                sid;
        },
        sid,
      )

  -- The loop; the ids of the sessions that were observed.
  unfoldable pub observe_all :
      Adapters Groups Aggregate
      → Now
      → List ProcessIoStat
      → Registry Groups Aggregate
      → List (ProcessInfo × TargetRule)
      → Registry Groups Aggregate × List Text
  observe_all adapters now stats r [] = (r, [])
  observe_all adapters now stats r ((proc, rule) ∷ rest) =
      let (next, sid) = observe_process adapters now stats r proc rule in
      let (last, ids) = observe_all adapters now stats next rest in (last, sid ∷ ids)

  -- Active sessions that were not observed end.
  unfoldable pub finish_missing :
      ℕ → List Text → Dict Text (Session Groups Aggregate) → Dict Text (Session Groups Aggregate)
  finish_missing now_ns ids [] = []
  finish_missing now_ns ids ((sid, s) ∷ d) =
      let rest = finish_missing now_ns ids d in
      if is_active s.status && not (text_in ids sid)
      then (sid, record s { status = finished; session_end_ns = some now_ns }) ∷ rest
      else (sid, s) ∷ rest
