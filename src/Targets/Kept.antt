-- ===== src/Targets/Kept.antt =====
-- A refresh loses no session and gives no session to another process.
use telemetryd.Base.{List, [], ◌∷◌, inl, inr, Option-cases, text_keys, pair_keys, nat_keys, put}
use telemetryd.Models.Profile.{ProcessInfo, ProcessIoStat, TargetRule}
use telemetryd.Targets.Rules.{Search}
use telemetryd.Targets.SessionIds.{session_id, session_id-free}
use telemetryd.Targets.Sessions.{
  Adapters, Now, Registry, close_reused, map_values, keys, new_session, known_session, open_session,
  observe, update_session, observe_process, observe_all, finish_missing, stats_of,
}
use telemetryd.Targets.Sessions.Observed.{
  Keeps, Keeps-trans, Keeps-refl, close_reused-SameRun, Keeps-map_values, Keeps-put,
  observe-SameRun, Keeps-update_session, Keeps-finish_missing,
}
use telemetryd.Targets.Registry.{matched, refreshed, refresh}

module _ {Groups Aggregate : Type 0} (adapters : Adapters Groups Aggregate) (now : Now) where
  Keeps-open_session :
      (r : Registry Groups Aggregate) (proc : ProcessInfo) (rule : TargetRule)
      → Keeps r.sessions (open_session adapters now r proc rule).0.sessions
  unfolding open_session
  Keeps-open_session r proc rule = elim (Option-cases (known_session r proc)) [
    | inr (sid, e) ↦ rw (e, open_session) (Keeps-refl r.sessions)
    | inl e ↦
        let closed = map_values (close_reused proc now.ns) r.sessions in
        let sid = session_id now.stamp proc.pid proc.start_time_ns (keys closed) in
        let new = new_session adapters now proc rule sid in
        rw (e, open_session)
          (Keeps-trans r.sessions closed (put closed sid new)
            (Keeps-map_values (close_reused proc now.ns) (close_reused-SameRun proc now.ns)
              r.sessions)
            (Keeps-put closed sid new
              (session_id-free now.stamp proc.pid proc.start_time_ns (keys closed))))
  ]

  Keeps-observe_process :
      (stats : List ProcessIoStat) (r : Registry Groups Aggregate) (proc : ProcessInfo)
      (rule : TargetRule)
      → Keeps r.sessions (observe_process adapters now stats r proc rule).0.sessions
  unfolding observe_process
  Keeps-observe_process stats r proc rule =
      let opened = open_session adapters now r proc rule in
      let mine = stats_of proc.pid stats in
      let seen = update_session (observe adapters proc rule mine) opened.0.sessions opened.1 in
      Keeps-trans r.sessions opened.0.sessions seen (Keeps-open_session r proc rule) (
        Keeps-update_session (observe adapters proc rule mine) opened.0.sessions opened.1
          (observe-SameRun adapters proc rule mine))

  Keeps-observe_all :
      (stats : List ProcessIoStat) (r : Registry Groups Aggregate)
      (ps : List (ProcessInfo × TargetRule))
      → Keeps r.sessions (observe_all adapters now stats r ps).0.sessions
  unfolding observe_all
  Keeps-observe_all stats r [] = Keeps-refl r.sessions
  Keeps-observe_all stats r ((proc, rule) ∷ ps) =
      let next = (observe_process adapters now stats r proc rule).0 in
      Keeps-trans r.sessions next.sessions (observe_all adapters now stats next ps).0.sessions
        (Keeps-observe_process stats r proc rule) (Keeps-observe_all stats next ps)

  -- Whatever the processes, the statistics and the rules, every session that the registry has before
  -- a refresh it has after it under the same id, and it is still of the same process (by its number
  -- and its start), with the same command line, beginning and rule: no new session takes its place.
  pub refresh-Keeps :
      (search : Search) (r : Registry Groups Aggregate) (processes : List ProcessInfo)
      (stats : List ProcessIoStat)
      → Keeps r.sessions (refresh adapters search now r processes stats).0.sessions
  unfolding refresh refreshed
  refresh-Keeps search r processes stats =
      let seen = observe_all adapters now stats r (matched search r.rules processes) in
      Keeps-trans r.sessions seen.0.sessions (finish_missing now.ns seen.1 seen.0.sessions)
        (Keeps-observe_all stats r (matched search r.rules processes))
        (Keeps-finish_missing now.ns seen.1 seen.0.sessions)
