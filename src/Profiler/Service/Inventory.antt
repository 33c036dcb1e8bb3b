-- ===== src/Profiler/Service/Inventory.antt =====
-- The profiler's list on the kernel's own inventory of processes.
use telemetryd.Base.{
  ℕ, ◌≡◌, refl, sym, ap, ◌∙◌, subst, arith, ℤ, pos, int_eq, Bool, true, false, ◌||◌, none, List, [],
  ◌∷◌, text_keys, nat_keys, Dict, get, NoDup, Bool-cases, inl, inr, insert_by, sort_by, ok,
}
use telemetryd.Models.Profile.{ProcessInfo, ProcessListEntry}
use telemetryd.Platform.Cache.Reads.{IsStale}
use telemetryd.Targets.Rules.{Search}
use telemetryd.Procinfo.{System, Task, Group, add_tasks, process_info, infos, pid_before}
use telemetryd.Procinfo
use telemetryd.Procinfo.Grouped.{IsGroups-add_tasks}
use telemetryd.Procinfo.Listed.{process_info-pid, IsGroups-nil}
use telemetryd.Profiler.Entries.{is_seen, list_entries}
use telemetryd.Profiler.Entries.Conserved.{DistinctPids, listed, measured, list_entries-conserves}
use telemetryd.Profiler.Service.{
  Profiler, World, registry_of, process_stats, list_processes, proc_info_cache_key,
}
use telemetryd.Profiler.Service.Shared.{proc_infos-read}

module _ (lt : ProcessInfo → ProcessInfo → Bool) where
  is_seen-insert_by :
      (p : ProcessInfo) (ps : List ProcessInfo) (x : ℤ)
      → is_seen (insert_by lt p ps) x ≡ is_seen (p ∷ ps) x
  unfolding insert_by
  is_seen-insert_by p [] x = refl
  is_seen-insert_by p (q ∷ ps) x = elim (Bool-cases (lt q p)) [
    | inl before ↦ rw before (ground (arith, is_seen-insert_by p ps x))
    | inr after ↦ rw after refl
  ]

  insert_by-DistinctPids :
      (p : ProcessInfo) (ps : List ProcessInfo)
      → is_seen ps (pos p.pid) ≡ false
      → DistinctPids ps
      → DistinctPids (insert_by lt p ps)
  unfolding insert_by
  insert_by-DistinctPids p [] h k = (refl, tt)
  insert_by-DistinctPids p (q ∷ ps) h k = elim (Bool-cases (lt q p)) [
    | inl before ↦ rw before (
      is_seen-insert_by p ps (pos q.pid) ∙ ground (arith, h, k.0),
      insert_by-DistinctPids p ps (ground (arith, h)) k.1,
    )
    | inr after ↦ rw after (h, k)
  ]

  is_seen-sort_by : (ps : List ProcessInfo) (x : ℤ) → is_seen (sort_by lt ps) x ≡ is_seen ps x
  unfolding sort_by
  is_seen-sort_by [] x = refl
  is_seen-sort_by (p ∷ ps) x =
      is_seen-insert_by p (sort_by lt ps) x
      ∙ ap (λ b. int_eq (pos p.pid) x || b) (is_seen-sort_by ps x)

  sort_by-DistinctPids : (ps : List ProcessInfo) → DistinctPids ps → DistinctPids (sort_by lt ps)
  unfolding sort_by
  sort_by-DistinctPids [] h = tt
  sort_by-DistinctPids (p ∷ ps) h =
      insert_by-DistinctPids p (sort_by lt ps) (is_seen-sort_by ps (pos p.pid) ∙ h.0)
        (sort_by-DistinctPids ps h.1)

module _ (sys : System) (with_cmdline : Bool) where
  is_seen-infos :
      (d : Dict ℕ Group) (k : ℕ)
      → get d k ≡ none
      → is_seen (infos sys with_cmdline d) (pos k) ≡ false
  unfolding get
  is_seen-infos [] k h = refl
  is_seen-infos ((j, g) ∷ d) k h =
      ground (arith, process_info-pid sys with_cmdline j g, is_seen-infos d k, h)

  infos-DistinctPids : (d : Dict ℕ Group) → NoDup d → DistinctPids (infos sys with_cmdline d)
  infos-DistinctPids [] h = tt
  infos-DistinctPids ((j, g) ∷ d) h = (
    subst (λ k. is_seen (infos sys with_cmdline d) (pos k) ≡ false)
        (sym (process_info-pid sys with_cmdline j g)) (is_seen-infos d j h.0),
    infos-DistinctPids d h.1,
  )

  list_processes-DistinctPids :
      (tasks : List Task) → DistinctPids (Procinfo.list_processes sys tasks with_cmdline)
  unfolding Procinfo.list_processes
  list_processes-DistinctPids tasks =
      sort_by-DistinctPids pid_before (infos sys with_cmdline (add_tasks [] tasks))
        (infos-DistinctPids (add_tasks [] tasks) (IsGroups-add_tasks [] tasks IsGroups-nil).0)

-- Whatever tasks the kernel has and whatever the collector measured: the list of processes that is
-- made of the kernel's inventory, when it is not in the cache, is answered, and the rates of its
-- entries add up to what was measured, whether or not the processes without I/O are left out.
pub list_processes-conserves :
    {Groups Aggregate E : Type 0} (search : Search) (p : Profiler Groups Aggregate E)
    (w : World Groups Aggregate E) (sys : System) (tasks : List Task) (only_io : Bool)
    → w.kernel ≡ ok (Procinfo.list_processes sys tasks true)
    → IsStale p.cache proc_info_cache_key w.started
    → (entries : List ProcessListEntry) × ((list_processes search w p only_io).1 ≡ ok entries)
      × (listed entries ≡ measured (process_stats w))
unfolding list_processes
list_processes-conserves search p w sys tasks only_io read stale =
    let procs = Procinfo.list_processes sys tasks true in
    (
      list_entries search (registry_of p w).rules (process_stats w) procs only_io,
      rw (proc_infos-read search p w procs read stale) refl,
      list_entries-conserves search (registry_of p w).rules (process_stats w) procs only_io
          (list_processes-DistinctPids sys true tasks),
    )
