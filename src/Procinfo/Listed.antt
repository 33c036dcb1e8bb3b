-- ===== src/Procinfo/Listed.antt =====
-- The inventory holds each thread group once, by rising pid.
use telemetryd.Base.{
  ℕ, ◌≡◌, ◌≢◌, refl, sym, ap, ◌∙◌, subst, Bool, true, false, some, List, [], ◌∷◌, Dict, nat_keys,
  get, get-Member, Member-get, Member, here, there, Member-sort_by, Member-sort_by_inv, IsSorted,
  sort_by-IsSorted, Option-cases, inl, inr, arith,
}
use telemetryd.Models.Profile.{ProcessInfo}
use telemetryd.Procinfo.{
  Task, System, Group, no_group, or_else, add_tasks, process_info, infos, pid_before,
  list_processes,
}
use telemetryd.Procinfo.Grouped.{
  threads_of, group_of, view, view-add_tasks, IsGroups, IsGroups-add_tasks,
}

groups : List Task → Dict ℕ Group
groups tasks = add_tasks [] tasks

pub IsGroups-nil : IsGroups []
unfolding get
IsGroups-nil = (tt, λ k g found. absurd (ground (arith, found)))

groups-IsGroups : (tasks : List Task) → IsGroups (groups tasks)
unfolding groups
groups-IsGroups tasks = IsGroups-add_tasks [] tasks IsGroups-nil

view-groups : (tasks : List Task) (k : ℕ) → view (groups tasks) k ≡ group_of k tasks
unfolding groups get
view-groups tasks k = view-add_tasks tasks [] k

found_group :
    (tasks : List Task) (k : ℕ) (g : Group) → get (groups tasks) k ≡ some g → g ≡ group_of k tasks
found_group tasks k g found = ap (or_else no_group) (sym found) ∙ view-groups tasks k

get-groups :
    (tasks : List Task) (k : ℕ)
    → threads_of k tasks ≢ []
    → get (groups tasks) k ≡ some (group_of k tasks)
get-groups tasks k has = elim (Option-cases (get (groups tasks) k)) [
  | inl none_there ↦ absurd (
      has (
        ap (λ (g : Group). g.threads)
          (sym (view-groups tasks k) ∙ ap (or_else no_group) none_there)))
  | inr (g, found) ↦ found ∙ ap some (found_group tasks k g found)
]

module _ (sys : System) (with_cmdline : Bool) where
  pub process_info-pid : (k : ℕ) (g : Group) → (process_info sys with_cmdline k g).pid ≡ k
  unfolding process_info
  process_info-pid k g = elim (Option-cases g.leader) [
    | inl e ↦ rw (e, process_info) refl
    | inr (leader, e) ↦ rw (e, process_info) refl
  ]

  Member-infos :
      (d : Dict ℕ Group) {k : ℕ} {g : Group}
      → Member (k, g) d
      → Member (process_info sys with_cmdline k g) (infos sys with_cmdline d)
  Member-infos [] m = elim m [ ]
  Member-infos ((j, h) ∷ d) (here e) =
      here (ap (λ (x : ℕ × Group). process_info sys with_cmdline x.0 x.1) e)
  Member-infos ((j, h) ∷ d) (there m) = there (Member-infos d m)

  Member-infos_inv :
      (d : Dict ℕ Group) {p : ProcessInfo}
      → Member p (infos sys with_cmdline d)
      → (k : ℕ) × (g : Group) × Member (k, g) d × (p ≡ process_info sys with_cmdline k g)
  Member-infos_inv [] m = elim m [ ]
  Member-infos_inv ((j, h) ∷ d) (here e) = (j, h, here refl, e)
  Member-infos_inv ((j, h) ∷ d) (there m) =
      let (k, g, n, e) = Member-infos_inv d m in (k, g, there n, e)

  -- A group of the walk is listed as its process.
  abbrev pub Lists : List Task → ℕ → Type 0
  Lists tasks k =
      Member (process_info sys with_cmdline k (group_of k tasks))
        (list_processes sys tasks with_cmdline)

  -- A listed process is that of a group with a thread.
  abbrev pub IsOfGroup : List Task → ProcessInfo → Type 0
  IsOfGroup tasks p =
      (threads_of p.pid tasks ≢ [])
      × (p ≡ process_info sys with_cmdline p.pid (group_of p.pid tasks))

  IsOfGroup-made :
      (tasks : List Task) (k : ℕ) (g : Group) (p : ProcessInfo)
      → get (groups tasks) k ≡ some g
      → p ≡ process_info sys with_cmdline k g
      → IsOfGroup tasks p
  IsOfGroup-made tasks k g p found made =
      let pid : k ≡ p.pid =
        sym (process_info-pid k g) ∙ ap (λ (q : ProcessInfo). q.pid) (sym made) in
      let same = found_group tasks k g found in
      let has : threads_of k tasks ≢ [] =
        subst (λ (h : Group). h.threads ≢ []) same ((groups-IsGroups tasks).1 k g found) in
      subst
        (λ (j : ℕ).
          (threads_of j tasks ≢ []) × (p ≡ process_info sys with_cmdline j (group_of j tasks)))
        pid (has, made ∙ ap (process_info sys with_cmdline k) same)

  pid_before_asym : (a b : ProcessInfo) → pid_before a b ≡ true → pid_before b a ≡ false
  pid_before_asym a b h = ground arith

  -- The inventory is by rising pid, lists a process for each thread group of which the walk can
  -- read a thread's ids, and nothing else: the process with a pid is made of the last task of the
  -- walk that leads this group, if there is one, and of all the threads of the group.
  pub list_processes-IsInventory :
      (tasks : List Task)
      → IsSorted pid_before (list_processes sys tasks with_cmdline)
        × ((k : ℕ) → threads_of k tasks ≢ [] → Lists tasks k)
        × ((p : ProcessInfo) → Member p (list_processes sys tasks with_cmdline) → IsOfGroup tasks p)
  unfolding list_processes groups
  list_processes-IsInventory tasks =
      let all = infos sys with_cmdline (groups tasks) in
      (
        sort_by-IsSorted pid_before pid_before_asym all,
        λ k has. Member-sort_by pid_before all (
            Member-infos (groups tasks)
              (Member-get (groups tasks) k (group_of k tasks) (get-groups tasks k has))),
        λ p m.
            let (k, g, inside, made) =
              Member-infos_inv (groups tasks) (Member-sort_by_inv pid_before all m) in
            IsOfGroup-made tasks k g p
              (get-Member (groups tasks) k g (groups-IsGroups tasks).0 inside) made,
      )
