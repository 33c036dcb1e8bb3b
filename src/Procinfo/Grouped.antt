-- ===== src/Procinfo/Grouped.antt =====
-- Which processes the inventory lists, and with which threads.
use telemetryd.Base.{
  ℕ, ◌≡◌, ◌≢◌, subst, refl, ap, ◌∙◌, Option, none, some, List, [], ◌∷◌, ◌++◌, Text, nat_keys, Dict,
  get, put, get-put, NoDup, NoDup-put, ◌==◌, ==_iff, if◌then◌else◌, ◌&&◌, Bool-cases, inl, inr,
  arith,
}
use mathlib.Core.List.{append_assoc, append-nil}
use telemetryd.Procinfo.{
  Task, Group, no_group, or_else, comm_of, join_group, ids, add_ids, add_task, add_tasks,
}

-- A task's thread, if it belongs to the group.
abbrev own : ℕ → Task → Option (ℕ × ℕ) → List (ℕ × Text)
own k task none = []
own k task (some (tgid, tid)) = if tgid == k then (tid, comm_of task) ∷ [] else []

-- The threads of a group, in the order of the walk.
unfoldable pub threads_of : ℕ → List Task → List (ℕ × Text)
threads_of k [] = []
threads_of k (task ∷ tasks) = own k task (ids task) ++ threads_of k tasks

abbrev lead : ℕ → Task → Option (ℕ × ℕ) → Option Task → Option Task
lead k task none seen = seen
lead k task (some (tgid, tid)) seen = if tgid == k && tid == k then some task else seen

-- The last task of the walk whose thread id is its group's.
unfoldable pub leader_from : Option Task → ℕ → List Task → Option Task
leader_from seen k [] = seen
leader_from seen k (task ∷ tasks) = leader_from (lead k task (ids task) seen) k tasks

abbrev pub group_of : ℕ → List Task → Group
group_of k tasks = record { leader = leader_from none k tasks; threads = threads_of k tasks }

abbrev pub view : Dict ℕ Group → ℕ → Group
view groups k = or_else no_group (get groups k)

view-put :
    (groups : Dict ℕ Group) (j k : ℕ) (g : Group)
    → view (put groups j g) k ≡ (if j == k then g else view groups k)
view-put groups j k g = elim (Bool-cases (j == k)) [
  | inl e ↦ rw (get-put groups j k g, e) refl
  | inr e ↦ rw (get-put groups j k g, e) refl
]

abbrev pub grown : Group → Option Task → List (ℕ × Text) → Group
grown g leader more = record { leader = leader; threads = g.threads ++ more }

grown-nil : (g : Group) → g ≡ grown g g.leader []
grown-nil g = simp append-nil

-- What a task adds to the group that is looked at.
view-add_ids :
    (groups : Dict ℕ Group) (k : ℕ) (task : Task) (o : Option (ℕ × ℕ))
    → view (add_ids groups task o) k
      ≡ grown (view groups k) (lead k task o (view groups k).leader) (own k task o)
unfolding add_ids
view-add_ids groups k task none = grown-nil (view groups k)
view-add_ids groups k task (some (tgid, tid)) = elim (Bool-cases (tgid == k)) [
  | inl e ↦
      let same : tgid ≡ k = (==_iff tgid k).0 e in
      rw (view-put groups tgid k (join_group tgid tid task (view groups tgid)), e, same) refl
  | inr e ↦
      rw (view-put groups tgid k (join_group tgid tid task (view groups tgid)), e)
        (grown-nil (view groups k))
]

grown-grown :
    (g : Group) (a b : Option Task) (xs ys : List (ℕ × Text))
    → grown (grown g a xs) b ys ≡ grown g b (xs ++ ys)
grown-grown g a b xs ys = simp append_assoc

-- What a walk makes of a group.
pub view-add_tasks :
    (tasks : List Task) (groups : Dict ℕ Group) (k : ℕ)
    → view (add_tasks groups tasks) k
      ≡ grown (view groups k) (leader_from (view groups k).leader k tasks) (threads_of k tasks)
unfolding add_tasks threads_of leader_from add_task
view-add_tasks [] groups k = grown-nil (view groups k)
view-add_tasks (task ∷ tasks) groups k =
    let one = view-add_ids groups k task (ids task) in
    let ih = view-add_tasks tasks (add_ids groups task (ids task)) k in
    ih
    ∙ ap (λ (g : Group). grown g (leader_from g.leader k tasks) (threads_of k tasks)) one
    ∙ grown-grown (view groups k) (lead k task (ids task) (view groups k).leader)
        (leader_from (lead k task (ids task) (view groups k).leader) k tasks)
        (own k task (ids task)) (threads_of k tasks)

-- Every group has a thread.
abbrev pub HasThread : Group → Type 0
HasThread g = g.threads ≢ []

abbrev pub AllThreaded : Dict ℕ Group → Type 0
AllThreaded groups = (k : ℕ) (g : Group) → get groups k ≡ some g → HasThread g

abbrev pub IsGroups : Dict ℕ Group → Type 0
IsGroups groups = NoDup groups × AllThreaded groups

append-ne-nil {ℓ} : {A : Type ℓ} (xs : List A) (x : A) → xs ++ (x ∷ []) ≢ []
append-ne-nil [] x e = cc
append-ne-nil (y ∷ ys) x e = cc

IsGroups-add_ids :
    (groups : Dict ℕ Group) (task : Task) (o : Option (ℕ × ℕ))
    → IsGroups groups
    → IsGroups (add_ids groups task o)
unfolding add_ids join_group
IsGroups-add_ids groups task none h = h
IsGroups-add_ids groups task (some (tgid, tid)) (nodup, threaded) =
    let g = join_group tgid tid task (view groups tgid) in
    (
      NoDup-put groups tgid g nodup,
      λ k g' found. elim (Bool-cases (tgid == k)) [
        | inl e ↦
            let this : g ≡ g' = ground (arith, get-put groups tgid k g, found, e) in
            subst HasThread this (append-ne-nil (view groups tgid).threads (tid, comm_of task))
        | inr e ↦ threaded k g' (ground (arith, get-put groups tgid k g, found, e))
      ],
    )

pub IsGroups-add_tasks :
    (groups : Dict ℕ Group) (tasks : List Task)
    → IsGroups groups
    → IsGroups (add_tasks groups tasks)
unfolding add_tasks add_task
IsGroups-add_tasks groups [] h = h
IsGroups-add_tasks groups (task ∷ tasks) h =
    IsGroups-add_tasks (add_ids groups task (ids task)) tasks
      (IsGroups-add_ids groups task (ids task) h)
