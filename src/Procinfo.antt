-- ===== src/Procinfo.antt =====
-- backend/procinfo.py: the inventory of processes, read from the kernel's task structures. What
-- drgn reads of a task is data, in which `none` stands for a read that raises, and for a null
-- pointer where the code treats both alike.
pub mod PageTable
pub mod Argv
pub mod Grouped
pub mod Listed
use telemetryd.Base.{
  ℕ, ◌+◌, ◌-◌, min, ℤ, pos, negsuc, Bool, true, false, ◌&&◌, ◌||◌, Option, none, some, List, [],
  ◌∷◌, ◌++◌, length, Text, codes, nat_keys, Dict, get, put, Result, ok, raise, leb, ltb, ◌==◌,
  if◌then◌else◌, sort_by,
}
use telemetryd.Models.Profile.{ProcessInfo}
use telemetryd.Queues.Decode.{Memory}
use telemetryd.Procinfo.PageTable.{WalkError, unreadable, read_user_via_pagetable}

-- `struct mm_struct`, with what drgn's helpers give of it: the path of its executable, and
-- `access_process_vm`, which raises an exception of some type or returns bytes or None.
pub record Mm : Type 0 where
  pub pgd : Option ℕ
  pub arg_start : Option ℕ
  pub arg_end : Option ℕ
  pub exe : Option Text
  pub access_process_vm : ℕ → ℕ → Result Text (Option (List ℕ))

-- `struct task_struct`
pub record Task : Type 0 where
  pub tgid : Option ℕ
  pub pid : Option ℕ
  pub comm : Option Text
  pub mm : Option Mm
  pub uid : Option ℕ
  pub start_boottime : Option ℕ

-- The kernel's physical memory and `page_offset_base`, Python's decoding of UTF-8, and the text
-- of an exception, `f"{type(e).__name__}: {e}"`.
pub record System : Type 0 where
  pub memory : Memory
  pub page_offset_symbol : Option ℕ
  pub decode : List ℕ → Text
  pub show_error : WalkError → Text

abbrev pub cmdline_max : ℕ
cmdline_max = 4096

abbrev pub or_else {ℓ} : {A : Type ℓ} → A → Option A → A
or_else default none = default
or_else default (some x) = x

unfoldable pub comm_of : Task → Text
comm_of task = or_else [] task.comm

-- `s.split("\x00")`
unfoldable pub split_nul : Text → List Text
split_nul [] = [] ∷ []
split_nul (c ∷ cs) = elim (split_nul cs) [
  | [] ↦ []
  | word ∷ words ↦ if c == 0 then [] ∷ word ∷ words else (c ∷ word) ∷ words
]

-- `" ".join(x for x in words if x)`
unfoldable pub join_words : List Text → Text
join_words [] = []
join_words ([] ∷ words) = join_words words
join_words ((c ∷ cs) ∷ words) = elim (join_words words) [
  | [] ↦ c ∷ cs
  | d ∷ ds ↦ (c ∷ cs) ++ (b' ' ∷ d ∷ ds)
]

unfoldable pub argv_text : System → List ℕ → Text
unfolding split_nul join_words
argv_text sys raw = join_words (split_nul (sys.decode raw))

abbrev pub no_arguments : Text
no_arguments = codes "mm->arg_start/arg_end가 비어 있음"

abbrev pub no_result : Text
no_result = codes "유저 메모리 읽기 실패(빈 결과)"

abbrev pub not_mapped : Text
not_mapped = codes "유저 메모리가 매핑돼 있지 않음(스왑/미할당)"

abbrev pub both_failed : Text → Text → Text
both_failed helper walk =
    codes "유저 메모리 읽기 실패: " ++ (helper ++ (codes " -> 페이지테이블 폴백도 실패: " ++ walk))

unfoldable pub walk_user : System → Mm → ℕ → ℕ → Result WalkError (List ℕ)
walk_user sys mm start n = elim mm.pgd [
  | none ↦ raise unreadable
  | some pgd ↦ read_user_via_pagetable sys.memory sys.page_offset_symbol pgd start n
]

-- The fallback, after the helper has raised.
unfoldable pub fallback_text : System → Text → Result WalkError (List ℕ) → Text × Option Text
fallback_text sys helper (raise e) = ([], some (both_failed helper (sys.show_error e)))
fallback_text sys helper (ok []) = ([], some not_mapped)
fallback_text sys helper (ok (b ∷ bs)) = (argv_text sys (b ∷ bs), none)

unfoldable pub read_arguments : System → Mm → ℕ → ℕ → Text × Option Text
unfolding walk_user fallback_text
read_arguments sys mm start n = elim (mm.access_process_vm start n) [
  | raise helper ↦ fallback_text sys helper (walk_user sys mm start n)
  | ok none ↦ ([], some no_result)
  | ok (some raw) ↦ (argv_text sys raw, none)
]

-- The arguments between two addresses; an address that cannot be read is 0.
unfoldable pub read_between : System → Mm → ℕ → ℕ → Text × Option Text
unfolding read_arguments
read_between sys mm start end =
    if start == 0 || leb end start
    then ([], some no_arguments)
    else read_arguments sys mm start (min (end - start) cmdline_max)

-- `_cmdline(prog, task)`: the text, and why it is empty.
unfoldable pub cmdline : System → Task → Text × Option Text
unfolding read_between
cmdline sys task = elim task.mm [
  | none ↦ ([], none)
  | some mm ↦ read_between sys mm (or_else 0 mm.arg_start) (or_else 0 mm.arg_end)
]

unfoldable pub exe_path : Task → Text
exe_path task = elim task.mm [ none ↦ [] | some mm ↦ or_else [] mm.exe ]

-- A thread group: its leader, where the walk has seen it, and its threads.
pub record Group : Type 0 where
  pub leader : Option Task
  pub threads : List (ℕ × Text)

abbrev pub no_group : Group
no_group = record { leader = none; threads = [] }

unfoldable pub join_group : ℕ → ℕ → Task → Group → Group
unfolding comm_of
join_group tgid tid task g = record {
  leader = if tid == tgid then some task else g.leader;
  threads = g.threads ++ ((tid, comm_of task) ∷ []);
}

-- The ids of a task, where both can be read: its group's and its own.
unfoldable pub ids : Task → Option (ℕ × ℕ)
ids task = elim task.tgid [
  | none ↦ none
  | some tgid ↦ elim task.pid [ none ↦ none | some tid ↦ some (tgid, tid) ]
]

unfoldable pub add_ids : Dict ℕ Group → Task → Option (ℕ × ℕ) → Dict ℕ Group
unfolding join_group
add_ids groups task none = groups
add_ids groups task (some (tgid, tid)) =
    put groups tgid (join_group tgid tid task (or_else no_group (get groups tgid)))

unfoldable pub add_task : Dict ℕ Group → Task → Dict ℕ Group
unfolding add_ids
add_task groups task = add_ids groups task (ids task)

unfoldable pub add_tasks : Dict ℕ Group → List Task → Dict ℕ Group
add_tasks groups [] = groups
add_tasks groups (task ∷ tasks) = add_tasks (add_task groups task) tasks

-- Python's order of texts.
abbrev pub text_ltb : Text → Text → Bool
text_ltb xs [] = false
text_ltb [] (y ∷ ys) = true
text_ltb (x ∷ xs) (y ∷ ys) = ltb x y || x == y && text_ltb xs ys

abbrev pub thread_before : ℕ × Text → ℕ × Text → Bool
thread_before (a, x) (b, y) = ltb a b || a == b && text_ltb x y

abbrev pub first_comm : List (ℕ × Text) → Text
first_comm [] = []
first_comm ((tid, comm) ∷ threads) = comm

abbrev pub no_leader : Text
no_leader = codes "스레드 그룹 리더를 못 찾음(종료 중일 수 있음)"

abbrev pub kernel_thread : Text
kernel_thread = codes "커널 스레드(mm 없음) — cmdline/exe 없음"

abbrev pub is_empty : Text → Bool
is_empty [] = true
is_empty (c ∷ cs) = false

unfoldable pub leader_info : System → Bool → ℕ → Task → List (ℕ × Text) → ProcessInfo
unfolding cmdline exe_path comm_of
leader_info sys with_cmdline tgid leader threads =
    let (text, cmd_err) = if with_cmdline then cmdline sys leader else ([], none) in
    let exe = exe_path leader in
    record {
      pid = tgid;
      comm = comm_of leader;
      cmdline = text;
      exe_path = exe;
      uid = elim leader.uid [ none ↦ negsuc 0 | some uid ↦ pos uid ];
      start_time_ns = or_else 0 leader.start_boottime;
      thread_count = length threads;
      threads = threads;
      error = if is_empty text && is_empty exe then some kernel_thread else cmd_err;
    }

unfoldable pub process_info : System → Bool → ℕ → Group → ProcessInfo
unfolding leader_info
process_info sys with_cmdline tgid g =
    let threads = sort_by thread_before g.threads in
    elim g.leader [
      | none ↦ record {
        pid = tgid;
        comm = first_comm threads;
        cmdline = [];
        exe_path = [];
        uid = negsuc 0;
        start_time_ns = 0;
        thread_count = length threads;
        threads = threads;
        error = some no_leader;
      }
      | some leader ↦ leader_info sys with_cmdline tgid leader threads
    ]

abbrev pub infos : System → Bool → Dict ℕ Group → List ProcessInfo
infos sys with_cmdline [] = []
infos sys with_cmdline ((tgid, g) ∷ groups) =
    process_info sys with_cmdline tgid g ∷ infos sys with_cmdline groups

abbrev pub pid_before : ProcessInfo → ProcessInfo → Bool
pid_before p q = ltb p.pid q.pid

unfoldable pub list_processes : System → List Task → Bool → List ProcessInfo
unfolding add_tasks add_task ids process_info
list_processes sys tasks with_cmdline =
    sort_by pid_before (infos sys with_cmdline (add_tasks [] tasks))

unfoldable pub first_with_pid : ℕ → List ProcessInfo → Option ProcessInfo
first_with_pid pid [] = none
first_with_pid pid (p ∷ ps) = if p.pid == pid then some p else first_with_pid pid ps

unfoldable pub find_process : System → List Task → ℕ → Option ProcessInfo
unfolding first_with_pid list_processes
find_process sys tasks pid = first_with_pid pid (list_processes sys tasks true)
