-- ===== src/Tests/Processes.antt =====
-- The inventory of processes on small kernels.
use telemetryd.Base.{
  ℕ, ◌+◌, ◌^◌, ◌<◌, ap₂, ◌-◌, ◌%◌, ◌≤◌, ◌≡◌, ◌≢◌, refl, none, some, List, [], ◌∷◌, length, true,
  Text, codes, ok, leb, ◌==◌, if◌then◌else◌, inl, map, ◌||◌, ◌++◌, IsSorted, Member, All, sort_by,
  put, get, arith,
}
use telemetryd.Models.Profile.{ProcessInfo}
use telemetryd.Queues.Decode.{Memory}
use telemetryd.Queues.Flat.{flat}
use telemetryd.Procinfo.{
  Task, System, Mm, cmdline, list_processes, pid_before, argv_text, no_leader,
}
use telemetryd.Procinfo.PageTable.{read_user_via_pagetable, page_offset_base}
use telemetryd.Procinfo.PageTable.Bytewise.{table_entry}
use telemetryd.Procinfo.PageTable.Unit.{
  bits, base_4k, directory_pointer, directory_entry, unit_bytes, read_user_via_pagetable-unit_bytes,
}
use telemetryd.Procinfo.Argv.{NoNul, text_of, cmdline-spaced}
use telemetryd.Procinfo.Grouped.{threads_of}
use telemetryd.Procinfo.Listed.{Lists, IsOfGroup, list_processes-IsInventory}

-- Tables at 0x1000, 0x2000, 0x3000 and 0x4000, which map the page at 0x3000 to the one at 0x5000.
abbrev table_byte : ℕ → ℕ
table_byte p =
    if p == 0x1000 || p == 0x2000 || p == 0x3000 || p == 0x4018
    then 1
    else if p == 0x1001
    then 0x20
    else if p == 0x2001
    then 0x30
    else if p == 0x3001
    then 0x40
    else if p == 0x4019
    then 0x50
    else 0

abbrev stored : ℕ → ℕ
stored p = if leb 0x5000 p then p % 256 else table_byte p

abbrev ram : Memory
ram p n = some (flat stored p n)

-- The three bytes up to the page's end, behind which nothing is mapped.
walk_runs :
    read_user_via_pagetable ram (some 0x100000) 0x101000 0x3FFD 9 ≡ ok (253 ∷ 254 ∷ 255 ∷ [])
unfolding read_user_via_pagetable
walk_runs = refl

-- The entries of the directories that all low addresses pick.
pointer_read : (va : ℕ) → va < 2 ^ 21 → directory_pointer stored 0x1000 va ≡ 0x3001
unfolding table_entry
pointer_read va h =
    let top : bits va 39 47 ≡ 0 = omega (arith, h) in
    let second : bits va 30 38 ≡ 0 = omega (arith, h) in
    ap₂ (λ (x y : ℕ). table_entry stored (base_4k (table_entry stored 0x1000 x)) y) top second

entry_read : (va : ℕ) → va < 2 ^ 21 → directory_entry stored 0x1000 va ≡ 0x4001
unfolding table_entry
entry_read va h =
    let third : bits va 21 29 ≡ 0 = omega (arith, h) in
    ap₂ (λ (x y : ℕ). table_entry stored (base_4k x) y) (pointer_read va h) third

-- No entry on the way to the nine addresses is a large page.
read_user_via_pagetable-unit_bytes_example :
    (read_user_via_pagetable ram (some 0x100000) 0x101000 0x3FFD 9
      ≡ ok (unit_bytes stored (0x101000 - page_offset_base (some 0x100000)) 0x3FFD 9))
    × (length (unit_bytes stored (0x101000 - page_offset_base (some 0x100000)) 0x3FFD 9) ≤ 9)
unfolding page_offset_base
read_user_via_pagetable-unit_bytes_example =
    read_user_via_pagetable-unit_bytes stored ram (λ p n. refl) (some 0x100000) 0x101000 0x3FFD 9
      (omega arith)
      (λ j h top pointer. (
        λ large. absurd (ground (arith, pointer_read (0x3FFD + j) (omega (arith, h)), large)),
        λ below directory large.
            absurd (ground (arith, entry_read (0x3FFD + j) (omega (arith, h)), large)),
      ))

abbrev pub sys : System
sys = record {
  memory = ram;
  page_offset_symbol = some 0x100000;
  decode = λ bytes. bytes;
  show_error = λ e. codes "ValueError";
}

abbrev fio_args : List Text
fio_args = codes "fio" ∷ codes "--bs=4k" ∷ []

abbrev fio_mm : Mm
fio_mm = record {
  pgd = some 0x101000;
  arg_start = some 16;
  arg_end = some 28;
  exe = some (codes "/usr/bin/fio");
  access_process_vm = λ start n. ok (some (codes "fio" ++ (0 ∷ codes "--bs=4k" ++ (0 ∷ []))));
}

abbrev leader : Task
leader = record {
  tgid = some 7;
  pid = some 7;
  comm = some (codes "fio");
  mm = some fio_mm;
  uid = some 0;
  start_boottime = some 5;
}

abbrev worker : Task
worker = record leader { pid = some 9; comm = some (codes "fio-worker") }

abbrev orphan : Task
orphan = record leader { tgid = some 3; pid = some 8; comm = some (codes "gone") }

abbrev pub walk : List Task
walk = worker ∷ leader ∷ orphan ∷ []

no_nul : All NoNul fio_args
no_nul =
    ((refl, (refl, (refl, tt))), ((refl, (refl, (refl, (refl, (refl, (refl, (refl, tt))))))), tt))

cmdline-spaced_example : cmdline sys leader ≡ text_of fio_args
cmdline-spaced_example =
    cmdline-spaced sys fio_args refl no_nul leader fio_mm 16 refl refl refl (omega arith)
      (omega arith) (omega arith) (inl refl)

shown_pids : map (λ (p : ProcessInfo). p.pid) (list_processes sys walk true) ≡ 3 ∷ 7 ∷ []
unfolding list_processes sort_by put get argv_text
shown_pids = refl

shown_threads :
    map (λ (p : ProcessInfo). p.threads) (list_processes sys walk true)
    ≡ ((8, codes "gone") ∷ []) ∷ ((7, codes "fio") ∷ (9, codes "fio-worker") ∷ []) ∷ []
unfolding list_processes sort_by put get argv_text
shown_threads = refl

shown_errors :
    map (λ (p : ProcessInfo). p.error) (list_processes sys walk true) ≡ some no_leader ∷ none ∷ []
unfolding list_processes sort_by put get argv_text
shown_errors = refl

list_processes-IsInventory_example :
    IsSorted pid_before (list_processes sys walk true)
    × ((k : ℕ) → threads_of k walk ≢ [] → Lists sys true walk k)
    × ((p : ProcessInfo) → Member p (list_processes sys walk true) → IsOfGroup sys true walk p)
list_processes-IsInventory_example = list_processes-IsInventory sys true walk
