-- ===== src/Profiler/Entries.antt =====
-- services/profiler/service.py `list_processes`: the kernel's processes and the collected I/O put
-- together.
pub mod Conserved
use telemetryd.Base.{
  ℕ, ◌+◌, ℤ, pos, int_eq, int_ltb, Bool, true, false, not, ◌&&◌, ◌||◌, Option, none, some, List, [],
  ◌∷◌, ◌++◌, map, Text, codes, text_eq, text_in, strip_prefix, ltb, ◌==◌, if◌then◌else◌, select,
  sort_by, Dict, get, get_or, put, int_keys,
}
use telemetryd.Models.Profile.{
  ProcessIoStat, ProcessInfo, TargetRule, Listed, known, vanished, ProcessListEntry,
}
use telemetryd.Targets.Rules.{Search, first_match}
use telemetryd.Targets.Sessions.{text_ltb}

-- `{"rate": ..., "devices": ..., "comm": ...}`; a set is a list without repetitions.
pub record Io : Type 0 where
  pub rate : ℕ
  pub devices : List Text
  pub comm : Text

unfoldable pub add_device : List Text → Text → List Text
add_device ds d = if text_in ds d then ds else d ∷ ds

abbrev pub new_io : Text → Io
new_io comm = record { rate = 0; devices = []; comm = comm }

unfoldable pub add_io : Dict ℤ Io → ProcessIoStat → Dict ℤ Io
unfolding add_device
add_io d st =
    let e = get_or d st.pid (new_io st.comm) in
    put d st.pid (record e { rate = e.rate + st.iops; devices = add_device e.devices st.device })

unfoldable pub io_by_pid : Dict ℤ Io → List ProcessIoStat → Dict ℤ Io
unfolding add_io
io_by_pid d [] = d
io_by_pid d (st ∷ stats) = io_by_pid (add_io d st) stats

-- `needle in text`
unfoldable pub contains : Text → Text → Bool
unfolding strip_prefix
contains needle [] = elim (strip_prefix needle []) [ none ↦ false | some rest ↦ true ]
contains needle (c ∷ cs) =
    let later = contains needle cs in
    elim (strip_prefix needle (c ∷ cs)) [ none ↦ later | some rest ↦ true ]

abbrev pub is_kernel_thread : Option Text → Bool
is_kernel_thread none = false
is_kernel_thread (some error) = contains (codes "커널 스레드") error

abbrev pub kernel_thread_reason : Text
kernel_thread_reason = codes "커널 스레드 — 프로파일 대상이 아님"

abbrev pub rate_of : Option Io → ℕ
rate_of none = 0
rate_of (some io) = io.rate

abbrev pub devices_of : Option Io → List Text
devices_of none = []
devices_of (some io) = sort_by text_ltb io.devices

abbrev pub matched_text : Option TargetRule → Option Text
matched_text none = none
matched_text (some r) = some (r.kind ++ (b'=' ∷ r.value))

abbrev pub is_some {ℓ} : {A : Type ℓ} → Option A → Bool
is_some none = false
is_some (some x) = true

abbrev pub reason_of : Bool → Option Text
reason_of b = if b then some kernel_thread_reason else none

unfoldable pub entry_of : ProcessInfo → Option Io → Option TargetRule → ProcessListEntry
unfolding sort_by contains
entry_of proc io matched = record {
  info = known proc;
  io_active = ltb 0 (rate_of io);
  io_rate = rate_of io;
  target_devices = devices_of io;
  is_target = is_some matched;
  matched_rule = matched_text matched;
  selectable = not (is_kernel_thread proc.error);
  unselectable_reason = reason_of (is_kernel_thread proc.error);
}

unfoldable pub known_entries :
    Search → List TargetRule → Dict ℤ Io → List ProcessInfo → List ProcessListEntry
unfolding entry_of
known_entries search rules ios [] = []
known_entries search rules ios (p ∷ procs) =
    entry_of p (get ios (pos p.pid)) (first_match search rules p)
    ∷ known_entries search rules ios procs

abbrev pub is_seen : List ProcessInfo → ℤ → Bool
is_seen [] pid = false
is_seen (p ∷ procs) pid = int_eq (pos p.pid) pid || is_seen procs pid

unfoldable pub vanished_entry : ℤ → Io → ProcessListEntry
unfolding sort_by
vanished_entry pid io = record {
  info = vanished pid io.comm;
  io_active = ltb 0 io.rate;
  io_rate = io.rate;
  target_devices = sort_by text_ltb io.devices;
  is_target = false;
  matched_rule = none;
  selectable = false;
  unselectable_reason = some (codes "이미 종료된 것으로 보임");
}

unfoldable pub vanished_entries : List ProcessInfo → Dict ℤ Io → List ProcessListEntry
unfolding vanished_entry
vanished_entries procs [] = []
vanished_entries procs ((pid, io) ∷ ios) =
    let rest = vanished_entries procs ios in
    if is_seen procs pid then rest else vanished_entry pid io ∷ rest

abbrev pub pid_of : Listed → ℤ
pid_of (known p) = pos p.pid
pid_of (vanished pid comm) = pid

-- `key=lambda e: (-e.io_rate, e.info.pid)`
abbrev pub entry_before : ProcessListEntry → ProcessListEntry → Bool
entry_before a b =
    ltb b.io_rate a.io_rate || a.io_rate == b.io_rate && int_ltb (pid_of a.info) (pid_of b.info)

abbrev pub only_active : Bool → List ProcessListEntry → List ProcessListEntry
only_active false entries = entries
only_active true entries = select (λ (e : ProcessListEntry). e.io_active) entries

unfoldable pub list_entries :
    Search → List TargetRule → List ProcessIoStat → List ProcessInfo → Bool → List ProcessListEntry
unfolding known_entries vanished_entries io_by_pid sort_by
list_entries search rules stats procs only_io =
    let ios = io_by_pid [] stats in
    sort_by entry_before
      (only_active only_io (known_entries search rules ios procs ++ vanished_entries procs ios))
