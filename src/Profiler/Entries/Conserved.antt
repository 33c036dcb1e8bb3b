-- ===== src/Profiler/Entries/Conserved.antt =====
-- No I/O is lost or counted twice in the list of processes.
use telemetryd.Base.{
  ℕ, ◌+◌, ℤ, pos, int_eq, int_eq_iff, Bool, true, false, Option, none, some, List, [], ◌∷◌, ◌++◌,
  Text, ltb, ◌≡◌, refl, sym, subst, arith, if◌then◌else◌, Dict, get, get_or, put, int_keys, NoDup,
  NoDup-put, Bool-cases, inl, inr, sort_by, insert_by, All,
}
use telemetryd.Models.Profile.{ProcessIoStat, ProcessInfo, TargetRule, ProcessListEntry}
use telemetryd.Targets.Rules.{Search}
use telemetryd.Profiler.Entries.{
  Io, new_io, add_io, add_device, io_by_pid, rate_of, entry_of, known_entries, is_seen,
  vanished_entries, vanished_entry, only_active, list_entries, entry_before,
}

-- The rates of a table of processes, added up.
abbrev rates : Dict ℤ Io → ℕ
rates [] = 0
rates ((pid, io) ∷ d) = io.rate + rates d

rates-put :
    (d : Dict ℤ Io) (pid : ℤ) (io : Io)
    → rates (put d pid io) + rate_of (get d pid) ≡ rates d + io.rate
unfolding put get
rates-put [] pid io = omega arith
rates-put ((j, e) ∷ d) pid io = elim (Bool-cases (int_eq j pid)) [
  | inl same ↦ rw same (omega arith)
  | inr other ↦ rw other (omega (arith, rates-put d pid io))
]

-- What was measured, added up.
abbrev pub measured : List ProcessIoStat → ℕ
measured [] = 0
measured (st ∷ stats) = st.iops + measured stats

abbrev or_new : Option Io → Text → Io
or_new o comm = elim o [ none ↦ new_io comm | some io ↦ io ]

or_new-rate : (o : Option Io) (comm : Text) → (or_new o comm).rate ≡ rate_of o
or_new-rate none comm = refl
or_new-rate (some io) comm = refl

rates-add_io : (d : Dict ℤ Io) (st : ProcessIoStat) → rates (add_io d st) ≡ rates d + st.iops
unfolding add_io
rates-add_io d st =
    let e = get_or d st.pid (new_io st.comm) in
    let changed : Io = record e {
      rate = e.rate + st.iops;
      devices = add_device e.devices st.device;
    } in
    omega (arith, rates-put d st.pid changed, or_new-rate (get d st.pid) st.comm)

rates-io_by_pid :
    (d : Dict ℤ Io) (stats : List ProcessIoStat)
    → rates (io_by_pid d stats) ≡ rates d + measured stats
unfolding io_by_pid
rates-io_by_pid d [] = omega arith
rates-io_by_pid d (st ∷ stats) =
    omega (arith, rates-io_by_pid (add_io d st) stats, rates-add_io d st)

io_by_pid-NoDup : (d : Dict ℤ Io) (stats : List ProcessIoStat) → NoDup d → NoDup (io_by_pid d stats)
unfolding io_by_pid add_io
io_by_pid-NoDup d [] h = h
io_by_pid-NoDup d (st ∷ stats) h =
    let e = get_or d st.pid (new_io st.comm) in
    io_by_pid-NoDup (add_io d st) stats (
      NoDup-put d st.pid
        (record e { rate = e.rate + st.iops; devices = add_device e.devices st.device }) h)

-- The rates of the processes of a list.
abbrev known_rates : Dict ℤ Io → List ProcessInfo → ℕ
known_rates ios [] = 0
known_rates ios (p ∷ procs) = rate_of (get ios (pos p.pid)) + known_rates ios procs

abbrev vanished_rates : List ProcessInfo → Dict ℤ Io → ℕ
vanished_rates procs [] = 0
vanished_rates procs ((pid, io) ∷ ios) =
    (if is_seen procs pid then 0 else io.rate) + vanished_rates procs ios

-- No process id stands twice.
abbrev pub DistinctPids : List ProcessInfo → Type 0
DistinctPids [] = Unit
DistinctPids (p ∷ procs) = (is_seen procs (pos p.pid) ≡ false) × DistinctPids procs

known_rates-cons :
    (ios : Dict ℤ Io) (pid : ℤ) (io : Io) (procs : List ProcessInfo)
    → get ios pid ≡ none
    → DistinctPids procs
    → known_rates ((pid, io) ∷ ios) procs
      ≡ known_rates ios procs + (if is_seen procs pid then io.rate else 0)
unfolding get
known_rates-cons ios pid io [] absent h = omega arith
known_rates-cons ios pid io (p ∷ procs) absent h =
    let ih = known_rates-cons ios pid io procs absent h.1 in
    elim (Bool-cases (int_eq pid (pos p.pid))) [
      | inl same ↦
          let e : pid ≡ pos p.pid = (int_eq_iff pid (pos p.pid)).0 same in
          let back : int_eq (pos p.pid) pid ≡ true = (int_eq_iff (pos p.pid) pid).1 (sym e) in
          let gone : get ios (pos p.pid) ≡ none = subst (λ x. get ios x ≡ none) e absent in
          let fresh : is_seen procs pid ≡ false =
            subst (λ x. is_seen procs x ≡ false) (sym e) h.0 in
          rw (same, gone, back) (omega (arith, rw fresh at ih))
      | inr other ↦
          let back : int_eq (pos p.pid) pid ≡ false =
            ground (arith, other, (int_eq_iff (pos p.pid) pid).0, (int_eq_iff pid (pos p.pid)).1) in
          rw (other, back) (omega (arith, ih))
    ]

known_rates-nil : (procs : List ProcessInfo) → known_rates [] procs ≡ 0
unfolding get
known_rates-nil [] = refl
known_rates-nil (p ∷ procs) = omega (arith, known_rates-nil procs)

rates-parts :
    (procs : List ProcessInfo) (ios : Dict ℤ Io)
    → NoDup ios
    → DistinctPids procs
    → known_rates ios procs + vanished_rates procs ios ≡ rates ios
rates-parts procs [] h k = omega (arith, known_rates-nil procs)
rates-parts procs ((pid, io) ∷ ios) h k =
    let step = known_rates-cons ios pid io procs h.0 k in
    let ih = rates-parts procs ios h.1 k in
    elim (Bool-cases (is_seen procs pid)) [
      | inl seen ↦ rw seen (omega (arith, rw seen at step, ih))
      | inr gone ↦ rw gone (omega (arith, rw gone at step, ih))
    ]

-- The rates of entries, added up.
abbrev pub listed : List ProcessListEntry → ℕ
listed [] = 0
listed (e ∷ es) = e.io_rate + listed es

listed-append : (es fs : List ProcessListEntry) → listed (es ++ fs) ≡ listed es + listed fs
listed-append [] fs = omega arith
listed-append (e ∷ es) fs = omega (arith, listed-append es fs)

listed-insert_by :
    (e : ProcessListEntry) (es : List ProcessListEntry)
    → listed (insert_by entry_before e es) ≡ e.io_rate + listed es
unfolding insert_by
listed-insert_by e [] = refl
listed-insert_by e (f ∷ es) = elim (Bool-cases (entry_before f e)) [
  | inl before ↦ rw before (omega (arith, listed-insert_by e es))
  | inr after ↦ rw after refl
]

listed-sort_by : (es : List ProcessListEntry) → listed (sort_by entry_before es) ≡ listed es
unfolding sort_by
listed-sort_by [] = refl
listed-sort_by (e ∷ es) =
    omega (arith, listed-insert_by e (sort_by entry_before es), listed-sort_by es)

listed-known_entries :
    (search : Search) (rules : List TargetRule) (ios : Dict ℤ Io) (procs : List ProcessInfo)
    → listed (known_entries search rules ios procs) ≡ known_rates ios procs
unfolding known_entries entry_of
listed-known_entries search rules ios [] = refl
listed-known_entries search rules ios (p ∷ procs) =
    omega (arith, listed-known_entries search rules ios procs)

listed-vanished_entries :
    (procs : List ProcessInfo) (ios : Dict ℤ Io)
    → listed (vanished_entries procs ios) ≡ vanished_rates procs ios
unfolding vanished_entries vanished_entry
listed-vanished_entries procs [] = refl
listed-vanished_entries procs ((pid, io) ∷ ios) = elim (Bool-cases (is_seen procs pid)) [
  | inl seen ↦ rw seen (omega (arith, listed-vanished_entries procs ios))
  | inr gone ↦ rw gone (omega (arith, listed-vanished_entries procs ios))
]

-- Each entry says that it is active exactly when it has a rate.
IsMarked : List ProcessListEntry → Type 0
IsMarked es = All (λ e. e.io_active ≡ ltb 0 e.io_rate) es

known_entries-IsMarked :
    (search : Search) (rules : List TargetRule) (ios : Dict ℤ Io) (procs : List ProcessInfo)
    (rest : List ProcessListEntry)
    → IsMarked rest
    → IsMarked (known_entries search rules ios procs ++ rest)
unfolding known_entries entry_of IsMarked
known_entries-IsMarked search rules ios [] rest h = h
known_entries-IsMarked search rules ios (p ∷ procs) rest h =
    (refl, known_entries-IsMarked search rules ios procs rest h)

vanished_entries-IsMarked :
    (procs : List ProcessInfo) (ios : Dict ℤ Io) → IsMarked (vanished_entries procs ios)
unfolding vanished_entries vanished_entry IsMarked
vanished_entries-IsMarked procs [] = tt
vanished_entries-IsMarked procs ((pid, io) ∷ ios) = elim (Bool-cases (is_seen procs pid)) [
  | inl seen ↦ rw seen (vanished_entries-IsMarked procs ios)
  | inr gone ↦ rw gone (refl, vanished_entries-IsMarked procs ios)
]

listed-only_active :
    (only_io : Bool) (es : List ProcessListEntry)
    → IsMarked es
    → listed (only_active only_io es) ≡ listed es
unfolding IsMarked
listed-only_active false es h = refl
listed-only_active true [] h = refl
listed-only_active true (e ∷ es) h = elim (Bool-cases e.io_active) [
  | inl active ↦ rw active (omega (arith, listed-only_active true es h.1))
  | inr idle ↦
      let zero_rate : e.io_rate ≡ 0 = ground (arith, h.0, idle) in
      rw idle (omega (arith, listed-only_active true es h.1, zero_rate))
]

-- Whatever the collector measured, and whichever processes the kernel lists, as long as none of them
-- twice: the rates of the entries of the list add up to what was measured, whether or not the
-- processes without I/O are left out.
pub list_entries-conserves :
    (search : Search) (rules : List TargetRule) (stats : List ProcessIoStat)
    (procs : List ProcessInfo) (only_io : Bool)
    → DistinctPids procs
    → listed (list_entries search rules stats procs only_io) ≡ measured stats
unfolding list_entries
list_entries-conserves search rules stats procs only_io distinct =
    let ios = io_by_pid [] stats in
    let known = known_entries search rules ios procs in
    let rest = vanished_entries procs ios in
    omega (
      arith,
      listed-sort_by (only_active only_io (known ++ rest)),
      listed-only_active only_io (known ++ rest) (
          known_entries-IsMarked search rules ios procs rest (vanished_entries-IsMarked procs ios)),
      listed-append known rest,
      listed-known_entries search rules ios procs,
      listed-vanished_entries procs ios,
      rates-parts procs ios (io_by_pid-NoDup [] stats tt) distinct,
      rates-io_by_pid [] stats,
    )
