-- ===== src/Targets/Attribution.antt =====
-- backend/targets.py: the last part of `refresh`, which device's I/O belongs to which session.
use telemetryd.Base.{
  ℤ, pos, int_eq, ℕ, ◌+◌, ◌≡◌, sym, ap, ◌∙◌, Bool, true, false, ◌&&◌, not, Option, none, some, List,
  [], ◌∷◌, ◌++◌, Text, text_eq, text_eq_iff, text_in, text_keys, nat_keys, Dict, get, put, get-put,
  get_or, ltb, if◌then◌else◌, arith, Bool-cases, inl, inr, length,
}
use telemetryd.Models.Profile.{
  ProcessIoStat, Status, active, finished, UnmonitoredIo, DeviceAttribution,
}

abbrev pub is_active : Status → Bool
is_active active = true
is_active finished = false

-- What is known of the sessions here: id, pid and whether it is active.
abbrev pub Owner : Type 0
Owner = Text × (ℕ × Bool)

-- `st.pid in session_pids`
abbrev pub is_session_pid : List Owner → ℤ → Bool
is_session_pid [] pid = false
is_session_pid ((sid, (p, on)) ∷ owners) pid =
    if on && int_eq (pos p) pid then true else is_session_pid owners pid

-- The ids of the active sessions of a process, behind those that are there.
unfoldable pub contribute : List Owner → ℤ → List Text → List Text
contribute [] pid ids = ids
contribute ((sid, (p, on)) ∷ owners) pid ids =
    contribute owners pid
      (if int_eq (pos p) pid && on && not (text_in ids sid) then ids ++ (sid ∷ []) else ids)

abbrev pub new_device : Text → DeviceAttribution
new_device name = record {
  name = name;
  total_iops = 0;
  attributed_iops = 0;
  unattributed_iops = 0;
  contributing_sessions = [];
  multi_process_warning = false;
}

unfoldable pub attribute : List Owner → ProcessIoStat → DeviceAttribution → DeviceAttribution
attribute owners st dev =
    if is_session_pid owners st.pid
    then record dev {
      total_iops = dev.total_iops + st.iops;
      attributed_iops = dev.attributed_iops + st.iops;
      contributing_sessions = contribute owners st.pid dev.contributing_sessions;
    }
    else record dev {
      total_iops = dev.total_iops + st.iops;
      unattributed_iops = dev.unattributed_iops + st.iops;
    }

-- `devices.setdefault(st.device, ...)` and the additions to it.
unfoldable pub attribute_all :
    List Owner → Dict Text DeviceAttribution → List ProcessIoStat → Dict Text DeviceAttribution
attribute_all owners devices [] = devices
attribute_all owners devices (st ∷ stats) =
    attribute_all owners
      (put devices st.device
        (attribute owners st (get_or devices st.device (new_device st.device))))
      stats

-- The I/O of processes without an active session.
unfoldable pub unmonitored_of : List Owner → List ProcessIoStat → List UnmonitoredIo
unmonitored_of owners [] = []
unmonitored_of owners (st ∷ stats) =
    let rest = unmonitored_of owners stats in
    if not (is_session_pid owners st.pid) && ltb 0 st.iops
    then record { pid = st.pid; comm = st.comm; device = st.device; io_rate = st.iops } ∷ rest
    else rest

abbrev pub add_pid : ℤ → List ℤ → List ℤ
add_pid p [] = p ∷ []
add_pid p (q ∷ ps) = if int_eq p q then q ∷ ps else q ∷ add_pid p ps

-- `{st.pid for st in stats if st.device == name and st.iops > 0}`
unfoldable pub pids_on : Text → List ProcessIoStat → List ℤ
pids_on name [] = []
pids_on name (st ∷ stats) =
    let rest = pids_on name stats in
    if text_eq st.device name && ltb 0 st.iops then add_pid st.pid rest else rest

unfoldable pub warned : List ProcessIoStat → DeviceAttribution → DeviceAttribution
warned stats dev = record dev { multi_process_warning = ltb 1 (length (pids_on dev.name stats)) }

-- What the statistics say of a device: all of its I/O, and the part of the monitored processes.
abbrev pub iops_on : Text → List ProcessIoStat → ℕ
iops_on name [] = 0
iops_on name (st ∷ stats) = (if text_eq st.device name then st.iops else 0) + iops_on name stats

abbrev pub monitored_on : List Owner → Text → List ProcessIoStat → ℕ
monitored_on owners name [] = 0
monitored_on owners name (st ∷ stats) =
    (if text_eq st.device name && is_session_pid owners st.pid then st.iops else 0)
    + monitored_on owners name stats

abbrev pub unmonitored_on : Text → List UnmonitoredIo → ℕ
unmonitored_on name [] = 0
unmonitored_on name (u ∷ us) =
    (if text_eq u.device name then u.io_rate else 0) + unmonitored_on name us

-- The three counts of a device in the table; none if it is not there.
abbrev pub totals : Option DeviceAttribution → ℕ × (ℕ × ℕ)
totals none = (0, (0, 0))
totals (some d) = (d.total_iops, (d.attributed_iops, d.unattributed_iops))

unmonitored_of-sum :
    (owners : List Owner) (name : Text) (stats : List ProcessIoStat)
    → monitored_on owners name stats + unmonitored_on name (unmonitored_of owners stats)
      ≡ iops_on name stats
unfolding unmonitored_of
unmonitored_of-sum owners name [] = omega arith
unmonitored_of-sum owners name (st ∷ stats) = ground (arith, unmonitored_of-sum owners name stats)

abbrev or_new : Text → Option DeviceAttribution → DeviceAttribution
or_new name o = elim o [ none ↦ new_device name | some v ↦ v ]

-- The counts of a device's entry after one of its statistics.
attribute-totals :
    (owners : List Owner) (st : ProcessIoStat) (o : Option DeviceAttribution)
    → let mine = is_session_pid owners st.pid in
      totals (some (attribute owners st (or_new st.device o))) ≡ (
        (totals o).0 + st.iops,
        (
          (totals o).1.0 + (if mine then st.iops else 0),
          (totals o).1.1 + (if not mine then st.iops else 0),
        ),
      )
unfolding attribute
attribute-totals owners st none = ground arith
attribute-totals owners st (some d) = ground arith

add_zeros : (t : ℕ × (ℕ × ℕ)) → t ≡ (t.0 + 0, (t.1.0 + 0, t.1.1 + 0))
add_zeros (a, (b, c)) = ground arith

-- One entry more.
step-totals :
    (owners : List Owner) (devices : Dict Text DeviceAttribution) (st : ProcessIoStat) (name : Text)
    → let before = totals (get devices name) in
      let here_is = text_eq st.device name in
      let mine = is_session_pid owners st.pid in
      totals (
        get
          (put devices st.device (attribute owners st (or_new st.device (get devices st.device))))
          name)
      ≡ (
        before.0 + (if here_is then st.iops else 0),
        (
          before.1.0 + (if here_is && mine then st.iops else 0),
          before.1.1 + (if here_is && not mine then st.iops else 0),
        ),
      )
step-totals owners devices st name =
    let next = attribute owners st (or_new st.device (get devices st.device)) in
    let after = get-put devices st.device name next in
    elim (Bool-cases (text_eq st.device name)) [
      | inl e ↦
          let same : get devices name ≡ get devices st.device =
            ap (get devices) (sym ((text_eq_iff st.device name).0 e)) in
          rw (after, e, same) (attribute-totals owners st (get devices st.device))
      | inr e ↦ rw (after, e) (add_zeros (totals (get devices name)))
    ]

add_assoc3 :
    (t : ℕ × (ℕ × ℕ)) (p q r x y z : ℕ)
    → ◌≡◌ {A = ℕ × (ℕ × ℕ)}
        (t.0 + x + p, (t.1.0 + y + q, t.1.1 + z + r))
        (t.0 + (x + p), (t.1.0 + (y + q), t.1.1 + (z + r)))
add_assoc3 (a, (b, c)) p q r x y z = ground arith

unmonitored_of-cons :
    (owners : List Owner) (name : Text) (st : ProcessIoStat) (stats : List ProcessIoStat)
    → unmonitored_on name (unmonitored_of owners (st ∷ stats))
      ≡ (if text_eq st.device name && not (is_session_pid owners st.pid) then st.iops else 0)
        + unmonitored_on name (unmonitored_of owners stats)
unfolding unmonitored_of
unmonitored_of-cons owners name st stats = ground arith

-- The counts that the statistics add to those that a device has.
attribute_all-totals :
    (owners : List Owner) (devices : Dict Text DeviceAttribution) (stats : List ProcessIoStat)
    (name : Text)
    → let before = totals (get devices name) in
      totals (get (attribute_all owners devices stats) name) ≡ (
        before.0 + iops_on name stats,
        (
          before.1.0 + monitored_on owners name stats,
          before.1.1 + unmonitored_on name (unmonitored_of owners stats),
        ),
      )
unfolding attribute_all unmonitored_of
attribute_all-totals owners devices [] name = add_zeros (totals (get devices name))
attribute_all-totals owners devices (st ∷ stats) name =
    let next =
      put devices st.device (attribute owners st (or_new st.device (get devices st.device))) in
    attribute_all-totals owners next stats name
    ∙ rw (step-totals owners devices st name, unmonitored_of-cons owners name st stats)
        (add_assoc3 (totals (get devices name)) (iops_on name stats)
          (monitored_on owners name stats) (unmonitored_on name (unmonitored_of owners stats))
          (if text_eq st.device name then st.iops else 0)
          (if text_eq st.device name && is_session_pid owners st.pid then st.iops else 0)
          (if text_eq st.device name && not (is_session_pid owners st.pid) then st.iops else 0))

-- For every device the profile's counts add up: its attributed and its unattributed I/O make up its
-- total, which is all that the statistics say of it; the attributed is that of the processes with
-- an active session; and the unattributed is what the list of unmonitored I/O says of it.
pub attribute_all-conserves :
    (owners : List Owner) (stats : List ProcessIoStat) (name : Text)
    → let (total, (attributed, unattributed)) = totals (get (attribute_all owners [] stats) name) in
      (attributed + unattributed ≡ total)
      × (total ≡ iops_on name stats)
      × (attributed ≡ monitored_on owners name stats)
      × (unattributed ≡ unmonitored_on name (unmonitored_of owners stats))
unfolding get
attribute_all-conserves owners stats name =
    rw (attribute_all-totals owners [] stats name)
      (ground (arith, unmonitored_of-sum owners name stats))
