-- ===== src/Tests/Profiles.antt =====
-- Rules, sessions and attribution on concrete processes.
use telemetryd.Base.{
  pos, ◌*◌, ℕ, ◌+◌, ◌≤◌, ◌≡◌, refl, Bool, true, false, Option, none, some, List, [], ◌∷◌, Text,
  text_in, codes, text_keys, nat_keys, get, Dict, Result, ok, raise, arith, Member, here, there,
}
use telemetryd.Models.Profile.{ProcessInfo, ProcessIoStat, TargetRule, Session, active}
use telemetryd.Targets.Rules.{
  Search, resolve, resolve_from, hit, first_match, rule_matches, add_rule, remove_rule,
  is_valid_kind,
}
use telemetryd.Targets.SessionIds.{session_id, session_id-free}
use telemetryd.Targets.Attribution.{
  Owner, totals, attribute_all, unmonitored_of, iops_on, monitored_on, unmonitored_on,
  attribute_all-conserves,
}
use telemetryd.Targets.Sessions.{Adapters, Now, Registry}
use telemetryd.Targets.Sessions.Observed.{Keeps}
use telemetryd.Targets.Registry.{refresh}
use telemetryd.Targets.Kept.{refresh-Keeps}
use telemetryd.Targets.State.{save, load, IsRestored, load-save}
use telemetryd.Base.{select, pos}
use telemetryd.Targets.Chosen.{
  IsFirstMatch, IsUnique, count_rule, resolve-IsFirstMatch, add_rule-IsUnique,
}

abbrev pub no_pattern : Search
no_pattern pattern text = none

abbrev pub fio : ProcessInfo
fio = record {
  pid = 42;
  comm = codes "fio";
  cmdline = codes "fio --bs=4k";
  exe_path = codes "/usr/bin/fio";
  uid = pos 0;
  start_time_ns = 7;
  thread_count = 1;
  threads = [];
  error = none;
}

abbrev broken_rule : TargetRule
broken_rule = record { kind = codes "name_pattern"; value = codes "("; adapter = none }

abbrev fio_rule : TargetRule
fio_rule = record { kind = codes "name"; value = codes "fio"; adapter = none }

abbrev pub rules : List TargetRule
rules = broken_rule ∷ fio_rule ∷ []

fio_resolved : get (resolve no_pattern rules (fio ∷ [])) 42 ≡ some fio_rule
unfolding resolve resolve_from hit first_match rule_matches telemetryd.Base.strip
    telemetryd.Targets.Rules.basename get telemetryd.Base.put telemetryd.Base.decimal
fio_resolved = refl

resolve-IsFirstMatch_example :
    (p : ProcessInfo) × Member p (fio ∷ [])
    × (p.pid ≡ 42)
    × IsFirstMatch no_pattern rules p fio_rule
resolve-IsFirstMatch_example =
    resolve-IsFirstMatch no_pattern rules (fio ∷ []) 42 fio_rule fio_resolved

one_rule-IsUnique : IsUnique (fio_rule ∷ [])
one_rule-IsUnique kind value = ground arith

add_rule-IsUnique_example :
    ((next : List TargetRule)
      → add_rule (fio_rule ∷ []) broken_rule ≡ ok next
      → IsUnique next × (count_rule broken_rule.kind broken_rule.value next ≡ 1))
    × (is_valid_kind broken_rule.kind ≡ false
        → add_rule (fio_rule ∷ []) broken_rule ≡ raise broken_rule.kind)
    × IsUnique (remove_rule (fio_rule ∷ []) broken_rule.kind broken_rule.value)
    × (count_rule broken_rule.kind broken_rule.value
          (remove_rule (fio_rule ∷ []) broken_rule.kind broken_rule.value)
        ≡ 0)
add_rule-IsUnique_example = add_rule-IsUnique (fio_rule ∷ []) broken_rule one_rule-IsUnique

abbrev taken : List Text
taken = codes "sess_now_42" ∷ codes "sess_now_42_0007" ∷ codes "sess_now_42_0007_2" ∷ []

third_id : session_id (codes "now") 42 7 taken ≡ codes "sess_now_42_0007_3"
unfolding session_id telemetryd.Targets.SessionIds.first_free telemetryd.Base.decimal
    telemetryd.Base.hex_pad telemetryd.Base.hex
third_id = refl

session_id-free_example : text_in taken (session_id (codes "now") 42 7 taken) ≡ false
session_id-free_example = session_id-free (codes "now") 42 7 taken

abbrev stat_of : ℕ → ℕ → ProcessIoStat
stat_of pid iops = record {
  device = codes "nvme0";
  pid = pos pid;
  comm = codes "p";
  iops = iops;
  read_iops = iops;
  write_iops = 0;
  bandwidth_bps = 4096 * iops;
  avg_latency_ns = (0, 0);
  io_size_dominant = pos 4096;
  io_size_hist = (pos 4096, iops) ∷ [];
  queues = [];
  queue_depth_est = (0, 1);
  seq_ratio = none;
  threads = [];
}

abbrev pub stats : List ProcessIoStat
stats = stat_of 42 100 ∷ stat_of 43 5 ∷ []

abbrev owners : List Owner
owners = (codes "sess_now_42", (42, true)) ∷ []

attribute_all-conserves_example :
    let (total, (attributed, unattributed)) =
      totals (get (attribute_all owners [] stats) (codes "nvme0")) in
    (attributed + unattributed ≡ total)
    × (total ≡ iops_on (codes "nvme0") stats)
    × (attributed ≡ monitored_on owners (codes "nvme0") stats)
    × (unattributed ≡ unmonitored_on (codes "nvme0") (unmonitored_of owners stats))
attribute_all-conserves_example = attribute_all-conserves owners stats (codes "nvme0")

abbrev pub adapters : Adapters ℕ ℕ
adapters = record {
  select_adapter = λ proc explicit. codes "generic";
  get_logical_groups = λ name proc mine. some 1;
  fallback = λ proc. 0;
  measured_from_stats = λ mine. 2;
}

abbrev pub now : Now
now = record { ns = 1000; stamp = codes "now" }

abbrev old_session : Session ℕ ℕ
old_session = record {
  session_id = codes "sess_old_42";
  pid = 42;
  comm = codes "dd";
  cmdline = codes "dd";
  exe_path = codes "/bin/dd";
  adapter = codes "generic";
  status = active;
  start_time_ns = 3;
  session_start_ns = 10;
  session_end_ns = none;
  devices = [];
  thread_count_active = 1;
  aggregate = none;
  logical_groups = none;
  matched_rule = none;
}

abbrev registry : Registry ℕ ℕ
registry = record {
  rules = rules;
  sessions = (codes "sess_old_42", old_session) ∷ [];
  by_identity = ((42, 3), codes "sess_old_42") ∷ [];
}

refresh-Keeps_example :
    Keeps registry.sessions (refresh adapters no_pattern now registry (fio ∷ []) stats).0.sessions
refresh-Keeps_example = refresh-Keeps adapters now no_pattern registry (fio ∷ []) stats

nothing_else : get {K = Text} {V = Session ℕ ℕ} [] (codes "sess_old_42") ≡ none
unfolding get
nothing_else = refl

load-save_example :
    ((sid : Text) (s : Session ℕ ℕ)
      → get registry.sessions sid ≡ some s
      → (t : Session ℕ ℕ) × (get (load (some (save 50 registry))).sessions sid ≡ some t)
        × IsRestored s t)
    × ((load (some (save 50 registry))).rules ≡ select (λ x. is_valid_kind x.kind) rules)
load-save_example = load-save 50 registry (omega arith) (refl, tt) (nothing_else, tt)
