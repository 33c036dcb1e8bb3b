-- ===== src/Perf/Service.antt =====
-- backend/ebpf_perf.py `read_latest_performance`, `read_device_performance` and
-- services/perf/service.py. `none` stands for the ValueError of a bucket's bound, which is passed on.
pub mod Totals
use telemetryd.Base.{
  ℕ, Bool, true, false, Option, none, some, List, [], ◌∷◌, ◌++◌, Text, codes, if◌then◌else◌,
}
use telemetryd.Names.{match_device}
use telemetryd.Models.Perf.{QueuePerf, DevicePerf}
use telemetryd.Platform.LogFile.{Bytes, Decoder, FileLogSource, available, read_all}
use telemetryd.Perf.{performance_of}
use telemetryd.Perf.Segment.{Maps, parse_last_complete_tick}

abbrev pub rows_of : ℕ → Option Maps → Option (List QueuePerf × Option QueuePerf)
rows_of i none = none
rows_of i (some maps) = some (performance_of maps.scalars maps.hists i)

-- `exists` and `content` are what the file system answers of the log.
unfoldable pub read_latest_performance :
    Decoder → FileLogSource → Bool → Option Bytes → ℕ → Option (List QueuePerf × Option QueuePerf)
unfolding parse_last_complete_tick
read_latest_performance decode log exists content i =
    if available log exists
    then rows_of i (parse_last_complete_tick (read_all decode log content))
    else some ([], none)

abbrev pub unavailable : Text → Text → DevicePerf
unavailable device message = record {
  device = device;
  queues = [];
  available = false;
  error = some message;
  aggregate = none;
}

abbrev pub no_tick : Text
no_tick =
    codes
      "eBPF 수집기 데이터 없음 — nvme_perf.bt가 안 떠 있거나 아직 첫 틱 전 (DESIGN.md §9.5 참고: chroot로 게스트에서 bpftrace 실행 필요)"

abbrev pub no_log : Text
no_log = codes "eBPF 수집기 로그 없음 — nvme_perf.bt가 안 떠 있거나 로그 경로가 설정되지 않음(DESIGN.md §9.6)"

-- The text of the ValueError of `device_instance_from_name`.
abbrev pub bad_name : Text → Text
bad_name repr = codes "디바이스 이름 형식이 아님: " ++ repr

unfoldable pub device_perf : Text → List QueuePerf × Option QueuePerf → DevicePerf
device_perf device ([], aggregate) = unavailable device no_tick
device_perf device (q ∷ qs, aggregate) = record {
  device = device;
  queues = q ∷ qs;
  available = true;
  error = none;
  aggregate = aggregate;
}

-- `repr` is Python's.
unfoldable pub read_device_performance :
    (Text → Text) → Decoder → FileLogSource → Bool → Option Bytes → Text → Option DevicePerf
unfolding read_latest_performance device_perf
read_device_performance repr decode log exists content device = elim (match_device device) [
  | none ↦ some (unavailable device (bad_name (repr device)))
  | some i ↦ elim (read_latest_performance decode log exists content i) [
    | none ↦ none
    | some rows ↦ some (device_perf device rows)
  ]
]

-- `EbpfPerfService.get_performance`. The file system is asked twice whether the log is there.
unfoldable pub get_performance :
    (Text → Text) → Decoder → FileLogSource → Bool → Bool → Option Bytes → Text → Option DevicePerf
unfolding read_device_performance
get_performance repr decode log exists exists_later content device =
    if available log exists
    then read_device_performance repr decode log exists_later content device
    else some (unavailable device no_log)
