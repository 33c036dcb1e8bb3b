-- ===== src/Models/Profile.antt =====
-- models.py: what the profiler works on. Rates are whole numbers. `Groups` and `Aggregate` are what
-- an application's adapter makes of the measurements.
use telemetryd.Base.{ℕ, ℤ, Bool, List, Option, Text}

pub record ThreadIoStat : Type 0 where
  pub tid : ℤ
  pub comm : Text
  pub iops : ℕ

-- A process on a device. The collector's lines have room for a negative id.
pub record ProcessIoStat : Type 0 where
  pub device : Text
  pub pid : ℤ
  pub comm : Text
  pub iops : ℕ
  pub read_iops : ℕ
  pub write_iops : ℕ
  pub bandwidth_bps : ℕ
  -- the sum and the number of which the average is taken; 0 and 0 without a sample
  pub avg_latency_ns : ℕ × ℕ
  pub io_size_dominant : ℤ
  pub io_size_hist : List (ℤ × ℕ)
  pub queues : List (ℤ × ℕ)
  -- a fraction, numerator and denominator
  pub queue_depth_est : ℕ × ℕ
  pub seq_ratio : Option (ℕ × ℕ)
  pub threads : List ThreadIoStat

-- Without `state`, which nothing sets.
pub record ProcessInfo : Type 0 where
  pub pid : ℕ
  pub comm : Text
  pub cmdline : Text
  pub exe_path : Text
  pub uid : ℤ
  pub start_time_ns : ℕ
  pub thread_count : ℕ
  pub threads : List (ℕ × Text)
  pub error : Option Text

pub record TargetRule : Type 0 where
  pub kind : Text
  pub value : Text
  pub adapter : Option Text

pub data Status : Type 0 where
  active : Status
  finished : Status

pub record Session (Groups Aggregate : Type 0) : Type 0 where
  pub session_id : Text
  pub pid : ℕ
  pub comm : Text
  pub cmdline : Text
  pub exe_path : Text
  pub adapter : Text
  pub status : Status
  pub start_time_ns : ℕ
  pub session_start_ns : ℕ
  pub session_end_ns : Option ℕ
  pub devices : List Text
  pub thread_count_active : ℕ
  pub aggregate : Option Aggregate
  pub logical_groups : Option Groups
  pub matched_rule : Option Text

pub record UnmonitoredIo : Type 0 where
  pub pid : ℤ
  pub comm : Text
  pub device : Text
  pub io_rate : ℕ

pub record DeviceAttribution : Type 0 where
  pub name : Text
  pub total_iops : ℕ
  pub attributed_iops : ℕ
  pub unattributed_iops : ℕ
  pub contributing_sessions : List Text
  pub multi_process_warning : Bool

-- Without `schema_version`, a constant.
pub record ProfileSnapshot (Groups Aggregate : Type 0) : Type 0 where
  pub collected_at_ns : ℕ
  pub sessions : List (Session Groups Aggregate)
  pub unmonitored_io : List UnmonitoredIo
  pub devices : List DeviceAttribution
  pub rules : List TargetRule
  pub available : Bool
  pub error : Option Text

-- What an entry of the list is about: a process of the kernel's list, or the `ProcessInfo` that is
-- made of the id and the name of one that is not there, whose other fields are constants.
pub data Listed : Type 0 where
  known : ProcessInfo → Listed
  vanished : ℤ → Text → Listed

pub record ProcessListEntry : Type 0 where
  pub info : Listed
  pub io_active : Bool
  pub io_rate : ℕ
  pub target_devices : List Text
  pub is_target : Bool
  pub matched_rule : Option Text
  pub selectable : Bool
  pub unselectable_reason : Option Text
