-- ===== src/Models/Events.antt =====
-- models.py: what the event service returns. A time is a whole number of ticks, and an elapsed
-- time is kept in the nanoseconds that the collector printed, where the source divides them by
-- 1000.0.
use telemetryd.Base.{ℕ, ℤ, Bool, List, Option, Text}

pub record TimeoutEventDetail : Type 0 where
  pub tag : ℤ
  pub opcode : ℤ
  pub opcode_name : Text
  pub nsid : ℤ
  pub flags : ℤ
  pub cdw10 : ℤ
  pub cdw11 : ℤ
  pub cdw12 : ℤ
  pub cdw13 : ℤ
  pub cdw14 : ℤ
  pub cdw15 : ℤ
  pub elapsed_ns : ℕ

pub record ErrorEventDetail : Type 0 where
  pub cid : ℤ
  pub tag : ℤ
  pub opcode : ℕ
  pub opcode_name : Text
  pub nsid : ℕ
  pub status : ℤ
  pub sct : ℕ
  pub sc : ℕ
  pub sct_name : Text
  pub sc_name : Text
  pub dnr : Bool
  pub more : Bool
  pub crd : ℕ
  pub retries : ℤ
  pub slba : ℤ
  pub nlb : ℤ
  pub lba_valid : Bool
  pub submit_cached : Bool
  pub elapsed_ns : ℕ

pub record NvmeEvent : Type 0 where
  pub kind : Text
  pub observed_at : ℕ
  pub device : Text
  pub qid : ℤ
  pub summary : Text
  pub timeout : Option TimeoutEventDetail
  pub error : Option ErrorEventDetail

pub record ErrorStatusCount : Type 0 where
  pub sct : ℤ
  pub sc : ℤ
  pub sct_name : Text
  pub sc_name : Text
  pub count : ℕ

pub record DeviceErrorStats : Type 0 where
  pub device : Text
  pub counts : List ErrorStatusCount
  pub total : ℕ
  pub available : Bool
  pub error : Option Text

pub record EventKindInfo : Type 0 where
  pub kind : Text
  pub label : Text
  pub source : Text
  pub description : Text
  pub active : Bool
