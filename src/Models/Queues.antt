-- ===== src/Models/Queues.antt =====
-- models.py: what the queue service returns. `bytes` are lists of numbers.
use telemetryd.Base.{ℕ, Bool, List, Option, Text}

pub record QueueSnapshot : Type 0 where
  pub index : ℕ
  pub qid : ℕ
  pub is_admin : Bool
  pub depth : ℕ
  pub sq_tail : ℕ
  pub cq_head : ℕ
  pub sq_dma_addr : ℕ
  pub cq_dma_addr : ℕ
  pub hctx_index : Option ℕ
  pub inflight_driver : ℕ
  pub inflight_sched : ℕ

pub record DeviceSnapshot : Type 0 where
  pub name : Text
  pub addr : ℕ
  pub model : Text
  pub online_queues : ℕ
  pub allocated_queues : ℕ
  pub bar_addr : ℕ
  pub dbs_addr : ℕ
  pub iommu_enabled : Bool
  pub backend_kind : Text
  pub queues : List QueueSnapshot

pub record QueueEntry : Type 0 where
  pub index : ℕ
  pub cid : ℕ
  pub opcode : ℕ
  pub opcode_name : Text
  pub nsid : ℕ
  pub flags : ℕ
  pub uses_sgl : Bool
  pub cdw2 : ℕ
  pub cdw3 : ℕ
  pub cdw10 : ℕ
  pub cdw11 : ℕ
  pub cdw12 : ℕ
  pub cdw13 : ℕ
  pub cdw14 : ℕ
  pub cdw15 : ℕ
  pub prp1 : ℕ
  pub prp2 : ℕ

pub record CompletionEntry : Type 0 where
  pub index : ℕ
  pub command_id : ℕ
  pub sq_id : ℕ
  pub sq_head : ℕ
  pub status_raw : ℕ
  pub phase : Bool
  pub status_code : ℕ
  pub status_code_type : ℕ
  pub result : ℕ

pub record PrpPage : Type 0 where
  pub phys_addr : ℕ
  pub offset_in_page : ℕ
  pub content : List ℕ
  pub is_list_page : Bool

pub record PrpPayload : Type 0 where
  pub device : Text
  pub qid : ℕ
  pub cid : ℕ
  pub uses_sgl : Bool
  pub total_len : ℕ
  pub pages : List PrpPage
  pub error : Option Text
