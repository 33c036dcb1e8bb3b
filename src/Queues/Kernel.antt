-- ===== src/Queues/Kernel.antt =====
-- The part of the kernel's memory that services/queues/service.py reads through drgn, which is a
-- parameter of the service: block devices, their controllers, rings and busy requests. `none`
-- stands for a read that raises.
use telemetryd.Base.{ℕ, Bool, List, Option, Text}
use telemetryd.Queues.Decode.{Memory, CdwLayout}

-- An entry of a submission ring, `struct nvme_command`.
pub record Command : Type 0 where
  pub opcode : ℕ
  pub flags : ℕ
  pub command_id : ℕ
  pub nsid : ℕ
  pub cdw : CdwLayout
  pub cdw10 : ℕ
  pub cdw11 : ℕ
  pub cdw12 : ℕ
  pub cdw13 : ℕ
  pub cdw14 : ℕ
  pub cdw15 : ℕ
  pub prp1 : ℕ
  pub prp2 : ℕ
  -- `cmd.rw.length`
  pub rw_length : Option ℕ

-- `result.u32`, or `result.u16` where the layout has no `u32`.
pub data CqeResult : Type 0 where
  u32 : ℕ → CqeResult
  u16 : ℕ → CqeResult

-- An entry of a completion ring, `struct nvme_completion`.
pub record Completion : Type 0 where
  pub command_id : ℕ
  pub sq_id : ℕ
  pub sq_head : ℕ
  pub status : ℕ
  pub result : CqeResult

-- A request that `request_queue_busy_iter` gives; `hctx` is `none` for a null pointer.
pub record Request : Type 0 where
  pub tag : ℕ
  pub hctx : Option ℕ
  pub total_len : Option ℕ
  pub rq_bytes : Option ℕ

pub record Queue : Type 0 where
  pub qid : ℕ
  pub q_depth : ℕ
  pub sq_tail : ℕ
  pub cq_head : ℕ
  pub sq_dma_addr : ℕ
  pub cq_dma_addr : ℕ
  pub sq_cmds : ℕ → Option Command
  pub cqes : ℕ → Option Completion

-- `struct nvme_dev` with its `struct nvme_ctrl`. `fault` is what a snapshot's reads of its fields, and
-- of its online queues' own fields, raise.
pub record Controller : Type 0 where
  pub addr : ℕ
  pub model_number : Option Text
  pub online_queues : ℕ
  pub nr_allocated_queues : Option ℕ
  pub fault : Option Text
  pub bar : ℕ
  pub dbs : ℕ
  pub queues : ℕ → Queue

-- A `struct gendisk` of a namespace. The busy lists hold the requests in front of the first read
-- that raises.
pub record Disk : Type 0 where
  pub name : Text
  pub ctrl : Controller
  pub driver_busy : List Request
  pub sched_busy : List Request

pub record Kernel : Type 0 where
  pub disks : List Disk
  -- whether /sys/class/iommu of the host has an entry
  pub iommu : Bool
  -- reads of physical memory
  pub memory : Memory
