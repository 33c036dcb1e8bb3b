-- ===== src/Tests/Data.antt =====
-- A kernel with two controllers, of which one has two namespaces, and a read in flight.
use telemetryd.Base.{
  ℕ, ◌%◌, ◌≡◌, refl, none, some, [], ◌∷◌, Text, codes, ◌==◌, if◌then◌else◌, false, ok,
}
use telemetryd.Queues.Decode.{Memory, separate}
use telemetryd.Queues.Kernel.{Command, Completion, u32, Request, Queue, Controller, Disk, Kernel}
use telemetryd.Queues.Service.{lookup_device, instance_of, find_any_namespace_disk, best_disk}
use telemetryd.Queues.Flat.{flat}
use telemetryd.Names.{match_device}

abbrev pub byte_at : ℕ → ℕ
byte_at a = a % 256

abbrev pub memory : Memory
memory p n = some (flat byte_at p n)

abbrev pub read_command : Command
read_command = record {
  opcode = 2;
  flags = 0;
  command_id = 7;
  nsid = 1;
  cdw = separate 0 0;
  cdw10 = 0;
  cdw11 = 0;
  cdw12 = 0;
  cdw13 = 0;
  cdw14 = 0;
  cdw15 = 0;
  prp1 = 8192;
  prp2 = 0;
  rw_length = some 0;
}

abbrev pub completion : Completion
completion = record { command_id = 7; sq_id = 1; sq_head = 3; status = 0x205; result = u32 0 }

abbrev pub ring : Queue
ring = record {
  qid = 1;
  q_depth = 4;
  sq_tail = 3;
  cq_head = 1;
  sq_dma_addr = 0;
  cq_dma_addr = 0;
  sq_cmds = λ i. if i == 2 then some read_command else none;
  cqes = λ i. if i == 0 then some completion else none;
}

abbrev pub controller : Controller
controller = record {
  addr = 4096;
  model_number = some (codes "demo  ");
  online_queues = 2;
  nr_allocated_queues = none;
  fault = none;
  bar = 0;
  dbs = 0;
  queues = λ i. ring;
}

abbrev pub other_controller : Controller
other_controller = record controller { addr = 8192 }

abbrev pub busy : Request
busy = record { tag = 7; hctx = some 0; total_len = some 16; rq_bytes = none }

abbrev pub disk_of : Text → Controller → Disk
disk_of name ctrl = record { name = name; ctrl = ctrl; driver_busy = busy ∷ []; sched_busy = [] }

abbrev pub disk : Disk
disk = disk_of (codes "nvme0n1") controller

abbrev pub kernel : Kernel
kernel = record {
  disks =
      disk_of (codes "nvme1n1") other_controller ∷ disk_of (codes "nvme0n2") controller ∷ disk ∷ [];
  iommu = false;
  memory = memory;
}

pub nvme0_found : lookup_device kernel (codes "nvme0") ≡ ok disk
unfolding lookup_device instance_of find_any_namespace_disk best_disk match_device
nvme0_found = refl
