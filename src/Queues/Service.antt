-- ===== src/Queues/Service.antt =====
-- services/queues/service.py: finding devices, the device snapshot and the ring entries.
use telemetryd.Base.{
  ℕ, zero, suc, ◌+◌, ℤ, pos, negsuc, bits, is_zero, Bool, Option, none, some, List, [], ◌∷◌, map,
  range, ltb, ◌==◌, if◌then◌else◌, Text, codes, strip, Dict, get, put, get_or, Result, ok, raise,
  ◌>>=◌, sort_by, nat_keys,
}
use telemetryd.Models.Queues.{QueueSnapshot, DeviceSnapshot, QueueEntry, CompletionEntry}
use telemetryd.Names.{match_device, match_disk, device_name}
use telemetryd.NvmeConst.{opcode_name, to_bool}
use telemetryd.Queues.Decode.{window_indices, window_count, cdw2_cdw3}
use telemetryd.Queues.Kernel.{
  Command, Completion, CqeResult, u32, u16, Request, Controller, Disk, Kernel,
}

pub data QueryError : Type 0 where
  device_not_found : Text → QueryError
  queue_not_found : ℤ → QueryError
  fault_error : Text → QueryError

unfoldable pub instance_of : Text → Result QueryError ℕ
instance_of device = elim (match_device device) [
  | none ↦ raise (device_not_found device)
  | some i ↦ ok i
]

-- `best is None or nsid < best[0]`
unfoldable pub better : ℕ → Disk → Option (ℕ × Disk) → Option (ℕ × Disk)
better nsid disk none = some (nsid, disk)
better nsid disk (some (n, d)) = if ltb nsid n then some (nsid, disk) else some (n, d)

unfoldable pub consider : ℕ → Disk → Option (ℕ × ℕ) → Option (ℕ × Disk) → Option (ℕ × Disk)
unfolding better
consider instance_number disk none best = best
consider instance_number disk (some (i, nsid)) best =
    if i == instance_number then better nsid disk best else best

-- The loop over the disks with `best` so far.
unfoldable pub best_disk : ℕ → List Disk → Option (ℕ × Disk) → Option (ℕ × Disk)
unfolding consider match_disk
best_disk instance_number [] best = best
best_disk instance_number (disk ∷ disks) best =
    best_disk instance_number disks (consider instance_number disk (match_disk disk.name) best)

unfoldable pub find_any_namespace_disk : Kernel → ℕ → Option Disk
find_any_namespace_disk k instance_number = elim (best_disk instance_number k.disks none) [
  | none ↦ none
  | some (_, disk) ↦ some disk
]

unfoldable pub found_disk : Text → Option Disk → Result QueryError Disk
found_disk device none = raise (device_not_found device)
found_disk device (some disk) = ok disk

-- The disk leads to the `nvme_dev` that `container_of` gives: `disk.ctrl`.
unfoldable pub lookup_device : Kernel → Text → Result QueryError Disk
unfolding found_disk
lookup_device k device = do i ← instance_of device; found_disk device (find_any_namespace_disk k i)

-- `instances.add(i)` of a set.
unfoldable pub add_instance : Option (ℕ × ℕ) → List ℕ → List ℕ
add_instance none is = is
add_instance (some (i, _)) [] = i ∷ []
add_instance (some (i, n)) (j ∷ is) = if i == j then j ∷ is else j ∷ add_instance (some (i, n)) is

unfoldable pub instances : List Disk → List ℕ → List ℕ
unfolding add_instance match_disk
instances [] is = is
instances (disk ∷ disks) is = instances disks (add_instance (match_disk disk.name) is)

unfoldable pub list_devices : Kernel → List Text
list_devices k = map device_name (sort_by ltb (instances k.disks []))

unfoldable pub count_request : Option ℕ → Dict ℕ ℕ → Dict ℕ ℕ
unfolding put get
count_request none bucket = bucket
count_request (some idx) bucket = put bucket idx (get_or bucket idx 0 + 1)

-- One bucket of `_inflight_by_hctx`: requests by hardware context.
unfoldable pub inflight_by_hctx : List Request → Dict ℕ ℕ → Dict ℕ ℕ
unfolding count_request
inflight_by_hctx [] bucket = bucket
inflight_by_hctx (rq ∷ rqs) bucket = inflight_by_hctx rqs (count_request rq.hctx bucket)

abbrev pub counted : Dict ℕ ℕ → Option ℕ → ℕ
counted bucket none = 0
counted bucket (some idx) = get_or bucket idx 0

-- `None` for the admin queue, else `qid - 1`.
abbrev pub hctx_of : ℕ → Option ℕ
hctx_of zero = none
hctx_of (suc i) = some i

unfoldable pub queue_snapshot : Controller → Dict ℕ ℕ → Dict ℕ ℕ → ℕ → QueueSnapshot
unfolding get
queue_snapshot dev driver sched qid =
    let q = dev.queues qid in
    record {
      index = qid;
      qid = q.qid;
      is_admin = qid == 0;
      depth = q.q_depth;
      sq_tail = q.sq_tail;
      cq_head = q.cq_head;
      sq_dma_addr = q.sq_dma_addr;
      cq_dma_addr = q.cq_dma_addr;
      hctx_index = hctx_of qid;
      inflight_driver = counted driver (hctx_of qid);
      inflight_sched = counted sched (hctx_of qid);
    }

abbrev pub model_text : Option Text → Text
model_text none = codes "?"
model_text (some t) = strip t

abbrev pub allocated_or : Option ℕ → ℕ → ℕ
allocated_or none online = online
allocated_or (some n) online = n

unfoldable pub snapshot_of : Kernel → Text → Disk → DeviceSnapshot
snapshot_of k device disk =
    let dev = disk.ctrl in
    let driver = inflight_by_hctx disk.driver_busy [] in
    let sched = inflight_by_hctx disk.sched_busy [] in
    record {
      name = device;
      addr = dev.addr;
      model = model_text dev.model_number;
      online_queues = dev.online_queues;
      allocated_queues = allocated_or dev.nr_allocated_queues dev.online_queues;
      bar_addr = dev.bar;
      dbs_addr = dev.dbs;
      iommu_enabled = k.iommu;
      backend_kind = codes "drgn";
      queues = map (queue_snapshot dev driver sched) (range dev.online_queues);
    }

-- A read that faults is passed on.
abbrev pub or_fault : Option Text → DeviceSnapshot → Result QueryError DeviceSnapshot
or_fault none s = ok s
or_fault (some e) s = raise (fault_error e)

unfoldable pub get_device_snapshot : Kernel → Text → Result QueryError DeviceSnapshot
get_device_snapshot k device = do
  disk ← lookup_device k device
  or_fault disk.ctrl.fault (snapshot_of k device disk)

-- `if not (0 <= qid < online): raise QueueNotFoundError(qid)`
unfoldable pub check_qid : Controller → ℤ → Result QueryError ℕ
check_qid dev (pos qid) =
    if ltb qid dev.online_queues then ok qid else raise (queue_not_found (pos qid))
check_qid dev (negsuc n) = raise (queue_not_found (negsuc n))

-- `limit or 16`
abbrev pub or_sixteen : ℤ → ℤ
or_sixteen limit = if is_zero limit then pos 16 else limit

unfoldable pub entry_indices : ℕ → ℕ → ℤ → Bool → List ℕ
unfolding window_indices
entry_indices doorbell depth limit around_doorbell =
    if around_doorbell
    then window_indices doorbell depth (or_sixteen limit)
    else range (window_count limit depth)

-- `((flags >> 6) & 0x3) != 0`: the command's data pointer is a scatter-gather list.
abbrev pub psdt : ℕ → ℕ
psdt flags = bits (pos flags) 6 2

unfoldable pub queue_entry : Bool → ℕ → Command → QueueEntry
queue_entry is_admin i c =
    let (cdw2, cdw3) = cdw2_cdw3 c.cdw in
    record {
      index = i;
      cid = c.command_id;
      opcode = c.opcode;
      opcode_name = opcode_name (pos c.opcode) is_admin;
      nsid = c.nsid;
      flags = c.flags;
      uses_sgl = to_bool (psdt c.flags);
      cdw2 = cdw2;
      cdw3 = cdw3;
      cdw10 = c.cdw10;
      cdw11 = c.cdw11;
      cdw12 = c.cdw12;
      cdw13 = c.cdw13;
      cdw14 = c.cdw14;
      cdw15 = c.cdw15;
      prp1 = c.prp1;
      prp2 = c.prp2;
    }

-- The loop over the indices; a slot whose read faults is left out.
unfoldable pub read_slots {ℓ κ} :
    {A : Type ℓ} {B : Type κ} → (ℕ → Option A) → (ℕ → A → B) → List ℕ → List B
read_slots ring build [] = []
read_slots ring build (i ∷ is) = elim (ring i) [
  | none ↦ read_slots ring build is
  | some a ↦ build i a ∷ read_slots ring build is
]

unfoldable pub get_queue_entries :
    Kernel → Text → ℤ → ℤ → Bool → Result QueryError (List QueueEntry)
get_queue_entries k device qid limit around_doorbell = do
  disk ← lookup_device k device
  n ← check_qid disk.ctrl qid
  let q = disk.ctrl.queues n
  ok (
      read_slots q.sq_cmds (queue_entry (n == 0))
        (entry_indices q.sq_tail q.q_depth limit around_doorbell))

abbrev pub result_value : CqeResult → ℕ
result_value (u32 n) = n
result_value (u16 n) = n

unfoldable pub completion_entry : ℕ → Completion → CompletionEntry
completion_entry i c = record {
  index = i;
  command_id = c.command_id;
  sq_id = c.sq_id;
  sq_head = c.sq_head;
  status_raw = c.status;
  phase = to_bool (bits (pos c.status) 0 1);
  status_code = bits (pos c.status) 1 8;
  status_code_type = bits (pos c.status) 9 3;
  result = result_value c.result;
}

unfoldable pub get_completion_entries :
    Kernel → Text → ℤ → ℤ → Bool → Result QueryError (List CompletionEntry)
get_completion_entries k device qid limit around_doorbell = do
  disk ← lookup_device k device
  n ← check_qid disk.ctrl qid
  let q = disk.ctrl.queues n
  ok (read_slots q.cqes completion_entry (entry_indices q.cq_head q.q_depth limit around_doorbell))
