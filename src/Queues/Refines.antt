-- ===== src/Queues/Refines.antt =====
-- `get_prp_payload` against the transfer of the command that it looks up.
use telemetryd.Base.{
  ℕ, zero, suc, ◌+◌, ◌≤◌, ◌<◌, ◌≡◌, ◌≢◌, refl, sym, ◌∙◌, ℤ, pos, negsuc, false, Option, some, take,
  range, range_from, ltb, ◌==◌, Text, ok, raise, arith, inl, inr, Option-cases, Bool-cases, lt→ltb,
}
use telemetryd.Models.Queues.{PrpPayload}
use telemetryd.NvmeConst.{max_page_dump, to_bool}
use telemetryd.Queues.Kernel.{Command, Disk, Kernel}
use telemetryd.Queues.Service.{lookup_device, check_qid, psdt, queue_not_found}
use telemetryd.Queues.Payload.{resolve_total_len, find_command, payload_of, answer, get_prp_payload}
use telemetryd.Queues.Prp.{payload}
use telemetryd.Queues.Flat.{flat}
use telemetryd.Queues.Transfer.{transfer, payload-decode, payload_nil, transfer_zero}

-- The first slot of the ring with the id, in ring order; slots that cannot be read do not count.
pub record IsFirst (sq : ℕ → Option Command) (cid i depth : ℕ) (cmd : Command) : Type 0 where
  pub inside : i < depth
  pub holds : sq i ≡ some cmd
  pub id : cmd.command_id ≡ cid
  pub first : (j : ℕ) (c : Command) → j < i → sq j ≡ some c → c.command_id ≢ cid

find_command_from :
    (sq : ℕ → Option Command) (cid start n i : ℕ) (cmd : Command)
    → start ≤ i
    → i < start + n
    → sq i ≡ some cmd
    → cmd.command_id ≡ cid
    → ((j : ℕ) (c : Command) → start ≤ j → j < i → sq j ≡ some c → c.command_id ≢ cid)
    → find_command sq cid (range_from start n) ≡ some cmd
unfolding find_command
find_command_from sq cid start zero i cmd h k e f before = absurd (omega arith)
find_command_from sq cid start (suc n) i cmd h k e f before = elim (Bool-cases (start == i)) [
  | inl at ↦ let q : start ≡ i = ground arith in rw q (rw e (ground arith))
  | inr past ↦
      let ih =
        find_command_from sq cid (suc start) n i cmd (ground arith) (omega arith) e f
          (λ j c h'. before j c (omega arith)) in
      elim (Option-cases (sq start)) [
        | inl fault ↦ rw fault ih
        | inr (c, read) ↦
            rw read
              (let other = before start c (omega arith) (ground arith) read in ground (arith, ih))
      ]
]

pub find_command-IsFirst :
    (sq : ℕ → Option Command) (cid i depth : ℕ) (cmd : Command)
    → IsFirst sq cid i depth cmd
    → find_command sq cid (range depth) ≡ some cmd
find_command-IsFirst sq cid i depth cmd h =
    find_command_from sq cid 0 depth i cmd (omega arith) (ground arith) h.holds h.id
      (λ j c _. h.first j c)

-- What has to hold for a payload to be shown.
pub record IsShowable (k : Kernel) (device : Text) (disk : Disk) (qid cid i : ℕ) (cmd : Command)
    (f : ℕ → ℕ) : Type 0 where
  pub device_found : lookup_device k device ≡ ok disk
  pub online : qid < disk.ctrl.online_queues
  pub command : IsFirst (disk.ctrl.queues qid).sq_cmds cid i (disk.ctrl.queues qid).q_depth cmd
  pub prp : psdt cmd.flags ≡ 0
  pub pointer : 0 < cmd.prp1
  pub iommu_off : k.iommu ≡ false
  pub reads : (p n : ℕ) → k.memory p n ≡ some (flat f p n)

payload_of-transfer :
    (k : Kernel) (device : Text) (disk : Disk) (qid cid i : ℕ) (cmd : Command) (f : ℕ → ℕ)
    → IsShowable k device disk qid cid i cmd f
    → payload (payload_of k device disk qid cid cmd).pages
      ≡ take max_page_dump
          (transfer f cmd.prp1 cmd.prp2 (resolve_total_len disk qid cid cmd (qid == 0)).0)
unfolding payload_of
payload_of-transfer k device disk qid cid i cmd f h =
    let total = (resolve_total_len disk qid cid cmd (qid == 0)).0 in
    let nothing =
      payload_nil f k.memory h.reads ∙ sym (transfer_zero f k.memory h.reads cmd.prp1 cmd.prp2) in
    let shown = payload-decode f k.memory h.reads cmd.prp1 cmd.prp2 total h.pointer in
    let prp : to_bool (psdt cmd.flags) ≡ false = ground arith in
    rw (prp, h.iommu_off)
      (elim (Bool-cases (ltb 0 total)) [
        | inl some_length ↦ rw some_length shown
        | inr no_length ↦ let e : total ≡ 0 = ground arith in rw no_length (rw e nothing)
      ])

-- For a known device, a queue that is online, and a command of the ring (the first with its id)
-- that uses PRP entries and has a data pointer, with the IOMMU off and memory that can be read:
-- the call returns, and the payload that it shows is the start of the command's transfer, as far
-- as one page, for the length that was resolved.
pub get_prp_payload-transfer :
    (k : Kernel) (device : Text) (disk : Disk) (qid cid i : ℕ) (cmd : Command) (f : ℕ → ℕ)
    → IsShowable k device disk qid cid i cmd f
    → (p : PrpPayload) × (get_prp_payload k device (pos qid) cid ≡ ok p)
      × (payload p.pages
          ≡ take max_page_dump
              (transfer f cmd.prp1 cmd.prp2 (resolve_total_len disk qid cid cmd (qid == 0)).0))
unfolding get_prp_payload check_qid answer
get_prp_payload-transfer k device disk qid cid i cmd f h =
    let q = disk.ctrl.queues qid in
    let search = find_command-IsFirst q.sq_cmds cid i q.q_depth cmd h.command in
    (
      payload_of k device disk qid cid cmd,
      rw h.device_found (rw (lt→ltb _ _ h.online) (rw search refl)),
      payload_of-transfer k device disk qid cid i cmd f h,
    )

-- A queue that is not online, or a negative number, is reported as such for a known device.
pub get_prp_payload-offline :
    (k : Kernel) (device : Text) (disk : Disk) (qid : ℤ) (cid : ℕ)
    → lookup_device k device ≡ ok disk
    → ((n : ℕ) → qid ≡ pos n → disk.ctrl.online_queues ≤ n)
    → get_prp_payload k device qid cid ≡ raise (queue_not_found qid)
unfolding get_prp_payload check_qid
get_prp_payload-offline k device disk (pos n) cid found off =
    rw found (let le = off n refl in ground arith)
get_prp_payload-offline k device disk (negsuc n) cid found off = rw found
