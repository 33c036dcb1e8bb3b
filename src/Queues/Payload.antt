-- ===== src/Queues/Payload.antt =====
-- services/queues/service.py: `_resolve_total_len` and `get_prp_payload`.
use telemetryd.Base.{
  ℕ, ◌+◌, ◌*◌, ◌/◌, ◌%◌, ◌^◌, ℤ, Bool, true, false, ◌&&◌, ◌||◌, not, Option, none, some, List, [],
  ◌∷◌, ◌++◌, range, ltb, ◌==◌, if◌then◌else◌, Text, codes, decimal, Result, ok, ◌>>=◌,
}
use telemetryd.Models.Queues.{PrpPayload}
use telemetryd.NvmeConst.{page_size, to_bool}
use telemetryd.Queues.Decode.{decode_prp_pages}
use telemetryd.Queues.Kernel.{Command, Request, Disk, Kernel}
use telemetryd.Queues.Service.{QueryError, lookup_device, check_qid, hctx_of, psdt}

-- `int(rq.tag) != cid`, and for an I/O queue a request of another hardware context or of none.
abbrev pub hctx_fits : Option ℕ → Option ℕ → Bool
hctx_fits none h = true
hctx_fits (some i) none = false
hctx_fits (some i) (some j) = i == j

abbrev pub request_fits : Option ℕ → ℕ → Request → Bool
request_fits hctx_index cid rq = rq.tag == cid && hctx_fits hctx_index rq.hctx

abbrev pub rq_bytes_note : Text
rq_bytes_note = codes "iod.total_len 없음 → blk_rq_bytes로 대체"

-- The first request that fits decides; where both of its reads raise, the outer handler goes on.
in_flight_len : Option ℕ → Option ℕ → Option (ℕ × Option Text)
in_flight_len (some n) b = some (n, none)
in_flight_len none (some b) = some (b, some rq_bytes_note)
in_flight_len none none = none

unfoldable pub find_in_flight : Option ℕ → ℕ → List Request → Option (ℕ × Option Text)
unfolding in_flight_len
find_in_flight hctx_index cid [] = none
find_in_flight hctx_index cid (rq ∷ rqs) =
    let rest = find_in_flight hctx_index cid rqs in
    if request_fits hctx_index cid rq then in_flight_len rq.total_len rq.rq_bytes else rest

abbrev pub nlb_note : Text
nlb_note = codes "요청을 blk-mq에서 못 찾음(이미 완료됐을 수 있음) → cdw12(NLB)*512B 추정"

abbrev pub unknown_note : Text
unknown_note = codes "총 전송 길이를 알 수 없음(비-R/W/identify/get_log 커맨드이며 in-flight 요청도 못 찾음)"

abbrev pub nlb_of : Command → ℕ
nlb_of cmd = elim cmd.rw_length [ none ↦ cmd.cdw12 % 2 ^ 16 | some n ↦ n ]

-- The number of dwords of a Get Log Page command: NUMDU from cdw11, NUMDL from cdw10.
abbrev pub log_dwords : Command → ℕ
log_dwords cmd = cmd.cdw11 % 2 ^ 16 * 2 ^ 16 + cmd.cdw10 / 2 ^ 16 % 2 ^ 16 + 1

-- The length that the command itself tells.
unfoldable pub len_of_command : Command → Bool → ℕ × Option Text
len_of_command cmd is_admin =
    if not is_admin && (cmd.opcode == 1 || cmd.opcode == 2)
    then ((nlb_of cmd + 1) * 512, some nlb_note)
    else if is_admin && cmd.opcode == 6
    then (page_size, none)
    else if is_admin && cmd.opcode == 2
    then (log_dwords cmd * 4, none)
    else (0, some unknown_note)

unfoldable pub resolve_total_len : Disk → ℕ → ℕ → Command → Bool → ℕ × Option Text
unfolding find_in_flight len_of_command
resolve_total_len disk qid cid cmd is_admin =
    elim (find_in_flight (hctx_of qid) cid disk.driver_busy) [
      | none ↦ len_of_command cmd is_admin
      | some r ↦ r
    ]

-- The scan of the ring for the command with this id; a slot whose read faults is skipped.
unfoldable pub find_command : (ℕ → Option Command) → ℕ → List ℕ → Option Command
find_command sq cid [] = none
find_command sq cid (i ∷ is) = elim (sq i) [
  | none ↦ find_command sq cid is
  | some c ↦ let rest = find_command sq cid is in if c.command_id == cid then some c else rest
]

abbrev pub not_found_note : ℕ → ℕ → Text
not_found_note cid depth =
    codes "SQ 링에서 cid="
    ++ (decimal cid ++ (codes " 를 찾지 못함 (큐 depth=" ++ (decimal depth ++ codes ")")))

abbrev pub iommu_note : Text
iommu_note =
    codes "IOMMU가 켜져 있어 PRP 페이로드를 덤프하지 않았다 — PRP1/PRP2가 "
    ++ (codes "물리주소가 아니라 IOVA라서 그대로 읽으면 엉뚱한 메모리를 읽는다. "
        ++ (codes "덤프가 필요하면 커널 부팅 옵션에서 IOMMU를 끄거나"
            ++ (codes "(intel_iommu=off / amd_iommu=off), IOVA->물리 변환을 거쳐야 한다. "
                ++ codes "CDW/큐 상태 등 나머지 기능은 IOMMU와 무관하게 정상 동작한다.")))

-- The answer for a command that was found.
unfoldable pub payload_of : Kernel → Text → Disk → ℕ → ℕ → Command → PrpPayload
payload_of k device disk qid cid cmd =
    let (total_len, note) = resolve_total_len disk qid cid cmd (qid == 0) in
    if to_bool (psdt cmd.flags)
    then record {
      device = device;
      qid = qid;
      cid = cid;
      uses_sgl = true;
      total_len = 0;
      pages = [];
      error = none;
    }
    else if k.iommu
    then record {
      device = device;
      qid = qid;
      cid = cid;
      uses_sgl = false;
      total_len = total_len;
      pages = [];
      error = some iommu_note;
    }
    else record {
      device = device;
      qid = qid;
      cid = cid;
      uses_sgl = false;
      total_len = total_len;
      pages = if ltb 0 total_len then decode_prp_pages k.memory cmd.prp1 cmd.prp2 total_len else [];
      error = note;
    }

unfoldable pub no_command : Text → ℕ → ℕ → ℕ → PrpPayload
no_command device qid cid depth = record {
  device = device;
  qid = qid;
  cid = cid;
  uses_sgl = false;
  total_len = 0;
  pages = [];
  error = some (not_found_note cid depth);
}

unfoldable pub answer : Kernel → Text → Disk → ℕ → ℕ → Option Command → PrpPayload
answer k device disk qid cid none = no_command device qid cid (disk.ctrl.queues qid).q_depth
answer k device disk qid cid (some cmd) = payload_of k device disk qid cid cmd

unfoldable pub get_prp_payload : Kernel → Text → ℤ → ℕ → Result QueryError PrpPayload
get_prp_payload k device qid cid = do
  disk ← lookup_device k device
  n ← check_qid disk.ctrl qid
  let q = disk.ctrl.queues n
  ok (answer k device disk n cid (find_command q.sq_cmds cid (range q.q_depth)))
