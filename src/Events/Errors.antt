-- ===== src/Events/Errors.antt =====
-- backend/ebpf_error_events.py: an `ERROR_EVENT` line and its event.
use telemetryd.Base.{
  ℕ, ℤ, pos, bits, is_zero, Bool, ◌&&◌, ◌||◌, not, Option, none, some, List, [], ◌∷◌, ◌++◌, Text,
  codes, decimal, decimal_ℤ, hex_pad, hex_pad_ℤ, ◌==◌, if◌then◌else◌,
}
use telemetryd.NvmeConst.{opcode_name, decode_status}
use telemetryd.Models.Events.{ErrorEventDetail, NvmeEvent}
use telemetryd.Events.Pattern.{Item, lit, natural, integer, match_line, group, natural_of}

abbrev pub error_kind : Text
error_kind = codes "error"

-- `_EVENT_RE` behind its first literal.
abbrev pub error_fields : List Item
error_fields =
    natural
    ∷ lit (codes " ctrl=")
    ∷ integer
    ∷ lit (codes " qid=")
    ∷ integer
    ∷ lit (codes " cid=")
    ∷ integer
    ∷ lit (codes " tag=")
    ∷ integer
    ∷ lit (codes " opcode=")
    ∷ integer
    ∷ lit (codes " nsid=")
    ∷ integer
    ∷ lit (codes " status=")
    ∷ integer
    ∷ lit (codes " sct=")
    ∷ integer
    ∷ lit (codes " sc=")
    ∷ integer
    ∷ lit (codes " dnr=")
    ∷ integer
    ∷ lit (codes " more=")
    ∷ integer
    ∷ lit (codes " crd=")
    ∷ integer
    ∷ lit (codes " slba=")
    ∷ natural
    ∷ lit (codes " nlb=")
    ∷ integer
    ∷ lit (codes " retries=")
    ∷ integer
    ∷ lit (codes " cached=")
    ∷ integer
    ∷ lit (codes " elapsed_ns=")
    ∷ natural
    ∷ []

-- `_EVENT_RE`
abbrev pub error_items : List Item
error_items = lit (codes "ERROR_EVENT ts_ns=") ∷ error_fields

-- `opcode in _LBA_OPCODES`: write and read.
abbrev pub is_lba_opcode : ℕ → Bool
is_lba_opcode opcode = opcode == 0x01 || opcode == 0x02

where_text : ErrorEventDetail → Text
where_text d =
    if d.lba_valid
    then codes ", LBA " ++ (decimal_ℤ d.slba ++ (codes "+" ++ decimal_ℤ d.nlb))
    else []

nsid_text : ℕ → Text
nsid_text nsid = if nsid == 0xFFFFFFFF then codes "0xFFFFFFFF(broadcast)" else decimal nsid

retried_text : ℤ → Text
retried_text retries =
    if is_zero retries then [] else codes ", 재시도 " ++ (decimal_ℤ retries ++ codes "회")

unfoldable pub error_summary : ErrorEventDetail → ℤ → Text
unfolding where_text nsid_text retried_text
error_summary d qid =
    d.opcode_name
    ++ (codes "(0x"
        ++ (hex_pad 2 d.opcode
            ++ (codes ") 실패 — "
                ++ (d.sct_name
                    ++ (codes "/"
                        ++ (d.sc_name
                            ++ (codes " (status=0x"
                                ++ (hex_pad_ℤ 4 d.status
                                    ++ (codes ")"
                                        ++ ((if d.dnr then codes ", DNR(재시도 불가)" else [])
                                            ++ (retried_text d.retries
                                                ++ (codes " (qid="
                                                    ++ (decimal_ℤ qid
                                                        ++ (codes ", cid="
                                                            ++ (decimal_ℤ d.cid
                                                            ++ (codes ", nsid="
                                                            ++ (nsid_text d.nsid
                                                            ++ (where_text d
                                                            ++ codes ")"))))))))))))))))))

-- The detail of the groups of a line. The kernel's unsigned fields were printed as signed numbers
-- and are masked; the status is decoded again.
unfoldable pub error_detail : List ℤ → ErrorEventDetail
error_detail m =
    let qid = group m 2 in
    let opcode = bits (group m 5) 0 8 in
    let cached = not (is_zero (group m 16)) in
    let decoded = decode_status (group m 7) in
    record {
      cid = group m 3;
      tag = group m 4;
      opcode = opcode;
      opcode_name = if cached then opcode_name (pos opcode) (is_zero qid) else codes "미상";
      nsid = bits (group m 6) 0 32;
      status = group m 7;
      sct = decoded.sct;
      sc = decoded.sc;
      sct_name = decoded.sct_text;
      sc_name = decoded.sc_text;
      dnr = decoded.dnr;
      more = decoded.more;
      crd = decoded.crd;
      retries = group m 15;
      slba = group m 13;
      nlb = group m 14;
      lba_valid = cached && not (is_zero qid) && is_lba_opcode opcode;
      submit_cached = cached;
      elapsed_ns = natural_of (group m 17);
    }

-- `now` is `time.time()`.
unfoldable pub error_event : ℕ → List ℤ → NvmeEvent
error_event now m = record {
  kind = error_kind;
  observed_at = now;
  device = codes "nvme" ++ decimal_ℤ (group m 1);
  qid = group m 2;
  summary = error_summary (error_detail m) (group m 2);
  timeout = none;
  error = some (error_detail m);
}

-- `_parse_line`
unfoldable pub parse_error_line : ℕ → Text → Option NvmeEvent
unfolding error_event
parse_error_line now line = elim (match_line error_items line) [
  | none ↦ none
  | some m ↦ some (error_event now m)
]
