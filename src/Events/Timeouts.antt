-- ===== src/Events/Timeouts.antt =====
-- backend/ebpf_timeout_events.py: a `TIMEOUT_EVENT` line and its event. `one_decimal n d` is
-- Python's `f"{n / d:.1f}"`.
use telemetryd.Base.{
  ℕ, ℤ, is_zero, Option, none, some, List, [], ◌∷◌, ◌++◌, Text, codes, decimal_ℤ, hex_pad_ℤ, leb,
  if◌then◌else◌,
}
use telemetryd.NvmeConst.{opcode_name}
use telemetryd.Models.Events.{TimeoutEventDetail, NvmeEvent}
use telemetryd.Events.Pattern.{Item, lit, natural, integer, match_line, group, natural_of}

abbrev pub timeout_kind : Text
timeout_kind = codes "timeout"

-- `_EVENT_RE` behind its first literal.
abbrev pub timeout_fields : List Item
timeout_fields =
    natural
    ∷ lit (codes " ctrl=")
    ∷ integer
    ∷ lit (codes " qid=")
    ∷ integer
    ∷ lit (codes " tag=")
    ∷ integer
    ∷ lit (codes " opcode=")
    ∷ integer
    ∷ lit (codes " nsid=")
    ∷ integer
    ∷ lit (codes " flags=")
    ∷ integer
    ∷ lit (codes " cdw10=")
    ∷ natural
    ∷ lit (codes " cdw11=")
    ∷ natural
    ∷ lit (codes " cdw12=")
    ∷ natural
    ∷ lit (codes " cdw13=")
    ∷ natural
    ∷ lit (codes " cdw14=")
    ∷ natural
    ∷ lit (codes " cdw15=")
    ∷ natural
    ∷ lit (codes " elapsed_ns=")
    ∷ natural
    ∷ []

-- `_EVENT_RE`
abbrev pub timeout_items : List Item
timeout_items = lit (codes "TIMEOUT_EVENT ts_ns=") ∷ timeout_fields

-- From a second on in seconds, below in milliseconds.
unfoldable pub elapsed_text : (ℕ → ℕ → Text) → ℕ → Text
elapsed_text one_decimal ns =
    if leb 1000000000 ns
    then one_decimal ns 1000000000 ++ codes "s"
    else one_decimal ns 1000000 ++ codes "ms"

unfoldable pub timeout_summary : (ℕ → ℕ → Text) → TimeoutEventDetail → ℤ → Text
timeout_summary one_decimal d qid =
    d.opcode_name
    ++ (codes "(0x"
        ++ (hex_pad_ℤ 2 d.opcode
            ++ (codes ") 커맨드가 "
                ++ (elapsed_text one_decimal d.elapsed_ns
                    ++ (codes " 동안 완료되지 않음 (qid="
                        ++ (decimal_ℤ qid
                            ++ (codes ", tag="
                                ++ (decimal_ℤ d.tag
                                    ++ (codes ", nsid=" ++ (decimal_ℤ d.nsid ++ codes ")"))))))))))

unfoldable pub timeout_detail : List ℤ → TimeoutEventDetail
timeout_detail m = record {
  tag = group m 3;
  opcode = group m 4;
  opcode_name = opcode_name (group m 4) (is_zero (group m 2));
  nsid = group m 5;
  flags = group m 6;
  cdw10 = group m 7;
  cdw11 = group m 8;
  cdw12 = group m 9;
  cdw13 = group m 10;
  cdw14 = group m 11;
  cdw15 = group m 12;
  elapsed_ns = natural_of (group m 13);
}

unfoldable pub timeout_event : (ℕ → ℕ → Text) → ℕ → List ℤ → NvmeEvent
timeout_event one_decimal now m = record {
  kind = timeout_kind;
  observed_at = now;
  device = codes "nvme" ++ decimal_ℤ (group m 1);
  qid = group m 2;
  summary = timeout_summary one_decimal (timeout_detail m) (group m 2);
  timeout = some (timeout_detail m);
  error = none;
}

-- `_parse_line`
unfoldable pub parse_timeout_line : (ℕ → ℕ → Text) → ℕ → Text → Option NvmeEvent
unfolding timeout_event
parse_timeout_line one_decimal now line = elim (match_line timeout_items line) [
  | none ↦ none
  | some m ↦ some (timeout_event one_decimal now m)
]
