-- ===== src/Events/Stats.antt =====
-- backend/ebpf_error_events.py: `_parse_err_counts` and `read_error_stats`. `repr` is Python's.
pub mod Latest
use telemetryd.Base.{
  ℕ, zero, suc, ◌+◌, ℤ, pos, negsuc, int_ltb, int_eq, Bool, true, false, ◌&&◌, ◌||◌, Option, none,
  some, List, [], ◌∷◌, ◌++◌, map, Text, codes, ◌==◌, ltb, if◌then◌else◌, select, Dict, get, put,
  int_keys, pair_keys, Eq, sort_by, sum,
}
use telemetryd.Names.{match_device}
use telemetryd.NvmeConst.{sct_name_ℤ, sc_name_ℤ}
use telemetryd.Platform.LogFile.{
  Bytes, Decoder, FileLogSource, SourceArgument, as_log_source, available, read_tail, cons_line,
}
use telemetryd.Models.Events.{ErrorStatusCount, DeviceErrorStats}
use telemetryd.Events.Pattern.{Item, lit, natural, integer, spaces, match_line, group, natural_of}

-- `_ERR_COUNT_RE`
abbrev pub err_count_items : List Item
err_count_items =
    lit (codes "@err_count[")
    ∷ integer
    ∷ lit (codes ",")
    ∷ spaces
    ∷ integer
    ∷ lit (codes ",")
    ∷ spaces
    ∷ integer
    ∷ lit (codes "]:")
    ∷ spaces
    ∷ natural
    ∷ []

-- `_TAIL_BYTES`
abbrev pub tail_bytes : ℕ
tail_bytes = 524288

-- The characters at which `str.splitlines` parts lines.
abbrev pub is_line_break : ℕ → Bool
is_line_break c =
    c == 10
    || c == 11
    || c == 12
    || c == 13
    || c == 28
    || c == 29
    || c == 30
    || c == 0x85
    || c == 0x2028
    || c == 0x2029

abbrev pub begins_with_newline : Text → Bool
begins_with_newline [] = false
begins_with_newline (c ∷ cs) = c == 10

-- `text.splitlines()`: no empty line behind the last break, and `\r\n` is one break.
unfoldable pub splitlines : Text → List Text
unfolding cons_line
splitlines [] = []
splitlines (c ∷ cs) =
    let rest = splitlines cs in
    if c == 13 && begins_with_newline cs
    then rest
    else (if is_line_break c then [] ∷ rest else cons_line c rest)

-- A controller's number, the status code type and the status code.
abbrev pub CountKey : Type 0
CountKey = ℤ × (ℤ × ℤ)

abbrev pub key_of : List ℤ → CountKey
key_of m = (group m 0, (group m 1, group m 2))

-- The key and the value of a line of the map.
unfoldable pub parse_count : Text → Option (CountKey × ℕ)
parse_count line = elim (match_line err_count_items line) [
  | none ↦ none
  | some m ↦ some (key_of m, natural_of (group m 3))
]

unfoldable pub count_line : Dict CountKey ℕ → Option (CountKey × ℕ) → Dict CountKey ℕ
count_line counts none = counts
count_line counts (some (key, n)) = put counts key n

unfoldable pub count_lines : Dict CountKey ℕ → List Text → Dict CountKey ℕ
count_lines counts [] = counts
count_lines counts (line ∷ lines) = count_lines (count_line counts (parse_count line)) lines

-- `_parse_err_counts`
unfoldable pub parse_err_counts : Text → Dict CountKey ℕ
parse_err_counts text = count_lines [] (splitlines text)

-- `key=lambda r: (-r.count, r.sct, r.sc)`
abbrev pub row_lt : ErrorStatusCount → ErrorStatusCount → Bool
row_lt a b =
    ltb b.count a.count
    || a.count == b.count && (int_ltb a.sct b.sct || int_eq a.sct b.sct && int_ltb a.sc b.sc)

abbrev pub row_of : CountKey × ℕ → ErrorStatusCount
row_of ((ctrl, (sct, sc)), n) = record {
  sct = sct;
  sc = sc;
  sct_name = sct_name_ℤ sct;
  sc_name = sc_name_ℤ sct sc;
  count = n;
}

abbrev pub is_of : ℕ → CountKey × ℕ → Bool
is_of instance_number (key, n) = int_eq key.0 (pos instance_number)

unfoldable pub sorted_rows : Dict CountKey ℕ → ℕ → List ErrorStatusCount
sorted_rows counts instance_number =
    sort_by row_lt (map row_of (select (is_of instance_number) counts))

abbrev pub unavailable : Text → Text → DeviceErrorStats
unavailable device message = record {
  device = device;
  counts = [];
  total = 0;
  available = false;
  error = some message;
}

unfoldable pub report : Text → Text → ℕ → DeviceErrorStats
report device tail instance_number =
    let rows = sorted_rows (parse_err_counts tail) instance_number in
    record {
      device = device;
      counts = rows;
      total = sum (map (λ r. r.count) rows);
      available = true;
      error = none;
    }

-- `exists`, `size` and `content` are what the file system answers of the log.
unfoldable pub read_error_stats :
    (Text → Text)
    → Decoder
    → SourceArgument
    → Text
    → Bool
    → Option ℕ
    → Option Bytes
    → DeviceErrorStats
read_error_stats repr decode log_path device exists size content = elim (match_device device) [
  | none ↦ unavailable device (codes "디바이스 이름 형식이 아님: " ++ repr device)
  | some instance_number ↦
      if available (as_log_source log_path) exists
      then report device (read_tail decode (as_log_source log_path) tail_bytes size content)
          instance_number
      else unavailable device (
          codes
            "eBPF 수집기 로그 없음 — nvme_perf.bt가 안 떠 있음 (DESIGN.md §9.6 참고: chroot로 게스트에서 bpftrace 실행 필요)")
]
